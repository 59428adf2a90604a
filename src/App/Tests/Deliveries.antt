-- ===== src/App/Tests/Deliveries.antt =====
-- Examples of the theorems about deliveries and about what the readers send.
use relaybox.Prelude.{◌≡◌, refl, arith, Text, codes, All, some, [], ◌∷◌, true, false, inr}
use relaybox.Map.{TextSet}
use relaybox.Prelude.Try.{good}
use relaybox.Store.Model.{Attempt, Event}
use relaybox.Store.State.{Store}
use relaybox.Store.Accept.{discoverable_job}
use relaybox.Store.Tests.{disk, env, hook, empty, one, runs, capture}
use relaybox.App.Headers.{redact_with_policy, sanitize_request}
use relaybox.App.Target.{validate_target}
use relaybox.App.Tests.Gates.{crypto, parse_url, parse_addr}
use relaybox.App.Ingest.{
  new_job, Outside, Config, Moment, Delivery, answered, ingest, ingest_runs, job_waits,
  delivery_error, job_for, capture_of, respond,
}
use relaybox.App.Auth.{verify}
use relaybox.App.Ingest.Stored.{IsIngested, ingest-IsIngested}
use relaybox.App.Ingest.Again.{IsForwardable, ingest-again}
use relaybox.App.Read.{show, show_runs, sent_live}
use relaybox.App.Read.Safe.{IsClean, show-IsClean, IsIncreasing, sent_live-IsIncreasing}

abbrev outside : Outside
outside = record { crypto = crypto; parse_url = parse_url; parse_addr = parse_addr }

abbrev config : Config
config = record {
  secret = [];
  forward_url = codes "https://a.example";
  allow_private = true;
  max_body = 10;
  max_in_flight = 1;
  sensitive = [];
}

abbrev moment_with : Text → Text → Moment
moment_with first second = record {
  accepting = true;
  in_flight = 0;
  now = 5;
  job_now = 5;
  first_id = some first;
  second_id = some second;
  disk = disk;
}

abbrev delivery : Delivery
delivery = record {
  method = codes "POST";
  path = codes "/inbox";
  remote_addr = [];
  delivery_id = codes "d";
  signature = [];
  headers = [];
  body = codes "{}";
  broken = false;
}

abbrev first : Moment
first = moment_with (codes "r") (codes "j")

abbrev later : Moment
later = moment_with (codes "q") (codes "k")

abbrev captured_store : Store
captured_store = (ingest env outside config first delivery empty).store

is_captured :
    (ingest env outside config first delivery empty).response ≡ answered 202 (codes "r") false
unfolding runs ingest_runs delivery_error job_for capture_of respond validate_target
    redact_with_policy verify
is_captured = refl

ingest-IsIngested_example :
    IsIngested env outside config first delivery (codes "r") empty captured_store
ingest-IsIngested_example =
    ingest-IsIngested env outside config first delivery empty (codes "r") is_captured

has_job :
    discoverable_job captured_store.tables (codes "r")
    ≡ some (new_job (codes "j") (codes "r") (codes "https://a.example") 5)
unfolding runs ingest_runs delivery_error job_for capture_of respond validate_target
    redact_with_policy verify
has_job = refl

forwardable : IsForwardable config captured_store (codes "r")
unfolding IsForwardable
forwardable = inr (new_job (codes "j") (codes "r") (codes "https://a.example") 5, has_job)

ingest-again_example : ingest env outside config later delivery captured_store ≡ record {
  response = answered 200 (codes "r") true;
  store = captured_store;
  wakes = job_waits (discoverable_job captured_store.tables (codes "r"));
}
ingest-again_example =
    ingest-again env outside config first later delivery empty (codes "r") (codes "q") (codes "k")
      is_captured refl (omega arith) refl refl refl forwardable

abbrev hidden : TextSet
hidden = (codes "x-mine", tt) ∷ []

shows : (show env hidden (codes "r") one).0 ≡ good (sanitize_request hidden hook, [])
unfolding runs show_runs
shows = refl

show-IsClean_example :
    IsClean hidden (sanitize_request hidden hook).headers
    × All (λ (a : Attempt). IsClean hidden a.response_headers) []
show-IsClean_example =
    show-IsClean env hidden (codes "r") one (sanitize_request hidden hook) [] shows

abbrev third : Event
third = record capture { seq = 3 }

sent_live-IsIncreasing_example : IsIncreasing 2 (sent_live hidden 2 (capture ∷ third ∷ third ∷ []))
sent_live-IsIncreasing_example = sent_live-IsIncreasing hidden 2 (capture ∷ third ∷ third ∷ [])
