-- ===== src/App/Tests.antt =====
-- Examples of the theorems about forwarding and headers.
mod Gates
mod Deliveries
use relaybox.Prelude.{
  ℕ, ◌+◌, ◌≡◌, ◌<◌, refl, arith, Text, Bytes, All, codes, Option, none, some, List, [], ◌∷◌, ◌==◌,
  true, false, ℤ, pos, select, to_lower, trim_space, trim_left, trim_right, contains, is_prefix,
}
use relaybox.Map.{TextSet, get, put, delete}
use relaybox.Map.Size.{IsUnique}
use relaybox.Store.Model.{Header, Job, State, succeeded}
use relaybox.Store.Errors.{Error, ok}
use relaybox.Store.Queries.{load}
use relaybox.Store.Jobs.{held_job, lease_to, next_number}
use relaybox.Store.Tables.{get_list}
use relaybox.Store.State.{Store}
use relaybox.Store.Subscribe.{attempts_for_job, max_numbers}
use relaybox.Store.Tests.{
  disk, env, hook, two, lent, first_job, lent-IsSound, finished, runs, job_of, one, empty,
}
use relaybox.App.Retry.{verdict, retry_status, parse_retry, delay}
use relaybox.App.Forward.{
  Settings, World, Outgoing, Response, Reply, Forwarded, outgoing, learn, try_once, attempt_of,
  verdict_of, record_learnt, forward, Learnt, sent_to, is_retrying,
}
use relaybox.App.Forward.Settled.{IsSettled, forward-IsSettled}
use relaybox.App.Forward.Numbers.{IsFiled, attempts_for_job-next}
use relaybox.App.Retry.Bounds.{IsVerdict, verdict-IsVerdict}
use relaybox.App.Headers.{
  forward_headers, dropped_names, sensitive_header, sensitive_lower, redact_with_policy,
}
use relaybox.App.Headers.Forwarded.{IsForwardable, forward_headers-IsForwardable}
use relaybox.App.Headers.Redacted.{forward-redact}

abbrev settings : Settings
settings = record { attempts = 3; max_backoff = 100; authorization = []; sensitive = [] }

abbrev accepted : Reply
accepted = record {
  error = none;
  response = some (record { status = 204; headers = []; body = codes "ok" });
}

-- A receiver that answers every request with 204, and no one else at work.
abbrev world : World
world = record {
  new_id = some (codes "t");
  url_error = λ u. none;
  do_request = λ o. accepted;
  parse_time = λ t. none;
  backoff = λ j n. pos 7;
  meanwhile = λ s. s;
  disk = disk;
  started = 11;
  answered = 12;
  finished = 12;
  clock = 12;
}

loads_lent : load env (codes "r") lent ≡ (ok (some (hook, [])), lent)
unfolding runs
loads_lent = refl

abbrev number : ℕ
number = attempts_for_job (codes "k") lent + 1

abbrev answer : Learnt
answer = try_once settings world (outgoing settings hook first_job)

abbrev sent_store : Store
sent_store =
    (record_learnt env settings world (codes "a") first_job hook (codes "t") number answer lent).1

takes :
    record_learnt env settings world (codes "a") first_job hook (codes "t") number answer lent
    ≡ (none, sent_store)
unfolding runs record_learnt verdict_of attempt_of try_once learn outgoing verdict parse_retry
    attempts_for_job max_numbers
takes = refl

forward-IsSettled_example :
    (forward env settings world (codes "a") first_job lent ≡ record {
      store = sent_store;
      sent = sent_to world (outgoing settings hook first_job);
      wakes = is_retrying (verdict_of settings world first_job number answer).state;
    })
    × IsSettled settings world
        (codes "k")
        number
        (verdict_of settings world first_job number answer).state
        sent_store
unfolding lease_to
forward-IsSettled_example =
    forward-IsSettled env settings world (codes "a") first_job hook [] (codes "t") lent lent
      loads_lent refl lent-IsSound sent_store takes

attempts-IsUnique : IsUnique finished.attempts
unfolding runs
attempts-IsUnique = (refl, tt)

attempts-IsFiled : IsFiled (codes "k") (codes "r") finished.attempts
unfolding runs IsFiled
attempts-IsFiled = ((λ apart. absurd (apart refl)), tt)

attempts_for_job-next_example :
    attempts_for_job (codes "k") finished + 1
    ≡ next_number (codes "k") (get_list (codes "r") finished.attempts) 1
attempts_for_job-next_example =
    attempts_for_job-next (codes "k") (codes "r") finished attempts-IsUnique attempts-IsFiled

verdict-IsVerdict_example :
    IsVerdict 3 100 2 false 503 50
      (verdict 3 100 2 false 503 (some 900) (pos 7) 50).state
      (verdict 3 100 2 false 503 (some 900) (pos 7) 50).available_at
verdict-IsVerdict_example = verdict-IsVerdict 3 100 2 false 503 (some 900) (pos 7) 50

abbrev policy : TextSet
policy = (codes "x-mine", tt) ∷ []

abbrev delivered : Header
delivered =
    (codes "X-Mine", codes "1" ∷ [])
    ∷ (codes "Connection", codes "x-hop" ∷ [])
    ∷ (codes "X-Hop", codes "2" ∷ [])
    ∷ (codes "X-Event", codes "push" ∷ [])
    ∷ []

forward_headers-IsForwardable_example :
    All (IsForwardable policy delivered) (forward_headers delivered policy)
forward_headers-IsForwardable_example = forward_headers-IsForwardable delivered policy

connection_open : sensitive_header (codes "Connection") policy ≡ false
unfolding sensitive_header sensitive_lower get to_lower trim_space trim_left trim_right contains
    is_prefix ◌==◌ select
connection_open = refl

forward-redact_example :
    forward_headers (redact_with_policy policy delivered) policy ≡ forward_headers delivered policy
forward-redact_example = forward-redact policy delivered connection_open
