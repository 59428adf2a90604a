-- ===== src/Store/Tests.antt =====
-- A small store for the theorems about the store to be applied to: one capture with two jobs.
mod Log
mod Work
mod Captures
mod Old
mod Evictions
use relaybox.Prelude.{
  pos, negsuc, ℕ, ◌+◌, ◌<◌, ◌≤◌, ◌≡◌, ◌≢◌, refl, arith, Text, Bytes, All, codes, Option, none, some,
  List, [], ◌∷◌, ◌==◌, ltb, leb, nat_eq, length, take, select, map, is_empty, true, ◌-◌, ◌⊎◌, ◌^◌,
  ◌%◌, ◌++◌, ap, sym, false,
}
use relaybox.Prelude.Sort.{insert, sort}
use relaybox.Map.{get, put, delete, has, values, keys}
use relaybox.Store.Model.{
  Request, Attempt, Job, State, pending, leased, retrying, succeeded, Event, capture_accepted,
  captured, forward, blank_event, terminal_state, state_eq,
}
use relaybox.Store.Errors.{Error, Result, ok, err, ◌>>=◌, ◌>>◌}
use relaybox.Store.Env.{Env, IsExact, newline}
use relaybox.Store.Options.{Options, RawOptions, with_defaults, IsUsable, with_defaults-IsUsable}
use relaybox.Store.Tables.{Tables, no_tables, job_at, job_ids}
use relaybox.Store.State.{Store, Disk}
use relaybox.Store.Validate.{
  validate_request_digest, validate_attempt, validate_recovered_event, validate_state,
}
use relaybox.Store.Apply.{
  lower, encoded_size, trim_ring, append_ring, remove_job, remove_request, apply_rows, apply,
}
use relaybox.Store.Apply.Sound.{IsSound, no_tables-IsSound}
use relaybox.Store.Append.{append, append_runs, stamp}
use relaybox.Store.Append.Effect.{append-IsSound}
use relaybox.Store.Append.Durable.{IsDurable}
use relaybox.Store.Append.Recovery.{append-IsDurable, append-recovers}
use relaybox.Store.Recover.{start, scan, opened}
use relaybox.Store.Accept.{
  Answer, accept, accept_runs, find_duplicate, discoverable_job, request_terminal, candidates,
  capture_evictions,
}
use relaybox.Store.Compact.{read_event_at, stored_response}
use relaybox.Store.Queries.{load, load_runs}
use relaybox.Store.Jobs.{
  enqueue, job_event, job_evictions, finish_without_attempt, claimable, eligible, lease_to,
  claim_next_job, held_job, next_number, settle_job, record_attempt, job_runs,
}
use relaybox.Store.Jobs.Leases.{
  IsClaim, claim_next_job-IsClaim, claim_next_job-IsSound, claim-exclusive,
}
use relaybox.Store.Jobs.Attempts.{IsRecorded, record_attempt-IsRecorded}
use relaybox.Store.Jobs.Terminal.{call, claim, call-keeps_terminal}
use relaybox.Store.Append.Durable.{recover-torn}
use relaybox.Store.Append.Outcome.{line_ref}
use relaybox.Store.Recover.{recover}
use relaybox.Store.Subscribe.{subscribe_from}
use relaybox.Store.Subscribe.CatchUp.{subscribe_from_complete, oversized_event_lost}
use relaybox.Store.Apply.Added.{apply-IsSound}
use relaybox.Store.Tables.{RecordRef}

abbrev pub options : Options
options = record {
  max_captures = 2;
  max_events = 100;
  max_jobs_per_request = 2;
  max_attempts_per_job = 3;
  max_search_bytes = 8;
  max_search_scan = 2;
  max_catch_up_events = 4;
  max_catch_up_bytes = 8;
  subscriber_backlog = 1;
}

-- A disk that does what it is asked, for lines of two bytes.
abbrev pub disk : Disk
disk = record {
  clock = 5;
  before_write = none;
  seek_error = none;
  written = 2;
  write_error = none;
  before_sync = none;
  sync_error = none;
  compaction = record { before_rename = none; after_rename = none; close_old = none };
}

abbrev pub hook : Request
hook = record {
  id = codes "r";
  delivery_id = codes "d";
  method = codes "POST";
  path = codes "/hook";
  remote_addr = [];
  body_sha256 = codes "h";
  received_at = 5;
  headers = [];
  body = codes "{}";
  signature_verified = true;
}

abbrev pub job_of : Text → Job
job_of id = record {
  id = id;
  request_id = codes "r";
  url = codes "http://a";
  state = pending;
  error = [];
  lease_owner = [];
  created_at = 5;
  updated_at = 5;
  available_at = 5;
  lease_expires_at = 0;
  finished_at = 0;
}

abbrev pub capture : Event
capture = record (blank_event capture_accepted 0) {
  request = some hook;
  job = some (job_of (codes "j"));
}

-- An encoder for logs of that one event.
abbrev pub env : Env
env = record {
  encode = λ e. some (codes "e");
  decode = λ b. some (stamp 0 5 capture);
  digest = λ b. codes "h";
}

abbrev pub empty : Store
empty = opened options start []

unfoldable pub runs : Unit {0}
unfolding append_runs job_runs load_runs read_event_at stored_response accept_runs find_duplicate
    discoverable_job request_terminal candidates capture_evictions opened scan stamp get put delete
    insert sort ◌==◌ select validate_request_digest validate_attempt validate_recovered_event
    validate_state lower encoded_size trim_ring append_ring remove_job remove_request apply_rows
    apply job_at job_ids job_evictions state_eq enqueue claimable eligible lease_to held_job
    next_number settle_job terminal_state
runs = tt

pub empty-IsDurable : IsDurable env empty
unfolding scan opened
empty-IsDurable = record {
  progress = start;
  reads = refl;
  same_image = refl;
  same_count = refl;
  same_file = refl;
}

pub one_line : (b : Bytes) → some (codes "e") ≡ some b → All (λ c. c ≢ newline) b
one_line b h = let same : codes "e" ≡ b = ground arith in rw (← same) (omega arith, tt)

pub capture-IsExact : IsExact env (stamp empty.seq disk.clock capture)
unfolding opened
capture-IsExact = record { decodes = λ b h. refl; one_line = λ b h. one_line b h }

abbrev pub one : Store
one = (append env disk capture empty).1

pub one-job : one.jobs ≡ (codes "j", job_of (codes "j")) ∷ []
unfolding runs
one-job = refl

abbrev pub two : Store
two = (enqueue env disk (job_of (codes "k")) one).1

abbrev pub claim_one : Result (Option Job) × Store
claim_one = claim_next_job env disk (codes "a") 10 10 two

abbrev pub lent : Store
lent = claim_one.1

abbrev pub first_job : Job
first_job = lease_to (codes "a") 10 10 (job_of (codes "k"))

pub empty-IsSound : IsSound empty.tables
unfolding opened
empty-IsSound = no_tables-IsSound

pub one-IsSound : IsSound one.tables
one-IsSound = append-IsSound env disk capture empty empty-IsSound

pub two-IsSound : IsSound two.tables
unfolding runs
two-IsSound =
    append-IsSound env disk
      (record (job_event pending (job_of (codes "k"))) { evicted_job_ids = [] }) one one-IsSound

pub claims_first : claim_one ≡ (ok (some first_job), lent)
unfolding runs
claims_first = refl

abbrev pub claim_two : Result (Option Job) × Store
claim_two = claim_next_job env disk (codes "b") 19 10 lent

abbrev pub second_job : Job
second_job = lease_to (codes "b") 19 10 (job_of (codes "j"))

pub claims_second : claim_two ≡ (ok (some second_job), claim_two.1)
unfolding runs
claims_second = refl

pub lent-IsSound : IsSound lent.tables
lent-IsSound = claim_next_job-IsSound env disk (codes "a") 10 10 two two-IsSound

abbrev pub attempt_one : Attempt
attempt_one = record {
  id = codes "t";
  job_id = codes "k";
  request_id = codes "r";
  url = codes "http://a";
  error = [];
  number = 1;
  status = 200;
  started_at = 11;
  finished_at = 12;
  response_headers = [];
  response_body = codes "ok";
}

abbrev pub finished : Store
finished = (record_attempt env disk 5 (codes "k") (codes "a") attempt_one succeeded [] 0 lent).1

pub records :
    record_attempt env disk 5 (codes "k") (codes "a") attempt_one succeeded [] 0 lent
    ≡ (none, finished)
unfolding runs
records = refl

abbrev pub done_job : Job
done_job = settle_job succeeded [] 12 0 first_job

pub finished-IsSound : IsSound finished.tables
unfolding runs
finished-IsSound =
    append-IsSound env disk (record (job_event succeeded done_job) { attempt = some attempt_one })
      lent lent-IsSound

pub has_done_job : get (codes "k") finished.jobs ≡ some done_job
unfolding runs
has_done_job = refl

-- `Accept` of that request in the empty store.
abbrev pub first_answer : Answer
first_answer = record {
  id = codes "r";
  result = captured;
  job = some (job_of (codes "j"));
  error = none;
}

pub accepts : accept env disk hook (some (job_of (codes "j"))) empty ≡ (first_answer, one)
unfolding runs
accepts = refl

pub two_has_job : get (codes "k") two.jobs ≡ some (job_of (codes "k"))
unfolding runs
two_has_job = refl

-- Another request with the same delivery ID.
abbrev pub other_hook : Request
other_hook = record hook { id = codes "q"; body_sha256 = codes "x" }

loads : load env (codes "r") one ≡ (ok (some (hook, [])), one)
unfolding runs
loads = refl

pub still_waiting : get (codes "j") finished.jobs ≡ some (job_of (codes "j"))
unfolding runs
still_waiting = refl
