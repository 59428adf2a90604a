-- ===== src/Store/Accept.antt =====
-- `Accept` of internal/store/store.go, with `duplicateLocked`, `discoverableJobLocked`,
-- `captureEvictionsLocked` and `requestTerminalLocked`.
pub mod Outcome
pub mod Repeats
pub mod Repair
pub mod Retention
use mathlib.Core.List.{foldl}
use relaybox.Prelude.{
  ℕ, ◌+◌, ◌-◌, Text, Bool, true, false, not, ◌&&◌, ◌||◌, ◌==◌, Option, none, some, List, [], ◌∷◌,
  is_empty, length, take, select, map, ltb, nat_eq, if◌then◌else◌,
}
use relaybox.Prelude.Sort.{sort}
use relaybox.Map.{get, has, values}
use relaybox.Store.Model.{
  Request, Job, pending, Event, capture_accepted, forward, CaptureResult, captured, duplicate,
  conflict, blank_event, is_pending, terminal_state,
}
use relaybox.Store.Errors.{Error, Result, ok, err}
use relaybox.Store.Env.{Env}
use relaybox.Store.Options.{Options}
use relaybox.Store.Tables.{Tables, job_at, job_ids}
use relaybox.Store.State.{Store, Disk}
use relaybox.Store.Append.{append}

-- The four results of `Accept`.
pub record Answer : Type 0 where
  pub id : Text
  pub result : CaptureResult
  pub job : Option Job
  pub error : Option Error

abbrev failure : Error → Answer
failure x = record { id = []; result = captured; job = none; error = some x }

-- `s.requests[id].BodySHA256`, empty where there is no such request
abbrev digest_at : Tables → Text → Text
digest_at t id = elim (get id t.requests) [ none ↦ [] | some r ↦ r.body_sha256 ]

-- The request that this one repeats, and how: by its delivery ID if it has one, and by the
-- digest of its body otherwise.
unfoldable pub find_duplicate : Tables → Request → Option (Text × CaptureResult)
find_duplicate t r =
    if is_empty r.delivery_id
    then elim (get r.body_sha256 t.body) [ none ↦ none | some id ↦ some (id, duplicate) ]
    else elim (get r.delivery_id t.delivery) [
      | none ↦ none
      | some id ↦ some (id, (if digest_at t id == r.body_sha256 then duplicate else conflict))
    ]

-- `j` takes the place of `selected`: an unfinished job before a finished one, then the older.
abbrev is_better : Job → Job → Bool
is_better j selected =
    terminal_state selected.state && not (terminal_state j.state)
    || (if terminal_state selected.state
        then terminal_state j.state
        else not (terminal_state j.state))
      && ltb j.created_at selected.created_at

better : Tables → Option Job → Text → Option Job
better t none id = some (job_at t id)
better t (some selected) id =
    let j = job_at t id in if is_better j selected then some j else some selected

unfoldable pub discoverable_job : Tables → Text → Option Job
unfolding better
discoverable_job t id = foldl (better t) none (job_ids t id)

all_terminal : Tables → List Text → Bool
unfolding job_at
all_terminal t [] = true
all_terminal t (id ∷ ids) = terminal_state (job_at t id).state && all_terminal t ids

unfoldable pub request_terminal : Tables → Text → Bool
unfolding all_terminal job_ids
request_terminal t id = all_terminal t (job_ids t id)

abbrev received_before : Request → Request → Bool
received_before a b = ltb a.received_at b.received_at

-- The captures that may go, the oldest first.
unfoldable pub candidates : Tables → List Request
candidates t = sort received_before (select (λ r. request_terminal t r.id) (values t.requests))

unfoldable pub capture_evictions : Options → Tables → ℕ → Result (List Text)
capture_evictions o t required =
    let over = length t.requests + required - o.max_captures in
    if nat_eq over 0
    then ok []
    else if ltb (length (candidates t)) over
    then err Error.capacity
    else ok (map (λ r. r.id) (take over (candidates t)))

abbrev pub bad_intent : Request → Option Job → Bool
bad_intent r none = false
bad_intent r (some j) = is_empty j.id || not (j.request_id == r.id) || not (is_pending j.state)

abbrev job_taken : Tables → Option Job → Bool
job_taken t none = false
job_taken t (some j) = has j.id t.jobs

-- What an operation answers when its append has returned, or failed.
settle : Answer → (Error → Answer) → Result Event × Store → Answer × Store
settle good bad (ok e, s) = (good, s)
settle good bad (err x, s) = (bad x, s)

-- A duplicate whose capture has no job gets one.
repair : Env → Disk → Text → Job → Store → Answer × Store
repair env d id j s =
    let repaired = record j { request_id = id } in
    if has j.id s.jobs
    then (record { id = id; result = duplicate; job = none; error = some Error.id_collision }, s)
    else settle (record { id = id; result = duplicate; job = some repaired; error = none })
        (λ x. record { id = id; result = duplicate; job = none; error = some x })
        (append env d (record (blank_event (forward pending) 0) { job = some repaired }) s)

accept_duplicate :
    Env → Disk → Text → CaptureResult → Option Job → Option Job → Store → Answer × Store
accept_duplicate env d id duplicate (some j) none s = repair env d id j s
accept_duplicate env d id result job persisted s =
    (record { id = id; result = result; job = persisted; error = none }, s)

abbrev capture_event : Request → Option Job → List Text → Event
capture_event r job evictions = record (blank_event capture_accepted 0) {
  request = some r;
  job = job;
  evicted_request_ids = evictions;
}

accept_new : Env → Disk → Request → Option Job → Store → Answer × Store
accept_new env d r job s =
    if has r.id s.requests || job_taken s.tables job
    then (failure Error.id_collision, s)
    else elim (capture_evictions s.options s.tables 1) [
      | err x ↦ (failure x, s)
      | ok evictions ↦
          settle (record { id = r.id; result = captured; job = job; error = none }) failure
            (append env d (capture_event r job evictions) s)
    ]

pub accept : Env → Disk → Request → Option Job → Store → Answer × Store
accept env d r job s =
    if bad_intent r job
    then (failure Error.invalid_intent, s)
    else elim (find_duplicate s.tables r) [
      | some (id, result) ↦ accept_duplicate env d id result job (discoverable_job s.tables id) s
      | none ↦ accept_new env d r job s
    ]

-- What a run of `accept` unfolds.
unfoldable pub accept_runs : Unit {0}
unfolding settle repair accept_duplicate accept_new accept
accept_runs = tt
