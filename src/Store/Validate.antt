-- ===== src/Store/Validate.antt =====
-- The checks on an event of internal/store/store.go: `validateRecoveredEvent`,
-- `validateRequestDigest`, `validateAttempt` and `validateStateLocked`.
use relaybox.Prelude.{
  Text, Bool, true, false, not, ◌&&◌, ◌||◌, ◌==◌, Option, none, some, List, [], ◌∷◌, ◌++◌, is_empty,
  ltb,
}
use relaybox.Map.{get, has}
use relaybox.Store.Model.{
  Request, Attempt, Job, State, other, Kind, capture_accepted, request_received, attempt_finished,
  forward, unknown, Event, is_zero, is_pending, state_eq,
}
use relaybox.Store.Errors.{Result, ok, err, Error, ◌>>◌}
use relaybox.Store.Env.{Env}
use relaybox.Store.Tables.{Tables}

abbrev pub Checked : Type 0
Checked = Result (Unit {0})

-- `if test { return e }`, and on to what follows otherwise.
abbrev pub fail_if : Bool → Error → Checked
fail_if true e = err e
fail_if false e = ok tt

any_empty : List Text → Bool
any_empty [] = false
any_empty (x ∷ xs) = is_empty x || any_empty xs

unfoldable pub validate_request_digest : Env → Request → Checked
validate_request_digest env r =
    fail_if (not (r.body_sha256 == env.digest r.body)) Error.digest_mismatch

unfoldable pub validate_attempt : Attempt → Checked
validate_attempt a =
    fail_if (is_empty a.id || is_empty a.job_id || is_empty a.request_id || ltb a.number 1)
      Error.invalid_attempt

capture_job : Request → Option Job → Checked
capture_job r none = ok tt
capture_job r (some j) =
    fail_if (is_empty j.id || not (j.request_id == r.id) || not (is_pending j.state))
      Error.invalid_capture_job

validate_capture : Env → Option Request → Option Attempt → Option Job → Checked
unfolding validate_request_digest capture_job
validate_capture env (some r) none job = do
  fail_if (is_empty r.id) Error.invalid_capture
  capture_job r job
  validate_request_digest env r
validate_capture env _ _ _ = err Error.invalid_capture

validate_received : Env → Option Request → Option Attempt → Option Job → Checked
unfolding validate_request_digest
validate_received env (some r) none none = do
  fail_if (is_empty r.id) Error.invalid_request
  validate_request_digest env r
validate_received env _ _ _ = err Error.invalid_request

validate_finished : Option Request → Option Attempt → Option Job → Checked
unfolding validate_attempt
validate_finished none (some a) none = validate_attempt a
validate_finished _ _ _ = err Error.invalid_attempt_event

attempt_of_job : Option Attempt → Job → Checked
unfolding validate_attempt
attempt_of_job none j = ok tt
attempt_of_job (some a) j = do
  validate_attempt a
  fail_if (not (a.job_id == j.id) || not (a.request_id == j.request_id)) Error.attempt_not_of_job

validate_forward : State → Option Request → Option Attempt → Option Job → Checked
unfolding attempt_of_job
validate_forward s none attempt (some j) = do
  fail_if (is_empty j.id || is_empty j.request_id) Error.invalid_job
  fail_if (not (state_eq j.state s)) Error.state_kind_mismatch
  attempt_of_job attempt j
validate_forward s _ _ _ = err Error.invalid_job

-- The `switch` on the kind.
validate_payload : Env → Kind → Option Request → Option Attempt → Option Job → Checked
unfolding validate_capture validate_received validate_finished validate_forward
validate_payload env capture_accepted r a j = validate_capture env r a j
validate_payload env request_received r a j = validate_received env r a j
validate_payload env attempt_finished r a j = validate_finished r a j
validate_payload env (forward (other t)) r a j = err Error.unknown_kind
validate_payload env (forward s) r a j = validate_forward s r a j
validate_payload env (unknown t) r a j = err Error.unknown_kind

unfoldable pub validate_recovered_event : Env → Event → Checked
unfolding any_empty validate_payload
validate_recovered_event env e = do
  fail_if (is_zero e.at) Error.missing_timestamp
  fail_if (any_empty (e.evicted_request_ids ++ e.evicted_job_ids)) Error.empty_eviction
  validate_payload env e.kind e.request e.attempt e.job

-- `event.Request == nil || event.Request.ID != id`, negated
abbrev brings_request : Option Request → Text → Bool
brings_request none id = false
brings_request (some r) id = r.id == id

abbrev brings_job : Option Job → Text → Bool
brings_job none id = false
brings_job (some j) id = j.id == id

request_fresh : Tables → Option Request → Checked
request_fresh t none = ok tt
request_fresh t (some r) = fail_if (has r.id t.requests) Error.request_duplicated

known_job : Tables → Option Request → Job → Option Job → Checked
known_job t r j (some existing) =
    fail_if (not (existing.request_id == j.request_id) || not (existing.url == j.url))
      Error.job_identity
known_job t r j none =
    fail_if (not (has j.request_id t.requests) && not (brings_request r j.request_id))
      Error.job_without_request

job_fits : Tables → Option Request → Option Job → Checked
unfolding known_job
job_fits t r none = ok tt
job_fits t r (some j) = known_job t r j (get j.id t.jobs)

attempt_fits : Tables → Option Request → Option Job → Option Attempt → Checked
attempt_fits t r j none = ok tt
attempt_fits t r j (some a) = do
  fail_if (has a.id t.attempt_ids) Error.attempt_duplicated
  fail_if (not (has a.request_id t.requests) && not (brings_request r a.request_id))
      Error.attempt_without_request
  fail_if (not (has a.job_id t.jobs) && not (brings_job j a.job_id)) Error.attempt_without_job

unfoldable pub validate_state : Tables → Event → Checked
unfolding request_fresh job_fits attempt_fits
validate_state t e = do
  request_fresh t e.request
  job_fits t e.request e.job
  attempt_fits t e.request e.job e.attempt
