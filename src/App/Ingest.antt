-- ===== src/App/Ingest.antt =====
-- The handlers of internal/app/app.go that change the store: `ingest`, `schedule` and `replay`, with
-- `terminalJobState`. What a handler learns from outside is an argument: whether the service
-- accepts, how many deliveries are under way, the request, the clock and the new identifiers.
pub mod Stored
pub mod Again
use relaybox.Prelude.{
  ℕ, ◌+◌, Text, Bytes, codes, Bool, true, false, not, ◌&&◌, ◌||◌, Option, none, some, List, [], ◌∷◌,
  length, is_empty, ltb, leb, if◌then◌else◌,
}
use relaybox.Map.{TextSet}
use relaybox.Prelude.Try.{Try, bad, good}
use relaybox.Store.Model.{
  Header, Request, Attempt, Job, State, pending, CaptureResult, captured, duplicate, conflict,
  terminal_state,
}
use relaybox.Store.Errors.{Error, Result, ok, err}
use relaybox.Store.Env.{Env}
use relaybox.Store.State.{Store, Disk}
use relaybox.Store.Accept.{Answer, accept}
use relaybox.Store.Jobs.{Step, enqueue}
use relaybox.Store.Queries.{load}
use relaybox.App.Auth.{Url, Crypto, verify}
use relaybox.App.Headers.{redact_with_policy}
use relaybox.App.Target.{Addr, TargetError, validate_target}

-- The part of the configuration that these handlers read.
pub record Config : Type 0 where
  pub secret : Text
  pub forward_url : Text
  pub allow_private : Bool
  pub max_body : ℕ
  pub max_in_flight : ℕ
  pub sensitive : TextSet

-- What the handlers call outside the program.
pub record Outside : Type 0 where
  pub crypto : Crypto
  pub parse_url : Text → Option Url
  pub parse_addr : Text → Option Addr

-- What one call meets. An identifier is none where `IDSource` fails.
pub record Moment : Type 0 where
  pub accepting : Bool
  pub in_flight : ℕ
  pub now : ℕ
  pub job_now : ℕ
  pub first_id : Option Text
  pub second_id : Option Text
  pub disk : Disk

-- A delivery. `broken` says that reading its body fails after `body`.
pub record Delivery : Type 0 where
  pub method : Text
  pub path : Text
  pub remote_addr : Text
  pub delivery_id : Text
  pub signature : Text
  pub headers : Header
  pub body : Bytes
  pub broken : Bool

-- `http.Error`, and the two shapes of `jsonOut`.
pub data Response : Type 0 where
  failed : ℕ → Text → Response
  answered : ℕ → Text → Bool → Response
  conflicting : Text → Response
  scheduled : Response

-- What a handler does: its response, the store it leaves, and whether it wakes a worker.
pub record Handled : Type 0 where
  pub response : Response
  pub store : Store
  pub wakes : Bool

abbrev refuse : ℕ → Text → Store → Handled
refuse status message s = record { response = failed status message; store = s; wakes = false }

-- `terminalJobState`
unfoldable pub terminal_job_state : State → Bool
terminal_job_state State.succeeded = true
terminal_job_state State.failed = true
terminal_job_state State.fatal = true
terminal_job_state State.dead_letter = true
terminal_job_state State.poison = true
terminal_job_state _ = false

abbrev pub job_waits : Option Job → Bool
job_waits none = false
job_waits (some j) = not (terminal_job_state j.state)

abbrev has_job : Option Job → Bool
has_job none = false
has_job (some j) = true

is_capacity : Error → Bool
is_capacity Error.capacity = true
is_capacity _ = false

-- The response to what `Accept` has answered.
respond_result : CaptureResult → Text → Option Job → Store → Handled
unfolding terminal_job_state
respond_result conflict id job s = record { response = conflicting id; store = s; wakes = false }
respond_result duplicate id job s = record {
  response = answered 200 id true;
  store = s;
  wakes = job_waits job;
}
respond_result captured id job s = record {
  response = answered 202 id false;
  store = s;
  wakes = has_job job;
}

respond_to : Option Error → Answer × Store → Handled
unfolding is_capacity
respond_to (some x) (a, s) =
    if is_capacity x
    then refuse 507 (codes "retention capacity reached") s
    else refuse 500 (codes "storage failure") s
respond_to none (a, s) = respond_result a.result a.id a.job s

unfoldable pub respond : Answer × Store → Handled
unfolding respond_to respond_result
respond (a, s) = respond_to a.error (a, s)

abbrev pub new_job : Text → Text → Text → ℕ → Job
new_job id request_id url now = record {
  id = id;
  request_id = request_id;
  url = url;
  state = pending;
  error = [];
  lease_owner = [];
  created_at = now;
  updated_at = 0;
  available_at = 0;
  lease_expires_at = 0;
  finished_at = 0;
}

-- The capture of a delivery under an identifier.
unfoldable pub capture_of : Env → Outside → Config → Moment → Delivery → Text → Request
capture_of env o c w d id = record {
  id = id;
  delivery_id = d.delivery_id;
  method = d.method;
  path = d.path;
  remote_addr = d.remote_addr;
  body_sha256 = env.digest d.body;
  received_at = w.now;
  headers = redact_with_policy c.sensitive d.headers;
  body = d.body;
  signature_verified = not (is_empty c.secret) && verify o.crypto c.secret d.signature d.body;
}

abbrev pub job_checked : Text → Text → ℕ → Option TargetError → Option Text → Try Text (Option Job)
job_checked url id now (some e) new_id = bad (codes "invalid forwarding target")
job_checked url id now none none = bad (codes "entropy unavailable")
job_checked url id now none (some job_id) = good (some (new_job job_id id url now))

-- The job that goes with a capture: none where nothing is forwarded.
unfoldable pub job_for : Outside → Config → Moment → Text → Try Text (Option Job)
job_for o c w id =
    if is_empty c.forward_url
    then good none
    else job_checked c.forward_url id w.job_now
        (validate_target o.parse_url o.parse_addr c.forward_url c.allow_private) w.second_id

capture_with : Env → Moment → Request → Try Text (Option Job) → Store → Handled
capture_with env w r (bad message) s = refuse 500 message s
capture_with env w r (good job) s = respond (accept env w.disk r job s)

capture_as : Env → Outside → Config → Moment → Delivery → Option Text → Store → Handled
capture_as env o c w d none s = refuse 500 (codes "entropy unavailable") s
capture_as env o c w d (some id) s =
    capture_with env w (capture_of env o c w d id) (job_for o c w id) s

-- What refuses a delivery before anything is stored, in the source's order.
unfoldable pub delivery_error : Outside → Config → Moment → Delivery → Option (ℕ × Text)
delivery_error o c w d =
    if not w.accepting
    then some (503, codes "shutting down")
    else if leb c.max_in_flight w.in_flight
    then some (429, codes "too many concurrent deliveries")
    else if ltb c.max_body (length d.body)
    then some (413, codes "body too large")
    else if d.broken
    then some (400, codes "could not read request body")
    else if not (is_empty c.secret) && not (verify o.crypto c.secret d.signature d.body)
    then some (401, codes "invalid signature")
    else none

ingest_checked : Env → Outside → Config → Moment → Delivery → Option (ℕ × Text) → Store → Handled
ingest_checked env o c w d (some (status, message)) s = refuse status message s
ingest_checked env o c w d none s = capture_as env o c w d w.first_id s

pub ingest : Env → Outside → Config → Moment → Delivery → Store → Handled
ingest env o c w d s = ingest_checked env o c w d (delivery_error o c w d) s

pub data ScheduleError : Type 0 where
  bad_target no_entropy : ScheduleError
  by_store : Error → ScheduleError

enqueued : Step → Try ScheduleError (Unit {0}) × Store
enqueued (none, s) = (good tt, s)
enqueued (some x, s) = (bad (by_store x), s)

schedule_as :
    Env → Moment → Text → Request → Option Text → Store → Try ScheduleError (Unit {0}) × Store
unfolding enqueued
schedule_as env w target r none s = (bad no_entropy, s)
schedule_as env w target r (some id) s =
    enqueued (enqueue env w.disk (new_job id r.id target w.job_now) s)

-- `schedule`: an error, or a job for the capture; only then a worker is woken.
unfoldable pub schedule :
    Env → Outside → Config → Moment → Request → Text → Store → Try ScheduleError (Unit {0}) × Store
unfolding schedule_as
schedule env o c w r target s =
    elim (validate_target o.parse_url o.parse_addr target c.allow_private) [
      | some e ↦ (bad bad_target, s)
      | none ↦ schedule_as env w target r w.first_id s
    ]

replayed : Try ScheduleError (Unit {0}) × Store → Handled
unfolding is_capacity
replayed (good u, s) = record { response = scheduled; store = s; wakes = true }
replayed (bad (by_store x), s) =
    if is_capacity x
    then refuse 507 (codes "replay retention capacity reached") s
    else refuse 500 (codes "scheduling failed") s
replayed (bad _, s) = refuse 500 (codes "scheduling failed") s

replay_loaded :
    Env → Outside → Config → Moment → Result (Option (Request × List Attempt)) × Store → Handled
unfolding replayed
replay_loaded env o c w (err x, s) = refuse 500 (codes "storage failure") s
replay_loaded env o c w (ok none, s) = refuse 404 (codes "404 page not found") s
replay_loaded env o c w (ok (some (r, attempts)), s) =
    if is_empty c.forward_url
    then refuse 400 (codes "configured forward URL required") s
    else replayed (schedule env o c w r c.forward_url s)

pub replay : Env → Outside → Config → Moment → Text → Store → Handled
unfolding replay_loaded
replay env o c w id s = replay_loaded env o c w (load env id s)

-- What a run of `ingest` unfolds.
unfoldable pub ingest_runs : Unit {0}
unfolding respond_result respond_to capture_with capture_as ingest_checked ingest is_capacity
ingest_runs = tt
