-- ===== src/Store/Jobs.antt =====
-- The life of a forwarding job in internal/store/store.go: `Enqueue`, `ClaimNextJob`,
-- `RecoverLeases`, `RecordAttempt` and `FinishWithoutAttempt`.
pub mod Moves
pub mod Leases
pub mod Stale
pub mod Attempts
pub mod Terminal
pub mod Enqueue
use relaybox.Prelude.{
  ℕ, suc, ◌+◌, Text, Bool, true, false, not, ◌&&◌, ◌||◌, ◌==◌, Option, none, some, List, [], ◌∷◌,
  select, map, length, ltb, leb, nat_eq, if◌then◌else◌,
}
use relaybox.Prelude.Sort.{sort}
use relaybox.Map.{get, has, values}
use relaybox.Store.Model.{
  Attempt, Job, State, pending, queued, running, leased, retrying, succeeded, fatal, dead_letter,
  poison, Event, forward, blank_event, is_zero, is_leased, is_pending, terminal_state,
}
use relaybox.Store.Errors.{Error, Result, ok, err}
use relaybox.Store.Env.{Env}
use relaybox.Store.Tables.{Tables, job_at, job_ids, get_list}
use relaybox.Store.State.{Store, Disk}
use relaybox.Store.Append.{append}

-- The error of an operation, if any, and the store that it leaves.
abbrev pub Step : Type 0
Step = Option Error × Store

abbrev outcome : Result Event × Store → Step
outcome (ok e, s) = (none, s)
outcome (err x, s) = (some x, s)

abbrev pub job_event : State → Job → Event
job_event state j = record (blank_event (forward state) 0) { job = some j }

abbrev older : Job → Job → Bool
older a b = ltb a.created_at b.created_at

-- The finished jobs of a request, the oldest first.
unfoldable pub spent_jobs : Tables → Text → List Job
spent_jobs t rid =
    sort older (select (λ j. terminal_state j.state) (map (job_at t) (job_ids t rid)))

unfoldable pub job_evictions : Store → Text → Result (List Text)
job_evictions s rid =
    if ltb (length (get_list rid s.jobs_by_request)) s.options.max_jobs_per_request
    then ok []
    else elim (spent_jobs s.tables rid) [ [] ↦ err Error.capacity | j ∷ rest ↦ ok (j.id ∷ []) ]

unfoldable pub enqueue : Env → Disk → Job → Store → Step
enqueue env d j s =
    if not (has j.request_id s.requests)
    then (some Error.request_missing, s)
    else if not (is_pending j.state)
    then (some Error.not_pending, s)
    else if has j.id s.jobs
    then (some Error.id_collision, s)
    else elim (job_evictions s j.request_id) [
      | err x ↦ (some x, s)
      | ok evicted ↦
          outcome (append env d (record (job_event pending j) { evicted_job_ids = evicted }) s)
    ]

-- A lease has run out: `LeaseExpiresAt.IsZero() || !LeaseExpiresAt.After(now)`.
abbrev lease_over : ℕ → Job → Bool
lease_over now j = is_zero j.lease_expires_at || leb j.lease_expires_at now

eligible_in : State → ℕ → Job → Bool
eligible_in pending now j = true
eligible_in queued now j = true
eligible_in retrying now j = leb j.available_at now
eligible_in leased now j = lease_over now j
eligible_in running now j = lease_over now j
eligible_in _ now j = false

unfoldable pub eligible : ℕ → Job → Bool
unfolding eligible_in
eligible now j = eligible_in j.state now j

abbrev sooner : Job → Job → Bool
sooner a b =
    if nat_eq a.available_at b.available_at
    then ltb a.created_at b.created_at
    else ltb a.available_at b.available_at

unfoldable pub claimable : ℕ → Tables → List Job
claimable now t = sort sooner (select (eligible now) (values t.jobs))

unfoldable pub lease_to : Text → ℕ → ℕ → Job → Job
lease_to owner now lease j = record j {
  state = leased;
  lease_owner = owner;
  lease_expires_at = now + lease;
  updated_at = now;
}

abbrev claimed : Job → Result Event × Store → Result (Option Job) × Store
claimed j (ok e, s) = (ok (some j), s)
claimed j (err x, s) = (err x, s)

-- The first of the jobs that can be claimed, if there is one.
claim_first : Env → Disk → Text → ℕ → ℕ → Store → List Job → Result (Option Job) × Store
claim_first env d owner now lease s [] = (ok none, s)
claim_first env d owner now lease s (j ∷ rest) =
    let j' = lease_to owner now lease j in claimed j' (append env d (job_event leased j') s)

-- `ClaimNextJob`: the job, now leased to the owner, or none where nothing can be claimed.
pub claim_next_job : Env → Disk → Text → ℕ → ℕ → Store → Result (Option Job) × Store
claim_next_job env d owner now lease s =
    claim_first env d owner now lease s (claimable now s.tables)

in_lease : State → Bool
in_lease leased = true
in_lease running = true
in_lease _ = false

abbrev unlease : ℕ → Job → Job
unlease now j = record j {
  state = pending;
  error = [];
  lease_owner = [];
  lease_expires_at = 0;
  available_at = now;
  updated_at = now;
}

-- The loop of `RecoverLeases`; the disk answers each append by its number.
return_leases : Env → (ℕ → Disk) → ℕ → ℕ → List Job → Store → Step
return_leases env disks n now [] s = (none, s)
return_leases env disks n now (j ∷ rest) s =
    elim (append env (disks n) (job_event pending (unlease now j)) s).0 [
      | err x ↦ (some x, (append env (disks n) (job_event pending (unlease now j)) s).1)
      | ok e ↦
          return_leases env disks (suc n) now rest
            (append env (disks n) (job_event pending (unlease now j)) s).1
    ]

unfoldable pub recover_leases : Env → (ℕ → Disk) → ℕ → Store → Step
unfolding in_lease return_leases
recover_leases env disks now s =
    return_leases env disks 0 now (sort older (select (λ j. in_lease j.state) (values s.jobs))) s

-- `ok && j.State == "leased" && j.LeaseOwner == owner`
unfoldable pub held_job : Tables → Text → Text → Option Job
held_job t id owner = elim (get id t.jobs) [
  | none ↦ none
  | some j ↦ if is_leased j.state && j.lease_owner == owner then some j else none
]

-- One more than the largest number among the attempts of the job.
unfoldable pub next_number : Text → List Attempt → ℕ → ℕ
next_number id [] n = n
next_number id (a ∷ rest) n =
    next_number id rest (if a.job_id == id && leb n a.number then a.number + 1 else n)

unfoldable pub result_state : State → Bool
result_state retrying = true
result_state succeeded = true
result_state fatal = true
result_state dead_letter = true
result_state _ = false

-- The job after an attempt that left it in `state`.
unfoldable pub settle_job : State → Text → ℕ → ℕ → Job → Job
settle_job state message now available_at j = record j {
  state = state;
  error = message;
  updated_at = now;
  lease_owner = [];
  lease_expires_at = 0;
  available_at = available_at;
  finished_at = if terminal_state state then now else j.finished_at;
}

-- The checks of `RecordAttempt` on the attempt of a job that is held, in the source's order.
attempt_error : Store → Text → Job → Attempt → State → Option Error
attempt_error s id j a state =
    if ltb s.options.max_attempts_per_job a.number
    then some Error.capacity
    else if not (nat_eq a.number (next_number id (get_list j.request_id s.attempts) 1))
    then some Error.wrong_attempt_number
    else if has a.id s.attempt_ids
    then some Error.id_collision
    else if not (result_state state)
    then some Error.invalid_result_state
    else none

-- The attempt and the state that it leaves the job in are one event.
record_checked : Env → Disk → Attempt → State → Job → Store → Option Error → Step
record_checked env d a state j s (some x) = (some x, s)
record_checked env d a state j s none =
    outcome (append env d (record (job_event state j) { attempt = some a }) s)

record_held : Env → Disk → ℕ → Text → Attempt → State → Text → ℕ → Store → Option Job → Step
record_held env d clock id a state message available_at s none = (some Error.lease_lost, s)
record_held env d clock id a state message available_at s (some j) =
    let now = if is_zero a.finished_at then clock else a.finished_at in
    record_checked env d a state (settle_job state message now available_at j) s
      (attempt_error s id j a state)

pub record_attempt : Env → Disk → ℕ → Text → Text → Attempt → State → Text → ℕ → Store → Step
record_attempt env d clock id owner a state message available_at s =
    record_held env d clock id a state message available_at s (held_job s.tables id owner)

abbrev is_poison : State → Bool
is_poison poison = true
is_poison _ = false

finish_held : Env → Disk → ℕ → State → Text → Store → Option Job → Step
finish_held env d now state message s none = (some Error.lease_lost, s)
finish_held env d now state message s (some j) =
    if not (is_poison state)
    then (some Error.invalid_result_state, s)
    else outcome (append env d (job_event state (settle_job state message now j.available_at j)) s)

pub finish_without_attempt : Env → Disk → ℕ → Text → Text → State → Text → Store → Step
finish_without_attempt env d now id owner state message s =
    finish_held env d now state message s (held_job s.tables id owner)

-- What a run of an operation on jobs unfolds.
unfoldable pub job_runs : Unit {0}
unfolding claim_first claim_next_job result_state attempt_error record_checked record_held
    record_attempt finish_held finish_without_attempt
job_runs = tt
