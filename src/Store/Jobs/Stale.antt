-- ===== src/Store/Jobs/Stale.antt =====
-- Who is too late: a worker whose lease of a job has passed to another, or is used up.
use relaybox.Prelude.{
  ℕ, ◌≡◌, ◌≢◌, refl, sym, ap, ◌∙◌, Text, true, false, text_eq_iff, Option, none, some, arith, ◌&&◌,
  ◌==◌, Bool-cases, inl, inr,
}
use relaybox.Map.{get}
use relaybox.Store.Model.{Job, Attempt, State, Event, is_leased}
use relaybox.Store.Errors.{Error, ok}
use relaybox.Store.Env.{Env}
use relaybox.Store.Tables.{Tables}
use relaybox.Store.Apply.Sound.{IsSound}
use relaybox.Store.State.{Store, Disk}
use relaybox.Store.Append.{append}
use relaybox.Store.Jobs.{
  lease_to, claim_next_job, held_job, record_attempt, record_held, finish_held, settle_job,
  finish_without_attempt, result_state, is_poison, job_event,
}
use relaybox.Store.Jobs.Moves.{this-job}
use relaybox.Store.Jobs.Leases.{claim_next_job-IsClaim}
use relaybox.Store.Jobs.Attempts.{held_job-IsHeld, record_attempt-IsRecorded, outcome_lem}

-- The last operation on the job, which led to the store, has ended whatever lease of it the worker
-- had.
pub data LeaseEnded (env : Env) (worker id : Text) : Store → Type 0 where
  -- another worker has claimed the job
  taken :
      {s' : Store} (d : Disk) (owner : Text) (now lease : ℕ) (j : Job) (s : Store)
      → IsSound s.tables
      → claim_next_job env d owner now lease s ≡ (ok (some j), s')
      → j.id ≡ id
      → worker ≢ owner
      → LeaseEnded env worker id s'
  -- somebody, perhaps the worker itself, has recorded an attempt of the job
  recorded :
      {s' : Store} (d : Disk) (clock : ℕ) (owner : Text) (a : Attempt) (state : State)
      (message : Text) (available_at : ℕ) (s : Store)
      → IsSound s.tables
      → record_attempt env d clock id owner a state message available_at s ≡ (none, s')
      → LeaseEnded env worker id s'
  -- somebody has given the job up
  given_up :
      {s' : Store} (d : Disk) (clock : ℕ) (owner : Text) (state : State) (message : Text)
      (s : Store)
      → IsSound s.tables
      → finish_without_attempt env d clock id owner state message s ≡ (none, s')
      → LeaseEnded env worker id s'

-- A job that is not leased, or leased to another owner, is not held.
held_job-none :
    (t : Tables) (id owner : Text) (j : Job)
    → get id t.jobs ≡ some j
    → (is_leased j.state && j.lease_owner == owner) ≡ false
    → held_job t id owner ≡ none
unfolding held_job
held_job-none t id owner j found h = rw (found, held_job, h) refl

result_state-open : (s : State) → result_state s ≡ true → is_leased s ≡ false
unfolding result_state
result_state-open s h = ground arith

poison-open : (s : State) → is_poison s ≡ true → is_leased s ≡ false
poison-open s h = ground arith

settle_job-unleased :
    (t : Tables) (id owner : Text) (state : State) (message : Text) (now available_at : ℕ) (j : Job)
    → get id t.jobs ≡ some (settle_job state message now available_at j)
    → is_leased state ≡ false
    → held_job t id owner ≡ none
unfolding settle_job
settle_job-unleased t id owner state message now available_at j found h =
    held_job-none t id owner (settle_job state message now available_at j) found (ground (arith, h))

stored_settled :
    (env : Env) (d : Disk) (clock available_at : ℕ) (state : State) (message : Text) (j : Job)
    (s : Store) (e : Event)
    → (append env d (job_event state (settle_job state message clock available_at j)) s).0 ≡ ok e
    → get j.id
        (append env d (job_event state (settle_job state message clock available_at j)) s).1.jobs
      ≡ some (settle_job state message clock available_at j)
unfolding settle_job
stored_settled env d clock available_at state message j s e =
    this-job env d state (settle_job state message clock available_at j) none s e

finish_held-unleased :
    (env : Env) (d : Disk) (clock : ℕ) (id owner worker : Text) (state : State) (message : Text)
    (s s' : Store) (o : Option Job)
    → IsSound s.tables
    → held_job s.tables id owner ≡ o
    → finish_held env d clock state message s o ≡ (none, s')
    → held_job s'.tables id worker ≡ none
unfolding finish_held
finish_held-unleased env d clock id owner worker state message s s' none v e h = cc
finish_held-unleased env d clock id owner worker state message s s' (some j) v e h =
    elim (Bool-cases (is_poison state)) [
      | inr wrong ↦ absurd (ground (arith, rw (wrong, finish_held) at h))
      | inl right ↦
          let j' = settle_job state message clock j.available_at j in
          let (event, done, at) =
            outcome_lem (append env d (job_event state j') s) s' (rw (right, finish_held) at h) in
          let key : j.id ≡ id = v.keyed_jobs id j (held_job-IsHeld s.tables id owner j e).found in
          let there = stored_settled env d clock j.available_at state message j s event done in
          settle_job-unleased s'.tables id worker state message clock j.available_at j
            (ap (λ k. get k s'.jobs) (sym key) ∙ rw at at there) (poison-open state right)
    ]

LeaseEnded-held_job :
    {env : Env} {worker id : Text} {s : Store}
    → LeaseEnded env worker id s
    → held_job s.tables id worker ≡ none
unfolding lease_to finish_without_attempt
LeaseEnded-held_job {env} {worker} {id} {s = s'} (taken d owner now lease j s v c same other_) =
    let claim = claim_next_job-IsClaim env d owner now lease s j s' v c in
    let mine : j.lease_owner ≡ owner = ap (λ (x : Job). x.lease_owner) claim.leases in
    held_job-none s'.tables id worker j (ap (λ k. get k s'.jobs) (sym same) ∙ claim.is)
      (ground (arith, mine, text_eq_iff j.lease_owner worker, other_))
LeaseEnded-held_job {env} {worker} {id} {s = s'}
      (recorded d clock owner a state message available_at s v h) =
    let r = record_attempt-IsRecorded env d clock id owner a state message available_at s v s' h in
    settle_job-unleased s'.tables id worker state message _ available_at r.job r.settled
      (result_state-open state r.result)
LeaseEnded-held_job {env} {worker} {id} {s = s'} (given_up d clock owner state message s v h) =
    finish_held-unleased env d clock id owner worker state message s s' (held_job s.tables id owner)
      v refl h

-- A worker is told that the lease is lost when it records an attempt of a job, or gives the job
-- up, right after another worker has claimed the job, or somebody has recorded an attempt of it or
-- given it up, on sound tables; the store stays as it is. So a lease is good for one result.
pub stale_owner :
    (env : Env) (d : Disk) (clock : ℕ) (worker id : Text) (s : Store)
    → LeaseEnded env worker id s
    → ((att : Attempt) (state : State) (message : Text) (available_at : ℕ)
        → record_attempt env d clock id worker att state message available_at s
          ≡ (some Error.lease_lost, s))
      × ((state : State) (message : Text)
          → finish_without_attempt env d clock id worker state message s
            ≡ (some Error.lease_lost, s))
unfolding record_attempt record_held finish_without_attempt finish_held
stale_owner env d clock worker id s ended =
    let gone = LeaseEnded-held_job ended in
    (
      λ att state message available_at. rw (gone, record_attempt),
      λ state message. rw (gone, finish_without_attempt),
    )
