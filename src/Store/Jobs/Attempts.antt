-- ===== src/Store/Jobs/Attempts.antt =====
-- What an attempt that is recorded has passed, and what it leaves.
use relaybox.Prelude.{
  ℕ, ◌≤◌, ◌≡◌, ◌≢◌, refl, sym, ap, ◌∙◌, inl, inr, Text, true, false, text_eq_iff, Option, none,
  some, arith, Option-cases, if◌then◌else◌,
}
use relaybox.Map.{get, has}
use relaybox.Store.Model.{Job, Attempt, State, leased, Event, is_leased, is_zero}
use relaybox.Store.Errors.{Error, Result, ok, err}
use relaybox.Store.Env.{Env}
use relaybox.Store.Tables.{Tables, get_list}
use relaybox.Store.Apply.Sound.{IsSound}
use relaybox.Store.State.{Store, Disk}
use relaybox.Store.Append.{append}
use relaybox.Store.Jobs.{
  held_job, next_number, attempt_error, result_state, settle_job, record_attempt, record_checked,
  record_held, outcome,
}
use relaybox.Store.Jobs.Moves.{moving, other-job, this-job}

-- The job that the owner holds under lease.
pub record IsHeld (t : Tables) (id owner : Text) (j : Job) : Type 0 where
  pub found : get id t.jobs ≡ some j
  pub state : j.state ≡ leased
  pub mine : j.lease_owner ≡ owner

leased_of : (s : State) → is_leased s ≡ true → s ≡ leased
leased_of leased h = refl
leased_of s h = cc

pub held_job-IsHeld :
    (t : Tables) (id owner : Text) (j : Job) → held_job t id owner ≡ some j → IsHeld t id owner j
unfolding held_job
held_job-IsHeld t id owner j h = elim (Option-cases (get id t.jobs)) [
  | inl absent ↦ absurd (ground arith)
  | inr (i, here) ↦
      let same : i ≡ j = ground arith in
      record {
        found = here ∙ ap some same;
        state = leased_of j.state (ground arith);
        mine = (text_eq_iff j.lease_owner owner).0 (ground arith);
      }
]

-- What `RecordAttempt` has made sure of and done when it reports no error.
pub record IsRecorded (id owner : Text) (a : Attempt) (state : State) (message : Text)
    (available_at now : ℕ) (s s' : Store) : Type 0 where
  pub job : Job
  pub held : IsHeld s.tables id owner job
  pub within : a.number ≤ s.options.max_attempts_per_job
  pub next : a.number ≡ next_number id (get_list job.request_id s.attempts) 1
  pub new : has a.id s.attempt_ids ≡ false
  pub result : result_state state ≡ true
  pub settled : get id s'.jobs ≡ some (settle_job state message now available_at job)
  pub others : (k : Text) → id ≢ k → get k s'.jobs ≡ get k s.jobs

pub outcome_lem :
    (r : Result Event × Store) (s' : Store)
    → outcome r ≡ (none, s')
    → (e : Event) × (r.0 ≡ ok e) × (r.1 ≡ s')
outcome_lem (ok e, s) s' h = (e, refl, cc)
outcome_lem (err x, s) s' h = cc

attempt_error-none :
    (s : Store) (id : Text) (j : Job) (a : Attempt) (state : State)
    → attempt_error s id j a state ≡ none
    → (a.number ≤ s.options.max_attempts_per_job)
      × (a.number ≡ next_number id (get_list j.request_id s.attempts) 1)
      × (has a.id s.attempt_ids ≡ false)
      × (result_state state ≡ true)
unfolding attempt_error
attempt_error-none s id j a state h = ground arith

module _ (env : Env) (d : Disk) (clock : ℕ) (id owner : Text) (a : Attempt) (state : State)
    (message : Text) (available_at : ℕ) (s : Store) (v : IsSound s.tables) where
  abbrev now : ℕ
  now = if is_zero a.finished_at then clock else a.finished_at

  settled_id : (j : Job) → (settle_job state message now available_at j).id ≡ j.id
  unfolding settle_job
  settled_id j = refl

  record-checked :
      (j : Job) (s' : Store) (x : Option Error)
      → IsHeld s.tables id owner j
      → attempt_error s id j a state ≡ x
      → record_checked env d a state (settle_job state message now available_at j) s x ≡ (none, s')
      → IsRecorded id owner a state message available_at now s s'
  unfolding record_checked
  record-checked j s' (some x) held bad h = cc
  record-checked j s' none held fine h =
      let j' = settle_job state message now available_at j in
      let (within, next, new, result) = attempt_error-none s id j a state fine in
      let (e, done, at) = outcome_lem (append env d (moving state j' (some a)) s) s' h in
      let key : j'.id ≡ id = settled_id j ∙ v.keyed_jobs id j held.found in
      rw (← at) (record {
        job = j;
        held = held;
        within = within;
        next = next;
        new = new;
        result = result;
        settled =
            ap (λ k. get k (append env d (moving state j' (some a)) s).1.jobs) (sym key)
            ∙ this-job env d state j' (some a) s e done;
        others = λ k ne. other-job env d state j' (some a) s k (λ e. ne (sym key ∙ e));
      })

  record-held :
      (o : Option Job) (s' : Store)
      → held_job s.tables id owner ≡ o
      → record_held env d clock id a state message available_at s o ≡ (none, s')
      → IsRecorded id owner a state message available_at now s s'
  unfolding record_held
  record-held none s' e h = cc
  record-held (some j) s' e h =
      record-checked j s' (attempt_error s id j a state) (held_job-IsHeld s.tables id owner j e)
        refl h

  -- On sound tables, an attempt that is recorded was the next one of a job that its owner held under lease,
  -- within the limit on attempts and under a new identifier, and it moves that job, and no other,
  -- to one of the four result states, with its lease given up.
  pub record_attempt-IsRecorded :
      (s' : Store)
      → record_attempt env d clock id owner a state message available_at s ≡ (none, s')
      → IsRecorded id owner a state message available_at now s s'
  unfolding record_attempt
  record_attempt-IsRecorded s' h = record-held (held_job s.tables id owner) s' refl h
