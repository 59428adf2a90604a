-- ===== src/Store/Jobs/Terminal.antt =====
-- A finished job is left alone by every worker and by recovery of leases.
use relaybox.Prelude.{
  ℕ, suc, ◌≡◌, ◌≢◌, refl, ap, ◌∙◌, inl, inr, Text, true, false, Option, none, some, List, [], ◌∷◌,
  All, All-imp, All-select, select, arith,
}
use relaybox.Prelude.Sort.{sort, All-sort}
use relaybox.Map.{get, values}
use relaybox.Map.Size.{All-values}
use relaybox.Store.Model.{Job, Attempt, State, pending, leased, Event, terminal_state}
use relaybox.Store.Errors.{Error, Result, ok, err, Result-cases}
use relaybox.Store.Env.{Env}
use relaybox.Store.Apply.Sound.{IsSound}
use relaybox.Store.State.{Store, Disk}
use relaybox.Store.Append.{append}
use relaybox.Store.Jobs.{
  claimable, eligible, lease_to, claimed, claim_first, claim_next_job, held_job, attempt_error,
  settle_job, record_checked, record_held, record_attempt, finish_held, finish_without_attempt,
  in_lease, older, unlease, return_leases, recover_leases, job_event, outcome,
}
use relaybox.Store.Jobs.Moves.{moving, other-job}
use relaybox.Store.Jobs.Leases.{claimable-All}
use relaybox.Store.Jobs.Attempts.{held_job-IsHeld}

-- What a worker, or a process that starts, does to the jobs of a store.
pub data WorkerCall : Type 0 where
  claim : Text → ℕ → ℕ → WorkerCall
  record_result : ℕ → Text → Text → Attempt → State → Text → ℕ → WorkerCall
  give_up : ℕ → Text → Text → State → Text → WorkerCall
  reclaim : ℕ → WorkerCall

pub call : Env → (ℕ → Disk) → WorkerCall → Store → Store
call env disks (claim owner now lease) s = (claim_next_job env (disks 0) owner now lease s).1
call env disks (record_result clock id owner a state message available_at) s =
    (record_attempt env (disks 0) clock id owner a state message available_at s).1
call env disks (give_up now id owner state message) s =
    (finish_without_attempt env (disks 0) now id owner state message s).1
call env disks (reclaim now) s = (recover_leases env disks now s).1

eligible-not-terminal : (now : ℕ) (j : Job) → eligible now j ≡ true → terminal_state j.state ≡ false
unfolding eligible terminal_state
eligible-not-terminal now j h = ground arith

in_lease-not-terminal : (state : State) → in_lease state ≡ true → terminal_state state ≡ false
unfolding in_lease terminal_state
in_lease-not-terminal state h = ground arith

store-claimed : (j : Job) (r : Result Event × Store) → (claimed j r).1 ≡ r.1
store-claimed j (ok e, s) = refl
store-claimed j (err x, s) = refl

store-outcome : (r : Result Event × Store) → (outcome r).1 ≡ r.1
store-outcome (ok e, s) = refl
store-outcome (err x, s) = refl

module _ (env : Env) (s : Store) (v : IsSound s.tables) (k : Text) (j : Job)
    (found : get k s.jobs ≡ some j) (over : terminal_state j.state ≡ true) where
  -- A job that is found under its identifier, and is not finished, is another one.
  apart : (i : Job) → (get i.id s.jobs ≡ some i) × (terminal_state i.state ≡ false) → i.id ≢ k
  apart i h same = absurd (ground (arith, ap (λ x. get x s.jobs) same, h.0, h.1))

  -- An append that moves another job.
  moving-keeps :
      (d : Disk) (state : State) (i : Job) (a : Option Attempt)
      → i.id ≢ k
      → get k (append env d (moving state i a) s).1.jobs ≡ some j
  moving-keeps d state i a h = other-job env d state i a s k h ∙ found

  claim-keeps :
      (d : Disk) (owner : Text) (now lease : ℕ) (l : List Job)
      → All (λ i. (get i.id s.jobs ≡ some i) × (eligible now i ≡ true)) l
      → get k (claim_first env d owner now lease s l).1.jobs ≡ some j
  unfolding claim_first lease_to
  claim-keeps d owner now lease [] h = found
  claim-keeps d owner now lease (i ∷ rest) h = rw store-claimed (
      moving-keeps d leased (lease_to owner now lease i) none
        (apart i (h.0.0, eligible-not-terminal now i h.0.1)))

  checked-keeps :
      (d : Disk) (a : Attempt) (state : State) (i : Job) (x : Option Error)
      → i.id ≢ k
      → get k (record_checked env d a state i s x).1.jobs ≡ some j
  unfolding record_checked
  checked-keeps d a state i (some x) h = found
  checked-keeps d a state i none h = rw store-outcome (moving-keeps d state i (some a) h)

  held-apart : (id owner : Text) (i : Job) → held_job s.tables id owner ≡ some i → i.id ≢ k
  unfolding terminal_state
  held-apart id owner i h =
      let held = held_job-IsHeld s.tables id owner i h in
      apart i (ap (λ x. get x s.jobs) (v.keyed_jobs id i held.found) ∙ held.found, rw held.state)

  record-keeps :
      (d : Disk) (clock : ℕ) (id owner : Text) (a : Attempt) (state : State) (message : Text)
      (available_at : ℕ) (o : Option Job)
      → held_job s.tables id owner ≡ o
      → get k (record_held env d clock id a state message available_at s o).1.jobs ≡ some j
  unfolding record_held settle_job
  record-keeps d clock id owner a state message available_at none h = found
  record-keeps d clock id owner a state message available_at (some i) h =
      checked-keeps d a state _ (attempt_error s id i a state) (held-apart id owner i h)

  finish-keeps :
      (d : Disk) (now : ℕ) (id owner : Text) (state : State) (message : Text) (o : Option Job)
      → held_job s.tables id owner ≡ o
      → get k (finish_held env d now state message s o).1.jobs ≡ some j
  unfolding finish_held settle_job
  finish-keeps d now id owner state message none h = found
  finish-keeps d now id owner state message (some i) h =
      let i' = settle_job state message now i.available_at i in
      let kept = moving-keeps d state i' none (held-apart id owner i h) in
      ground (arith, store-outcome (append env d (job_event state i') s), kept)

-- The loop of `RecoverLeases` over jobs that are not the one.
return-keeps :
    (env : Env) (disks : ℕ → Disk) (n now : ℕ) (l : List Job) (k : Text) (j : Job) (s : Store)
    → get k s.jobs ≡ some j
    → All (λ i. i.id ≢ k) l
    → get k (return_leases env disks n now l s).1.jobs ≡ some j
unfolding return_leases
return-keeps env disks n now [] k j s found h = found
return-keeps env disks n now (i ∷ rest) k j s found h =
    let r = append env (disks n) (job_event pending (unlease now i)) s in
    let kept : get k r.1.jobs ≡ some j =
      other-job env (disks n) pending (unlease now i) none s k h.0 ∙ found in
    elim (Result-cases r.0) [
      | inl (e, fine) ↦
          rw (fine, return_leases) (return-keeps env disks (suc n) now rest k j r.1 kept h.1)
      | inr (x, bad) ↦ rw (bad, return_leases) kept
    ]

module _ (env : Env) (disks : ℕ → Disk) (s : Store) (v : IsSound s.tables) (k : Text) (j : Job)
    (found : get k s.jobs ≡ some j) (over : terminal_state j.state ≡ true) where
  stale-apart : All (λ i. i.id ≢ k) (sort older (select (λ i. in_lease i.state) (values s.jobs)))
  stale-apart =
      All-sort older (λ i. i.id ≢ k) (select (λ i. in_lease i.state) (values s.jobs))
        (All-imp
          (λ (i : Job) h. apart env s v k j found over i (h.0, in_lease-not-terminal i.state h.1))
          (select (λ i. in_lease i.state) (values s.jobs))
          (All-select (λ i. get i.id s.jobs ≡ some i) (λ i. in_lease i.state) (values s.jobs)
            (All-values (λ i. i.id) s.jobs v.unique_jobs v.keyed_jobs)))

  -- On sound tables, a job in a final state stays as it is whatever worker's operation is called,
  -- the recovery of leases included, and whatever the disk answers.
  pub call-keeps_terminal : (c : WorkerCall) → get k (call env disks c s).jobs ≡ some j
  unfolding call claim_next_job record_attempt finish_without_attempt recover_leases
  call-keeps_terminal (claim owner now lease) =
      claim-keeps env s v k j found over (disks 0) owner now lease (claimable now s.tables)
        (claimable-All now s.tables v)
  call-keeps_terminal (record_result clock id owner a state message available_at) =
      record-keeps env s v k j found over (disks 0) clock id owner a state message available_at
        (held_job s.tables id owner) refl
  call-keeps_terminal (give_up now id owner state message) =
      finish-keeps env s v k j found over (disks 0) now id owner state message
        (held_job s.tables id owner) refl
  call-keeps_terminal (reclaim now) = return-keeps env disks 0 now _ k j s found stale-apart
