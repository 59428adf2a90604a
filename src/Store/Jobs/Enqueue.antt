-- ===== src/Store/Jobs/Enqueue.antt =====
-- What `Enqueue` evicts: no job that still has work to do.
use mathlib.Core.List.{foldl}
use relaybox.Prelude.{
  ℕ, ◌≡◌, ◌≢◌, refl, ap, ◌∙◌, Text, true, false, some, List, [], ◌∷◌, All, select, map, arith, ltb,
  length, Option-cases, Bool-cases, inl, inr,
}
use relaybox.Prelude.Sort.{All-sort}
use relaybox.Map.{get, put, has, get-put_ne}
use relaybox.Store.Model.{Job, pending, Event, terminal_state, is_pending}
use relaybox.Store.Errors.{Error, Result, ok, err, Result-cases}
use relaybox.Store.Env.{Env}
use relaybox.Store.Options.{Options}
use relaybox.Store.Tables.{Tables, RecordRef, get_list, job_at, job_ids}
use relaybox.Store.Apply.{apply_rows, remove_job}
use relaybox.Store.Apply.Sound.{IsSound}
use relaybox.Store.Apply.Kept.{remove_jobs-IsSafe}
use relaybox.Store.State.{Store, Disk}
use relaybox.Store.Append.{stamp}
use relaybox.Store.Append.Effect.{Effect, idle, moved, append-Effect}
use relaybox.Store.Jobs.{job_event, spent_jobs, job_evictions, enqueue, outcome, older}

-- A finished job that is looked up under an identifier is stored under it.
IsSpent : Tables → Job → Type 0
IsSpent t j = (get j.id t.jobs ≡ some j) × (terminal_state j.state ≡ true)

job_at-IsSpent :
    (t : Tables) (id : Text)
    → IsSound t
    → terminal_state (job_at t id).state ≡ true
    → IsSpent t (job_at t id)
unfolding IsSpent job_at terminal_state
job_at-IsSpent t id v h = elim (Option-cases (get id t.jobs)) [
  | inl absent ↦ absurd (ground (arith, absent, h))
  | inr (j, here) ↦
      let at : job_at t id ≡ j = ground (arith, here) in
      rw (at, IsSpent) (ap (λ x. get x t.jobs) (v.keyed_jobs id j here) ∙ here, rw at at h)
]

All-IsSpent :
    (t : Tables) (l : List Text)
    → IsSound t
    → All (λ j. IsSpent t j) (select (λ j. terminal_state j.state) (map (job_at t) l))
unfolding select
All-IsSpent t [] v = tt
All-IsSpent t (id ∷ l) v = ground (arith, job_at-IsSpent t id v, All-IsSpent t l v)

spent_jobs-IsSpent :
    (t : Tables) (rid : Text) → IsSound t → All (λ j. IsSpent t j) (spent_jobs t rid)
unfolding spent_jobs
spent_jobs-IsSpent t rid v = All-sort older (λ j. IsSpent t j) _ (All-IsSpent t (job_ids t rid) v)

jobs-enqueue :
    (o : Options) (ref : RecordRef) (t : Tables) (seq clock : ℕ) (i : Job) (evicted : List Text)
    → (apply_rows o
        (stamp seq clock (record (job_event pending i) { evicted_job_ids = evicted }))
        ref
        t).jobs
      ≡ put i.id i (foldl remove_job t evicted).jobs
unfolding apply_rows stamp
jobs-enqueue o ref t seq clock i evicted = refl

module _ (k : Text) (j : Job) (s : Store) (v : IsSound s.tables) (there : get k s.jobs ≡ some j)
    (busy : terminal_state j.state ≡ false) where
  spent-apart : (i : Job) → IsSpent s.tables i → i.id ≢ k
  unfolding IsSpent
  spent-apart i h e = absurd (ground (arith, ap (λ x. get x s.jobs) e, there, busy, h.0, h.1))

  Effect-keeps_busy :
      (i : Job) (evicted : List Text) (seq clock : ℕ) {r : Result Event} {s' : Store}
      → i.id ≢ k
      → All (λ id. id ≢ k) evicted
      → Effect s (stamp seq clock (record (job_event pending i) { evicted_job_ids = evicted })) r s'
      → get k s'.jobs ≡ some j
  Effect-keeps_busy i evicted seq clock new apart (idle x rows) = rw rows.jobs there
  Effect-keeps_busy i evicted seq clock new apart (moved r ref same fits rows) =
      let safe =
        remove_jobs-IsSafe k j (λ rid. false ≡ true) evicted s.tables apart
          (record { there = there; elsewhere = λ rid h. cc }) in
      rw (rows.jobs, jobs-enqueue) (get-put_ne i.id k i _ new ∙ safe.there)

  first-apart :
      (l : List Job) (evicted : List Text)
      → All (λ i. IsSpent s.tables i) l
      → (elim l [ [] ↦ err Error.capacity | i ∷ rest ↦ ok (i.id ∷ []) ]) ≡ ok evicted
      → All (λ id. id ≢ k) evicted
  first-apart [] evicted h e = cc
  first-apart (i ∷ rest) evicted h e =
      let same : (i.id ∷ []) ≡ evicted = ground (arith, e) in rw (← same) (spent-apart i h.0, tt)

  evictions-apart :
      (rid : Text) (evicted : List Text)
      → job_evictions s rid ≡ ok evicted
      → All (λ id. id ≢ k) evicted
  unfolding job_evictions
  evictions-apart rid evicted h =
      elim (Bool-cases
        (ltb (length (get_list rid s.jobs_by_request)) s.options.max_jobs_per_request)) [
          | inl room ↦ let same : [] ≡ evicted = ground (arith, room, h) in rw (← same) tt
          | inr full ↦
              first-apart (spent_jobs s.tables rid) evicted (spent_jobs-IsSpent s.tables rid v)
                (rw full at h)
        ]

  store-outcome : (r : Result Event × Store) → (outcome r).1 ≡ r.1
  store-outcome (ok e, t) = refl
  store-outcome (err x, t) = refl

  -- On sound tables, a job that is not finished is still there, unchanged, after another has been
  -- enqueued or refused, whatever had to be evicted for it and whatever the disk answers.
  pub enqueue-keeps_unfinished :
      (env : Env) (d : Disk) (i : Job) → get k (enqueue env d i s).1.jobs ≡ some j
  unfolding enqueue
  enqueue-keeps_unfinished env d i = elim (Bool-cases (has i.request_id s.requests)) [
    | inr missing ↦ rw (missing, enqueue) there
    | inl known ↦ elim (Bool-cases (is_pending i.state)) [
      | inr started ↦ rw (known, started, enqueue) there
      | inl fresh ↦ elim (Bool-cases (has i.id s.jobs)) [
        | inl taken ↦ rw (known, fresh, taken, enqueue) there
        | inr free ↦ elim (Result-cases (job_evictions s i.request_id)) [
          | inr (x, full) ↦ rw (known, fresh, free, full, enqueue) there
          | inl (evicted, chosen) ↦
              let new : i.id ≢ k =
                λ e. absurd (ground (arith, free, ap (λ x. get x s.jobs) e ∙ there)) in
              rw (known, fresh, free, chosen, enqueue, store-outcome)
                (Effect-keeps_busy i evicted s.seq d.clock new
                  (evictions-apart i.request_id evicted chosen)
                  (append-Effect env d (record (job_event pending i) { evicted_job_ids = evicted })
                    s))
        ]
      ]
    ]
  ]
