-- ===== src/Store/Accept/Retention.antt =====
-- What an acceptance evicts: nothing that still has work to do.
use mathlib.Core.List.{foldl}
use relaybox.Prelude.{
  ℕ, ◌-◌, ◌+◌, ◌≡◌, ◌≢◌, refl, ap, ◌∙◌, Text, true, false, ◌||◌, ◌==◌, text_eq_iff, Option, none,
  some, List, [], ◌∷◌, All, All-imp, All-select, All-take, All-map_of, take, map, arith,
  Option-cases, Bool-cases, inl, inr, nat_eq, length,
}
use relaybox.Prelude.Sort.{All-sort}
use relaybox.Map.{Map, get, put, has, keys, values, get-put_ne}
use relaybox.Store.Model.{
  Request, Job, pending, Event, CaptureResult, captured, duplicate, conflict, terminal_state,
}
use relaybox.Store.Errors.{Error, Result, ok, err, Result-cases}
use relaybox.Store.Env.{Env}
use relaybox.Store.Options.{Options}
use relaybox.Store.Tables.{Tables, RecordRef, get_list, job_at, job_ids}
use relaybox.Store.State.{Store, Disk}
use relaybox.Store.Apply.{apply_rows, remove_request}
use relaybox.Store.Apply.Kept.{IsSafe, remove_requests-IsSafe}
use relaybox.Store.Append.{stamp}
use relaybox.Store.Append.Effect.{Effect, idle, moved, append-Effect}
use relaybox.Store.Jobs.Moves.{other-job}
use relaybox.Store.Accept.{
  Answer, accept, accept_new, accept_duplicate, repair, settle, find_duplicate, bad_intent,
  job_taken, capture_event, discoverable_job, request_terminal, all_terminal, candidates,
  capture_evictions, received_before,
}

All-of {ℓ κ} : {A : Type ℓ} {P : A → Type κ} → ((x : A) → P x) → (xs : List A) → All P xs
All-of h [] = tt
All-of h (x ∷ xs) = (h x, All-of h xs)

candidates-terminal : (t : Tables) → All (λ r. request_terminal t r.id ≡ true) (candidates t)
unfolding candidates
candidates-terminal t =
    All-sort received_before (λ r. request_terminal t r.id ≡ true) _
      (All-imp (λ (r : Request) h. h.1) _
        (All-select (λ (r : Request). Unit {0}) (λ r. request_terminal t r.id) (values t.requests)
          (All-of (λ r. tt) (values t.requests))))

-- What may be evicted has no job left to do.
evictions-terminal :
    (o : Options) (t : Tables) (n : ℕ) (ids : List Text)
    → capture_evictions o t n ≡ ok ids
    → All (λ id. request_terminal t id ≡ true) ids
unfolding capture_evictions
evictions-terminal o t n ids h =
    let over = length t.requests + n - o.max_captures in
    let chosen =
      All-map_of (λ id. request_terminal t id ≡ true) (λ r. r.id) (take over (candidates t))
        (All-take (λ (r : Request). request_terminal t r.id ≡ true) over (candidates t)
          (candidates-terminal t)) in
    elim (Bool-cases (nat_eq over 0)) [
      | inl fits ↦ let same : [] ≡ ids = ground (arith, h, fits) in rw (← same) tt
      | inr full ↦
          let same : map (λ r. r.id) (take over (candidates t)) ≡ ids = ground (arith, h, full) in
          rw (← same) chosen
    ]

-- A job that has work left is in the index of no request that counts as finished.
finished-apart :
    (t : Tables) (k : Text) (j : Job) (ids : Map (Unit {0}))
    → get k t.jobs ≡ some j
    → terminal_state j.state ≡ false
    → all_terminal t (keys ids) ≡ true
    → get k ids ≡ none
unfolding all_terminal job_at get
finished-apart t k j [] there busy h = refl
finished-apart t k j ((i, u) ∷ ids) there busy h = elim (Bool-cases (i == k)) [
  | inl same ↦
      let at : get i t.jobs ≡ some j = ap (λ x. get x t.jobs) ((text_eq_iff i k).0 same) ∙ there in
      absurd (ground (arith, at, busy, h))
  | inr apart ↦ ground (arith, apart, finished-apart t k j ids there busy)
]

-- The rows of a capture add its job, if any, to what its evictions leave.
module _ (o : Options) (ref : RecordRef) (t : Tables) (seq clock : ℕ) (q : Request)
    (evictions : List Text) where
  jobs-capture :
      (job : Option Job)
      → (apply_rows o (stamp seq clock (capture_event q job evictions)) ref t).jobs ≡ elim job [
        | none ↦ (foldl remove_request t evictions).jobs
        | some i ↦ put i.id i (foldl remove_request t evictions).jobs
      ]
  unfolding apply_rows stamp
  jobs-capture none = ground arith
  jobs-capture (some i) = ground arith

  capture-keeps :
      (k : Text) (j : Job) (job : Option Job)
      → job_taken t job ≡ false
      → get k t.jobs ≡ some j
      → get k (foldl remove_request t evictions).jobs ≡ some j
      → get k (apply_rows o (stamp seq clock (capture_event q job evictions)) ref t).jobs ≡ some j
  capture-keeps k j none free there kept = rw (jobs-capture none) kept
  capture-keeps k j (some i) free there kept =
      let apart : i.id ≢ k = λ e. absurd (ground (arith, free, ap (λ x. get x t.jobs) e ∙ there)) in
      rw (jobs-capture (some i)) (get-put_ne i.id k i _ apart ∙ kept)

module _ (k : Text) (j : Job) (s : Store) (there : get k s.jobs ≡ some j)
    (busy : terminal_state j.state ≡ false) where
  start-IsSafe : IsSafe k j (λ rid. request_terminal s.tables rid ≡ true) s.tables
  unfolding request_terminal job_ids
  start-IsSafe = record {
    there = there;
    elsewhere = λ rid h. finished-apart s.tables k j (get_list rid s.jobs_by_request) there busy h;
  }

  Effect-keeps :
      (q : Request) (job : Option Job) (evictions : List Text) (seq clock : ℕ) {r : Result Event}
      {s' : Store}
      → capture_evictions s.options s.tables 1 ≡ ok evictions
      → job_taken s.tables job ≡ false
      → Effect s (stamp seq clock (capture_event q job evictions)) r s'
      → get k s'.jobs ≡ some j
  Effect-keeps q job evictions seq clock allowed free (idle x rows) = rw rows.jobs there
  Effect-keeps q job evictions seq clock allowed free (moved r ref same fits rows) =
      let safe =
        remove_requests-IsSafe k j (λ rid. request_terminal s.tables rid ≡ true) evictions s.tables
          (evictions-terminal s.options s.tables 1 evictions allowed) start-IsSafe in
      rw rows.jobs
        (capture-keeps s.options ref s.tables seq clock q evictions k j job free there safe.there)

  store-settle :
      (good : Answer) (bad : Error → Answer) (x : Result Event × Store)
      → (settle good bad x).1 ≡ x.1
  unfolding settle
  store-settle good bad (ok e, t) = refl
  store-settle good bad (err x, t) = refl

  module _ (env : Env) (d : Disk) where
    new-keeps : (q : Request) (job : Option Job) → get k (accept_new env d q job s).1.jobs ≡ some j
    unfolding accept_new
    new-keeps q job = elim (Bool-cases (has q.id s.requests || job_taken s.tables job)) [
      | inl taken ↦ rw (taken, accept_new) there
      | inr free ↦ elim (Result-cases (capture_evictions s.options s.tables 1)) [
        | inr (x, full) ↦ rw (free, full, accept_new) there
        | inl (evictions, allowed) ↦
            rw (free, allowed, accept_new, store-settle)
              (Effect-keeps q job evictions s.seq d.clock allowed (ground (arith, free))
                (append-Effect env d (capture_event q job evictions) s))
      ]
    ]

    repair-keeps : (id : Text) (i : Job) → get k (repair env d id i s).1.jobs ≡ some j
    unfolding repair
    repair-keeps id i = elim (Bool-cases (has i.id s.jobs)) [
      | inl taken ↦ rw (taken, repair) there
      | inr free ↦
          let apart : i.id ≢ k =
            λ e. absurd (ground (arith, free, ap (λ x. get x s.jobs) e ∙ there)) in
          rw (free, repair, store-settle)
            (other-job env d pending (record i { request_id = id }) none s k apart ∙ there)
    ]

    duplicate-keeps :
        (id : Text) (result : CaptureResult) (given persisted : Option Job)
        → get k (accept_duplicate env d id result given persisted s).1.jobs ≡ some j
    unfolding accept_duplicate
    duplicate-keeps id duplicate (some i) none = repair-keeps id i
    duplicate-keeps id duplicate none persisted = there
    duplicate-keeps id duplicate (some i) (some p) = there
    duplicate-keeps id captured given persisted = there
    duplicate-keeps id conflict given persisted = there

    -- A job that is not finished is still there, unchanged, after a request has been accepted or
    -- refused, whatever had to be evicted for it and whatever the disk answers.
    pub accept-keeps_unfinished :
        (q : Request) (job : Option Job) → get k (accept env d q job s).1.jobs ≡ some j
    unfolding accept
    accept-keeps_unfinished q job = elim (Bool-cases (bad_intent q job)) [
      | inl bad ↦ rw (bad, accept) there
      | inr good ↦ elim (Option-cases (find_duplicate s.tables q)) [
        | inl new ↦ rw (good, new, accept) (new-keeps q job)
        | inr ((id, result), known) ↦
            rw (good, known, accept) (duplicate-keeps id result job (discoverable_job s.tables id))
      ]
    ]
