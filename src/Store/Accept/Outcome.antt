-- ===== src/Store/Accept/Outcome.antt =====
-- What a call of `Accept` has done: which event it has appended, if any, and what that means for
-- the captures.
use relaybox.Prelude.{
  ◌≡◌, ◌≢◌, refl, sym, ap, ◌∙◌, Text, false, Option, none, some, List, arith, Option-cases,
  Bool-cases, inl, inr, ◌||◌,
}
use relaybox.Map.{has}
use relaybox.Store.Model.{Request, Job, Event, CaptureResult, captured, duplicate, conflict}
use relaybox.Store.Errors.{Error, Result, ok, err, Result-cases}
use relaybox.Store.Env.{Env}
use relaybox.Store.State.{Store, Disk}
use relaybox.Store.Append.{append}
use relaybox.Store.Accept.{
  Answer, accept, accept_new, accept_duplicate, repair, settle, failure, find_duplicate, bad_intent,
  job_taken, capture_evictions, capture_event, discoverable_job,
}

-- What an accepted capture has passed, and the append that has stored it.
pub record IsCaptured (env : Env) (d : Disk) (r : Request) (job : Option Job) (s s' : Store)
    : Type 0 where
  pub evictions : List Text
  pub event : Event
  pub allowed : capture_evictions s.options s.tables 1 ≡ ok evictions
  pub unknown : find_duplicate s.tables r ≡ none
  pub new : has r.id s.requests ≡ false
  pub stored : (append env d (capture_event r job evictions) s).0 ≡ ok event
  pub leaves : (append env d (capture_event r job evictions) s).1 ≡ s'

failed {ℓ} : {A : Type ℓ} (x : Error) (a : Answer) → failure x ≡ a → a.error ≡ none → A
failed x a h n = cc (ap (λ (b : Answer). b.error) h, n)

settle-lem :
    (good : Answer) (x : Result Event × Store) (a : Answer) (s' : Store)
    → settle good failure x ≡ (a, s')
    → a.error ≡ none
    → (e : Event) × (x.0 ≡ ok e) × (x.1 ≡ s')
unfolding settle
settle-lem good (ok e, s) a s' h n = (e, refl, cc)
settle-lem good (err b, s) a s' h n = failed b a (ap (λ (y : Answer × Store). y.0) h) n

module _ (env : Env) (d : Disk) (r : Request) (job : Option Job) (s s' : Store) (a : Answer) where
  new-IsCaptured :
      find_duplicate s.tables r ≡ none
      → accept_new env d r job s ≡ (a, s')
      → a.error ≡ none
      → IsCaptured env d r job s s'
  unfolding accept_new
  new-IsCaptured unknown h n = elim (Bool-cases (has r.id s.requests || job_taken s.tables job)) [
    | inl taken ↦ failed Error.id_collision a (ap (λ (y : Answer × Store). y.0) (rw taken at h)) n
    | inr free ↦ elim (Result-cases (capture_evictions s.options s.tables 1)) [
      | inr (x, full) ↦ failed x a (ap (λ (y : Answer × Store). y.0) (rw (free, full) at h)) n
      | inl (evictions, allowed) ↦
          let good : Answer = record { id = r.id; result = captured; job = job; error = none } in
          let (e, stored, leaves) =
            settle-lem good (append env d (capture_event r job evictions) s) a s'
              (rw (free, allowed) at h) n in
          record {
            evictions = evictions;
            event = e;
            allowed = allowed;
            unknown = unknown;
            new = ground arith;
            stored = stored;
            leaves = leaves;
          }
    ]
  ]

  abbrev pub capture_answer : Answer
  capture_answer = record { id = r.id; result = captured; job = job; error = none }

  settled-answer :
      (x : Result Event × Store)
      → settle capture_answer failure x ≡ (a, s')
      → a.error ≡ none
      → capture_answer ≡ a
  unfolding settle
  settled-answer (ok e, t) h n = ap (λ (y : Answer × Store). y.0) h
  settled-answer (err b, t) h n = failed b a (ap (λ (y : Answer × Store). y.0) h) n

  new-answer : accept_new env d r job s ≡ (a, s') → a.error ≡ none → capture_answer ≡ a
  unfolding accept_new
  new-answer h n = elim (Bool-cases (has r.id s.requests || job_taken s.tables job)) [
    | inl taken ↦ failed Error.id_collision a (ap (λ (y : Answer × Store). y.0) (rw taken at h)) n
    | inr free ↦ elim (Result-cases (capture_evictions s.options s.tables 1)) [
      | inr (x, full) ↦ failed x a (ap (λ (y : Answer × Store). y.0) (rw (free, full) at h)) n
      | inl (evictions, allowed) ↦
          settled-answer (append env d (capture_event r job evictions) s) (rw (free, allowed) at h)
            n
    ]
  ]

  settle_result :
      (good : Answer) (bad : Error → Answer) (x : Result Event × Store) (result : CaptureResult)
      → good.result ≡ result
      → ((b : Error) → (bad b).result ≡ result)
      → (settle good bad x).0.result ≡ result
  unfolding settle
  settle_result good bad (ok e, t) result h k = h
  settle_result good bad (err b, t) result h k = k b

  repair_result : (id : Text) (j : Job) → (repair env d id j s).0.result ≡ duplicate
  unfolding repair
  repair_result id j = elim (Bool-cases (has j.id s.jobs)) [
    | inl taken ↦ rw (taken, repair)
    | inr free ↦ rw (free, repair) (settle_result _ _ _ duplicate refl (λ b. refl))
  ]

  duplicate_result :
      (id : Text) (result : CaptureResult) (given persisted : Option Job)
      → (accept_duplicate env d id result given persisted s).0.result ≡ result
  unfolding accept_duplicate
  duplicate_result id duplicate (some j) none = repair_result id j
  duplicate_result id duplicate none persisted = refl
  duplicate_result id duplicate (some j) (some i) = refl
  duplicate_result id captured given persisted = refl
  duplicate_result id conflict given persisted = refl

  not_captured :
      (id : Text) (result : CaptureResult)
      → find_duplicate s.tables r ≡ some (id, result)
      → result ≢ captured
  unfolding find_duplicate
  not_captured id result h is_ = ground (arith, h, is_)

  known_elsewhere :
      (id : Text) (result : CaptureResult)
      → find_duplicate s.tables r ≡ some (id, result)
      → accept_duplicate env d id result job (discoverable_job s.tables id) s ≡ (a, s')
      → a.result ≢ captured
  known_elsewhere id result known same c = not_captured id result known (
      sym (duplicate_result id result job (discoverable_job s.tables id))
      ∙ ap (λ (y : Answer × Store). y.0.result) same
      ∙ c)

  -- What a capture is answered that has been accepted.
  pub accept-answer :
      accept env d r job s ≡ (a, s') → a.result ≡ captured → a.error ≡ none → capture_answer ≡ a
  unfolding accept
  accept-answer h c n = elim (Bool-cases (bad_intent r job)) [
    | inl bad ↦ failed Error.invalid_intent a (ap (λ (y : Answer × Store). y.0) (rw bad at h)) n
    | inr good ↦ elim (Option-cases (find_duplicate s.tables r)) [
      | inl unknown ↦ new-answer (rw (good, unknown) at h) n
      | inr ((id, result), known) ↦
          absurd (known_elsewhere id result known (rw (good, known) at h) c)
    ]
  ]

  pub accept-IsCaptured :
      accept env d r job s ≡ (a, s')
      → a.result ≡ captured
      → a.error ≡ none
      → IsCaptured env d r job s s'
  unfolding accept
  accept-IsCaptured h c n = elim (Bool-cases (bad_intent r job)) [
    | inl bad ↦ failed Error.invalid_intent a (ap (λ (y : Answer × Store). y.0) (rw bad at h)) n
    | inr good ↦ elim (Option-cases (find_duplicate s.tables r)) [
      | inl unknown ↦ new-IsCaptured unknown (rw (good, unknown) at h) n
      | inr ((id, result), known) ↦
          absurd (known_elsewhere id result known (rw (good, known) at h) c)
    ]
  ]
