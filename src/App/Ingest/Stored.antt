-- ===== src/App/Ingest/Stored.antt =====
-- What a delivery has passed when it is accepted, and what becomes of one that comes again.
use relaybox.Prelude.{
  ℕ, [], ◌≤◌, ◌<◌, ◌≡◌, refl, ap, ◌∙◌, inl, inr, Text, codes, true, false, Option, none, some,
  is_empty, length, arith, Bool-cases,
}
use relaybox.Prelude.Try.{Try, bad, good}
use relaybox.Store.Model.{Job, captured, duplicate, conflict, CaptureResult}
use relaybox.Store.Errors.{Error}
use relaybox.Store.Env.{Env}
use relaybox.Store.State.{Store}
use relaybox.Store.Accept.{Answer, accept}
use relaybox.Store.Accept.Outcome.{IsCaptured, accept-IsCaptured, accept-answer}
use relaybox.App.Auth.{verify}
use relaybox.App.Ingest.{
  Outside, Config, Moment, Delivery, Response, answered, ingest, ingest_checked, delivery_error,
  capture_as, capture_with, capture_of, job_for, respond, respond_to, respond_result, is_capacity,
  failed, conflicting, scheduled,
}

-- The response says that the delivery has been stored.

-- What a delivery has passed that is answered with 202.
pub record IsIngested (env : Env) (o : Outside) (c : Config) (w : Moment) (d : Delivery) (id : Text)
    (s s' : Store) : Type 0 where
  pub accepting : w.accepting ≡ true
  pub room : w.in_flight < c.max_in_flight
  pub bounded : length d.body ≤ c.max_body
  pub whole : d.broken ≡ false
  pub signed : is_empty c.secret ≡ false → verify o.crypto c.secret d.signature d.body ≡ true
  pub job : Option Job
  pub job_made : job_for o c w id ≡ good job
  pub capture : IsCaptured env w.disk (capture_of env o c w d id) job s s'

abbrev id_of : Response → Text
id_of (answered status id again) = id
id_of r = []

abbrev status_of : Response → ℕ
status_of (failed status message) = status
status_of (answered status id again) = status
status_of (conflicting id) = 409
status_of scheduled = 202

result-accepted :
    (r : CaptureResult) (i id : Text) (j : Option Job) (s : Store)
    → (respond_result r i j s).response ≡ answered 202 id false
    → (r ≡ captured) × (i ≡ id) × ((respond_result r i j s).store ≡ s)
unfolding respond_result
result-accepted captured i id j s h = (refl, ap id_of h, refl)
result-accepted duplicate i id j s h = absurd (omega (arith, ap status_of h))
result-accepted conflict i id j s h = absurd (omega (arith, ap status_of h))

-- An answer of the store that is passed on as 202.
to-accepted :
    (o : Option Error) (a : Answer) (s : Store) (id : Text)
    → (respond_to o (a, s)).response ≡ answered 202 id false
    → (o ≡ none) × (a.result ≡ captured) × (a.id ≡ id) × ((respond_to o (a, s)).store ≡ s)
unfolding respond_to
to-accepted none a s id h =
    let (result, same, store) = result-accepted a.result a.id id a.job s h in
    (refl, result, same, store)
to-accepted (some x) a s id h = elim (Bool-cases (is_capacity x)) [
  | inl full ↦ absurd (omega (arith, ap status_of (rw (full, respond_to) at h)))
  | inr other ↦ absurd (omega (arith, ap status_of (rw (other, respond_to) at h)))
]

refused :
    {A : Type 0} (status : ℕ) (message id : Text)
    → failed status message ≡ answered 202 id false
    → A
refused status message id h = cc

module _ (env : Env) (o : Outside) (c : Config) (w : Moment) (d : Delivery) (s : Store)
    (id : Text) where
  passed :
      delivery_error o c w d ≡ none
      → (w.accepting ≡ true)
        × (w.in_flight < c.max_in_flight)
        × (length d.body ≤ c.max_body)
        × (d.broken ≡ false)
        × (is_empty c.secret ≡ false → verify o.crypto c.secret d.signature d.body ≡ true)
  unfolding delivery_error
  passed h = ground arith

  with-accepted :
      (i : Text) (t : Try Text (Option Job))
      → (capture_with env w (capture_of env o c w d i) t s).response ≡ answered 202 id false
      → job_for o c w i ≡ t
      → delivery_error o c w d ≡ none
      → IsIngested env o c w d id s (capture_with env w (capture_of env o c w d i) t s).store
  unfolding capture_with respond capture_of
  with-accepted i (bad message) h made fine = refused 500 message id h
  with-accepted i (good job) h made fine =
      let r = capture_of env o c w d i in
      let p = accept env w.disk r job s in
      let (no_error, is_captured, same, store) = to-accepted p.0.error p.0 p.1 id h in
      let own : i ≡ id =
        ap (λ (a : Answer). a.id)
          (accept-answer env w.disk r job s p.1 p.0 refl is_captured no_error)
        ∙ same in
      let (accepting, room, bounded, whole, signed) = passed fine in
      rw store (
        rw (← own) (record {
          accepting = accepting;
          room = room;
          bounded = bounded;
          whole = whole;
          signed = signed;
          job = job;
          job_made = made;
          capture = accept-IsCaptured env w.disk r job s p.1 p.0 refl is_captured no_error;
        }))

  as-accepted :
      (o_id : Option Text)
      → (capture_as env o c w d o_id s).response ≡ answered 202 id false
      → delivery_error o c w d ≡ none
      → IsIngested env o c w d id s (capture_as env o c w d o_id s).store
  unfolding capture_as
  as-accepted none h fine = refused 500 (codes "entropy unavailable") id h
  as-accepted (some i) h fine = with-accepted i (job_for o c w i) h refl fine

  checked-accepted :
      (e : Option (ℕ × Text))
      → (ingest_checked env o c w d e s).response ≡ answered 202 id false
      → delivery_error o c w d ≡ e
      → IsIngested env o c w d id s (ingest_checked env o c w d e s).store
  unfolding ingest_checked
  checked-accepted none h fine = as-accepted w.first_id h fine
  checked-accepted (some (status, message)) h fine = refused status message id h

  -- A delivery is answered with 202 and an identifier only if the service accepts and has room, its
  -- body is whole and within the limit, it is signed where there is a secret, and the store, as the
  -- handler leaves it, has captured it under that identifier, with its job if it is to be forwarded.
  pub ingest-IsIngested :
      (ingest env o c w d s).response ≡ answered 202 id false
      → IsIngested env o c w d id s (ingest env o c w d s).store
  unfolding ingest
  ingest-IsIngested h = checked-accepted (delivery_error o c w d) h refl
