-- ===== src/App/Ingest/Again.antt =====
-- A delivery that comes again after it has been accepted.
use relaybox.Prelude.{
  ℕ, ◌<◌, ◌≡◌, ◌⊎◌, refl, ap, ◌∙◌, inl, inr, Text, true, false, ==-refl, Option, none, some,
  is_empty, arith, Bool-cases, if◌then◌else◌,
}
use relaybox.Prelude.Try.{good}
use relaybox.Store.Model.{Request, Job, duplicate}
use relaybox.Store.Env.{Env}
use relaybox.Store.State.{Store}
use relaybox.Store.Accept.{Answer, accept, discoverable_job, bad_intent}
use relaybox.Store.Accept.Repeats.{IsCaptured-Knows, accept-known, IsServed}
use relaybox.App.Target.{TargetError, validate_target}
use relaybox.App.Ingest.{
  Outside, Config, Moment, Delivery, answered, ingest, ingest_checked, delivery_error, capture_as,
  capture_with, capture_of, job_for, respond, respond_to, respond_result, new_job, job_checked,
  job_waits,
}
use relaybox.App.Ingest.Stored.{IsIngested, ingest-IsIngested}

-- The job that a delivery would get.
abbrev job_under : Config → Moment → Text → Text → Option Job
job_under c w job_id id =
    if is_empty c.forward_url then none else some (new_job job_id id c.forward_url w.job_now)

checked-again :
    (url id i j : Text) (now later : ℕ) (e : Option TargetError) (new_id : Option Text)
    (job : Option Job)
    → job_checked url id now e new_id ≡ good job
    → job_checked url i later e (some j) ≡ good (some (new_job j i url later))
checked-again url id i j now later (some e) new_id job h = cc
checked-again url id i j now later none new_id job h = refl

job_for-again :
    (o : Outside) (c : Config) (w w₂ : Moment) (id i j : Text) (job : Option Job)
    → job_for o c w id ≡ good job
    → w₂.second_id ≡ some j
    → job_for o c w₂ i ≡ good (job_under c w₂ j i)
unfolding job_for
job_for-again o c w w₂ id i j job h e = elim (Bool-cases (is_empty c.forward_url)) [
  | inl none_ ↦ rw (none_, job_for) refl
  | inr url ↦
      let target = validate_target o.parse_url o.parse_addr c.forward_url c.allow_private in
      let made =
        checked-again c.forward_url id i j w.job_now w₂.job_now target w.second_id job
          (rw url at h) in
      rw url (ap (job_checked c.forward_url i w₂.job_now target) e ∙ made)
]

proper_intent :
    (env : Env) (o : Outside) (c : Config) (w : Moment) (d : Delivery) (i j : Text)
    → is_empty j ≡ false
    → bad_intent (capture_of env o c w d i) (job_under c w j i) ≡ false
unfolding capture_of
proper_intent env o c w d i j h = elim (Bool-cases (is_empty c.forward_url)) [
  | inl none_ ↦ rw none_ refl
  | inr url ↦ rw (url, h) (ground (arith, ==-refl i))
]

-- The job under which a delivery would be forwarded is there, or nothing is forwarded.
unfoldable pub IsForwardable : Config → Store → Text → Type 0
IsForwardable c s id =
    (is_empty c.forward_url ≡ true) ⊎ ((j : Job) × (discoverable_job s.tables id ≡ some j))

forwardable-IsServed :
    (c : Config) (w : Moment) (j i id : Text) (s : Store)
    → IsForwardable c s id
    → IsServed s id (job_under c w j i)
unfolding IsForwardable IsServed
forwardable-IsServed c w j i id s (inl h) = inl (rw h refl)
forwardable-IsServed c w j i id s (inr h) = inr h

respond-duplicate :
    (id : Text) (job : Option Job) (s : Store)
    → respond (record { id = id; result = duplicate; job = job; error = none }, s)
      ≡ record { response = answered 200 id true; store = s; wakes = job_waits job }
unfolding respond respond_to respond_result
respond-duplicate id job s = refl

module _ (env : Env) (o : Outside) (c : Config) (w w₂ : Moment) (d : Delivery) (s s' : Store)
    (id i j : Text) (first : IsIngested env o c w d id s s') where
  fine-again : w₂.accepting ≡ true → w₂.in_flight < c.max_in_flight → delivery_error o c w₂ d ≡ none
  unfolding delivery_error
  fine-again on room = ground (arith, first.bounded, first.whole, first.signed)

  abbrev again : Request
  again = capture_of env o c w₂ d i

  abbrev repeated : Answer
  repeated = record {
    id = id;
    result = duplicate;
    job = discoverable_job s'.tables id;
    error = none;
  }

  accept-repeated :
      is_empty j ≡ false
      → IsForwardable c s' id
      → accept env w₂.disk again (job_under c w₂ j i) s' ≡ (repeated, s')
  unfolding capture_of
  accept-repeated named forwardable =
      let r = capture_of env o c w d id in
      let known = IsCaptured-Knows env w.disk r first.job s s' first.capture in
      accept-known env w₂.disk r again (job_under c w₂ j i) s' known refl (λ h. refl)
        (proper_intent env o c w₂ d i j named) (forwardable-IsServed c w₂ j i id s' forwardable)
      ∙ rw (==-refl (env.digest d.body)) refl

  ingest-repeated :
      w₂.accepting ≡ true
      → w₂.in_flight < c.max_in_flight
      → w₂.first_id ≡ some i
      → w₂.second_id ≡ some j
      → is_empty j ≡ false
      → IsForwardable c s' id
      → ingest env o c w₂ d s' ≡ record {
        response = answered 200 id true;
        store = s';
        wakes = job_waits (discoverable_job s'.tables id);
      }
  unfolding ingest ingest_checked capture_as capture_with
  ingest-repeated on room has_first has_second named forwardable =
      ap (λ e. ingest_checked env o c w₂ d e s') (fine-again on room)
      ∙ ap (λ x. capture_as env o c w₂ d x s') has_first
      ∙ ap (λ t. capture_with env w₂ again t s')
          (job_for-again o c w w₂ id i j first.job first.job_made has_second)
      ∙ ap respond (accept-repeated named forwardable)
      ∙ respond-duplicate id (discoverable_job s'.tables id) s'

-- A delivery that has been answered with 202 and comes again, while the service accepts and has room,
-- is answered with 200 and the same identifier as a duplicate, and the store stays as it is. Where
-- captures are forwarded, the capture must have a job. A worker is woken where that job is unfinished.
pub ingest-again :
    (env : Env) (o : Outside) (c : Config) (w w₂ : Moment) (d : Delivery) (s : Store)
    (id i j : Text)
    → (ingest env o c w d s).response ≡ answered 202 id false
    → w₂.accepting ≡ true
    → w₂.in_flight < c.max_in_flight
    → w₂.first_id ≡ some i
    → w₂.second_id ≡ some j
    → is_empty j ≡ false
    → IsForwardable c (ingest env o c w d s).store id
    → ingest env o c w₂ d (ingest env o c w d s).store ≡ record {
      response = answered 200 id true;
      store = (ingest env o c w d s).store;
      wakes = job_waits (discoverable_job (ingest env o c w d s).store.tables id);
    }
ingest-again env o c w w₂ d s id i j h =
    ingest-repeated env o c w w₂ d s (ingest env o c w d s).store id i j
      (ingest-IsIngested env o c w d s id h)
