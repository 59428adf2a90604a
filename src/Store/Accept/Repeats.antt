-- ===== src/Store/Accept/Repeats.antt =====
-- A capture that comes again after it has been accepted.
use mathlib.Core.List.{foldl}
use relaybox.Prelude.{
  ℕ, ◌≡◌, ◌⊎◌, refl, sym, ap, ◌∙◌, Text, true, false, ◌==◌, text_eq_iff, Option, none, some, List,
  [], is_empty, arith, Bool-cases, inl, inr, if◌then◌else◌,
}
use relaybox.Map.{get, put, get-put_self}
use relaybox.Store.Model.{Request, Job, Event, CaptureResult, captured, duplicate, conflict}
use relaybox.Store.Errors.{Result, ok}
use relaybox.Store.Env.{Env}
use relaybox.Store.Options.{Options}
use relaybox.Store.Tables.{Tables, RecordRef}
use relaybox.Store.State.{Store, Disk}
use relaybox.Store.Apply.{apply_rows, remove_request}
use relaybox.Store.Append.{stamp}
use relaybox.Store.Append.Effect.{Effect, idle, moved, append-Effect}
use relaybox.Store.Accept.{
  accept, accept_duplicate, find_duplicate, digest_at, capture_event, discoverable_job, bad_intent,
}
use relaybox.Store.Accept.Outcome.{IsCaptured}

-- The tables know the capture `r`: by its delivery ID, or by its body where it has none.
pub record Knows (r : Request) (s : Store) : Type 0 where
  pub row : get r.id s.requests ≡ some (record r { body = [] })
  pub delivery : is_empty r.delivery_id ≡ false → get r.delivery_id s.delivery ≡ some r.id
  pub body : is_empty r.delivery_id ≡ true → get r.body_sha256 s.body ≡ some r.id

-- What the event of a capture puts into the tables.
module _ (o : Options) (ref : RecordRef) (t : Tables) (seq clock : ℕ) (r : Request)
    (evictions : List Text) where
  abbrev event : Option Job → Event
  event job = stamp seq clock (capture_event r job evictions)

  abbrev rest : Tables
  rest = foldl remove_request t evictions

  pub requests-capture :
      (job : Option Job)
      → (apply_rows o (event job) ref t).requests ≡ put r.id (record r { body = [] }) rest.requests
  unfolding apply_rows stamp
  requests-capture none = ground arith
  requests-capture (some j) = ground arith

  delivery-capture :
      (job : Option Job)
      → is_empty r.delivery_id ≡ false
      → (apply_rows o (event job) ref t).delivery ≡ put r.delivery_id r.id rest.delivery
  unfolding apply_rows stamp
  delivery-capture none h = ground arith
  delivery-capture (some j) h = ground arith

  body-capture :
      (job : Option Job)
      → is_empty r.delivery_id ≡ true
      → (apply_rows o (event job) ref t).body ≡ put r.body_sha256 r.id rest.body
  unfolding apply_rows stamp
  body-capture none h = ground arith
  body-capture (some j) h = ground arith

Effect-Knows :
    (o : Option Job) (r : Request) (evictions : List Text) (seq clock : ℕ) (s s' : Store)
    {x : Result Event} (e : Event)
    → Effect s (stamp seq clock (capture_event r o evictions)) x s'
    → x ≡ ok e
    → Knows r s'
Effect-Knows job r evictions seq clock s s' e (idle b rows) h = cc
Effect-Knows job r evictions seq clock s s' e (moved x ref same fits rows) h = record {
  row = rw (rows.requests, requests-capture) (get-put_self r.id (record r { body = [] }) _);
  delivery = λ d.
      rw (rows.delivery, delivery-capture s.options ref s.tables seq clock r evictions job d)
        (get-put_self r.delivery_id r.id _);
  body = λ d.
      rw (rows.body, body-capture s.options ref s.tables seq clock r evictions job d)
        (get-put_self r.body_sha256 r.id _);
}

pub IsCaptured-Knows :
    (env : Env) (d : Disk) (r : Request) (job : Option Job) (s s' : Store)
    → IsCaptured env d r job s s'
    → Knows r s'
IsCaptured-Knows env d r job s s' c = rw c.leaves at (
    Effect-Knows job r c.evictions s.seq d.clock s _ c.event
      (append-Effect env d (capture_event r job c.evictions) s) c.stored)

abbrev pub verdict : Request → Request → CaptureResult
verdict r q = if r.body_sha256 == q.body_sha256 then duplicate else conflict

pub Knows-find :
    (r q : Request) (s : Store)
    → Knows r s
    → q.delivery_id ≡ r.delivery_id
    → (is_empty r.delivery_id ≡ true → q.body_sha256 ≡ r.body_sha256)
    → find_duplicate s.tables q ≡ some (r.id, verdict r q)
unfolding find_duplicate
Knows-find r q s k same body = elim (Bool-cases (is_empty r.delivery_id)) [
  | inl no_id ↦
      let found : get q.body_sha256 s.body ≡ some r.id =
        ap (λ b. get b s.body) (body no_id) ∙ k.body no_id in
      let agree : (r.body_sha256 == q.body_sha256) ≡ true =
        (text_eq_iff r.body_sha256 q.body_sha256).1 (sym (body no_id)) in
      rw (same, no_id, found, agree)
  | inr has_id ↦
      let found : get q.delivery_id s.delivery ≡ some r.id =
        ap (λ b. get b s.delivery) same ∙ k.delivery has_id in
      let digest : digest_at s.tables r.id ≡ r.body_sha256 = rw (k.row, digest_at) in
      ground (arith, same, has_id, found, digest)
]

-- The store has a job to name for the capture, or none is asked for.
unfoldable pub IsServed : Store → Text → Option Job → Type 0
IsServed s id given = (given ≡ none) ⊎ ((j : Job) × (discoverable_job s.tables id ≡ some j))

answered_served :
    (env : Env) (d : Disk) (id : Text) (result : CaptureResult) (given persisted : Option Job)
    (s : Store)
    → (given ≡ none) ⊎ ((j : Job) × (persisted ≡ some j))
    → accept_duplicate env d id result given persisted s
      ≡ (record { id = id; result = result; job = persisted; error = none }, s)
unfolding accept_duplicate
answered_served env d id duplicate (some j) none s (inl h) = cc
answered_served env d id duplicate (some j) none s (inr (i, h)) = cc
answered_served env d id duplicate (some j) (some i) s h = refl
answered_served env d id duplicate none persisted s h = refl
answered_served env d id captured given persisted s h = refl
answered_served env d id conflict given persisted s h = refl

-- A capture that the store knows, with or without a job for it.
pub accept-known :
    (env : Env) (d : Disk) (r q : Request) (given : Option Job) (s : Store)
    → Knows r s
    → q.delivery_id ≡ r.delivery_id
    → (is_empty r.delivery_id ≡ true → q.body_sha256 ≡ r.body_sha256)
    → bad_intent q given ≡ false
    → IsServed s r.id given
    → accept env d q given s ≡ (
      record {
        id = r.id;
        result = verdict r q;
        job = discoverable_job s.tables r.id;
        error = none;
      },
      s,
    )
unfolding accept IsServed
accept-known env d r q given s k same body proper served =
    rw (proper, Knows-find r q s k same body)
      (answered_served env d r.id (verdict r q) given (discoverable_job s.tables r.id) s served)
