-- ===== src/Store/Apply/Frame.antt =====
-- What the parts of `apply_rows` leave alone.
use mathlib.Core.List.{foldl}
use relaybox.Prelude.{
  ap, text_eq_iff, ◌==◌, if◌then◌else◌, Text, ◌≡◌, refl, ◌∙◌, List, [], ◌∷◌, arith, Option-cases,
  inl, inr, none, some,
}
use relaybox.Map.{get, get-delete, delete, keys}
use relaybox.Store.Model.{Request, Event}
use relaybox.Store.Options.{Options}
use relaybox.Store.Tables.{Tables, RecordRef, get_list}
use relaybox.Store.Apply.{
  remove_job, remove_request, drop_keys, drop_rows, add_request, add_attempt, add_job, apply_rows,
}

-- A part of the tables that no step of a loop changes is the same after the loop.
pub foldl-keeps {ℓ} :
    {X : Type ℓ} (part : Tables → X) (step : Tables → Text → Tables)
    → ((t : Tables) (id : Text) → part (step t id) ≡ part t)
    → (ids : List Text) (t : Tables) → part (foldl step t ids) ≡ part t
foldl-keeps part step h [] t = refl
foldl-keeps part step h (id ∷ ids) t = foldl-keeps part step h ids (step t id) ∙ h t id

-- Likewise for a property of the tables.
pub foldl-preserves {ℓ} :
    (P : Tables → Type ℓ) (step : Tables → Text → Tables)
    → ((t : Tables) (id : Text) → P t → P (step t id))
    → (ids : List Text) (t : Tables) → P t
    → P (foldl step t ids)
foldl-preserves P step h [] t p = p
foldl-preserves P step h (id ∷ ids) t p = foldl-preserves P step h ids (step t id) (h t id p)

-- What a part of the tables must ignore so that removing a job leaves it alone.
pub requests-remove_job : (t : Tables) (id : Text) → (remove_job t id).requests ≡ t.requests
unfolding remove_job
requests-remove_job t id = ground arith

pub delivery-remove_job : (t : Tables) (id : Text) → (remove_job t id).delivery ≡ t.delivery
unfolding remove_job
delivery-remove_job t id = ground arith

pub body-remove_job : (t : Tables) (id : Text) → (remove_job t id).body ≡ t.body
unfolding remove_job
body-remove_job t id = ground arith

ring-remove_job : (t : Tables) (id : Text) → (remove_job t id).ring ≡ t.ring
unfolding remove_job
ring-remove_job t id = ground arith

ring_bytes-remove_job : (t : Tables) (id : Text) → (remove_job t id).ring_bytes ≡ t.ring_bytes
unfolding remove_job
ring_bytes-remove_job t id = ground arith

-- Removing a request takes its own row, and no other, from the requests.
pub requests-remove_request :
    (t : Tables) (id : Text)
    → (remove_request t id).requests
      ≡ elim (get id t.requests) [ none ↦ t.requests | some r ↦ delete id t.requests ]
unfolding remove_request
requests-remove_request t id = elim (Option-cases (get id t.requests)) [
  | inl absent ↦ rw (absent, remove_request)
  | inr (r, here) ↦
      rw (here, remove_request)
        (unfold drop_rows drop_keys in
          ap (delete id) (
            foldl-keeps (λ u. u.requests) remove_job requests-remove_job
              (keys (get_list id t.jobs_by_request)) (drop_keys id r t)
            ∙ ground arith))
]

pub get-remove_request :
    (t : Tables) (id k : Text)
    → get k (remove_request t id).requests ≡ (if id == k then none else get k t.requests)
get-remove_request t id k = ground (
  arith,
  requests-remove_request t id,
  get-delete id k t.requests,
  λ (e : id ≡ k). ap (λ x. get x t.requests) e,
  text_eq_iff id k,
)

-- A part that removing a job, and dropping the keys and the rows of a request leave alone.
pub part-remove_request {ℓ} :
    {X : Type ℓ} (part : Tables → X)
    → ((t : Tables) (id : Text) → part (remove_job t id) ≡ part t)
    → ((id : Text) (r : Request) (t : Tables) → part (drop_keys id r t) ≡ part t)
    → ((id : Text) (t : Tables) → part (drop_rows id t) ≡ part t)
    → (t : Tables) (id : Text) → part (remove_request t id) ≡ part t
unfolding remove_request
part-remove_request part job keys_ rows t id = elim (Option-cases (get id t.requests)) [
  | inl absent ↦ rw (absent, remove_request)
  | inr (r, here) ↦
      rw (here, remove_request)
        (rows id _
          ∙ foldl-keeps part remove_job job (keys (get_list id t.jobs_by_request))
              (drop_keys id r t)
          ∙ keys_ id r t)
]

ring-remove_request : (t : Tables) (id : Text) → (remove_request t id).ring ≡ t.ring
ring-remove_request =
    part-remove_request (λ u. u.ring) ring-remove_job (unfold drop_keys in λ id r t. ground arith)
      (unfold drop_rows in λ id t. refl)

ring_bytes-remove_request :
    (t : Tables) (id : Text) → (remove_request t id).ring_bytes ≡ t.ring_bytes
ring_bytes-remove_request =
    part-remove_request (λ u. u.ring_bytes) ring_bytes-remove_job
      (unfold drop_keys in λ id r t. ground arith) (unfold drop_rows in λ id t. refl)

module _ (o : Options) (e : Event) (ref : RecordRef) (t : Tables) where
  added_ring :
      (u : Tables)
      → ((add_job e.job (add_attempt ref e.attempt (add_request o ref e.request u))).ring ≡ u.ring)
        × ((add_job e.job (add_attempt ref e.attempt (add_request o ref e.request u))).ring_bytes
            ≡ u.ring_bytes)
  unfolding add_job add_attempt add_request
  added_ring u = ground arith

  -- The rows of an event do not touch the ring.
  pub ring-apply_rows :
      ((apply_rows o e ref t).ring ≡ t.ring) × ((apply_rows o e ref t).ring_bytes ≡ t.ring_bytes)
  unfolding apply_rows
  ring-apply_rows = (
    (added_ring _).0
        ∙ foldl-keeps (λ u. u.ring) remove_request ring-remove_request e.evicted_request_ids _
        ∙ foldl-keeps (λ u. u.ring) remove_job ring-remove_job e.evicted_job_ids t,
    (added_ring _).1
        ∙ foldl-keeps (λ u. u.ring_bytes) remove_request ring_bytes-remove_request
            e.evicted_request_ids _
        ∙ foldl-keeps (λ u. u.ring_bytes) remove_job ring_bytes-remove_job e.evicted_job_ids t,
  )
