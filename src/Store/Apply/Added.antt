-- ===== src/Store/Apply/Added.antt =====
-- The tables stay sound when an event joins them.
use mathlib.Core.List.{foldl}
use relaybox.Prelude.{
  ◌≡◌, refl, sym, ap, ◌∙◌, Text, true, false, ◌==◌, text_eq_iff, Option, none, some, [], is_empty,
  arith, Option-cases, Bool-cases, inl, inr,
}
use relaybox.Map.{Map, get, get-put_self, put, get-put}
use relaybox.Map.Size.{put-IsUnique}
use relaybox.Store.Model.{Request, Attempt, Job, Event}
use relaybox.Store.Errors.{ok}
use relaybox.Store.Env.{Env}
use relaybox.Store.Options.{Options}
use relaybox.Store.Tables.{Tables, RecordRef, Image}
use relaybox.Store.Validate.{validate_state}
use relaybox.Store.Apply.{
  remove_job, remove_request, add_request, add_attempt, add_job, apply_rows, apply, append_ring,
}
use relaybox.Store.Apply.Frame.{foldl-preserves, requests-remove_job, get-remove_request}
use relaybox.Store.Apply.Sound.{
  IsSound, Delivers, Holds, remove_job-IsSound, remove_request-IsSound,
}

module _ (m : Map Request) (r : Request) (fresh : get r.id m ≡ none) where
  still_there :
      (id : Text) (q : Request)
      → get id m ≡ some q
      → get id (put r.id (record r { body = [] }) m) ≡ some q
  still_there id q h = ground (
    arith,
    get-put r.id id (record r { body = [] }) m,
    text_eq_iff r.id id,
    λ (e : r.id ≡ id). ap (λ k. get k m) e,
  )

  still-Delivers :
      (d id : Text) → Delivers m d id → Delivers (put r.id (record r { body = [] }) m) d id
  still-Delivers d id (q, found, same, filled) = (q, still_there id q found, same, filled)

  still-Holds : (b id : Text) → Holds m b id → Holds (put r.id (record r { body = [] }) m) b id
  still-Holds b id (q, found, same, plain) = (q, still_there id q found, same, plain)

-- A capture that is new joins its index.
module _ (o : Options) (ref : RecordRef) (r : Request) (t : Tables) (v : IsSound t)
    (fresh : get r.id t.requests ≡ none) where
  abbrev stripped : Request
  stripped = record r { body = [] }

  abbrev requests' : Map Request
  requests' = put r.id stripped t.requests

  keyed_after : (k : Text) (q : Request) → get k requests' ≡ some q → q.id ≡ k
  keyed_after k q h =
      ground (arith, get-put r.id k stripped t.requests, text_eq_iff r.id k, v.keyed_requests k q)

  Delivers-after :
      (d id : Text)
      → is_empty r.delivery_id ≡ false
      → get d (put r.delivery_id r.id t.delivery) ≡ some id
      → Delivers requests' d id
  Delivers-after d id filled h = elim (Bool-cases (r.delivery_id == d)) [
    | inl same ↦
        let e : r.delivery_id ≡ d = (text_eq_iff r.delivery_id d).0 same in
        let at : r.id ≡ id = ground (arith, get-put r.delivery_id d r.id t.delivery) in
        (
          stripped,
          ap (λ k. get k requests') (sym at) ∙ get-put_self r.id stripped t.requests,
          e,
          rw e at filled,
        )
    | inr other_ ↦
        still-Delivers t.requests r fresh d id
          (v.deliveries d id (ground (arith, get-put r.delivery_id d r.id t.delivery)))
  ]

  Holds-after :
      (b id : Text)
      → is_empty r.delivery_id ≡ true
      → get b (put r.body_sha256 r.id t.body) ≡ some id
      → Holds requests' b id
  Holds-after b id plain h = elim (Bool-cases (r.body_sha256 == b)) [
    | inl same ↦
        let e : r.body_sha256 ≡ b = (text_eq_iff r.body_sha256 b).0 same in
        let at : r.id ≡ id = ground (arith, get-put r.body_sha256 b r.id t.body) in
        (
          stripped,
          ap (λ k. get k requests') (sym at) ∙ get-put_self r.id stripped t.requests,
          e,
          plain,
        )
    | inr other_ ↦
        still-Holds t.requests r fresh b id
          (v.bodies b id (ground (arith, get-put r.body_sha256 b r.id t.body)))
  ]

  add_request-IsSound : IsSound (add_request o ref (some r) t)
  unfolding add_request
  add_request-IsSound = elim (Bool-cases (is_empty r.delivery_id)) [
    | inl plain ↦
        rw (plain, add_request)
          (record {
            unique_requests = put-IsUnique r.id stripped t.requests v.unique_requests;
            unique_jobs = v.unique_jobs;
            keyed_requests = keyed_after;
            keyed_jobs = v.keyed_jobs;
            deliveries = λ d id h. still-Delivers t.requests r fresh d id (v.deliveries d id h);
            bodies = λ b id h. Holds-after b id plain h;
          })
    | inr filled ↦
        rw (filled, add_request)
          (record {
            unique_requests = put-IsUnique r.id stripped t.requests v.unique_requests;
            unique_jobs = v.unique_jobs;
            keyed_requests = keyed_after;
            keyed_jobs = v.keyed_jobs;
            deliveries = λ d id h. Delivers-after d id filled h;
            bodies = λ b id h. still-Holds t.requests r fresh b id (v.bodies b id h);
          })
  ]

add_attempt-IsSound :
    (ref : RecordRef) (a : Option Attempt) (t : Tables) → IsSound t → IsSound (add_attempt ref a t)
unfolding add_attempt
add_attempt-IsSound ref none t v = v
add_attempt-IsSound ref (some a) t v = assumption v

add_job-IsSound : (j : Option Job) (t : Tables) → IsSound t → IsSound (add_job j t)
unfolding add_job
add_job-IsSound none t v = v
add_job-IsSound (some j) t v = record {
  unique_requests = v.unique_requests;
  unique_jobs = put-IsUnique j.id j t.jobs v.unique_jobs;
  keyed_requests = v.keyed_requests;
  keyed_jobs =
      λ k i h. ground (arith, get-put j.id k j t.jobs, text_eq_iff j.id k, v.keyed_jobs k i);
  deliveries = v.deliveries;
  bodies = v.bodies;
}

validate_state-fresh :
    (t : Tables) (e : Event) (r : Request)
    → validate_state t e ≡ ok tt
    → e.request ≡ some r
    → get r.id t.requests ≡ none
unfolding validate_state
validate_state-fresh t e r h k = ground (arith, Option-cases (get r.id t.requests))

module _ (k : Text) where
  absent-remove_job :
      (t : Tables) (id : Text) → get k t.requests ≡ none → get k (remove_job t id).requests ≡ none
  absent-remove_job t id h = rw requests-remove_job h

  absent-remove_request :
      (t : Tables) (id : Text)
      → get k t.requests ≡ none
      → get k (remove_request t id).requests ≡ none
  absent-remove_request t id h = ground (arith, get-remove_request t id k)

add_optional-IsSound :
    (o : Options) (ref : RecordRef) (r : Option Request) (t : Tables)
    → IsSound t
    → ((q : Request) → r ≡ some q → get q.id t.requests ≡ none)
    → IsSound (add_request o ref r t)
unfolding add_request
add_optional-IsSound o ref none t v fresh = v
add_optional-IsSound o ref (some r) t v fresh = add_request-IsSound o ref r t v (fresh r refl)

-- An event that fits the tables leaves them sound, whatever it evicts.
pub apply_rows-IsSound :
    (o : Options) (e : Event) (ref : RecordRef) (t : Tables)
    → IsSound t
    → validate_state t e ≡ ok tt
    → IsSound (apply_rows o e ref t)
unfolding apply_rows
apply_rows-IsSound o e ref t v h =
    let t₁ = foldl remove_job t e.evicted_job_ids in
    let t₂ = foldl remove_request t₁ e.evicted_request_ids in
    let v₂ =
      foldl-preserves IsSound remove_request remove_request-IsSound e.evicted_request_ids t₁
        (foldl-preserves IsSound remove_job remove_job-IsSound e.evicted_job_ids t v) in
    let absent = λ (q : Request) (k : e.request ≡ some q).
      foldl-preserves (λ u. get q.id u.requests ≡ none) remove_request (absent-remove_request q.id)
        e.evicted_request_ids t₁
        (foldl-preserves (λ u. get q.id u.requests ≡ none) remove_job (absent-remove_job q.id)
          e.evicted_job_ids t (validate_state-fresh t e q h k)) in
    add_job-IsSound e.job _
      (add_attempt-IsSound ref e.attempt _ (add_optional-IsSound o ref e.request t₂ v₂ absent))

-- An event that fits sound tables leaves them sound when it is applied, whatever it evicts.
pub apply-IsSound :
    (env : Env) (o : Options) (e : Event) (ref : RecordRef) (s : Image)
    → IsSound s.tables
    → validate_state s.tables e ≡ ok tt
    → IsSound (apply env o e ref s).tables
unfolding apply append_ring
apply-IsSound env o e ref s v h = let w = apply_rows-IsSound o e ref s.tables v h in assumption w
