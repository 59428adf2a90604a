-- ===== src/Store/Apply/Sound.antt =====
-- The requests and the jobs stay sound: each stands once, under its own identifier, and the two
-- indices for duplicates point at captures that are there. The other maps are in Indexed.
use mathlib.Core.List.{foldl}
use relaybox.Prelude.{
  ◌≡◌, ◌≢◌, refl, ap, Text, true, false, ◌==◌, text_eq_iff, some, List, is_empty, arith,
  Option-cases, Bool-cases, inl, inr,
}
use relaybox.Map.{Map, get, keys, get-delete}
use relaybox.Map.Size.{IsUnique, delete-IsUnique}
use relaybox.Store.Model.{Request, Job}
use relaybox.Store.Tables.{Tables, get_list, no_tables}
use relaybox.Store.Apply.{remove_job, drop_job, remove_request, drop_keys, drop_rows, unpoint}
use relaybox.Store.Apply.Frame.{foldl-keeps, foldl-preserves, delivery-remove_job, body-remove_job}

-- The capture `id` is there and has the delivery ID `d`.
abbrev pub Delivers : Map Request → Text → Text → Type 0
Delivers m d id = (r : Request) × (get id m ≡ some r) × (r.delivery_id ≡ d) × (is_empty d ≡ false)

-- The capture `id` is there, has no delivery ID, and its body has the digest `b`.
abbrev pub Holds : Map Request → Text → Text → Type 0
Holds m b id =
    (r : Request) × (get id m ≡ some r) × (r.body_sha256 ≡ b) × (is_empty r.delivery_id ≡ true)

pub record IsSound (t : Tables) : Type 0 where
  pub unique_requests : IsUnique t.requests
  pub unique_jobs : IsUnique t.jobs
  pub keyed_requests : (k : Text) (r : Request) → get k t.requests ≡ some r → r.id ≡ k
  pub keyed_jobs : (k : Text) (j : Job) → get k t.jobs ≡ some j → j.id ≡ k
  pub deliveries : (d id : Text) → get d t.delivery ≡ some id → Delivers t.requests d id
  pub bodies : (b id : Text) → get b t.body ≡ some id → Holds t.requests b id

pub no_tables-IsSound : IsSound no_tables
unfolding get
no_tables-IsSound = record {
  unique_requests = tt;
  unique_jobs = tt;
  keyed_requests = λ k r h. absurd (ground arith);
  keyed_jobs = λ k j h. absurd (ground arith);
  deliveries = λ d id h. absurd (ground arith);
  bodies = λ b id h. absurd (ground arith);
}

drop_job-IsSound : (id : Text) (j : Job) (t : Tables) → IsSound t → IsSound (drop_job id j t)
unfolding drop_job
drop_job-IsSound id j t v = record {
  unique_requests = v.unique_requests;
  unique_jobs = delete-IsUnique id t.jobs v.unique_jobs;
  keyed_requests = v.keyed_requests;
  keyed_jobs = λ k i h. v.keyed_jobs k i (ground (arith, get-delete id k t.jobs));
  deliveries = v.deliveries;
  bodies = v.bodies;
}

pub remove_job-IsSound : (t : Tables) (id : Text) → IsSound t → IsSound (remove_job t id)
unfolding remove_job
remove_job-IsSound t id v = elim (Option-cases (get id t.jobs)) [
  | inl absent ↦ rw (absent, remove_job) v
  | inr (j, here) ↦ rw (here, remove_job) (drop_job-IsSound id j t v)
]

-- Neither index points at the capture.
record IsUnindexed (id : Text) (t : Tables) : Type 0 where
  no_delivery : (d : Text) → get d t.delivery ≢ some id
  no_body : (b : Text) → get b t.body ≢ some id

get-unpoint :
    (k id : Text) (m : List (Text × Text)) (j i : Text)
    → get j (unpoint k id m) ≡ some i
    → (get j m ≡ some i) × ((k == j) ≡ true → i ≢ id)
unfolding unpoint
get-unpoint k id m j i h = (
  ground (arith, get-delete k j m, text_eq_iff i id),
  λ same e.
      let at : get k m ≡ get j m = ap (λ x. get x m) ((text_eq_iff k j).0 same) in
      ground (arith, get-delete k j m, text_eq_iff i id, at, same, e),
)

module _ (id : Text) (r : Request) (t : Tables) (v : IsSound t)
    (here : get id t.requests ≡ some r) where
  drop_keys-IsSound : IsSound (drop_keys id r t)
  unfolding drop_keys
  drop_keys-IsSound = elim (Bool-cases (is_empty r.delivery_id)) [
    | inl plain ↦
        rw (plain, drop_keys)
          (record {
            unique_requests = v.unique_requests;
            unique_jobs = v.unique_jobs;
            keyed_requests = v.keyed_requests;
            keyed_jobs = v.keyed_jobs;
            deliveries = v.deliveries;
            bodies = λ b i h. v.bodies b i (get-unpoint r.body_sha256 id t.body b i h).0;
          })
    | inr filled ↦
        rw (filled, drop_keys)
          (record {
            unique_requests = v.unique_requests;
            unique_jobs = v.unique_jobs;
            keyed_requests = v.keyed_requests;
            keyed_jobs = v.keyed_jobs;
            deliveries =
                λ d i h. v.deliveries d i (get-unpoint r.delivery_id id t.delivery d i h).0;
            bodies = v.bodies;
          })
  ]

  pointed_delivery :
      (d : Text)
      → get d t.delivery ≡ some id
      → (r.delivery_id ≡ d) × (is_empty r.delivery_id ≡ false)
  pointed_delivery d h =
      let (q, found, same, filled) = v.deliveries d id h in
      let both : q ≡ r = cc (found, here) in ground (arith, both, same, filled)

  pointed_body :
      (b : Text) → get b t.body ≡ some id → (r.body_sha256 ≡ b) × (is_empty r.delivery_id ≡ true)
  pointed_body b h =
      let (q, found, same, plain) = v.bodies b id h in
      let both : q ≡ r = cc (found, here) in ground (arith, both, same, plain)

  no_delivery_left : (d : Text) → get d (drop_keys id r t).delivery ≢ some id
  unfolding drop_keys
  no_delivery_left d h = elim (Bool-cases (is_empty r.delivery_id)) [
    | inl plain ↦ absurd (ground (arith, pointed_delivery d))
    | inr filled ↦
        let there : get d (unpoint r.delivery_id id t.delivery) ≡ some id = ground arith in
        let (before, other_) = get-unpoint r.delivery_id id t.delivery d id there in
        other_ ((text_eq_iff r.delivery_id d).1 (pointed_delivery d before).0) refl
  ]

  no_body_left : (b : Text) → get b (drop_keys id r t).body ≢ some id
  unfolding drop_keys
  no_body_left b h = elim (Bool-cases (is_empty r.delivery_id)) [
    | inl plain ↦
        let there : get b (unpoint r.body_sha256 id t.body) ≡ some id = ground arith in
        let (before, other_) = get-unpoint r.body_sha256 id t.body b id there in
        other_ ((text_eq_iff r.body_sha256 b).1 (pointed_body b before).0) refl
    | inr filled ↦ absurd (ground (arith, pointed_body b))
  ]

drop_rows-IsSound :
    (id : Text) (t : Tables) → IsSound t → IsUnindexed id t → IsSound (drop_rows id t)
unfolding drop_rows
drop_rows-IsSound id t v u = record {
  unique_requests = delete-IsUnique id t.requests v.unique_requests;
  unique_jobs = v.unique_jobs;
  keyed_requests = λ k i h. v.keyed_requests k i (ground (arith, get-delete id k t.requests));
  keyed_jobs = v.keyed_jobs;
  deliveries = λ d i h.
      let (r, found, same, filled) = v.deliveries d i h in
      (
        r,
        ground (arith, get-delete id i t.requests, text_eq_iff id i, u.no_delivery d),
        same,
        filled,
      );
  bodies = λ b i h.
      let (r, found, same, plain) = v.bodies b i h in
      (r, ground (arith, get-delete id i t.requests, text_eq_iff id i, u.no_body b), same, plain);
}

pub remove_request-IsSound : (t : Tables) (id : Text) → IsSound t → IsSound (remove_request t id)
unfolding remove_request
remove_request-IsSound t id v = elim (Option-cases (get id t.requests)) [
  | inl absent ↦ rw (absent, remove_request) v
  | inr (r, here) ↦
      let u = drop_keys id r t in
      let jobs = keys (get_list id t.jobs_by_request) in
      let delivery = foldl-keeps (λ w. w.delivery) remove_job delivery-remove_job jobs u in
      let body = foldl-keeps (λ w. w.body) remove_job body-remove_job jobs u in
      rw (here, remove_request)
        (drop_rows-IsSound id (foldl remove_job u jobs)
          (foldl-preserves IsSound remove_job remove_job-IsSound jobs u
            (drop_keys-IsSound id r t v here))
          (record {
            no_delivery = λ d. rw delivery (no_delivery_left id r t v here d);
            no_body = λ b. rw body (no_body_left id r t v here b);
          }))
]
