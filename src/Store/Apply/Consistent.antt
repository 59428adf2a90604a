-- ===== src/Store/Apply/Consistent.antt =====
-- The tables agree on what they hold when an event is applied, evictions included.
use mathlib.Core.List.{foldl}
use relaybox.Prelude.{
  ◌≡◌, ◌≢◌, refl, ap, Text, ◌==◌, text_eq_iff, Option, none, some, List, [], ◌∷◌, is_empty, All,
  arith, Option-cases, Bool-cases, inl, inr, if◌then◌else◌,
}
use relaybox.Map.{Map, TextSet, get, keys, get-delete, get-nil}
use relaybox.Store.Model.{Request, Job}
use relaybox.Store.Env.{Env}
use relaybox.Store.Options.{Options}
use relaybox.Store.Tables.{Tables, get_list}
use relaybox.Store.Apply.{remove_job, drop_job, remove_request, drop_keys, drop_rows}
use relaybox.Store.Apply.Frame.{foldl-preserves}
use relaybox.Store.Apply.Sound.{IsSound}
use relaybox.Store.Apply.Indexed.{IsListed, IsIndexed, remove_job-IsIndexed}

pub get-remove_job :
    (t : Tables) (id k : Text)
    → get k (remove_job t id).jobs ≡ (if id == k then none else get k t.jobs)
unfolding remove_job drop_job
get-remove_job t id k = ground (
  arith,
  Option-cases (get id t.jobs),
  get-delete id k t.jobs,
  text_eq_iff id k,
  λ (e : id ≡ k). ap (λ x. get x t.jobs) e,
)

-- A job that is there after some have been removed was there before, and is none of them.
survives :
    (k : Text) (j : Job) (ids : List Text) (t : Tables)
    → get k (foldl remove_job t ids).jobs ≡ some j
    → (get k t.jobs ≡ some j) × All (λ i. i ≢ k) ids
survives k j [] t h = (h, tt)
survives k j (id ∷ ids) t h =
    let (before, others) = survives k j ids (remove_job t id) h in
    elim (Bool-cases (id == k)) [
      | inl same ↦ absurd (ground (arith, get-remove_job t id k, same, before))
      | inr apart ↦ (
        ground (arith, get-remove_job t id k, apart, before),
        ((λ e. absurd (ground (arith, (text_eq_iff id k).1 e, apart))), others),
      )
    ]

unkeyed : (k : Text) (m : TextSet) → All (λ i. i ≢ k) (keys m) → get k m ≡ none
unfolding get
unkeyed k [] h = refl
unkeyed k ((i, v) ∷ m) h = ground (arith, h.0, text_eq_iff i k, unkeyed k m h.1)

pub drop_keys-IsIndexed :
    (id : Text) (r : Request) (t : Tables) → IsIndexed t → IsIndexed (drop_keys id r t)
unfolding drop_keys
drop_keys-IsIndexed id r t v = elim (Bool-cases (is_empty r.delivery_id)) [
  | inl plain ↦ rw (plain, drop_keys) (assumption v)
  | inr filled ↦ rw (filled, drop_keys) (assumption v)
]

drop_rows-IsIndexed :
    (id : Text) (t : Tables)
    → IsIndexed t
    → ((k : Text) (j : Job) → get k t.jobs ≡ some j → j.request_id ≢ id)
    → IsIndexed (drop_rows id t)
unfolding drop_rows
drop_rows-IsIndexed id t v gone = record {
  recorded = λ k.
      ground (arith, v.recorded k, get-delete id k t.requests, get-delete id k t.request_record);
  sized =
      λ k. ground (arith, v.sized k, get-delete id k t.requests, get-delete id k t.request_bytes);
  searched =
      λ k. ground (arith, v.searched k, get-delete id k t.requests, get-delete id k t.search);
  listed = λ k j h. ground (
    arith,
    get-delete id j.request_id t.jobs_by_request,
    text_eq_iff id j.request_id,
    gone k j h,
    v.listed k j h,
  );
  there = λ k rid h.
      v.there k rid
        (ground (arith, get-delete id rid t.jobs_by_request, h, get-nil {V = Unit {0}} k));
}

-- Once the jobs in its index are removed, no job has the request `id`.
pub unrequested :
    (id : Text) (t : Tables)
    → IsIndexed t
    → (k : Text) (j : Job)
    → get k (foldl remove_job t (keys (get_list id t.jobs_by_request))).jobs ≡ some j
    → j.request_id ≢ id
unrequested id t v k j h same =
    let (before, others) = survives k j (keys (get_list id t.jobs_by_request)) t h in
    let listed : IsListed k id t.jobs_by_request = rw same at (v.listed k j before) in
    absurd (ground (arith, unkeyed k (get_list id t.jobs_by_request) others, listed))

pub same_index :
    (id : Text) (r : Request) (t : Tables) → (drop_keys id r t).jobs_by_request ≡ t.jobs_by_request
unfolding drop_keys
same_index id r t = ground arith

pub remove_request-IsIndexed :
    (t : Tables) (id : Text) → IsIndexed t → IsIndexed (remove_request t id)
unfolding remove_request
remove_request-IsIndexed t id v = elim (Option-cases (get id t.requests)) [
  | inl absent ↦ rw (absent, remove_request) v
  | inr (r, here) ↦
      let u = drop_keys id r t in
      let w = drop_keys-IsIndexed id r t v in
      let index : (get_list id u.jobs_by_request) ≡ get_list id t.jobs_by_request =
        ap (λ m. get_list id m) (same_index id r t) in
      rw (here, remove_request)
        (drop_rows-IsIndexed id (foldl remove_job u (keys (get_list id t.jobs_by_request)))
          (foldl-preserves IsIndexed remove_job remove_job-IsIndexed
            (keys (get_list id t.jobs_by_request)) u w)
          (rw index at (unrequested id u w)))
]

-- A job that is there already stays with its request.
abbrev Agrees : Option Job → Tables → Type 0
Agrees none t = Unit
Agrees (some j) t = (i : Job) → get j.id t.jobs ≡ some i → i.request_id ≡ j.request_id

-- What the tables have of sound rows and of agreeing ones.
pub record IsConsistent (t : Tables) : Type 0 where
  pub sound : IsSound t
  pub indexed : IsIndexed t
