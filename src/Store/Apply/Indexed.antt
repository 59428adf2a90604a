-- ===== src/Store/Apply/Indexed.antt =====
-- The tables agree on what they hold: each capture has a row in every map by request, and the
-- index of jobs by request names the jobs that are there.
use relaybox.Prelude.{
  ◌≡◌, refl, sym, ap, Text, true, false, ◌==◌, ◌&&◌, text_eq_iff, none, some, [], ◌∷◌, is_empty,
  arith, Option-cases, Bool-cases, inl, inr, if◌then◌else◌,
}
use relaybox.Map.{Map, TextSet, get, has, put, delete, get-delete, get-put, get-nil}
use relaybox.Store.Model.{Job}
use relaybox.Store.Tables.{Tables, get_list, no_tables}
use relaybox.Store.Apply.{remove_job, drop_job, unindex_job}

-- The job `k` is in the index of the request `rid`.
abbrev pub IsListed : Text → Text → Map TextSet → Type 0
IsListed k rid m = get k (get_list rid m) ≡ some tt

pub record IsIndexed (t : Tables) : Type 0 where
  pub recorded : (k : Text) → has k t.request_record ≡ has k t.requests
  pub sized : (k : Text) → has k t.request_bytes ≡ has k t.requests
  pub searched : (k : Text) → has k t.search ≡ has k t.requests
  pub listed :
      (k : Text) (j : Job) → get k t.jobs ≡ some j → IsListed k j.request_id t.jobs_by_request
  pub there :
      (k rid : Text)
      → IsListed k rid t.jobs_by_request
      → (j : Job) × (get k t.jobs ≡ some j) × (j.request_id ≡ rid)

pub no_tables-IsIndexed : IsIndexed no_tables
unfolding get
no_tables-IsIndexed = record {
  recorded = λ k. refl;
  sized = λ k. refl;
  searched = λ k. refl;
  listed = λ k j h. absurd (ground arith);
  there = λ k rid h. absurd (ground arith);
}

get-empty : (k : Text) (ids : TextSet) → is_empty ids ≡ true → get k ids ≡ none
get-empty k [] h = get-nil k
get-empty k (x ∷ ids) h = cc

module _ (k r id rid : Text) (m : Map TextSet) where
  same_list : rid ≡ r → get k (get_list r m) ≡ get k (get_list rid m)
  same_list e = ap (λ x. get k (get_list x m)) (sym e)

  get-unindex_job :
      get k (get_list r (unindex_job id rid m))
      ≡ (if rid == r && id == k then none else get k (get_list r m))
  unfolding unindex_job
  get-unindex_job = elim (Option-cases (get rid m)) [
    | inl absent ↦ ground (arith, absent, same_list, text_eq_iff rid r, get-nil {V = Unit {0}} k)
    | inr (ids, here) ↦ elim (Bool-cases (is_empty (delete id ids))) [
      | inl bare ↦ ground (
        arith,
        here,
        bare,
        same_list,
        text_eq_iff rid r,
        get-delete rid r m,
        get-delete id k ids,
        get-empty k (delete id ids) bare,
        get-nil {V = Unit {0}} k,
      )
      | inr full ↦ ground (
        arith,
        here,
        full,
        same_list,
        text_eq_iff rid r,
        get-delete id k ids,
        get-put rid r (delete id ids) m,
      )
    ]
  ]

  pub get-index_job :
      get k (get_list r (put rid (put id tt (get_list rid m)) m))
      ≡ (if rid == r && id == k then some tt else get k (get_list r m))
  get-index_job = ground (
    arith,
    same_list,
    text_eq_iff rid r,
    get-put rid r (put id tt (get_list rid m)) m,
    get-put id k tt (get_list rid m),
  )

drop_job-IsIndexed :
    (id : Text) (j : Job) (t : Tables)
    → get id t.jobs ≡ some j
    → IsIndexed t
    → IsIndexed (drop_job id j t)
unfolding drop_job
drop_job-IsIndexed id j t here v = record {
  recorded = v.recorded;
  sized = v.sized;
  searched = v.searched;
  listed = λ k i h. ground (
    arith,
    get-delete id k t.jobs,
    get-unindex_job k i.request_id id j.request_id t.jobs_by_request,
    v.listed k i,
  );
  there = λ k rid h.
      let was = get-unindex_job k rid id j.request_id t.jobs_by_request in
      let (i, found, of) = v.there k rid (ground (arith, was, h)) in
      (i, still k rid i found of (ground (arith, was, h)), of);
}
  where
    still :
        (k rid : Text) (i : Job)
        → get k t.jobs ≡ some i
        → i.request_id ≡ rid
        → (j.request_id == rid && id == k) ≡ false
        → get k (delete id t.jobs) ≡ some i
    still k rid i found of apart = elim (Bool-cases (id == k)) [
      | inr other ↦ ground (arith, get-delete id k t.jobs, other, found)
      | inl same ↦
          let one : i ≡ j = cc (found, here, (text_eq_iff id k).0 same) in
          absurd (
            ground (
              arith,
              apart,
              same,
              text_eq_iff j.request_id rid,
              ap (λ (x : Job). x.request_id) one,
              of,
            ))
    ]

pub remove_job-IsIndexed : (t : Tables) (id : Text) → IsIndexed t → IsIndexed (remove_job t id)
unfolding remove_job
remove_job-IsIndexed t id v = elim (Option-cases (get id t.jobs)) [
  | inl absent ↦ rw (absent, remove_job) v
  | inr (j, here) ↦ rw (here, remove_job) (drop_job-IsIndexed id j t here v)
]
