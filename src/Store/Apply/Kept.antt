-- ===== src/Store/Apply/Kept.antt =====
-- Which jobs the eviction of requests leaves alone: those that are not in their indices.
use mathlib.Core.List.{foldl}
use relaybox.Prelude.{
  ◌≡◌, ◌≢◌, sym, ap, ◌∙◌, Text, ◌==◌, text_eq_iff, none, some, List, [], ◌∷◌, is_empty, All, arith,
  Option-cases, Bool-cases, inl, inr,
}
use relaybox.Map.{Map, TextSet, get, keys, get-delete, get-put, get-nil, delete}
use relaybox.Store.Model.{Request, Job}
use relaybox.Store.Tables.{Tables, get_list}
use relaybox.Store.Apply.{remove_job, drop_job, unindex_job, remove_request, drop_keys, drop_rows}

-- The job `k` is not in the index of the request `rid`.
abbrev pub IsElsewhere : Text → Text → Map TextSet → Type 0
IsElsewhere k rid m = get k (get_list rid m) ≡ none

pub keys-apart {ℓ} :
    {V : Type ℓ} (k : Text) (m : Map V) → get k m ≡ none → All (λ i. i ≢ k) (keys m)
unfolding get
keys-apart k [] h = tt
keys-apart k ((i, v) ∷ m) h =
    (λ e. absurd (ground (arith, (text_eq_iff i k).1 e, h)), keys-apart k m (ground arith))

module _ (k id rid : Text) (m : Map TextSet) where
  rest_of : (ids : TextSet) → get k ids ≡ none → get k (delete id ids) ≡ none
  rest_of ids h = ground (arith, get-delete id k ids)

  unindexed : (other : Text) → IsElsewhere k other m → IsElsewhere k other (unindex_job id rid m)
  unfolding unindex_job
  unindexed other h = elim (Option-cases (get rid m)) [
    | inl absent ↦ rw (absent, unindex_job) h
    | inr (ids, here) ↦ elim (Bool-cases (rid == other)) [
      | inl same ↦
          let e : rid ≡ other = (text_eq_iff rid other).0 same in
          let at : get other m ≡ some ids = ap (λ x. get x m) (sym e) ∙ here in
          let none_left = rest_of ids (rw (at, get_list) at h) in
          ground
            (arith, here, get-delete rid other m, get-put rid other (delete id ids) m, none_left)
      | inr apart ↦
          ground (arith, here, get-delete rid other m, get-put rid other (delete id ids) m, h)
    ]
  ]

module _ (k : Text) where
  -- Removing another job keeps the job `k`, and keeps it out of the indices that it is not in.
  drop_job-keeps :
      (id rid : Text) (j i : Job) (t : Tables)
      → id ≢ k
      → get k t.jobs ≡ some j
      → get k (drop_job id i t).jobs ≡ some j
  unfolding drop_job
  drop_job-keeps id rid j i t h there = ground (arith, get-delete id k t.jobs, text_eq_iff id k)

  drop_job-IsElsewhere :
      (id rid : Text) (i : Job) (t : Tables)
      → IsElsewhere k rid t.jobs_by_request
      → IsElsewhere k rid (drop_job id i t).jobs_by_request
  unfolding drop_job
  drop_job-IsElsewhere id rid i t h = unindexed k id i.request_id t.jobs_by_request rid h

  delete-IsElsewhere :
      (id rid : Text) (m : Map TextSet) → IsElsewhere k rid m → IsElsewhere k rid (delete id m)
  delete-IsElsewhere id rid m h = ground (arith, get-delete id rid m, get-nil {V = Unit {0}} k, h)

  -- The job `k` is `j`, and it is in the index of no request that `Q` holds of.
  pub record IsSafe (j : Job) (Q : Text → Type 0) (t : Tables) : Type 0 where
    pub there : get k t.jobs ≡ some j
    pub elsewhere : (rid : Text) → Q rid → IsElsewhere k rid t.jobs_by_request

  module _ (j : Job) (Q : Text → Type 0) where
    remove_job-IsSafe :
        (t : Tables) (id : Text) → id ≢ k → IsSafe j Q t → IsSafe j Q (remove_job t id)
    unfolding remove_job
    remove_job-IsSafe t id h v = elim (Option-cases (get id t.jobs)) [
      | inl absent ↦ rw (absent, remove_job) v
      | inr (i, here) ↦
          rw (here, remove_job)
            (record {
              there = drop_job-keeps id id j i t h v.there;
              elsewhere = λ rid q. drop_job-IsElsewhere id rid i t (v.elsewhere rid q);
            })
    ]

    pub remove_jobs-IsSafe :
        (ids : List Text) (t : Tables)
        → All (λ id. id ≢ k) ids
        → IsSafe j Q t
        → IsSafe j Q (foldl remove_job t ids)
    remove_jobs-IsSafe [] t h v = v
    remove_jobs-IsSafe (id ∷ ids) t h v =
        remove_jobs-IsSafe ids (remove_job t id) h.1 (remove_job-IsSafe t id h.0 v)

    drop_keys-IsSafe :
        (id : Text) (r : Request) (t : Tables) → IsSafe j Q t → IsSafe j Q (drop_keys id r t)
    unfolding drop_keys
    drop_keys-IsSafe id r t v = elim (Bool-cases (is_empty r.delivery_id)) [
      | inl e ↦ rw e (record { there = v.there; elsewhere = v.elsewhere })
      | inr e ↦ rw e (record { there = v.there; elsewhere = v.elsewhere })
    ]

    drop_rows-IsSafe : (id : Text) (t : Tables) → IsSafe j Q t → IsSafe j Q (drop_rows id t)
    unfolding drop_rows
    drop_rows-IsSafe id t v = record {
      there = v.there;
      elsewhere = λ rid q. delete-IsElsewhere id rid t.jobs_by_request (v.elsewhere rid q);
    }

    remove_request-IsSafe :
        (t : Tables) (id : Text) → Q id → IsSafe j Q t → IsSafe j Q (remove_request t id)
    unfolding remove_request
    remove_request-IsSafe t id q v = elim (Option-cases (get id t.requests)) [
      | inl absent ↦ rw (absent, remove_request) v
      | inr (r, here) ↦
          rw (here, remove_request)
            (drop_rows-IsSafe id _ (
              remove_jobs-IsSafe (keys (get_list id t.jobs_by_request)) _
                (keys-apart k (get_list id t.jobs_by_request) (v.elsewhere id q))
                (drop_keys-IsSafe id r t v)))
    ]

    pub remove_requests-IsSafe :
        (ids : List Text) (t : Tables)
        → All Q ids
        → IsSafe j Q t
        → IsSafe j Q (foldl remove_request t ids)
    remove_requests-IsSafe [] t h v = v
    remove_requests-IsSafe (id ∷ ids) t h v =
        remove_requests-IsSafe ids (remove_request t id) h.1 (remove_request-IsSafe t id h.0 v)
