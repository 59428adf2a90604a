-- ===== src/Store/Apply/Gone.antt =====
-- What a removal leaves behind: nothing of the job or the request in any map.
use relaybox.Prelude.{
  ◌≡◌, ◌≢◌, Text, Bool, true, false, not, ◌==◌, ◌||◌, none, some, List, [], ◌∷◌, All, select, ◌⊎◌,
}
use relaybox.Map.{Map, get}
use relaybox.Store.Model.{Attempt, Job}
use relaybox.Store.Tables.{Tables, get_list}

-- The identifier is that of one of the attempts.
abbrev pub holds_id : Text → List Attempt → Bool
holds_id x [] = false
holds_id x (a ∷ l) = a.id == x || holds_id x l

-- Neither map by attempt has the identifier.
abbrev pub IsForgotten : Text → Tables → Type 0
IsForgotten x t = (get x t.attempt_ids ≡ none) × (get x t.attempt_record ≡ none)

-- The identifier is still that of an attempt of the request, or it is forgotten.
abbrev IsTracked : Text → Text → Tables → Type 0
IsTracked x id t = (holds_id x (get_list id t.attempts) ≡ true) ⊎ IsForgotten x t

-- Nothing of the request is left in the maps by request and by attempt, and none of its jobs.
pub record IsGone (id : Text) (attempts : List Attempt) (t : Tables) : Type 0 where
  pub no_request : get id t.requests ≡ none
  pub no_record : get id t.request_record ≡ none
  pub no_size : get id t.request_bytes ≡ none
  pub no_text : get id t.search ≡ none
  pub no_attempts : get id t.attempts ≡ none
  pub no_index : get id t.jobs_by_request ≡ none
  pub no_jobs : (k : Text) (j : Job) → get k t.jobs ≡ some j → j.request_id ≢ id
  pub forgotten : All (λ a. IsForgotten a.id t) attempts

-- Nothing of the job is left: not its row, not its place in an index, and of its attempts neither
-- the list nor an identifier or a record.
pub record IsJobGone (id rid : Text) (attempts : List Attempt) (t : Tables) : Type 0 where
  pub no_job : get id t.jobs ≡ none
  pub unlisted : (r : Text) → get id (get_list r t.jobs_by_request) ≢ some tt
  pub no_attempts : All (λ a. not (a.job_id == id) ≡ true) (get_list rid t.attempts)
  pub forgotten : All (λ a. IsForgotten a.id t) (select (λ a. a.job_id == id) attempts)
