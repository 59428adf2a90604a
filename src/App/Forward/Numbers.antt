-- ===== src/App/Forward/Numbers.antt =====
-- The number that `App.forward` gives an attempt is the one that the store expects.
use relaybox.Prelude.{
  ℕ, ◌+◌, ◌≡◌, ◌≢◌, refl, sym, ap, ◌∙◌, Text, ◌==◌, List, [], ◌∷◌, none, All, arith, text_eq_iff,
  Bool-cases, inl, inr,
}
use relaybox.Map.{Map, get, values}
use relaybox.Map.Size.{IsUnique}
use relaybox.Store.Model.{Attempt}
use relaybox.Store.Tables.{get_list}
use relaybox.Store.State.{Store}
use relaybox.Store.Jobs.{next_number}
use relaybox.Store.Subscribe.{attempts_for_job, max_numbers, max_number}

max_number-next :
    (id : Text) (l : List Attempt) (n : ℕ) → next_number id l (n + 1) ≡ max_number id l n + 1
unfolding next_number
max_number-next id [] n = refl
max_number-next id (a ∷ l) n = ground (arith, max_number-next id l n, max_number-next id l a.number)

-- The attempts of the job `id` stand under the request `rid` alone.
unfoldable pub IsFiled : Text → Text → Map (List Attempt) → Type 0
IsFiled id rid m = All (λ e. e.0 ≢ rid → All (λ (a : Attempt). a.job_id ≢ id) e.1) m

-- No attempt of the job is in a list.
max_number-absent :
    (id : Text) (l : List Attempt) (n : ℕ)
    → All (λ (a : Attempt). a.job_id ≢ id) l
    → max_number id l n ≡ n
max_number-absent id [] n h = refl
max_number-absent id (a ∷ l) n h =
    ground (arith, max_number-absent id l n h.1, text_eq_iff a.job_id id, h.0)

max_numbers-absent :
    (id rid : Text) (m : Map (List Attempt)) (n : ℕ)
    → get rid m ≡ none
    → IsFiled id rid m
    → max_numbers id (values m) n ≡ n
unfolding max_numbers get IsFiled
max_numbers-absent id rid [] n absent h = refl
max_numbers-absent id rid ((k, l) ∷ m) n absent h =
    let apart : k ≢ rid = λ e. absurd (ground (arith, absent, (text_eq_iff k rid).1 e)) in
    rw (max_number-absent id l n (h.0 apart), max_numbers)
      (max_numbers-absent id rid m n (ground (arith, absent)) h.1)

max_numbers-filed :
    (id rid : Text) (m : Map (List Attempt)) (n : ℕ)
    → IsUnique m
    → IsFiled id rid m
    → max_numbers id (values m) n ≡ max_number id (get_list rid m) n
unfolding max_numbers get IsFiled
max_numbers-filed id rid [] n unique h = refl
max_numbers-filed id rid ((k, l) ∷ m) n unique h = elim (Bool-cases (k == rid)) [
  | inl e ↦
      let here : k ≡ rid = (text_eq_iff k rid).0 e in
      let found : get_list rid ((k, l) ∷ m) ≡ l = rw (e, get_list) refl in
      max_numbers-absent id rid m (max_number id l n) (ap (λ x. get x m) (sym here) ∙ unique.0) h.1
      ∙ sym (ap (λ x. max_number id x n) found)
  | inr e ↦
      let apart : k ≢ rid = λ same. absurd (ground (arith, (text_eq_iff k rid).1 same)) in
      let found : get_list rid ((k, l) ∷ m) ≡ get_list rid m = rw (e, get_list) refl in
      rw (max_number-absent id l n (h.0 apart), max_numbers)
        (max_numbers-filed id rid m n unique.1 h.1)
      ∙ sym (ap (λ x. max_number id x n) found)
]

-- Where the attempts of a job stand under one request alone, and no request twice, the number that
-- `forward` computes over all requests, one more than `AttemptsForJob`, is the number that
-- `RecordAttempt` computes over the attempts of that request and asks for.
pub attempts_for_job-next :
    (id rid : Text) (s : Store)
    → IsUnique s.attempts
    → IsFiled id rid s.attempts
    → attempts_for_job id s + 1 ≡ next_number id (get_list rid s.attempts) 1
unfolding attempts_for_job
attempts_for_job-next id rid s unique h =
    ap (λ n. n + 1) (max_numbers-filed id rid s.attempts 0 unique h)
    ∙ sym (max_number-next id (get_list rid s.attempts) 0)
