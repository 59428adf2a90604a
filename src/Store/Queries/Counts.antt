-- ===== src/Store/Queries/Counts.antt =====
-- `JobCounts` of internal/store/store.go.
use mathlib.Core.List.{foldl}
use relaybox.Prelude.{
  ℕ, ◌+◌, ◌≡◌, refl, ◌∙◌, List, [], ◌∷◌, length, length-map, Text, arith, if◌then◌else◌,
}
use relaybox.Map.{values}
use relaybox.Store.Model.{
  Job, State, pending, queued, running, leased, retrying, succeeded, failed, fatal, dead_letter,
  poison, state_eq,
}
use relaybox.Store.State.{Store}

-- `map[string]int`, with states for its keys.
abbrev pub Counts : Type 0
Counts = List (State × ℕ)

-- The state under which a job is counted.
unfoldable pub counted_state : State → State
counted_state queued = pending
counted_state running = leased
counted_state state = state

abbrev no_counts : Counts
no_counts =
    (pending, 0)
    ∷ (leased, 0)
    ∷ (retrying, 0)
    ∷ (succeeded, 0)
    ∷ (failed, 0)
    ∷ (fatal, 0)
    ∷ (dead_letter, 0)
    ∷ (poison, 0)
    ∷ []

-- `out[state]++`
count_one : State → Counts → Counts
count_one state [] = (state, 1) ∷ []
count_one state ((k, n) ∷ out) =
    let rest = count_one state out in if state_eq k state then (k, n + 1) ∷ out else (k, n) ∷ rest

abbrev count_job : Counts → Job → Counts
count_job out j = count_one (counted_state j.state) out

unfoldable pub job_counts : Store → Counts
unfolding count_one counted_state
job_counts s = foldl count_job no_counts (values s.jobs)

-- What all states count together.
abbrev pub total : Counts → ℕ
total [] = 0
total ((k, n) ∷ out) = n + total out

count_one-total : (state : State) (out : Counts) → total (count_one state out) ≡ total out + 1
unfolding count_one
count_one-total state [] = refl
count_one-total state ((k, n) ∷ out) = ground (arith, count_one-total state out)

counts-total : (l : List Job) (out : Counts) → total (foldl count_job out l) ≡ total out + length l
counts-total [] out = omega arith
counts-total (j ∷ l) out =
    counts-total l (count_job out j) ∙ omega (arith, count_one-total (counted_state j.state) out)

-- Every job is counted once: the counts of all states add up to the number of jobs.
pub job_counts-total : (s : Store) → total (job_counts s) ≡ length s.jobs
unfolding job_counts
job_counts-total s =
    counts-total (values s.jobs) no_counts
    ∙ omega (arith, length-map (λ (e : Text × Job). e.1) s.jobs)
