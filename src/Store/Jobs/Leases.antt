-- ===== src/Store/Jobs/Leases.antt =====
-- Claims, leases, and who may record what became of a job.
use relaybox.Prelude.{
  ℕ, ◌+◌, ◌<◌, ◌≤◌, ◌≡◌, ◌≢◌, refl, ap, Text, true, Option, none, some, List, [], ◌∷◌, All,
  All-select, select, arith,
}
use relaybox.Prelude.Sort.{All-sort}
use relaybox.Map.{get, values}
use relaybox.Map.Size.{All-values}
use relaybox.Store.Model.{Job, leased, Event}
use relaybox.Store.Errors.{Result, ok, err}
use relaybox.Store.Env.{Env}
use relaybox.Store.Tables.{Tables}
use relaybox.Store.Apply.Sound.{IsSound}
use relaybox.Store.State.{Store, Disk}
use relaybox.Store.Append.{append}
use relaybox.Store.Append.Effect.{append-IsSound}
use relaybox.Store.Jobs.{
  claimable, eligible, sooner, lease_to, claimed, claim_first, claim_next_job, job_event,
}
use relaybox.Store.Jobs.Moves.{other-job, this-job}

-- Each job that is up for a claim is in the table, and eligible.
pub claimable-All :
    (now : ℕ) (t : Tables)
    → IsSound t
    → All (λ j. (get j.id t.jobs ≡ some j) × (eligible now j ≡ true)) (claimable now t)
unfolding claimable
claimable-All now t v =
    All-sort sooner (λ j. (get j.id t.jobs ≡ some j) × (eligible now j ≡ true))
      (select (eligible now) (values t.jobs))
      (All-select (λ j. get j.id t.jobs ≡ some j) (eligible now) (values t.jobs)
        (All-values (λ j. j.id) t.jobs v.unique_jobs v.keyed_jobs))

-- What a claim has done that returned the job `j'`.
pub record IsClaim (owner : Text) (now lease : ℕ) (j' : Job) (s s' : Store) : Type 0 where
  pub job : Job
  pub was : get j'.id s.jobs ≡ some job
  pub was_eligible : eligible now job ≡ true
  pub leases : j' ≡ lease_to owner now lease job
  pub is : get j'.id s'.jobs ≡ some j'
  pub others : (k : Text) → j'.id ≢ k → get k s'.jobs ≡ get k s.jobs

claimed_lem :
    (j : Job) (r : Result Event × Store) (j' : Job) (s' : Store)
    → claimed j r ≡ (ok (some j'), s')
    → (e : Event) × (r.0 ≡ ok e) × (r.1 ≡ s') × (j' ≡ j)
claimed_lem j (ok e, s) j' s' h = (e, refl, cc, cc)
claimed_lem j (err x, s) j' s' h = cc

claimed-IsSound :
    (j : Job) (r : Result Event × Store) → IsSound r.1.tables → IsSound (claimed j r).1.tables
claimed-IsSound j (ok e, s) v = v
claimed-IsSound j (err x, s) v = v

module _ (env : Env) (d : Disk) (owner : Text) (now lease : ℕ) (s : Store) where
  IsClaim-from :
      (l : List Job) (j' : Job) (s' : Store)
      → All (λ j. (get j.id s.jobs ≡ some j) × (eligible now j ≡ true)) l
      → claim_first env d owner now lease s l ≡ (ok (some j'), s')
      → IsClaim owner now lease j' s s'
  unfolding claim_first
  IsClaim-from [] j' s' h c = cc
  IsClaim-from (j ∷ rest) j' s' h c =
      let j₁ = lease_to owner now lease j in
      let (e, fine, at, same) = claimed_lem j₁ (append env d (job_event leased j₁) s) j' s' c in
      rw (same, ← at)
        (record {
          job = j;
          was = unfold lease_to in h.0.0;
          was_eligible = h.0.1;
          leases = refl;
          is = this-job env d leased j₁ none s e fine;
          others = other-job env d leased j₁ none s;
        })

  -- On sound tables, a job that a claim returns was in the table and eligible. That job, and no
  -- other, has changed: it is leased to the claimant until the end of the lease.
  pub claim_next_job-IsClaim :
      (j' : Job) (s' : Store)
      → IsSound s.tables
      → claim_next_job env d owner now lease s ≡ (ok (some j'), s')
      → IsClaim owner now lease j' s s'
  unfolding claim_next_job
  claim_next_job-IsClaim j' s' v =
      IsClaim-from (claimable now s.tables) j' s' (claimable-All now s.tables v)

pub claim_next_job-IsSound :
    (env : Env) (d : Disk) (owner : Text) (now lease : ℕ) (s : Store)
    → IsSound s.tables
    → IsSound (claim_next_job env d owner now lease s).1.tables
unfolding claim_next_job claim_first
claim_next_job-IsSound env d owner now lease s v = from (claimable now s.tables)
  where
    from : (l : List Job) → IsSound (claim_first env d owner now lease s l).1.tables
    from [] = v
    from (j ∷ rest) =
        claimed-IsSound _ _
          (append-IsSound env d (job_event leased (lease_to owner now lease j)) s v)

lease_over :
    (now now₂ lease : ℕ) (owner : Text) (j : Job)
    → eligible now₂ (lease_to owner now lease j) ≡ true
    → now + lease ≤ now₂
unfolding eligible lease_to
lease_over now now₂ lease owner j h = ground arith

-- Of two claims in a row on sound tables that each return a job, the second returns another job
-- than the first where its time is before the end of the first lease.
pub claim-exclusive :
    (env : Env) (d d₂ : Disk) (a b : Text) (now now₂ lease lease₂ : ℕ) (j j₂ : Job)
    (s s' s₂ : Store)
    → IsSound s.tables
    → claim_next_job env d a now lease s ≡ (ok (some j), s')
    → claim_next_job env d₂ b now₂ lease₂ s' ≡ (ok (some j₂), s₂)
    → now₂ < now + lease
    → j₂.id ≢ j.id
claim-exclusive env d d₂ a b now now₂ lease lease₂ j j₂ s s' s₂ v first second early same =
    let c₁ = claim_next_job-IsClaim env d a now lease s j s' v first in
    let w : IsSound s'.tables =
      rw (ap (λ (r : Result (Option Job) × Store). r.1) first) at
        (claim_next_job-IsSound env d a now lease s v) in
    let c₂ = claim_next_job-IsClaim env d₂ b now₂ lease₂ s' j₂ s₂ w second in
    let one : c₂.job ≡ lease_to a now lease c₁.job =
      cc (c₁.is, c₂.was, c₁.leases, ap (λ k. get k s'.jobs) same) in
    let past = lease_over now now₂ lease a c₁.job (rw one at c₂.was_eligible) in omega arith
