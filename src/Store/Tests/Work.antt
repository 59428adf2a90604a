-- ===== src/Store/Tests/Work.antt =====
-- Examples of the theorems about jobs.
use relaybox.Prelude.{ℕ, ◌≡◌, ◌≢◌, refl, arith, Text, codes, some, []}
use relaybox.Map.{get}
use relaybox.Store.Model.{Attempt, State, succeeded, terminal_state}
use relaybox.Store.Errors.{Error}
use relaybox.Store.Jobs.{enqueue, finish_without_attempt, settle_job, record_attempt}
use relaybox.Store.Jobs.Leases.{IsClaim, claim_next_job-IsClaim, claim-exclusive}
use relaybox.Store.Jobs.Stale.{recorded, stale_owner}
use relaybox.Store.Jobs.Attempts.{IsRecorded, record_attempt-IsRecorded}
use relaybox.Store.Jobs.Terminal.{call, claim, call-keeps_terminal}
use relaybox.Store.Jobs.Enqueue.{enqueue-keeps_unfinished}
use relaybox.Store.Tests.{
  disk, env, two, lent, first_job, two-IsSound, claims_first, claim_two, second_job, claims_second,
  lent-IsSound, attempt_one, finished, records, done_job, finished-IsSound, has_done_job,
  still_waiting, job_of,
}

claim_next_job-IsClaim_example : IsClaim (codes "a") 10 10 first_job two lent
claim_next_job-IsClaim_example =
    claim_next_job-IsClaim env disk (codes "a") 10 10 two first_job lent two-IsSound claims_first

claim-exclusive_example : second_job.id ≢ first_job.id
claim-exclusive_example =
    claim-exclusive env disk disk (codes "a") (codes "b") 10 19 10 10 first_job second_job two lent
      claim_two.1 two-IsSound claims_first claims_second (omega arith)

-- The worker that has just recorded its attempt.
stale_owner_example :
    ((att : Attempt) (state : State) (message : Text) (available_at : ℕ)
      → record_attempt env disk 12 (codes "k") (codes "a") att state message available_at finished
        ≡ (some Error.lease_lost, finished))
    × ((state : State) (message : Text)
        → finish_without_attempt env disk 12 (codes "k") (codes "a") state message finished
          ≡ (some Error.lease_lost, finished))
stale_owner_example =
    stale_owner env disk 12 (codes "a") (codes "k") finished
      (recorded disk 5 (codes "a") attempt_one succeeded [] 0 lent lent-IsSound records)

record_attempt-IsRecorded_example :
    IsRecorded (codes "k") (codes "a") attempt_one succeeded [] 0 12 lent finished
record_attempt-IsRecorded_example =
    record_attempt-IsRecorded env disk 5 (codes "k") (codes "a") attempt_one succeeded [] 0 lent
      lent-IsSound finished records

call-keeps_terminal_example :
    get (codes "k") (call env (λ n. disk) (claim (codes "b") 99 10) finished).jobs ≡ some done_job
unfolding terminal_state settle_job
call-keeps_terminal_example =
    call-keeps_terminal env (λ n. disk) finished finished-IsSound (codes "k") done_job has_done_job
      refl (claim (codes "b") 99 10)

-- The index of the request is full, and the finished job of the two goes.
enqueue-keeps_unfinished_example :
    get (codes "j") (enqueue env disk (job_of (codes "m")) finished).1.jobs
    ≡ some (job_of (codes "j"))
unfolding terminal_state
enqueue-keeps_unfinished_example =
    enqueue-keeps_unfinished (codes "j") (job_of (codes "j")) finished finished-IsSound
      still_waiting refl env disk (job_of (codes "m"))
