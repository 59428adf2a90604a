-- ===== src/Store/Tests/Captures.antt =====
-- Examples of the theorems about captures.
use relaybox.Prelude.{◌≡◌, true, ◌⊎◌, refl, codes, [], some, none, arith, ◌==◌, if◌then◌else◌}
use relaybox.Map.{get}
use relaybox.Store.Model.{duplicate, conflict, terminal_state, Job}
use relaybox.Store.Accept.{accept, discoverable_job}
use relaybox.Store.Accept.Repair.{IsComplete, IsRepaired, accept_again}
use relaybox.Store.Accept.Retention.{accept-keeps_unfinished}
use relaybox.Store.Errors.{ok}
use relaybox.Store.State.{Store}
use relaybox.Store.Queries.{load_amid}
use relaybox.Store.Queries.Load.{IsLoaded, load-IsLoaded}
use relaybox.Store.Tests.{
  disk, env, hook, other_hook, job_of, empty, one, two, first_answer, accepts, two_has_job, runs,
}

accept_again_example :
    (IsComplete hook other_hook none one
      × (accept env disk other_hook none one ≡ (
        record {
          id = codes "r";
          result = if hook.body_sha256 == other_hook.body_sha256 then duplicate else conflict;
          job = discoverable_job one.tables (codes "r");
          error = none;
        },
        one,
      )))
    ⊎ ((j : Job) × (none ≡ some j)
        × (discoverable_job one.tables (codes "r") ≡ none)
        × ((hook.body_sha256 == other_hook.body_sha256) ≡ true)
        × IsRepaired
            (codes "r")
            j
            one
            (accept env disk other_hook none one).0
            (accept env disk other_hook none one).1)
accept_again_example =
    accept_again env disk disk hook other_hook (some (job_of (codes "j"))) none empty one
      first_answer accepts refl refl refl (λ e. absurd (ground arith)) refl

accept-keeps_unfinished_example :
    get
      (codes "k")
      (accept env disk (record other_hook { delivery_id = codes "e" }) none two).1.jobs
    ≡ some (job_of (codes "k"))
unfolding terminal_state
accept-keeps_unfinished_example =
    accept-keeps_unfinished (codes "k") (job_of (codes "k")) two two_has_job refl env disk
      (record other_hook { delivery_id = codes "e" }) none

-- Another request is accepted while the file is read.
abbrev interfered : Store → Store
interfered s = (accept env disk (record other_hook { delivery_id = codes "e" }) none s).1

loads_amid : load_amid env (codes "r") interfered one ≡ (ok (some (hook, [])), interfered one)
unfolding runs
loads_amid = refl

load-IsLoaded_example : IsLoaded env (codes "r") hook [] one (interfered one) (interfered one)
load-IsLoaded_example =
    load-IsLoaded env (codes "r") interfered one hook [] (interfered one) loads_amid
