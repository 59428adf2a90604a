-- ===== src/Store/Tests/Evictions.antt =====
-- Examples of the theorems about removals, on a capture with a job and an attempt.
use relaybox.Prelude.{codes, some, []}
use relaybox.Store.Model.{Event, Request, Attempt, succeeded}
use relaybox.Store.Tables.{Image}
use relaybox.Store.Apply.{apply}
use relaybox.Store.Jobs.{job_event}
use relaybox.Store.Tests.{options, capture, env, empty, hook, job_of, attempt_one}

abbrev captured : Image
captured = apply env options capture (record { offset = 0; length = 2; seq = 1 }) empty.image

abbrev attempt : Attempt
attempt = record attempt_one { job_id = codes "j" }

abbrev tried : Event
tried = record (job_event succeeded (job_of (codes "j"))) { attempt = some attempt }

abbrev image : Image
image = apply env options tried (record { offset = 2; length = 2; seq = 2 }) captured

abbrev row : Request
row = record hook { body = [] }
