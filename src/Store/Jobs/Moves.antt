-- ===== src/Store/Jobs/Moves.antt =====
-- An append of an event that carries a job and no request: it moves that job and no other.
use relaybox.Prelude.{ℕ, ◌≡◌, ◌≢◌, refl, Text, Option, none, some}
use relaybox.Map.{get, put, get-put_self, get-put_ne}
use relaybox.Store.Model.{Job, Attempt, State, Event}
use relaybox.Store.Errors.{Result, ok}
use relaybox.Store.Env.{Env}
use relaybox.Store.Options.{Options}
use relaybox.Store.Tables.{Tables, RecordRef}
use relaybox.Store.Apply.{apply_rows}
use relaybox.Store.State.{Store, Disk}
use relaybox.Store.Append.{append, stamp}
use relaybox.Store.Append.Effect.{Effect, idle, moved, append-Effect}
use relaybox.Store.Jobs.{job_event}

-- The event of a job, with an attempt or none.
abbrev pub moving : State → Job → Option Attempt → Event
moving state j a = record (job_event state j) { attempt = a }

jobs-apply_rows :
    (o : Options) (ref : RecordRef) (t : Tables) (seq clock : ℕ) (state : State) (j : Job)
    (a : Option Attempt)
    → (apply_rows o (stamp seq clock (moving state j a)) ref t).jobs ≡ put j.id j t.jobs
unfolding apply_rows stamp
jobs-apply_rows o ref t seq clock state j none = refl
jobs-apply_rows o ref t seq clock state j (some a) = refl

module _ (env : Env) (d : Disk) (state : State) (j : Job) (a : Option Attempt) (s : Store) where
  abbrev event : Event
  event = stamp s.seq d.clock (moving state j a)

  Effect-other :
      {r : Result Event} {s' : Store}
      → Effect s event r s'
      → (k : Text) → j.id ≢ k
      → get k s'.jobs ≡ get k s.jobs
  Effect-other (idle x rows) k h = rw rows.jobs
  Effect-other (moved r ref same fits rows) k h =
      rw rows.jobs (rw jobs-apply_rows (get-put_ne j.id k j s.jobs h))

  Effect-this :
      {r : Result Event} {s' : Store}
      → Effect s event r s'
      → (e : Event) → r ≡ ok e
      → get j.id s'.jobs ≡ some j
  Effect-this (idle x rows) e h = cc
  Effect-this (moved r ref same fits rows) e h =
      rw rows.jobs (rw jobs-apply_rows (get-put_self j.id j s.jobs))

  -- Whatever becomes of the append, the other jobs are as they were.
  pub other-job :
      (k : Text) → j.id ≢ k → get k (append env d (moving state j a) s).1.jobs ≡ get k s.jobs
  other-job = Effect-other (append-Effect env d (moving state j a) s)

  -- Where it succeeds, the job is stored as the event has it.
  pub this-job :
      (e : Event)
      → (append env d (moving state j a) s).0 ≡ ok e
      → get j.id (append env d (moving state j a) s).1.jobs ≡ some j
  this-job = Effect-this (append-Effect env d (moving state j a) s)
