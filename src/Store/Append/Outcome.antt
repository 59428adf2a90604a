-- ===== src/Store/Append/Outcome.antt =====
-- The ways in which an append can end.
use relaybox.Prelude.{◌<◌, ◌≤◌, ◌≡◌, refl, inl, inr, Bytes, none, length, arith, Option-cases}
use relaybox.Store.Model.{Event}
use relaybox.Store.Errors.{Error, Result, ok, err}
use relaybox.Store.Env.{Env}
use relaybox.Store.Tables.{RecordRef}
use relaybox.Store.State.{Store, Disk}
use relaybox.Store.Append.{
  append, gate, append_open, stamp, prepare, Prepared, refused, vetoed, ready, act, commit,
  write_failure, after_write, absorb, broadcast, poison, announce, maybe_compact,
}

-- The reference under which a line is published.
abbrev pub line_ref : Store → Event → Bytes → RecordRef
line_ref s e line = record { offset = length s.file; length = length line; seq = e.seq }

-- The store after an event that has been written and needs no compaction.
unfoldable pub published : Env → Disk → Event → Bytes → Store → Store
unfolding absorb after_write broadcast
published env d e line s = broadcast e (absorb env e (line_ref s e line) (after_write d line s))

-- The store after a line that could not be written whole, or not be synced.
unfoldable pub spoilt : Disk → Error → Bytes → Store → Store
unfolding after_write poison
spoilt d x line s = poison x (after_write d line s)

pub data Outcome (env : Env) (d : Disk) (e : Event) (s : Store)
    : Result Event → Store → Type 0 where
  -- nothing has been written
  unchanged : (x : Error) → Outcome env d e s (err x) s
  stopped : (x : Error) → Outcome env d e s (err x) (poison x s)
  -- a part of the line has been written, or all of it
  failed :
      (x : Error) (line : Bytes)
      → prepare env d s e ≡ ready line
      → Outcome env d e s (err x) (spoilt d x line s)
  done :
      (line : Bytes)
      → prepare env d s e ≡ ready line
      → length line ≤ d.written
      → Outcome env d e s (ok e) (published env d e line s)

module _ (env : Env) (d : Disk) (e : Event) (s : Store)
    (spare : s.event_count < s.options.max_events) where
  whole : (line : Bytes) → write_failure d line ≡ none → length line ≤ d.written
  unfolding write_failure
  whole line h = ground arith

  no_compaction :
      (line : Bytes)
      → let t = absorb env e (line_ref s e line) (after_write d line s) in
        maybe_compact env d.compaction t ≡ (none, t)
  unfolding maybe_compact absorb after_write
  no_compaction line = ground arith

  commit-Outcome :
      (line : Bytes)
      → prepare env d s e ≡ ready line
      → Outcome env d e s (commit env d e line s).0 (commit env d e line s).1
  unfolding commit announce published spoilt
  commit-Outcome line h = elim (Option-cases (write_failure d line)) [
    | inl none_failed ↦
        rw (none_failed, commit) (rw (no_compaction line) (done line h (whole line none_failed)))
    | inr (x, broke) ↦ rw (broke, commit) (failed x line h)
  ]

  act-Outcome :
      (p : Prepared)
      → prepare env d s e ≡ p
      → Outcome env d e s (act env d e s p).0 (act env d e s p).1
  unfolding act
  act-Outcome (refused x) h = unchanged x
  act-Outcome (vetoed x) h = stopped x
  act-Outcome (ready line) h = commit-Outcome line h

  append_open-Outcome : Outcome env d e s (append_open env d e s).0 (append_open env d e s).1
  unfolding append_open
  append_open-Outcome = act-Outcome (prepare env d s e) refl

-- Without a compaction, every append ends in one of these ways.
pub append-Outcome :
    (env : Env) (d : Disk) (e : Event) (s : Store)
    → s.event_count < s.options.max_events
    → Outcome env d (stamp s.seq d.clock e) s (append env d e s).0 (append env d e s).1
unfolding append
append-Outcome env d e s spare = elim (Option-cases (gate s)) [
  | inl open_ ↦ rw (open_, append) (append_open-Outcome env d (stamp s.seq d.clock e) s spare)
  | inr (x, shut) ↦ rw (shut, append) (unchanged x)
]
