-- ===== src/Store/Append.antt =====
-- `appendLocked` of internal/store/store.go, with the compaction and the broadcast in it.
pub mod Line
pub mod Outcome
pub mod Durable
pub mod Recovery
pub mod Effect
pub mod Compaction
pub mod Published
use relaybox.Prelude.{
  ℕ, ◌+◌, ◌-◌, ◌^◌, Bytes, false, Option, none, some, [], ◌∷◌, ◌++◌, length, take, map, ltb, nat_eq,
  is_empty, if◌then◌else◌,
}
use relaybox.Store.Model.{Event, is_zero}
use relaybox.Store.Errors.{Error, Result, ok, err, ◌>>◌}
use relaybox.Store.Env.{Env, newline}
use relaybox.Store.Options.{Options}
use relaybox.Store.Tables.{RecordRef}
use relaybox.Store.Validate.{Checked, validate_recovered_event, validate_state}
use relaybox.Store.Apply.{apply}
use relaybox.Store.State.{Channel, Store, Disk, CompactDisk, next_seq, max_event_bytes}
use relaybox.Store.Compact.{Rewritten, snapshot_records, write_records}

-- What a step that may fail answers: its error if any, and the store that it leaves.
abbrev pub Step : Type 0
Step = Option Error × Store

infixl 20 ◌<|>◌
abbrev pub ◌<|>◌ : Option Error → Option Error → Option Error
none <|> b = b
some a <|> b = some a

-- From the renamed file on. The tables' references now point into the new file.
install : Rewritten → ℕ → CompactDisk → Store → Step
install w count d s = elim d.after_rename [
  | some e ↦ (some e, record s { at_path = w.bytes })
  | none ↦ (
    d.close_old,
    record s {
      image = record {
        seq = s.seq + count;
        tables = record s.tables {
          request_record = w.request_refs;
          attempt_record = w.attempt_refs;
        };
      };
      event_count = 0;
      file = w.bytes;
      at_path = w.bytes;
    },
  )
]

-- The end of a compaction, once the new file is written or has failed to be.
finish_compact : ℕ → CompactDisk → Store → Result Rewritten → Step
finish_compact count d s (err e) = (some e, s)
finish_compact count d s (ok w) = elim d.before_rename [
  | some e ↦ (some e, s)
  | none ↦ install w count d s
]

-- The snapshot takes the sequence numbers after the last one used, one for each record.
pub compact : Env → CompactDisk → Store → Step
compact env d s =
    let records = snapshot_records s.tables in
    let first = if is_empty records then s.seq else s.seq + 1 in
    let nothing : Rewritten = record { bytes = []; request_refs = []; attempt_refs = [] } in
    if ltb (2 ^ 64 - 1 - s.seq) (length records)
    then (some Error.sequence_exhausted, s)
    else finish_compact (length records) d s
        (write_records env s.file s.tables first records nothing)

-- The number and the time that an event gets.
unfoldable pub stamp : ℕ → ℕ → Event → Event
stamp seq clock e = record e {
  seq = next_seq seq;
  snapshot = false;
  at = if is_zero e.at then clock else e.at;
}

-- What happens before the file is written: the event is refused and the store stays as it was,
-- or the hook `beforeWrite` fails and poisons it, or there is a line to write.
pub data Prepared : Type 0 where
  refused vetoed : Error → Prepared
  ready : Bytes → Prepared

encode_line : Env → Option Error → Event → Prepared
encode_line env seek_error e = elim (env.encode e) [
  | none ↦ refused Error.encoding
  | some b ↦
      let line = b ++ newline ∷ [] in
      if ltb max_event_bytes (length line)
      then refused Error.event_too_long
      else elim seek_error [ some x ↦ refused x | none ↦ ready line ]
]

pass_hook : Env → Disk → Event → Checked → Prepared
pass_hook env d e (err x) = refused x
pass_hook env d e (ok u) = elim d.before_write [
  | some x ↦ vetoed x
  | none ↦ encode_line env d.seek_error e
]

-- Both checks on a stamped event, in the source's order.
check_event : Env → Store → Event → Checked
check_event env s e = do validate_recovered_event env e; validate_state s.tables e

pub prepare : Env → Disk → Store → Event → Prepared
prepare env d s e = pass_hook env d e (check_event env s e)

-- The error of `Write`, or of a short write, then of the hook `beforeSync`, then of `Sync`.
write_failure : Disk → Bytes → Option Error
write_failure d line =
    (d.write_error <|> (if nat_eq d.written (length line) then none else some Error.short_write))
    <|> d.before_sync
    <|> d.sync_error

-- The file after `Write`: as much of the line as was written.
pub after_write : Disk → Bytes → Store → Store
after_write d line s =
    let chunk = take d.written line in
    record s {
      image = record s.image { seq = next_seq s.seq };
      file = s.file ++ chunk;
      at_path = s.at_path ++ chunk;
    }

-- `select { case ch <- e: default: close(ch); delete(s.subs, ch) }`
send : Options → Event → Channel → Channel
send o e ch =
    if ch.is_open
    then if ltb (length ch.queue) o.subscriber_backlog
      then record ch { queue = ch.queue ++ e ∷ [] }
      else record ch { is_open = false }
    else ch

pub broadcast : Event → Store → Store
broadcast e s = record s { channels = map (send s.options e) s.channels }

-- The event enters the tables under the line that holds it.
pub absorb : Env → Event → RecordRef → Store → Store
absorb env e ref s = record s {
  image = apply env s.options e ref s.image;
  event_count = s.event_count + 1;
}

pub poison : Error → Store → Store
poison e s = record s { health = some e }

announce : Event → Step → Result Event × Store
announce e (some x, s) = (err x, poison x s)
announce e (none, s) = (ok e, broadcast e s)

pub maybe_compact : Env → CompactDisk → Store → Step
maybe_compact env d s =
    if ltb s.options.max_events s.event_count then compact env d s else (none, s)

-- A line that is ready: write it, and publish the event if that went well.
commit : Env → Disk → Event → Bytes → Store → Result Event × Store
commit env d e line s = elim (write_failure d line) [
  | some x ↦ (err x, poison x (after_write d line s))
  | none ↦
      let ref : RecordRef = record { offset = length s.file; length = length line; seq = e.seq } in
      announce e (maybe_compact env d.compaction (absorb env e ref (after_write d line s)))
]

act : Env → Disk → Event → Store → Prepared → Result Event × Store
act env d e s (refused x) = (err x, s)
act env d e s (vetoed x) = (err x, poison x s)
act env d e s (ready line) = commit env d e line s

append_open : Env → Disk → Event → Store → Result Event × Store
append_open env d e s = act env d e s (prepare env d s e)

-- A closed or poisoned store refuses everything.
pub gate : Store → Option Error
gate s =
    if s.is_closed
    then some Error.closed
    else elim s.health [ some x ↦ some (Error.poisoned x) | none ↦ none ]

-- `appendLocked`, and so `Append`.
pub append : Env → Disk → Event → Store → Result Event × Store
append env d e s = elim (gate s) [
  | some x ↦ (err x, s)
  | none ↦ append_open env d (stamp s.seq d.clock e) s
]

-- What a run of `append` on a given store unfolds.
unfoldable pub append_runs : Unit {0}
unfolding install finish_compact compact encode_line pass_hook check_event prepare write_failure
    after_write send broadcast absorb poison announce maybe_compact commit act append_open gate
    append
append_runs = tt
