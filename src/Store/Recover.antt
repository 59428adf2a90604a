-- ===== src/Store/Recover.antt =====
-- `recover` and `readRecord` of internal/store/store.go. The log is read byte by byte: the bytes
-- since the last newline are the record that is being read. Errors of reading the file itself
-- are not modelled.
pub mod Torn
use relaybox.Prelude.{
  ℕ, ◌+◌, Bytes, Bool, true, false, not, ◌&&◌, ◌||◌, ◌==◌, Option, none, some, List, [], ◌∷◌, ◌++◌,
  length, take, ltb, nat_eq, if◌then◌else◌,
}
use relaybox.Store.Model.{Event}
use relaybox.Store.Errors.{Error, Result, ok, err, ◌>>=◌, ◌>>◌}
use relaybox.Store.Env.{Env, newline}
use relaybox.Store.Options.{Options}
use relaybox.Store.Tables.{RecordRef, Image, no_tables}
use relaybox.Store.Validate.{Checked, fail_if, validate_recovered_event, validate_state}
use relaybox.Store.Apply.{apply}
use relaybox.Store.State.{Store, max_event_bytes, next_seq}

-- The variables of the loop: the store so far, `good` and `seenMutation`.
pub record Progress : Type 0 where
  pub image : Image
  pub open image use *
  pub event_count : ℕ
  pub good : ℕ
  pub seen_mutation : Bool

abbrev pub start : Progress
start = record {
  image = record { seq = 0; tables = no_tables };
  event_count = 0;
  good = 0;
  seen_mutation = false;
}

parse_line : Env → Bytes → Result Event
parse_line env line = elim (env.decode line) [ none ↦ err Error.corrupt | some e ↦ ok e ]

-- The checks on a decoded event, in the source's order. `s.seq+1` is a `uint64`.
unfoldable pub check_record : Env → Progress → Event → Checked
check_record env p e = do
  fail_if (nat_eq e.seq 0 || (not (nat_eq p.seq 0) && not (nat_eq e.seq (next_seq p.seq))))
      Error.sequence_gap
  validate_recovered_event env e
  validate_state p.tables e
  fail_if (e.snapshot && p.seen_mutation) Error.snapshot_after_mutation

-- The record joins the image; what is no snapshot record counts as a mutation.
unfoldable pub take_record : Env → Options → Progress → ℕ → Event → Progress
take_record env o p n e = record {
  image = apply env o e (record { offset = p.good; length = n; seq = e.seq }) p.image;
  event_count = if e.snapshot then p.event_count else p.event_count + 1;
  good = p.good + n;
  seen_mutation = p.seen_mutation || not e.snapshot;
}

unfoldable pub recover_record : Env → Options → Progress → Bytes → Result Progress
unfolding parse_line
recover_record env o p line = do
  fail_if (ltb max_event_bytes (length line)) Error.event_too_long
  e ← parse_line env line
  check_record env p e
  ok (take_record env o p (length line) e)

-- Reads on after `torn`, which is what has been read since the last newline. The result has
-- what stands after the last newline: a record that is not complete.
unfoldable pub scan : Env → Options → Progress → Bytes → Bytes → Result (Progress × Bytes)
scan env o p torn [] = ok (p, torn)
scan env o p torn (b ∷ rest) = elim (nat_eq b newline) [
  | true ↦ do p' ← recover_record env o p (torn ++ b ∷ []); scan env o p' [] rest
  | false ↦ scan env o p (torn ++ b ∷ []) rest
]

-- The store over a recovered image: open, in good health, with no subscriber.
unfoldable pub opened : Options → Progress → Bytes → Store
opened o p file = record {
  image = p.image;
  options = o;
  event_count = p.event_count;
  file = file;
  at_path = file;
  health = none;
  is_closed = false;
  channels = [];
  next_channel = 0;
}

-- `Open` on a file: the image of the complete records, and the file cut behind the last of them.
unfoldable pub recover : Env → Options → Bytes → Result Store
recover env o file = do (p, torn) ← scan env o start [] file; ok (opened o p (take p.good file))
