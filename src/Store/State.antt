-- ===== src/Store/State.antt =====
-- `Store` of internal/store/store.go: what the log determines, the file, the health of the store
-- and its subscribers; and what the operating system answers in one call.
use relaybox.Prelude.{ℕ, ◌+◌, ◌%◌, ◌^◌, Bytes, Bool, List, Option}
use relaybox.Store.Model.{Event}
use relaybox.Store.Errors.{Error}
use relaybox.Store.Options.{Options}
use relaybox.Store.Tables.{Image}

-- A subscriber's channel: what waits in its buffer. A channel that is not open has been closed
-- and is no longer among the subscribers.
pub record Channel : Type 0 where
  pub id : ℕ
  pub queue : List Event
  pub is_open : Bool

-- `file` is what the open descriptor reads, `at_path` what stands under the store's path. They
-- differ only where a compaction has failed after its rename.
pub record Store : Type 0 where
  pub image : Image
  pub open image use *
  pub options : Options
  pub event_count : ℕ
  pub file : Bytes
  pub at_path : Bytes
  pub health : Option Error
  pub is_closed : Bool
  pub channels : List Channel
  pub next_channel : ℕ

-- The answers to one compaction: an error of a step up to the rename, of a step from there to
-- the new descriptor, and of closing the old descriptor.
pub record CompactDisk : Type 0 where
  pub before_rename : Option Error
  pub after_rename : Option Error
  pub close_old : Option Error

-- The answers to one append. `written` is the count that `Write` returns.
pub record Disk : Type 0 where
  pub clock : ℕ
  pub before_write : Option Error
  pub seek_error : Option Error
  pub written : ℕ
  pub write_error : Option Error
  pub before_sync : Option Error
  pub sync_error : Option Error
  pub compaction : CompactDisk

-- `s.seq++` on a `uint64`
abbrev pub next_seq : ℕ → ℕ
next_seq seq = (seq + 1) % 2 ^ 64

-- `maxEventBytes`
abbrev pub max_event_bytes : ℕ
max_event_bytes = 134217728
