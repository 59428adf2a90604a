-- ===== src/Store/Append/Compaction.antt =====
-- A compaction leaves the catch-up ring alone, whether it succeeds or not. It may take sequence
-- numbers.
use relaybox.Prelude.{ℕ, ◌-◌, ◌^◌, ◌≤◌, ◌≡◌, refl, length, ltb, arith, Bool-cases, inl, inr}
use relaybox.Store.Errors.{Result, ok, err}
use relaybox.Store.Env.{Env}
use relaybox.Store.Compact.{Rewritten, snapshot_records}
use relaybox.Store.State.{Store, CompactDisk}
use relaybox.Store.Append.{compact, finish_compact, install}

ring-install :
    (w : Rewritten) (n : ℕ) (d : CompactDisk) (s : Store) → (install w n d s).1.ring ≡ s.ring
unfolding install
ring-install w n d s = ground arith

ring-finish_compact :
    (n : ℕ) (d : CompactDisk) (s : Store) (r : Result Rewritten)
    → (finish_compact n d s r).1.ring ≡ s.ring
unfolding finish_compact
ring-finish_compact n d s (err x) = refl
ring-finish_compact n d s (ok w) = ground (arith, ring-install w n d s)

pub ring-compact : (env : Env) (d : CompactDisk) (s : Store) → (compact env d s).1.ring ≡ s.ring
unfolding compact
ring-compact env d s =
    elim (Bool-cases (ltb (2 ^ 64 - 1 - s.seq) (length (snapshot_records s.tables)))) [
      | inl full ↦ rw full
      | inr room ↦ rw room (ring-finish_compact _ d s _)
    ]

-- The same ring, and a sequence number that is no smaller.
pub record SameRing (s u : Store) : Type 0 where
  pub ring : u.ring ≡ s.ring
  pub bytes : u.ring_bytes ≡ s.ring_bytes
  pub later : s.seq ≤ u.seq

install-SameRing :
    (w : Rewritten) (n : ℕ) (d : CompactDisk) (s : Store) → SameRing s (install w n d s).1
unfolding install
install-SameRing w n d s = ground arith

finish_compact-SameRing :
    (n : ℕ) (d : CompactDisk) (s : Store) (r : Result Rewritten)
    → SameRing s (finish_compact n d s r).1
unfolding finish_compact
finish_compact-SameRing n d s (err x) = record { ring = refl; bytes = refl; later = omega arith }
finish_compact-SameRing n d s (ok w) = ground (arith, install-SameRing w n d s)

pub compact-SameRing : (env : Env) (d : CompactDisk) (s : Store) → SameRing s (compact env d s).1
unfolding compact
compact-SameRing env d s =
    elim (Bool-cases (ltb (2 ^ 64 - 1 - s.seq) (length (snapshot_records s.tables)))) [
      | inl full ↦ rw full (record { ring = refl; bytes = refl; later = omega arith })
      | inr room ↦ rw room (finish_compact-SameRing _ d s _)
    ]
