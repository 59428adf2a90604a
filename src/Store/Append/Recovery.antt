-- ===== src/Store/Append/Recovery.antt =====
-- An append is atomic and durable: what a restart reads is the store before it or after it.
use relaybox.Prelude.{
  ℕ, ◌+◌, ◌<◌, ◌≤◌, ◌^◌, ◌≡◌, refl, sym, ap, ◌∙◌, ◌⊎◌, inl, inr, Bytes, false, [], ◌++◌, length,
  take, take_of_length-le, append-nil, arith, Bool-cases, ltb, ltb→lt,
}
use relaybox.Store.Model.{Event}
use relaybox.Store.Errors.{Result, ok}
use relaybox.Store.Env.{Env, IsExact}
use relaybox.Store.Options.{Options}
use relaybox.Store.Tables.{RecordRef, Tables}
use relaybox.Store.Apply.{apply}
use relaybox.Store.State.{Store, Disk, next_seq}
use relaybox.Store.Append.{append, stamp, prepare, ready}
use relaybox.Store.Append.Line.{IsReady, prepare-IsReady}
use relaybox.Store.Append.Durable.{
  IsDurable, recover-torn, torn-line, scan-whole, good-length, recover-scan,
}
use relaybox.Store.Append.Outcome.{
  Outcome, unchanged, stopped, failed, done, published, spoilt, line_ref, append-Outcome,
}
use relaybox.Store.Recover.{take_record, recover, opened}

-- The sequence number of the image before an event does not show after it.
apply-seq :
    (env : Env) (o : Options) (e : Event) (ref : RecordRef) (a b : ℕ) (t : Tables)
    → a < e.seq
    → b ≡ e.seq
    → apply env o e ref (record { seq = a; tables = t })
      ≡ apply env o e ref (record { seq = b; tables = t })
unfolding apply
apply-seq env o e ref a b t h k = ground arith

stamp_seq : (seq clock : ℕ) (e : Event) → seq + 1 < 2 ^ 64 → (stamp seq clock e).seq ≡ seq + 1
unfolding stamp
stamp_seq seq clock e h = omega arith

stamp_plain : (seq clock : ℕ) (e : Event) → (stamp seq clock e).snapshot ≡ false
unfolding stamp
stamp_plain seq clock e = refl

module _ (env : Env) (s : Store) (v : IsDurable env s) (e : Event) (x : IsExact env e)
    (next : e.seq ≡ s.seq + 1) (room : s.seq + 1 < 2 ^ 64) (plain : e.snapshot ≡ false) where
  -- What recovery makes of the whole line is what the append publishes.
  take_record-image :
      (n : ℕ)
      → (take_record env s.options v.progress n e).image
        ≡ apply env s.options e
            (record { offset = length s.file; length = n; seq = e.seq })
            (record s.image { seq = next_seq s.seq })
  unfolding take_record
  take_record-image n =
      let good : v.progress.good ≡ length s.file =
        good-length env s v ∙ ap length (sym v.same_file) in
      rw (good, v.same_image)
        (apply-seq env s.options e (record { offset = length s.file; length = n; seq = e.seq })
          s.seq (next_seq s.seq) s.tables (omega arith) (omega arith))

  done-IsDurable :
      (d : Disk) (line : Bytes)
      → IsReady env s e line
      → length line ≤ d.written
      → IsDurable env (published env d e line s)
  unfolding published take_record
  done-IsDurable d line r h = record {
    progress = take_record env s.options v.progress (length line) e;
    reads = rw (take_of_length-le d.written line h) (scan-whole env s v e line x r next room plain);
    same_image = take_record-image (length line);
    same_count = ground (arith, v.same_count);
    same_file = ap (λ f. f ++ take d.written line) v.same_file;
  }

  -- A crash or an error in the middle of the line: all of it is there, or it is cut off.
  spoilt-recovers :
      (k : ℕ) (line : Bytes)
      → IsReady env s e line
      → (t : Store) × (recover env s.options (s.at_path ++ take k line) ≡ ok t)
        × ((t.image ≡ s.image) ⊎ (t.image ≡ apply env s.options e (line_ref s e line) s.image))
  unfolding opened take_record
  spoilt-recovers k line r = elim (Bool-cases (ltb k (length line))) [
    | inl short ↦
        let (t, reads, image, _, _) =
          recover-torn env s v (take k line)
            (torn-line env s v e line x r next room plain k (ltb→lt k (length line) short)) in
        (t, reads, inl image)
    | inr long ↦
        let p = take_record env s.options v.progress (length line) e in
        let good : v.progress.good ≡ length s.file =
          good-length env s v ∙ ap length (sym v.same_file) in
        let all : take k line ≡ line = take_of_length-le k line (ground arith) in
        (
          opened s.options p (take p.good (s.at_path ++ line)),
          rw all (
              recover-scan env s.options (s.at_path ++ line) p []
                (scan-whole env s v e line x r next room plain)),
          inr (rw (good, v.same_image)),
        )
  ]

  abbrev Reread : Bytes → Type 0
  Reread file =
      (t : Store) × (recover env s.options file ≡ ok t)
      × ((t.image ≡ s.image)
          ⊎ ((line : Bytes) × (t.image ≡ apply env s.options e (line_ref s e line) s.image)))

  kept : Reread s.at_path
  kept =
      let (t, reads, image, _, _) = recover-torn env s v [] tt in
      (t, rw append-nil at reads, inl image)

  written-recovers :
      (d : Disk) (line : Bytes)
      → prepare env d s e ≡ ready line
      → Reread (s.at_path ++ take d.written line)
  written-recovers d line p =
      let (t, reads, image) = spoilt-recovers d.written line (prepare-IsReady env e d s line p) in
      (t, reads, elim image [ inl before ↦ inl before | inr after ↦ inr (line, after) ])

  Outcome-recovers :
      (d : Disk) {r : Result Event} {s' : Store}
      → Outcome env d e s r s'
      → (t : Store) × (recover env s.options s'.at_path ≡ ok t)
        × ((t.image ≡ s.image)
            ⊎ ((line : Bytes) × (t.image ≡ apply env s.options e (line_ref s e line) s.image)))
  unfolding published spoilt
  Outcome-recovers d (unchanged x) = kept
  Outcome-recovers d (stopped x) = kept
  Outcome-recovers d (failed x line p) = written-recovers d line p
  Outcome-recovers d (done line p w) = written-recovers d line p

  Outcome-IsDurable :
      (d : Disk) (e' : Event) {r : Result Event} {s' : Store}
      → Outcome env d e s r s'
      → r ≡ ok e'
      → IsDurable env s' × (e' ≡ e)
  Outcome-IsDurable d e' (unchanged x) h = cc
  Outcome-IsDurable d e' (stopped x) h = cc
  Outcome-IsDurable d e' (failed x line p) h = cc
  Outcome-IsDurable d e' (done line p w) h =
      (done-IsDurable d line (prepare-IsReady env e d s line p) w, cc)

module _ (env : Env) (d : Disk) (e : Event) (s : Store) (v : IsDurable env s)
    (x : IsExact env (stamp s.seq d.clock e)) (room : s.seq + 1 < 2 ^ 64)
    (spare : s.event_count < s.options.max_events) where
  -- An append that succeeds leaves a store whose log reads back as its image in memory, and what
  -- it returns is the event with its number and time. The event is one that the encoder keeps
  -- exactly, its number fits 64 bits, and the append starts on a store whose log reads back and
  -- triggers no compaction.
  pub append-IsDurable :
      (e' : Event) (s' : Store)
      → append env d e s ≡ (ok e', s')
      → IsDurable env s' × (e' ≡ stamp s.seq d.clock e)
  append-IsDurable e' s' h = rw (ap (λ (r : Result Event × Store). r.1) h) at (
      Outcome-IsDurable env s v (stamp s.seq d.clock e) x (stamp_seq s.seq d.clock e room) room
        (stamp_plain s.seq d.clock e) d e' (append-Outcome env d e s spare)
        (ap (λ (r : Result Event × Store). r.0) h))

  -- An append is all or nothing, whatever the disk answers: a restart reads the file that it
  -- leaves, and gets the image from before the append or that image with the stamped event applied
  -- to it. The event is one that the encoder keeps exactly, its number fits 64 bits, and the
  -- append starts on a store whose log reads back and triggers no compaction.
  pub append-recovers :
      (t : Store) × (recover env s.options (append env d e s).1.at_path ≡ ok t)
      × ((t.image ≡ s.image)
          ⊎ ((line : Bytes) × (t.image
                ≡ apply env s.options
                    (stamp s.seq d.clock e)
                    (line_ref s (stamp s.seq d.clock e) line)
                    s.image)))
  append-recovers =
      Outcome-recovers env s v (stamp s.seq d.clock e) x (stamp_seq s.seq d.clock e room) room
        (stamp_plain s.seq d.clock e) d (append-Outcome env d e s spare)
