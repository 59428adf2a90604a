-- ===== src/Store/Append/Effect.antt =====
-- What an append does to the tables, compaction included: nothing, or the rows of its event.
use relaybox.Store.Compact.{Rewritten, snapshot_records}
use relaybox.Prelude.{
  ℕ, length, ◌≡◌, refl, ◌∙◌, Bytes, true, false, none, some, arith, Option-cases, inl, inr, ltb,
  Bool, ◌-◌, ◌^◌, if◌then◌else◌,
}
use relaybox.Store.Model.{Event}
use relaybox.Store.Errors.{Error, Result, ok, err}
use relaybox.Store.Env.{Env}
use relaybox.Store.Options.{Options}
use relaybox.Store.Tables.{Tables, RecordRef}
use relaybox.Store.Validate.{validate_state}
use relaybox.Store.Apply.{apply_rows, apply, append_ring}
use relaybox.Store.Apply.Sound.{IsSound}
use relaybox.Store.Apply.Added.{apply_rows-IsSound}
use relaybox.Store.State.{Store, Disk, CompactDisk}
use relaybox.Store.Append.{
  append, gate, append_open, stamp, prepare, Prepared, refused, vetoed, ready, act, commit,
  write_failure, after_write, absorb, broadcast, poison, announce, compact, finish_compact, install,
  maybe_compact, Step,
}
use relaybox.Store.Append.Line.{prepare-IsReady}

-- Two stores with the same options and the same rows: they may differ in where the records stand
-- in the file, in the ring and in their sequence numbers.
pub record SameRows (o : Options) (t : Tables) (s : Store) : Type 0 where
  pub options : s.options ≡ o
  pub requests : s.requests ≡ t.requests
  pub attempts : s.attempts ≡ t.attempts
  pub attempt_ids : s.attempt_ids ≡ t.attempt_ids
  pub jobs : s.jobs ≡ t.jobs
  pub jobs_by_request : s.jobs_by_request ≡ t.jobs_by_request
  pub delivery : s.delivery ≡ t.delivery
  pub body : s.body ≡ t.body

pub SameRows-refl : (s : Store) → SameRows s.options s.tables s
SameRows-refl s = record {
  options = refl;
  requests = refl;
  attempts = refl;
  attempt_ids = refl;
  jobs = refl;
  jobs_by_request = refl;
  delivery = refl;
  body = refl;
}

pub data Effect (s : Store) (e : Event) : Result Event → Store → Type 0 where
  -- nothing has happened to the tables
  idle : {s' : Store} (x : Error) → SameRows s.options s.tables s' → Effect s e (err x) s'
  -- the event is in the tables; a compaction after it may still have failed
  moved :
      {s' : Store} (r : Result Event) (ref : RecordRef)
      → ((e' : Event) → r ≡ ok e' → e' ≡ e)
      → validate_state s.tables e ≡ ok tt
      → SameRows s.options (apply_rows s.options e ref s.tables) s'
      → Effect s e r s'

if-SameRows :
    (b : Bool) (s : Store) (x y : Step)
    → SameRows s.options s.tables x.1
    → SameRows s.options s.tables y.1
    → SameRows s.options s.tables (if b then x else y).1
if-SameRows true s x y hx hy = hx
if-SameRows false s x y hx hy = hy

broadcast-SameRows : (e : Event) (s : Store) → SameRows s.options s.tables (broadcast e s)
unfolding broadcast
broadcast-SameRows e s = ground arith

poison-SameRows : (x : Error) (s : Store) → SameRows s.options s.tables (poison x s)
unfolding poison
poison-SameRows x s = ground arith

spoilt-SameRows :
    (x : Error) (d : Disk) (line : Bytes) (s : Store)
    → SameRows s.options s.tables (poison x (after_write d line s))
unfolding poison after_write
spoilt-SameRows x d line s = ground arith

install-SameRows :
    (w : Rewritten) (n : ℕ) (d : CompactDisk) (s : Store)
    → SameRows s.options s.tables (install w n d s).1
unfolding install
install-SameRows w n d s = ground arith

finish_compact-SameRows :
    (n : ℕ) (d : CompactDisk) (s : Store) (r : Result Rewritten)
    → SameRows s.options s.tables (finish_compact n d s r).1
unfolding finish_compact
finish_compact-SameRows n d s (err x) = SameRows-refl s
finish_compact-SameRows n d s (ok w) = ground (arith, install-SameRows w n d s)

pub compact-SameRows :
    (env : Env) (d : CompactDisk) (s : Store) → SameRows s.options s.tables (compact env d s).1
unfolding compact
compact-SameRows env d s =
    if-SameRows (ltb (2 ^ 64 - 1 - s.seq) (length (snapshot_records s.tables))) s _ _
      (SameRows-refl s) (finish_compact-SameRows _ d s _)

-- The rows of a store after the same rows.
SameRows-step :
    {o : Options} {t : Tables} {s u : Store}
    → SameRows o t s
    → SameRows s.options s.tables u
    → SameRows o t u
SameRows-step a b = record {
  options = b.options ∙ a.options;
  requests = b.requests ∙ a.requests;
  attempts = b.attempts ∙ a.attempts;
  attempt_ids = b.attempt_ids ∙ a.attempt_ids;
  jobs = b.jobs ∙ a.jobs;
  jobs_by_request = b.jobs_by_request ∙ a.jobs_by_request;
  delivery = b.delivery ∙ a.delivery;
  body = b.body ∙ a.body;
}

maybe_compact-SameRows :
    (env : Env) (d : CompactDisk) (s : Store)
    → SameRows s.options s.tables (maybe_compact env d s).1
unfolding maybe_compact
maybe_compact-SameRows env d s =
    if-SameRows (ltb s.options.max_events s.event_count) s (compact env d s) (none, s)
      (compact-SameRows env d s) (SameRows-refl s)

absorb-SameRows :
    (env : Env) (e : Event) (ref : RecordRef) (d : Disk) (line : Bytes) (s : Store)
    → SameRows s.options
        (apply_rows s.options e ref s.tables)
        (absorb env e ref (after_write d line s))
unfolding absorb after_write apply append_ring
absorb-SameRows env e ref d line s = record {
  options = refl;
  requests = refl;
  attempts = refl;
  attempt_ids = refl;
  jobs = refl;
  jobs_by_request = refl;
  delivery = refl;
  body = refl;
}

announced :
    (e : Event) (s : Store) (ref : RecordRef) (r : Step)
    → validate_state s.tables e ≡ ok tt
    → SameRows s.options (apply_rows s.options e ref s.tables) r.1
    → Effect s e (announce e r).0 (announce e r).1
unfolding announce
announced e s ref (none, u) fits rows =
    moved (ok e) ref (λ e' h. cc) fits (SameRows-step rows (broadcast-SameRows e u))
announced e s ref (some x, u) fits rows =
    moved (err x) ref (λ e' h. cc) fits (SameRows-step rows (poison-SameRows x u))

module _ (env : Env) (d : Disk) (e : Event) (s : Store) where
  commit-Effect :
      (line : Bytes)
      → prepare env d s e ≡ ready line
      → Effect s e (commit env d e line s).0 (commit env d e line s).1
  unfolding commit
  commit-Effect line h = elim (Option-cases (write_failure d line)) [
    | inl fine ↦
        let ref : RecordRef = record {
          offset = length s.file;
          length = length line;
          seq = e.seq;
        } in
        rw (fine, commit)
          (announced e s ref _ (prepare-IsReady env e d s line h).fits (
            SameRows-step (absorb-SameRows env e ref d line s)
              (maybe_compact-SameRows env d.compaction (absorb env e ref (after_write d line s)))))
    | inr (x, broke) ↦ rw (broke, commit) (idle x (spoilt-SameRows x d line s))
  ]

  act-Effect :
      (p : Prepared) → prepare env d s e ≡ p → Effect s e (act env d e s p).0 (act env d e s p).1
  unfolding act
  act-Effect (refused x) h = idle x (SameRows-refl s)
  act-Effect (vetoed x) h = idle x (poison-SameRows x s)
  act-Effect (ready line) h = commit-Effect line h

-- Every append either leaves the rows as they were and fails, or its event, which passed the
-- checks, is in them.
pub append-Effect :
    (env : Env) (d : Disk) (e : Event) (s : Store)
    → Effect s (stamp s.seq d.clock e) (append env d e s).0 (append env d e s).1
unfolding append append_open
append-Effect env d e s = elim (Option-cases (gate s)) [
  | inl open_ ↦
      rw (open_, append)
        (act-Effect env d (stamp s.seq d.clock e) s (prepare env d s (stamp s.seq d.clock e)) refl)
  | inr (x, shut) ↦ rw (shut, append) (idle x (SameRows-refl s))
]

SameRows-IsSound :
    {o : Options} {t : Tables} {s : Store} → SameRows o t s → IsSound t → IsSound s.tables
SameRows-IsSound {o} {t} {s} a v = record {
  unique_requests = rw a.requests v.unique_requests;
  unique_jobs = rw a.jobs v.unique_jobs;
  keyed_requests = rw a.requests v.keyed_requests;
  keyed_jobs = rw a.jobs v.keyed_jobs;
  deliveries = rw (a.delivery, a.requests) v.deliveries;
  bodies = rw (a.body, a.requests) v.bodies;
}

Effect-IsSound :
    {s : Store} {e : Event} {r : Result Event} {s' : Store}
    → Effect s e r s'
    → IsSound s.tables
    → IsSound s'.tables
Effect-IsSound (idle x rows) v = SameRows-IsSound rows v
Effect-IsSound {s} {e} (moved r ref same fits rows) v =
    SameRows-IsSound rows (apply_rows-IsSound s.options e ref s.tables v fits)

-- Sound tables stay sound in an append, whatever its event, whatever the disk answers and however
-- it ends, a compaction included.
pub append-IsSound :
    (env : Env) (d : Disk) (e : Event) (s : Store)
    → IsSound s.tables
    → IsSound (append env d e s).1.tables
append-IsSound env d e s v = Effect-IsSound (append-Effect env d e s) v
