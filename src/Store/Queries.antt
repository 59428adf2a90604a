-- ===== src/Store/Queries.antt =====
-- Reads of internal/store/store.go: `Load` and `Get`, `ListSummaries`, `Health` and `Sequence`.
-- A search is one that nobody cancels, over offsets and limits that are not negative; where there
-- are more captures than it may scan, Go leaves open which it scans, and here it is the first.
pub mod Load
pub mod Counts
use relaybox.Prelude.{
  ℕ, ◌+◌, ◌-◌, Text, Bytes, Bool, true, false, not, ◌||◌, ◌==◌, Option, none, some, List, [], ◌∷◌,
  length, take, drop, map, select, is_empty, contains, text_less, ltb, nat_eq, if◌then◌else◌,
}
use relaybox.Prelude.Sort.{sort}
use relaybox.Map.{get}
use relaybox.Store.Model.{Request, Attempt, Event, RequestSummary}
use relaybox.Store.Errors.{Error, Result, ok, err, ◌>>=◌, ◌>>◌}
use relaybox.Store.Env.{Env}
use relaybox.Store.Tables.{Tables, get_list}
use relaybox.Store.Validate.{fail_if, validate_request_digest}
use relaybox.Store.Apply.{lower}
use relaybox.Store.State.{Store}
use relaybox.Store.Compact.{ref_at, read_event_at, stored_response}

-- The body that the record of a request holds.
body_of : Env → Text → Event → Result Bytes
body_of env id e = elim e.request [
  | none ↦ err Error.record_identity
  | some q ↦ do
    fail_if (not (q.id == id)) Error.record_identity
    validate_request_digest env q
    ok q.body
]

load_attempts : Env → Bytes → Tables → List Attempt → Result (List Attempt)
load_attempts env file t [] = ok []
load_attempts env file t (a ∷ rest) = do
  e ← read_event_at env file (ref_at a.id t.attempt_record)
  a' ← stored_response a e
  others ← load_attempts env file t rest
  ok (a' ∷ others)

read_capture : Env → Text → Request → Store → Result (Request × List Attempt)
read_capture env id r s = do
  e ← read_event_at env s.file (ref_at id s.request_record)
  body ← body_of env id e
  attempts ← load_attempts env s.file s.tables (get_list id s.attempts)
  ok (record r { body = body }, attempts)

-- `s.poison`: the first error stays.
set_health : Error → Store → Store
set_health x s = record s { health = elim s.health [ none ↦ some x | some y ↦ some y ] }

loaded : Store → Result (Request × List Attempt) → Result (Option (Request × List Attempt)) × Store
loaded s (ok c) = (ok (some c), s)
loaded s (err x) = (err x, set_health x s)

-- `Load`: none where there is no such capture; an error poisons the store. The source gives up its
-- lock before it reads the file, but holds one that keeps a compaction away, and an append changes
-- nothing that is in the file already: it reads what it would have read at once. What other
-- operations do to the store before the poisoning, or the return, is `meanwhile`.
pub load_amid :
    Env → Text → (Store → Store) → Store → Result (Option (Request × List Attempt)) × Store
load_amid env id meanwhile s = elim (get id s.requests) [
  | none ↦ (ok none, meanwhile s)
  | some r ↦ loaded (meanwhile s) (read_capture env id r s)
]

-- `Load` with nothing in between
pub load : Env → Text → Store → Result (Option (Request × List Attempt)) × Store
unfolding load_amid
load env id s = load_amid env id (λ t. t) s

summary_of : Tables → Text → Request → RequestSummary
summary_of t id r = record {
  id = r.id;
  delivery_id = r.delivery_id;
  method = r.method;
  path = r.path;
  body_sha256 = r.body_sha256;
  received_at = r.received_at;
  body_bytes = elim (get id t.request_bytes) [ none ↦ 0 | some n ↦ n ];
}

index_of : Tables → Text → Text
index_of t id = elim (get id t.search) [ none ↦ [] | some x ↦ x ]

-- The later first, and by identifier in descending order where the times agree.
listed_before : RequestSummary → RequestSummary → Bool
listed_before a b =
    if nat_eq a.received_at b.received_at
    then text_less b.id a.id
    else ltb b.received_at a.received_at

unfoldable pub matching : Store → Text → List RequestSummary
unfolding summary_of index_of listed_before
matching s q =
    let scanned = take s.options.max_search_scan s.requests in
    let found =
      select (λ (e : Text × Request). is_empty q || contains (index_of s.tables e.0) (lower q))
        scanned in
    sort listed_before (map (λ e. summary_of s.tables e.0 e.1) found)

-- `ListSummaries`: a page of what matches, how much matches, and whether some was not scanned.
unfoldable pub list_summaries : Text → ℕ → ℕ → Store → List RequestSummary × ℕ × Bool
list_summaries q offset limit s =
    let found = matching s q in
    (
      take limit (drop offset found),
      length found,
      ltb (length (take s.options.max_search_scan s.requests)) (length s.requests),
    )

-- `Health`: an error where the store is closed or poisoned.
pub health_error : Store → Option Error
health_error s = if s.is_closed then some Error.closed else s.health

-- What a run of `load` unfolds.
unfoldable pub load_runs : Unit {0}
unfolding body_of load_attempts read_capture set_health loaded load_amid load
load_runs = tt
