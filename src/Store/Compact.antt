-- ===== src/Store/Compact.antt =====
-- `compactLocked`, `snapshotRecordsLocked`, `hydrateSnapshotEventLocked` and `readEventAt` of
-- internal/store/store.go. The branch for Windows, which closes the old file before the rename,
-- is not modelled.
use relaybox.Prelude.{
  text_less, ℕ, ◌+◌, Text, Bytes, true, not, ◌||◌, ◌==◌, Option, none, some, List, [], ◌∷◌, ◌++◌,
  length, take, drop, map, ltb, leb, nat_eq, if◌then◌else◌,
}
use relaybox.Prelude.Sort.{sort}
use relaybox.Map.{Map, get, put}
use relaybox.Store.Model.{
  Request, Attempt, Job, Event, blank_event, request_received, attempt_finished, forward, is_zero,
}
use relaybox.Store.Errors.{Error, Result, ok, err, ◌>>=◌, ◌>>◌}
use relaybox.Store.Env.{Env, newline}
use relaybox.Store.Tables.{Tables, RecordRef, get_list, job_at, job_ids}
use relaybox.Store.Validate.{fail_if, validate_request_digest}
use relaybox.Store.State.{max_event_bytes}

-- `time.Unix(0, 1)`, in nanoseconds since Go's zero time
abbrev first_instant : ℕ
first_instant = 62135596800000000001

abbrev or_time : ℕ → ℕ → ℕ
or_time t d = if is_zero t then d else t

job_entry : Job → Event
job_entry j =
    record (blank_event (forward j.state)
      (or_time (or_time j.updated_at j.created_at) first_instant)) { job = some j }

attempt_entry : Attempt → Event
attempt_entry a = record (blank_event attempt_finished (or_time a.finished_at first_instant)) {
  attempt = some a;
}

request_entry : Request → Event
request_entry r = record (blank_event request_received (or_time r.received_at first_instant)) {
  request = some r;
}

request_records : Tables → Text × Request → List Event
unfolding job_entry attempt_entry request_entry
request_records t (id, r) =
    request_entry r
    ∷ (map (λ j. job_entry (job_at t j)) (sort text_less (job_ids t id))
        ++ map attempt_entry (get_list id t.attempts))

concat_records : Tables → List (Text × Request) → List Event
unfolding request_records
concat_records t [] = []
concat_records t (e ∷ rest) = request_records t e ++ concat_records t rest

unfoldable pub snapshot_records : Tables → List Event
unfolding concat_records
snapshot_records t = concat_records t (sort (λ a b. ltb a.1.received_at b.1.received_at) t.requests)

-- `s.requestRecord[id]`, the zero reference where there is none
abbrev pub ref_at : Text → Map RecordRef → RecordRef
ref_at id m = elim (get id m) [ none ↦ record { offset = 0; length = 0; seq = 0 } | some ref ↦ ref ]

decoded : Env → RecordRef → Bytes → Result Event
decoded env ref line = elim (env.decode line) [
  | none ↦ err Error.corrupt
  | some e ↦ if nat_eq e.seq ref.seq then ok e else err Error.record_sequence
]

unfoldable pub read_event_at : Env → Bytes → RecordRef → Result Event
unfolding decoded
read_event_at env file ref =
    let line = take ref.length (drop ref.offset file) in
    if leb ref.length 0 || ltb max_event_bytes ref.length
    then err Error.invalid_reference
    else if nat_eq (length line) ref.length
    then decoded env ref line
    else err Error.unexpected_eof

-- The body of a request, taken back from its record.
unfoldable pub stored_body : Env → Request → Event → Result Request
stored_body env r stored = elim stored.request [
  | none ↦ err Error.record_identity
  | some q ↦ do
    fail_if (not (q.id == r.id)) Error.record_identity
    validate_request_digest env (record r { body = q.body })
    ok (record r { body = q.body })
]

unfoldable pub stored_response : Attempt → Event → Result Attempt
stored_response a stored = elim stored.attempt [
  | none ↦ err Error.record_identity
  | some b ↦ do
    fail_if (not (b.id == a.id)) Error.record_identity
    ok (record a { response_body = b.response_body })
]

hydrate_request : Env → Bytes → Tables → Option Request → Result (Option Request)
unfolding read_event_at stored_body
hydrate_request env file t none = ok none
hydrate_request env file t (some r) = do
  stored ← read_event_at env file (ref_at r.id t.request_record)
  r' ← stored_body env r stored
  ok (some r')

hydrate_attempt : Env → Bytes → Tables → Option Attempt → Result (Option Attempt)
unfolding read_event_at stored_response
hydrate_attempt env file t none = ok none
hydrate_attempt env file t (some a) = do
  stored ← read_event_at env file (ref_at a.id t.attempt_record)
  a' ← stored_response a stored
  ok (some a')

unfoldable pub hydrate : Env → Bytes → Tables → Event → Result Event
unfolding hydrate_request hydrate_attempt
hydrate env file t e = do
  r ← hydrate_request env file t e.request
  a ← hydrate_attempt env file t e.attempt
  ok (record e { request = r; attempt = a })

-- What the loop over the records has built: the new file and the references into it.
pub record Rewritten : Type 0 where
  pub bytes : Bytes
  pub request_refs : Map RecordRef
  pub attempt_refs : Map RecordRef

note_request : Option Request → RecordRef → Map RecordRef → Map RecordRef
note_request none ref m = m
note_request (some r) ref m = put r.id ref m

note_attempt : Option Attempt → RecordRef → Map RecordRef → Map RecordRef
note_attempt none ref m = m
note_attempt (some a) ref m = put a.id ref m

write_record : Env → Event → Rewritten → Result Rewritten
unfolding note_request note_attempt
write_record env e w = elim (env.encode e) [
  | none ↦ err Error.encoding
  | some b ↦
      let line = b ++ newline ∷ [] in
      let ref : RecordRef = record { offset = length w.bytes; length = length line; seq = e.seq } in
      ok (record {
        bytes = w.bytes ++ line;
        request_refs = note_request e.request ref w.request_refs;
        attempt_refs = note_attempt e.attempt ref w.attempt_refs;
      })
]

unfoldable pub write_records : Env → Bytes → Tables → ℕ → List Event → Rewritten → Result Rewritten
unfolding hydrate write_record
write_records env file t seq [] w = ok w
write_records env file t seq (e ∷ rest) w = do
  e' ← hydrate env file t e
  w' ← write_record env (record e' { seq = seq; snapshot = true }) w
  write_records env file t (seq + 1) rest w'
