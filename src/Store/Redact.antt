-- ===== src/Store/Redact.antt =====
-- `RedactHeaders`, `recountRingLocked`, `logNeedsHeaderRedactionLocked` and
-- `headerValuesNeedRedaction` of internal/store/store.go. The scan of the log decodes the headers
-- of a line alone: that decoder is a parameter. `s.f == nil` and errors of reading the file are
-- not modelled.
pub mod Clean
use relaybox.Prelude.{
  ℕ, ◌+◌, Text, Bytes, codes, Bool, true, false, not, ◌&&◌, ◌||◌, ◌==◌, Option, none, some, List,
  [], ◌∷◌, ◌++◌, length, map, ltb, nat_eq, if◌then◌else◌,
}
use relaybox.Map.{Map}
use relaybox.Store.Model.{Header, Request, Attempt, Event}
use relaybox.Store.Errors.{Error, Result, ok, err}
use relaybox.Store.Env.{Env, newline}
use relaybox.Store.Tables.{Tables, Image}
use relaybox.Store.Apply.{encoded_size, trim_ring}
use relaybox.Store.State.{Store, CompactDisk, max_event_bytes}
use relaybox.Store.Append.{compact, gate, poison, Step}

-- `len(values) != 1 || values[0] != "[REDACTED]"`
abbrev is_marked : List Text → Bool
is_marked [] = false
is_marked (v ∷ []) = v == codes "[REDACTED]"
is_marked (v ∷ w ∷ l) = false

module _ (sensitive : Text → Bool) where
  pub needs_redaction : Header → Bool
  needs_redaction [] = false
  needs_redaction ((name, values) ∷ h) =
      (sensitive name && not (is_marked values)) || needs_redaction h

  -- The closure `redact`, which also reports what `needs_redaction` does of the headers before it.
  redact : Header → Header
  redact [] = []
  redact ((name, values) ∷ h) =
      (name, (if sensitive name && not (is_marked values) then codes "[REDACTED]" ∷ [] else values))
      ∷ redact h

  redact_request : Request → Request
  redact_request r = record r { headers = redact r.headers }

  redact_attempt : Attempt → Attempt
  redact_attempt a = record a { response_headers = redact a.response_headers }

  redact_event : Event → Event
  unfolding redact_request redact_attempt
  redact_event e = record e {
    request = elim e.request [ none ↦ none | some r ↦ some (redact_request r) ];
    attempt = elim e.attempt [ none ↦ none | some a ↦ some (redact_attempt a) ];
  }

  request_needs : Option Request → Bool
  request_needs none = false
  request_needs (some r) = needs_redaction r.headers

  attempt_needs : Option Attempt → Bool
  attempt_needs none = false
  attempt_needs (some a) = needs_redaction a.response_headers

  any_request : Map Request → Bool
  any_request [] = false
  any_request ((id, r) ∷ m) = needs_redaction r.headers || any_request m

  any_attempt : List Attempt → Bool
  any_attempt [] = false
  any_attempt (a ∷ l) = needs_redaction a.response_headers || any_attempt l

  any_attempts : Map (List Attempt) → Bool
  any_attempts [] = false
  any_attempts ((id, l) ∷ m) = any_attempt l || any_attempts m

  any_event : List Event → Bool
  any_event [] = false
  any_event (e ∷ l) = request_needs e.request || attempt_needs e.attempt || any_event l

  pub tables_need : Tables → Bool
  unfolding any_request any_attempts any_event
  tables_need t = any_request t.requests || any_attempts t.attempts || any_event t.ring

  redact_tables : Tables → Tables
  redact_tables t = record t {
    requests = map (λ e. (e.0, redact_request e.1)) t.requests;
    attempts = map (λ e. (e.0, map redact_attempt e.1)) t.attempts;
    ring = map redact_event t.ring;
  }

-- `recountRingLocked`
ring_bytes_of : Env → List Event → ℕ
ring_bytes_of env [] = 0
ring_bytes_of env (e ∷ ring) = encoded_size env e + ring_bytes_of env ring

recount_ring : Env → Store → Store
recount_ring env s =
    let (ring, bytes) = trim_ring env s.options s.ring (ring_bytes_of env s.ring) in
    record s {
      image = record s.image { tables = record s.tables { ring = ring; ring_bytes = bytes } };
    }

module _ (sensitive : Text → Bool) (decode : Bytes → Option (List Header)) where
  any_header : List Header → Bool
  any_header [] = false
  any_header (h ∷ l) = needs_redaction sensitive h || any_header l

  -- One line of the log: an error, or whether it holds a header that needs redaction.
  line_needs : Bytes → Result Bool
  line_needs line =
      if ltb max_event_bytes (length line)
      then err Error.event_too_long
      else elim (decode line) [ none ↦ err Error.corrupt | some l ↦ ok (any_header l) ]

  -- The scan of the log. `torn` is what has been read since the last newline; what stands behind
  -- the last newline is not looked at.
  log_needs : Bytes → Bytes → Result Bool
  log_needs torn [] = ok false
  log_needs torn (b ∷ rest) = elim (nat_eq b newline) [
    | false ↦ log_needs (torn ++ b ∷ []) rest
    | true ↦ elim (line_needs (torn ++ b ∷ [])) [
      | err x ↦ err x
      | ok true ↦ ok true
      | ok false ↦ log_needs [] rest
    ]
  ]

failed_step : Step → Step
failed_step (none, s) = (none, s)
failed_step (some x, s) = (some x, poison x s)

-- The store with the headers in memory redacted.
redact_memory : Env → (Text → Bool) → Store → Store
redact_memory env sensitive s =
    recount_ring env
      (record s { image = record s.image { tables = redact_tables sensitive s.tables } })

redact_log :
    Env → (Bytes → Option (List Header)) → CompactDisk → (Text → Bool) → Store → Result Bool → Step
redact_log env decode d sensitive s (err x) = (some x, poison x s)
redact_log env decode d sensitive s (ok false) = (none, s)
redact_log env decode d sensitive s (ok true) = failed_step (compact env d s)

redact_open : Env → (Bytes → Option (List Header)) → CompactDisk → (Text → Bool) → Store → Step
redact_open env decode d sensitive s = elim (tables_need sensitive s.tables) [
  | true ↦ failed_step (compact env d (redact_memory env sensitive s))
  | false ↦ redact_log env decode d sensitive s (log_needs sensitive decode [] s.file)
]

-- `RedactHeaders` under a policy.
pub redact_headers :
    Env → (Bytes → Option (List Header)) → CompactDisk → (Text → Bool) → Store → Step
redact_headers env decode d sensitive s = elim (gate s) [
  | some x ↦ (some x, s)
  | none ↦ redact_open env decode d sensitive s
]

-- What a run of `redact_headers` unfolds.
unfoldable pub redact_runs : Unit {0}
unfolding needs_redaction redact redact_request redact_attempt redact_event request_needs
    attempt_needs any_request any_attempt any_attempts any_event tables_need redact_tables
    ring_bytes_of recount_ring any_header line_needs log_needs failed_step redact_memory redact_log
    redact_open redact_headers
redact_runs = tt
