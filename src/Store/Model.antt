-- ===== src/Store/Model.antt =====
-- internal/store/model.go. A time is a number of nanoseconds, with 0 for Go's zero time. The
-- strings of `Job.State` and `Event.Kind` are data: a constructor for each literal of the source,
-- and `other` for any other string. A kind that begins with "forward." is `forward` of the rest.
use relaybox.Prelude.{
  ℕ, Text, Bytes, Bool, true, false, Option, none, List, [], nat_eq, ◌==◌, ◌≡◌, refl, ap,
  text_eq_iff, ==-refl, arith,
}
use relaybox.Map.{Map}

-- `Header map[string][]string`
abbrev pub Header : Type 0
Header = Map (List Text)

pub record Request : Type 0 where
  pub id : Text
  pub delivery_id : Text
  pub method : Text
  pub path : Text
  pub remote_addr : Text
  pub body_sha256 : Text
  pub received_at : ℕ
  pub headers : Header
  pub body : Bytes
  pub signature_verified : Bool

pub record RequestSummary : Type 0 where
  pub id : Text
  pub delivery_id : Text
  pub method : Text
  pub path : Text
  pub body_sha256 : Text
  pub received_at : ℕ
  pub body_bytes : ℕ

pub record Attempt : Type 0 where
  pub id : Text
  pub job_id : Text
  pub request_id : Text
  pub url : Text
  pub error : Text
  pub number : ℕ
  pub status : ℕ
  pub started_at : ℕ
  pub finished_at : ℕ
  pub response_headers : Header
  pub response_body : Bytes

pub data State : Type 0 where
  pending queued running leased retrying succeeded failed fatal dead_letter poison : State
  other : Text → State

pub record Job : Type 0 where
  pub id : Text
  pub request_id : Text
  pub url : Text
  pub state : State
  pub error : Text
  pub lease_owner : Text
  pub created_at : ℕ
  pub updated_at : ℕ
  pub available_at : ℕ
  pub lease_expires_at : ℕ
  pub finished_at : ℕ

pub data Kind : Type 0 where
  capture_accepted request_received attempt_finished : Kind
  forward : State → Kind
  unknown : Text → Kind

pub record Event : Type 0 where
  pub seq : ℕ
  pub kind : Kind
  pub at : ℕ
  pub snapshot : Bool
  pub request : Option Request
  pub attempt : Option Attempt
  pub job : Option Job
  pub evicted_request_ids : List Text
  pub evicted_job_ids : List Text

pub data CaptureResult : Type 0 where
  captured duplicate conflict : CaptureResult

-- `t.IsZero()`
abbrev pub is_zero : ℕ → Bool
is_zero t = nat_eq t 0

-- `State == "leased"` and the like.
abbrev pub is_leased : State → Bool
is_leased leased = true
is_leased _ = false

abbrev pub is_pending : State → Bool
is_pending pending = true
is_pending _ = false

unfoldable pub state_eq : State → State → Bool
unfolding ◌==◌
state_eq pending pending = true
state_eq queued queued = true
state_eq running running = true
state_eq leased leased = true
state_eq retrying retrying = true
state_eq succeeded succeeded = true
state_eq failed failed = true
state_eq fatal fatal = true
state_eq dead_letter dead_letter = true
state_eq poison poison = true
state_eq (other a) (other b) = a == b
state_eq _ _ = false

pub eq_of_state_eq : (a b : State) → state_eq a b ≡ true → a ≡ b
unfolding state_eq
eq_of_state_eq (other a) (other b) h = ap other ((text_eq_iff a b).0 h)
eq_of_state_eq a b h = ground arith

pub state_eq_refl : (a : State) → state_eq a a ≡ true
unfolding state_eq
state_eq_refl (other a) = ==-refl a
state_eq_refl a = refl

-- The states that leave nothing to do; `terminalState`.
unfoldable pub terminal_state : State → Bool
terminal_state succeeded = true
terminal_state failed = true
terminal_state fatal = true
terminal_state dead_letter = true
terminal_state poison = true
terminal_state _ = false

-- An event that carries nothing yet but its kind and its time.
abbrev pub blank_event : Kind → ℕ → Event
blank_event kind at = record {
  seq = 0;
  kind = kind;
  at = at;
  snapshot = false;
  request = none;
  attempt = none;
  job = none;
  evicted_request_ids = [];
  evicted_job_ids = [];
}

-- The zero value of `Job`.
abbrev pub zero_job : Job
zero_job = record {
  id = [];
  request_id = [];
  url = [];
  state = other [];
  error = [];
  lease_owner = [];
  created_at = 0;
  updated_at = 0;
  available_at = 0;
  lease_expires_at = 0;
  finished_at = 0;
}
