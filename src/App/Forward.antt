-- ===== src/App/Forward.antt =====
-- `App.forward` of internal/app/app.go: one attempt on a job that the worker has claimed. The HTTP
-- client is a parameter, and so are the clock and what other goroutines do to the store while the
-- request is under way. A message to the log is not modelled.
pub mod Settled
pub mod Numbers
use relaybox.Prelude.{
  ℕ, ◌+◌, Text, Bytes, codes, Bool, true, false, Option, none, some, List, [], ◌∷◌, is_empty, ℤ,
  take, if◌then◌else◌,
}
use relaybox.Map.{TextSet, put, get}
use relaybox.Store.Model.{Header, Request, Attempt, Job, State, retrying, poison}
use relaybox.Store.Errors.{Error, Result, ok, err}
use relaybox.Store.Env.{Env}
use relaybox.Store.Tables.{get_list}
use relaybox.Store.State.{Store, Disk}
use relaybox.Store.Jobs.{Step, record_attempt, finish_without_attempt}
use relaybox.Store.Queries.{load}
use relaybox.Store.Subscribe.{attempts_for_job}
use relaybox.App.Headers.{forward_headers, redact_with_policy}
use relaybox.App.Retry.{Verdict, verdict, parse_retry}

-- What `App` is configured with, as far as forwarding reads it.
pub record Settings : Type 0 where
  pub attempts : ℕ
  pub max_backoff : ℕ
  pub authorization : Text
  pub sensitive : TextSet

-- The POST request to the target.
pub record Outgoing : Type 0 where
  pub url : Text
  pub headers : Header
  pub body : Bytes

pub record Response : Type 0 where
  pub status : ℕ
  pub headers : Header
  pub body : Bytes

-- What `http.Client.Do` returns.
pub record Reply : Type 0 where
  pub error : Option Text
  pub response : Option Response

-- What one call of `forward` meets.
pub record World : Type 0 where
  -- `IDSource`, none where it fails
  pub new_id : Option Text
  -- the error of `http.NewRequestWithContext` on a URL, if any
  pub url_error : Text → Option Text
  -- `Client.Do`
  pub do_request : Outgoing → Reply
  -- `http.ParseTime`
  pub parse_time : Text → Option ℕ
  -- `App.backoff`
  pub backoff : Text → ℕ → ℤ
  -- what the other goroutines do to the store while the request is under way
  pub meanwhile : Store → Store
  pub disk : Disk
  pub started : ℕ
  pub answered : ℕ
  pub finished : ℕ
  pub clock : ℕ

-- `Header.Set` of a name in canonical form
abbrev set_header : Text → Text → Header → Header
set_header name value = put name (value ∷ [])

-- `Header.Get` of a name in canonical form
abbrev pub get_header : Text → Header → Text
get_header name h = elim (get_list name h) [ [] ↦ [] | v ∷ vs ↦ v ]

unfoldable pub outgoing : Settings → Request → Job → Outgoing
outgoing c req j =
    let plain = forward_headers req.headers c.sensitive in
    let allowed =
      if is_empty c.authorization
      then plain
      else set_header (codes "Authorization") c.authorization plain in
    record {
      url = j.url;
      headers =
          set_header (codes "X-Relaybox-Job-Id") j.id
            (set_header (codes "X-Relaybox-Request-Id") req.id allowed);
      body = req.body;
    }

-- What the attempt learns: the error, the response, and what `Retry-After` asks for.
pub record Learnt : Type 0 where
  pub error : Option Text
  pub status : ℕ
  pub headers : Header
  pub body : Bytes
  pub retry : Option ℕ

abbrev nothing : Option Text → Learnt
nothing error = record { error = error; status = 0; headers = []; body = []; retry = none }

-- The response that came, with its headers redacted and at most 64 KiB of its body.
unfoldable pub learn : Settings → World → Reply → Learnt
learn c w r = elim r.response [
  | none ↦ nothing r.error
  | some p ↦ record {
    error = r.error;
    status = p.status;
    headers = redact_with_policy c.sensitive p.headers;
    body = take 65536 p.body;
    retry = parse_retry w.parse_time (get_header (codes "Retry-After") p.headers) w.answered;
  }
]

unfoldable pub try_once : Settings → World → Outgoing → Learnt
try_once c w o = elim (w.url_error o.url) [
  | some e ↦ nothing (some e)
  | none ↦ learn c w (w.do_request o)
]

abbrev pub is_some {ℓ} : {A : Type ℓ} → Option A → Bool
is_some none = false
is_some (some a) = true

abbrev or_empty : Option Text → Text
or_empty none = []
or_empty (some e) = e

unfoldable pub attempt_of : World → Request → Text → Job → ℕ → Learnt → Attempt
attempt_of w req id j n l = record {
  id = id;
  job_id = j.id;
  request_id = req.id;
  url = j.url;
  error = or_empty l.error;
  number = n;
  status = l.status;
  started_at = w.started;
  finished_at = w.finished;
  response_headers = l.headers;
  response_body = l.body;
}

unfoldable pub verdict_of : Settings → World → Job → ℕ → Learnt → Verdict
verdict_of c w j n l =
    verdict c.attempts c.max_backoff n (is_some l.error) l.status l.retry (w.backoff j.id n)
      w.finished

-- What a call of `forward` does: the store it leaves, the request it sends, and whether it wakes
-- a worker.
pub record Forwarded : Type 0 where
  pub store : Store
  pub sent : Option Outgoing
  pub wakes : Bool

abbrev quiet : Store → Forwarded
quiet s = record { store = s; sent = none; wakes = false }

abbrev pub is_retrying : State → Bool
is_retrying retrying = true
is_retrying _ = false

-- `Client.Do` is not called where the URL makes no request.
abbrev pub sent_to : World → Outgoing → Option Outgoing
sent_to w o = elim (w.url_error o.url) [ some e ↦ none | none ↦ some o ]

settled : World → Outgoing → State → Step → Forwarded
settled w o state (some x, s) = record { store = s; sent = sent_to w o; wakes = false }
settled w o state (none, s) = record { store = s; sent = sent_to w o; wakes = is_retrying state }

-- The end of `forward`: the attempt and its verdict go to the store.
unfoldable pub record_learnt :
    Env → Settings → World → Text → Job → Request → Text → ℕ → Learnt → Store → Step
record_learnt env c w owner j req id n l s =
    record_attempt env w.disk w.clock j.id owner (attempt_of w req id j n l)
      (verdict_of c w j n l).state (verdict_of c w j n l).message
      (verdict_of c w j n l).available_at s

attempt_request : Env → Settings → World → Text → Job → Request → Text → ℕ → Store → Forwarded
attempt_request env c w owner j req id n s =
    let o = outgoing c req j in
    let l = try_once c w o in
    settled w o (verdict_of c w j n l).state
      (record_learnt env c w owner j req id n l (w.meanwhile s))

give_up : Env → World → Text → Job → Text → Store → Forwarded
give_up env w owner j message s =
    quiet (finish_without_attempt env w.disk w.clock j.id owner poison message s).1

-- The attempt under the identifier that `IDSource` gave, if it gave one.
forward_as : Env → Settings → World → Text → Job → Request → Store → Option Text → Forwarded
forward_as env c w owner j req s none = give_up env w owner j (codes "attempt ID unavailable") s
forward_as env c w owner j req s (some id) =
    attempt_request env c w owner j req id (attempts_for_job j.id s + 1) s

forward_loaded :
    Env
    → Settings
    → World
    → Text
    → Job
    → Result (Option (Request × List Attempt)) × Store
    → Forwarded
forward_loaded env c w owner j (err x, s) = quiet s
forward_loaded env c w owner j (ok none, s) = give_up env w owner j (codes "request missing") s
forward_loaded env c w owner j (ok (some (req, attempts)), s) =
    forward_as env c w owner j req s w.new_id

pub forward : Env → Settings → World → Text → Job → Store → Forwarded
forward env c w owner j s = forward_loaded env c w owner j (load env j.request_id s)
