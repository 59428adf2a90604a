-- ===== src/App/Read.antt =====
-- The handlers of internal/app/app.go that only read: `list`, `parseBounded`, `get`, `metrics`, the
-- cursor of `events` and what it sends, `/healthz` and `/readyz`. A search that runs out of its time is not modelled.
pub mod Safe
use relaybox.Prelude.{
  ℕ, suc, ◌+◌, Text, codes, Bool, true, false, not, ◌||◌, ◌==◌, Option, none, some, List, [], ◌∷◌,
  map, length, is_empty, ltb, nat_eq, ℤ, pos, negsuc, parse_int, parse_uint, select, if◌then◌else◌,
}
use relaybox.Map.{TextSet, values}
use relaybox.Prelude.Try.{Try, bad, good}
use relaybox.Store.Model.{Request, Attempt, Event, RequestSummary}
use relaybox.Store.Errors.{Error, Result, ok, err}
use relaybox.Store.Env.{Env}
use relaybox.Store.State.{Store}
use relaybox.Store.Queries.{load, list_summaries, health_error}
use relaybox.Store.Subscribe.{subscribe_from}
use relaybox.App.Headers.{sanitize_request, sanitize_attempt, sanitize_event}

-- `if n < min … if n > max …`, for bounds that are not negative
abbrev clamp : ℕ → ℕ → ℤ → ℕ
clamp lo hi (negsuc n) = lo
clamp lo hi (pos n) = if ltb n lo then lo else if ltb hi n then hi else n

unfoldable pub parse_bounded : Text → ℕ → ℕ → ℕ → ℕ
parse_bounded s def lo hi = elim (parse_int s) [ none ↦ def | some n ↦ clamp lo hi n ]

-- An error with its status and message.
abbrev pub Failure : Type 0
Failure = ℕ × Text

-- The page that `list` answers with.
pub record Page : Type 0 where
  pub items : List RequestSummary
  pub total : ℕ
  pub offset : ℕ
  pub truncated : Bool

abbrev page_of : ℕ → List RequestSummary × ℕ × Bool → Page
page_of offset (items, total, truncated) = record {
  items = items;
  total = total;
  offset = offset;
  truncated = truncated;
}

unfoldable pub list_requests : Text → Text → Text → Store → Try Failure Page
list_requests q limit offset s =
    if ltb 256 (length q)
    then bad (400, codes "search query too long")
    else good (
        page_of (parse_bounded offset 0 0 1000000)
          (list_summaries q (parse_bounded offset 0 0 1000000) (parse_bounded limit 50 1 200) s))

-- What `get` answers, from what `Load` returns.
shown :
    TextSet
    → Result (Option (Request × List Attempt)) × Store
    → Try Failure (Request × List Attempt) × Store
shown policy (err x, s) = (bad (500, codes "storage failure"), s)
shown policy (ok none, s) = (bad (404, codes "404 page not found"), s)
shown policy (ok (some (r, attempts)), s) =
    (good (sanitize_request policy r, map (sanitize_attempt policy) attempts), s)

pub show : Env → TextSet → Text → Store → Try Failure (Request × List Attempt) × Store
unfolding shown
show env policy id s = shown policy (load env id s)

-- The cursor of `events`: where to begin, or none where it is not a number.
unfoldable pub event_cursor : Text → Text → Store → Option ℕ
event_cursor last_event_id cursor s =
    let raw = if is_empty last_event_id then cursor else last_event_id in
    if is_empty raw then some s.seq else parse_uint raw

abbrev is_backlog : Error → Bool
is_backlog Error.event_backlog = true
is_backlog _ = false

-- The events that `events` sends first, with the number of the subscriber's channel.
opened_stream : TextSet → Result (List Event × ℕ) × Store → Try Failure (List Event × ℕ) × Store
opened_stream policy (ok (old, id), s) = (good (map (sanitize_event policy) old, id), s)
opened_stream policy (err x, s) = (
  bad (
      if is_backlog x
      then (409, codes "event cursor is too old")
      else (500, codes "event storage failure")),
  s,
)

stream_at : TextSet → Option ℕ → Store → Try Failure (List Event × ℕ) × Store
unfolding opened_stream
stream_at policy none s = (bad (400, codes "invalid event cursor"), s)
stream_at policy (some seq) s = opened_stream policy (subscribe_from seq s)

pub open_stream : TextSet → Text → Text → Store → Try Failure (List Event × ℕ) × Store
unfolding stream_at
open_stream policy last_event_id cursor s = stream_at policy (event_cursor last_event_id cursor s) s

-- The loop of `events` over its channel: the events behind the last that was sent, in order.
unfoldable pub sent_live : TextSet → ℕ → List Event → List Event
sent_live policy seq [] = []
sent_live policy seq (e ∷ rest) = elim (ltb seq e.seq) [
  | true ↦ sanitize_event policy e ∷ sent_live policy e.seq rest
  | false ↦ sent_live policy seq rest
]

-- The status of `/healthz`, and of `/readyz` of a service that accepts or does not.
unfoldable pub healthz : Store → ℕ
healthz s = elim (health_error s) [ none ↦ 200 | some x ↦ 503 ]

unfoldable pub readyz : Bool → Store → ℕ
readyz accepting s =
    if not accepting then 503 else elim (health_error s) [ none ↦ 200 | some x ↦ 503 ]

-- What a run of `show` unfolds.
unfoldable pub show_runs : Unit {0}
unfolding shown show
show_runs = tt
