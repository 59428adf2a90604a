-- ===== src/Cmd/Serve.antt =====
-- The numeric flags of `serve`, `splitCommaList` and `resolveVersion` in cmd/relaybox/main.go, and
-- what `serve` makes of the flags. The parser of the flags and the store's file are not modelled.
pub mod Bounds
use relaybox.Prelude.{
  ℕ, ◌-◌, Text, codes, Bool, true, false, not, ◌&&◌, ◌||◌, ◌==◌, Option, none, some, List, [], ◌∷◌,
  is_empty, ltb, ℤ, pos, negsuc, split, trim_space, trim_prefix, if◌then◌else◌,
}
use relaybox.Store.Options.{RawOptions, Options, with_defaults}
use relaybox.App.Limits.{RawLimits, Limits, new_limits}

pub record Flags : Type 0 where
  pub max_body : ℤ
  pub attempts : ℤ
  pub concurrency : ℤ
  pub queue_size : ℤ
  pub max_in_flight : ℤ
  pub retention_captures : ℤ
  pub retention_events : ℤ
  pub jobs_per_request : ℤ
  pub search_bytes : ℤ

-- `v < lo || v > hi`, for bounds that are not negative
abbrev outside : ℕ → ℕ → ℤ → Bool
outside lo hi (negsuc n) = true
outside lo hi (pos n) = ltb n lo || ltb hi n

-- A flag that `serve` refuses, in the order of its checks.
pub data BadFlag : Type 0 where
  bad_max_body bad_attempts bad_concurrency bad_queue_size bad_max_in_flight bad_captures bad_events
        bad_jobs bad_search_bytes :
      BadFlag

unfoldable pub flag_error : Flags → Option BadFlag
flag_error f =
    if outside 1 67108864 f.max_body
    then some bad_max_body
    else if outside 1 10 f.attempts
    then some bad_attempts
    else if outside 1 128 f.concurrency
    then some bad_concurrency
    else if outside 1 100000 f.queue_size
    then some bad_queue_size
    else if outside 1 10000 f.max_in_flight
    then some bad_max_in_flight
    else if outside 1 1000000 f.retention_captures
    then some bad_captures
    else if outside 100 10000000 f.retention_events
    then some bad_events
    else if outside 1 1000 f.jobs_per_request
    then some bad_jobs
    else if outside 1 1048576 f.search_bytes
    then some bad_search_bytes
    else none

-- The options that `serve` opens the store with.
unfoldable pub store_options : Flags → Options
store_options f = with_defaults (record {
  max_captures = f.retention_captures;
  max_events = f.retention_events;
  max_jobs_per_request = f.jobs_per_request;
  max_attempts_per_job = f.attempts;
  max_search_bytes = f.search_bytes;
  max_search_scan = f.retention_captures;
  max_catch_up_events = pos 0;
  max_catch_up_bytes = pos 0;
  subscriber_backlog = pos 0;
})

-- The limits that `serve` creates the service with.
unfoldable pub app_limits : Flags → Limits
app_limits f = new_limits (record {
  max_body = f.max_body;
  attempts = f.attempts;
  concurrency = f.concurrency;
  queue_size = f.queue_size;
  max_in_flight = f.max_in_flight;
  base_backoff = pos 0;
  max_backoff = pos 0;
  lease_duration = pos 0;
  poll_interval = pos 0;
  search_timeout = pos 0;
})

keep_names : List Text → List Text
keep_names [] = []
keep_names (name ∷ names) =
    let rest = keep_names names in
    if is_empty (trim_space name) then rest else trim_space name ∷ rest

unfoldable pub split_comma_list : Text → List Text
unfolding keep_names
split_comma_list value = keep_names (split b',' value)

abbrev plain_version : Text → Text
plain_version v = trim_prefix (codes "v") (trim_space v)

-- `built` is the main module's version, where the build recorded one.
unfoldable pub resolve_version : Text → Option Text → Text
resolve_version injected built =
    if not (is_empty (plain_version injected)) && not (plain_version injected == codes "dev")
    then plain_version injected
    else elim built [
      | none ↦ codes "dev"
      | some v ↦
          if is_empty (plain_version v) || plain_version v == codes "(devel)"
          then codes "dev"
          else plain_version v
    ]
