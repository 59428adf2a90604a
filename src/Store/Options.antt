-- ===== src/Store/Options.antt =====
-- `Options` of internal/store/store.go. The options as given are signed; what `withDefaults`
-- leaves is positive, and from then on a natural number.
use relaybox.Prelude.{ℤ, pos, negsuc, ℕ, zero, suc, ◌≤◌, ◌<◌, ltb, if◌then◌else◌, arith}

pub record RawOptions : Type 0 where
  pub max_captures : ℤ
  pub max_events : ℤ
  pub max_jobs_per_request : ℤ
  pub max_attempts_per_job : ℤ
  pub max_search_bytes : ℤ
  pub max_search_scan : ℤ
  pub max_catch_up_events : ℤ
  pub max_catch_up_bytes : ℤ
  pub subscriber_backlog : ℤ

pub record Options : Type 0 where
  pub max_captures : ℕ
  pub max_events : ℕ
  pub max_jobs_per_request : ℕ
  pub max_attempts_per_job : ℕ
  pub max_search_bytes : ℕ
  pub max_search_scan : ℕ
  pub max_catch_up_events : ℕ
  pub max_catch_up_bytes : ℕ
  pub subscriber_backlog : ℕ

-- `if v <= 0 { v = d }`
abbrev pub positive_or : ℤ → ℕ → ℕ
positive_or (pos zero) d = d
positive_or (pos (suc n)) d = suc n
positive_or (negsuc n) d = d

-- `if v <= 0 || v > limit { v = limit }`
abbrev at_most : ℤ → ℕ → ℕ
at_most v limit = let n = positive_or v limit in if ltb limit n then limit else n

unfoldable pub with_defaults : RawOptions → Options
with_defaults o =
    let captures : ℕ = positive_or o.max_captures 1000 in
    record {
      max_captures = captures;
      max_events = positive_or o.max_events 100000;
      max_jobs_per_request = positive_or o.max_jobs_per_request 8;
      max_attempts_per_job = positive_or o.max_attempts_per_job 10;
      max_search_bytes = positive_or o.max_search_bytes 65536;
      max_search_scan = at_most o.max_search_scan captures;
      max_catch_up_events = positive_or o.max_catch_up_events 1000;
      max_catch_up_bytes = positive_or o.max_catch_up_bytes 33554432;
      subscriber_backlog = positive_or o.subscriber_backlog 128;
    }

-- Bounds that a store can work with: each is positive, and a search scans no more than is kept.
pub record IsUsable (o : Options) : Type 0 where
  pub captures : 0 < o.max_captures
  pub events : 0 < o.max_events
  pub jobs : 0 < o.max_jobs_per_request
  pub attempts : 0 < o.max_attempts_per_job
  pub search_bytes : 0 < o.max_search_bytes
  pub search_scan : 0 < o.max_search_scan
  pub scan_le_captures : o.max_search_scan ≤ o.max_captures
  pub ring_events : 0 < o.max_catch_up_events
  pub ring_bytes : 0 < o.max_catch_up_bytes
  pub backlog : 0 < o.subscriber_backlog

positive_or_pos : (v : ℤ) (d : ℕ) → 0 < d → 0 < positive_or v d
positive_or_pos (pos zero) d h = h
positive_or_pos (pos (suc n)) d h = omega arith
positive_or_pos (negsuc n) d h = h

at_most_bounds : (v : ℤ) (limit : ℕ) → 0 < limit → (0 < at_most v limit) × (at_most v limit ≤ limit)
at_most_bounds v limit h = ground (arith, positive_or_pos v limit)

-- Whatever options are given, zero and negative ones included, the options that a store runs
-- with are all positive, and it scans at most as many captures as it keeps.
pub with_defaults-IsUsable : (o : RawOptions) → IsUsable (with_defaults o)
unfolding with_defaults
with_defaults-IsUsable o =
    let captures = positive_or_pos o.max_captures 1000 (omega arith) in
    let scan = at_most_bounds o.max_search_scan (positive_or o.max_captures 1000) captures in
    record {
      captures = captures;
      events = positive_or_pos o.max_events 100000 (omega arith);
      jobs = positive_or_pos o.max_jobs_per_request 8 (omega arith);
      attempts = positive_or_pos o.max_attempts_per_job 10 (omega arith);
      search_bytes = positive_or_pos o.max_search_bytes 65536 (omega arith);
      search_scan = scan.0;
      scan_le_captures = scan.1;
      ring_events = positive_or_pos o.max_catch_up_events 1000 (omega arith);
      ring_bytes = positive_or_pos o.max_catch_up_bytes 33554432 (omega arith);
      backlog = positive_or_pos o.subscriber_backlog 128 (omega arith);
    }
