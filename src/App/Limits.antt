-- ===== src/App/Limits.antt =====
-- The numbers that `New` of internal/app/app.go puts in force. As given they are signed; durations
-- are in nanoseconds.
use relaybox.Prelude.{ℕ, ◌*◌, ℤ}
use relaybox.Store.Options.{positive_or}

pub record RawLimits : Type 0 where
  pub max_body : ℤ
  pub attempts : ℤ
  pub concurrency : ℤ
  pub queue_size : ℤ
  pub max_in_flight : ℤ
  pub base_backoff : ℤ
  pub max_backoff : ℤ
  pub lease_duration : ℤ
  pub poll_interval : ℤ
  pub search_timeout : ℤ

pub record Limits : Type 0 where
  pub max_body : ℕ
  pub attempts : ℕ
  pub concurrency : ℕ
  pub queue_size : ℕ
  pub max_in_flight : ℕ
  pub base_backoff : ℕ
  pub max_backoff : ℕ
  pub lease_duration : ℕ
  pub poll_interval : ℕ
  pub search_timeout : ℕ

unfoldable pub new_limits : RawLimits → Limits
new_limits c =
    let concurrency = positive_or c.concurrency 4 in
    record {
      max_body = positive_or c.max_body 1048576;
      attempts = positive_or c.attempts 3;
      concurrency = concurrency;
      queue_size = positive_or c.queue_size (concurrency * 16);
      max_in_flight = positive_or c.max_in_flight 64;
      base_backoff = positive_or c.base_backoff 500000000;
      max_backoff = positive_or c.max_backoff 30000000000;
      lease_duration = positive_or c.lease_duration 120000000000;
      poll_interval = positive_or c.poll_interval 250000000;
      search_timeout = positive_or c.search_timeout 2000000000;
    }
