-- ===== src/Cmd/Serve/Bounds.antt =====
-- What the checks of the flags make sure of.
use relaybox.Prelude.{ℕ, zero, suc, ◌≤◌, ◌≡◌, refl, false, none, ℤ, pos, negsuc, arith}
use relaybox.Store.Options.{Options, with_defaults, positive_or}
use relaybox.App.Limits.{Limits, new_limits}
use relaybox.Cmd.Serve.{Flags, flag_error, outside, store_options, app_limits}

within :
    (lo hi d : ℕ) (v : ℤ)
    → 1 ≤ lo
    → outside lo hi v ≡ false
    → (lo ≤ positive_or v d) × (positive_or v d ≤ hi)
within lo hi d (negsuc n) h k = absurd (ground (arith, k))
within lo hi d (pos zero) h k = absurd (ground (arith, k, h))
within lo hi d (pos (suc n)) h k = ground (arith, k)

-- The same whatever the default, for a value within bounds.
same_value :
    (lo hi d e : ℕ) (v : ℤ) → 1 ≤ lo → outside lo hi v ≡ false → positive_or v d ≡ positive_or v e
same_value lo hi d e (negsuc n) h k = absurd (ground (arith, k))
same_value lo hi d e (pos zero) h k = absurd (ground (arith, k, h))
same_value lo hi d e (pos (suc n)) h k = refl

-- What is in force in the store and in the service.
pub record IsServable (o : Options) (c : Limits) : Type 0 where
  pub same_attempts : c.attempts ≡ o.max_attempts_per_job
  pub attempts : (1 ≤ c.attempts) × (c.attempts ≤ 10)
  pub max_body : (1 ≤ c.max_body) × (c.max_body ≤ 67108864)
  pub concurrency : (1 ≤ c.concurrency) × (c.concurrency ≤ 128)
  pub queue_size : (1 ≤ c.queue_size) × (c.queue_size ≤ 100000)
  pub max_in_flight : (1 ≤ c.max_in_flight) × (c.max_in_flight ≤ 10000)
  pub captures : (1 ≤ o.max_captures) × (o.max_captures ≤ 1000000)
  pub events : (100 ≤ o.max_events) × (o.max_events ≤ 10000000)
  pub jobs : (1 ≤ o.max_jobs_per_request) × (o.max_jobs_per_request ≤ 1000)
  pub search_bytes : (1 ≤ o.max_search_bytes) × (o.max_search_bytes ≤ 1048576)

flags-within :
    (f : Flags)
    → flag_error f ≡ none
    → (outside 1 67108864 f.max_body ≡ false)
      × (outside 1 10 f.attempts ≡ false)
      × (outside 1 128 f.concurrency ≡ false)
      × (outside 1 100000 f.queue_size ≡ false)
      × (outside 1 10000 f.max_in_flight ≡ false)
      × (outside 1 1000000 f.retention_captures ≡ false)
      × (outside 100 10000000 f.retention_events ≡ false)
      × (outside 1 1000 f.jobs_per_request ≡ false)
      × (outside 1 1048576 f.search_bytes ≡ false)
unfolding flag_error
flags-within f h = ground (arith, h)

-- With flags that `serve` accepts, the worker and the store have the same limit on the attempts of a
-- job, from 1 to 10, and what each of the other eight flags sets lies within the bounds of its flag.
pub accepted_flags-IsServable :
    (f : Flags) → flag_error f ≡ none → IsServable (store_options f) (app_limits f)
unfolding store_options app_limits with_defaults new_limits
accepted_flags-IsServable f h =
    let (body, attempts, workers, queue, flight, captures, events, jobs, search_) =
      flags-within f h in
    record {
      same_attempts = same_value 1 10 3 10 f.attempts (omega arith) attempts;
      attempts = within 1 10 3 f.attempts (omega arith) attempts;
      max_body = within 1 67108864 1048576 f.max_body (omega arith) body;
      concurrency = within 1 128 4 f.concurrency (omega arith) workers;
      queue_size = within 1 100000 _ f.queue_size (omega arith) queue;
      max_in_flight = within 1 10000 64 f.max_in_flight (omega arith) flight;
      captures = within 1 1000000 1000 f.retention_captures (omega arith) captures;
      events = within 100 10000000 100000 f.retention_events (omega arith) events;
      jobs = within 1 1000 8 f.jobs_per_request (omega arith) jobs;
      search_bytes = within 1 1048576 65536 f.search_bytes (omega arith) search_;
    }
