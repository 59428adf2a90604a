-- ===== src/App/Retry/Bounds.antt =====
-- When a forwarding attempt is repeated, and how long the wait is.
use relaybox.Prelude.{
  ℕ, ◌+◌, ◌^◌, ◌≤◌, ◌<◌, ◌≡◌, ◌↔◌, Text, Bool, true, false, Option, none, some, ℤ, pos, negsuc,
  arith, leb, ltb, ◌&&◌, ◌||◌,
}
use relaybox.Store.Model.{State, succeeded, dead_letter, retrying}
use relaybox.Store.Jobs.{result_state}
use relaybox.App.Retry.{retry_status, parse_retry, verdict, delay, add_duration}

-- A duration in a `Retry-After` header, however large or however it is written, fits a
-- `time.Duration`: it is less than 2 ^ 63 nanoseconds.
pub parse_retry-lt :
    (parse_time : Text → Option ℕ) (v : Text) (now d : ℕ)
    → parse_retry parse_time v now ≡ some d
    → d < 2 ^ 63
unfolding parse_retry
parse_retry-lt parse_time v now d h = ground arith

-- An answer that a repetition can mend: none at all, or a status that `retryStatus` lists.
abbrev pub IsRetriable : Bool → ℕ → Type 0
IsRetriable failed status = (failed || retry_status status) ≡ true

-- The verdict on an answer, by the answer and the number of the attempt.
pub record IsVerdict (attempts max_backoff n : ℕ) (failed : Bool) (status finished : ℕ)
    (state : State) (available_at : ℕ) : Type 0 where
  pub success : (state ≡ succeeded) ↔ ((failed ≡ false) × (200 ≤ status) × (status < 300))
  pub repeats : (state ≡ retrying) ↔ (IsRetriable failed status × (n < attempts))
  pub gives_up : (state ≡ dead_letter) ↔ (IsRetriable failed status × (attempts ≤ n))
  pub soon : state ≡ retrying → available_at ≤ finished + max_backoff
  pub accepted : result_state state ≡ true

abbrev success_status : ℕ → Bool
success_status status = leb 200 status && ltb status 300

success-not-retried : (status : ℕ) → success_status status ≡ true → retry_status status ≡ false
unfolding retry_status
success-not-retried status h = ground arith

delay-bound :
    (finished limit : ℕ) (retry : Option ℕ) (backoff : ℤ)
    → add_duration finished (delay limit retry backoff) ≤ finished + limit
unfolding delay
delay-bound finished limit (some r) backoff = ground arith
delay-bound finished limit none (pos d) = ground arith
delay-bound finished limit none (negsuc d) = omega arith

-- An attempt succeeds exactly where it has been answered with a status from 200 to 299. It is
-- repeated exactly where it has failed or has a status that can be retried, and its number is less
-- than the limit; then the next attempt is due at most the largest backoff after the end of this
-- one, whatever `Retry-After` and the computed backoff say. With such an answer and no attempt
-- left, the job is a dead letter. In every case the store takes the state as a result of an attempt.
pub verdict-IsVerdict :
    (attempts max_backoff n : ℕ) (failed : Bool) (status : ℕ) (retry : Option ℕ) (backoff : ℤ)
    (finished : ℕ)
    → IsVerdict attempts max_backoff n failed status finished
        (verdict attempts max_backoff n failed status retry backoff finished).state
        (verdict attempts max_backoff n failed status retry backoff finished).available_at
unfolding verdict result_state
verdict-IsVerdict attempts max_backoff n failed status retry backoff finished = record {
  success = (
    λ h. ground (arith, success-not-retried status),
    λ h. ground (arith, success-not-retried status),
  );
  repeats = (
    λ h. ground (arith, success-not-retried status),
    λ h. ground (arith, success-not-retried status),
  );
  gives_up = (
    λ h. ground (arith, success-not-retried status),
    λ h. ground (arith, success-not-retried status),
  );
  soon = λ h. ground (arith, delay-bound finished max_backoff retry backoff);
  accepted = ground arith;
}
