-- ===== src/App/Retry.antt =====
-- `retryStatus`, `parseRetry` and the verdict of `App.forward` on an answer, in
-- internal/app/app.go. `App.backoff` computes with floating-point numbers and is a parameter; it
-- can be negative, where the conversion of a large number to an integer wraps.
pub mod Bounds
use relaybox.Prelude.{
  ℕ, ◌+◌, ◌-◌, ◌*◌, ◌^◌, Text, codes, Bool, true, false, not, ◌&&◌, ◌||◌, Option, none, some, ◌++◌,
  ltb, leb, nat_eq, min, is_empty, trim_space, ℤ, pos, negsuc, parse_int, decimal_text, [],
  if◌then◌else◌, suc,
}
use relaybox.Store.Model.{State, succeeded, fatal, dead_letter, retrying}

-- `time.Second`
abbrev second : ℕ
second = 1000000000

unfoldable pub retry_status : ℕ → Bool
retry_status s =
    nat_eq s 0 || nat_eq s 408 || nat_eq s 425 || nat_eq s 429 || (leb 500 s && leb s 599)

-- `(1<<63 - 1) / time.Second`
abbrev max_retry_seconds : ℕ
max_retry_seconds = 9223372036

-- `max(t.Sub(now), 0)`, with the largest duration where the difference is larger.
abbrev time_until : ℕ → ℕ → ℕ
time_until now t = min (t - now) (2 ^ 63 - 1)

abbrev retry_date : ℕ → Option ℕ → Option ℕ
retry_date now none = none
retry_date now (some t) = some (time_until now t)

-- `parseRetry`: a number of seconds, or a date as `http.ParseTime` reads it.
unfoldable pub parse_retry : (Text → Option ℕ) → Text → ℕ → Option ℕ
parse_retry parse_time v now =
    let date = retry_date now (parse_time v) in
    if is_empty v then none else elim (parse_int (trim_space v)) [
      | some (pos n) ↦ some ((if ltb max_retry_seconds n then max_retry_seconds else n) * second)
      | some (negsuc n) ↦ date
      | none ↦ date
    ]

-- `t.Add(d)`
abbrev pub add_duration : ℕ → ℤ → ℕ
add_duration t (pos d) = t + d
add_duration t (negsuc d) = t - suc d

-- `if retry > limit { retry = limit }`
abbrev capped : ℕ → ℤ → ℤ
capped limit (pos d) = pos (if ltb limit d then limit else d)
capped limit (negsuc d) = negsuc d

-- What `RecordAttempt` is told.
pub record Verdict : Type 0 where
  pub state : State
  pub message : Text
  pub available_at : ℕ

abbrev final : State → Text → Verdict
final state message = record { state = state; message = message; available_at = 0 }

-- The delay before the next attempt.
unfoldable pub delay : ℕ → Option ℕ → ℤ → ℤ
delay limit (some retry) backoff = capped limit (pos retry)
delay limit none backoff = capped limit backoff

unfoldable pub verdict : ℕ → ℕ → ℕ → Bool → ℕ → Option ℕ → ℤ → ℕ → Verdict
unfolding retry_status delay
verdict attempts max_backoff n failed status retry backoff finished =
    if not failed && (leb 200 status && ltb status 300)
    then final succeeded []
    else if not failed && not (retry_status status)
    then final fatal (codes "non-retryable status " ++ decimal_text status)
    else if leb attempts n
    then final dead_letter (codes "attempts exhausted")
    else record {
      state = retrying;
      message = [];
      available_at = add_duration finished (delay max_backoff retry backoff);
    }
