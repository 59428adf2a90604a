-- ===== src/Prelude/Numbers.antt =====
-- Go's package `strconv`, as far as the program uses it: numbers in base ten.
use Prim.Native.Nat.{ℕ, zero, suc, ◌+◌, ◌-◌, ◌*◌, ◌/◌, ◌%◌, ◌^◌, ◌<◌}
use mathlib.Core.Path.{◌≡◌}
use mathlib.Core.Bool.{◌&&◌}
use mathlib.Core.Option.{Option, none, some}
use mathlib.Core.List.{[], ◌∷◌}
use native.Mathlib.Omega.{arith}
use relaybox.Prelude.Tests.{nat_eq, ltb, leb, if◌then◌else◌}
use relaybox.Prelude.Texts.{Text}

pub data ℤ : Type 0 where
  pos : ℕ → ℤ
  negsuc : ℕ → ℤ

-- The value of a text of digits, with `n` in front.
digits_value : ℕ → Text → Option ℕ
digits_value n [] = some n
digits_value n (c ∷ s) =
    let rest = digits_value (10 * n + (c - 48)) s in if leb 48 c && leb c 57 then rest else none

-- At least one digit.
decimal_value : Text → Option ℕ
decimal_value [] = none
decimal_value (c ∷ s) = digits_value 0 (c ∷ s)

abbrev below : ℕ → Option ℕ → Option ℕ
below limit none = none
below limit (some n) = if ltb n limit then some n else none

-- `strconv.ParseUint(text, 10, 64)`
unfoldable pub parse_uint : Text → Option ℕ
unfolding digits_value decimal_value
parse_uint text = below (2 ^ 64) (decimal_value text)

abbrev negated : Option ℕ → Option ℤ
negated none = none
negated (some zero) = some (pos 0)
negated (some (suc n)) = some (negsuc n)

abbrev positive : Option ℕ → Option ℤ
positive none = none
positive (some n) = some (pos n)

-- `strconv.ParseInt(text, 10, 64)` and `strconv.Atoi(text)`
unfoldable pub parse_int : Text → Option ℤ
unfolding digits_value decimal_value
parse_int [] = none
parse_int (c ∷ s) =
    if nat_eq c b'-'
    then negated (below (2 ^ 63 + 1) (decimal_value s))
    else if nat_eq c b'+'
    then positive (below (2 ^ 63) (decimal_value s))
    else positive (below (2 ^ 63) (decimal_value (c ∷ s)))

-- The last digit of `n` in front of `s`, and the others before it, at most `fuel` in all.
push_digits : ℕ → ℕ → Text → Text
push_digits zero n s = s
push_digits (suc fuel) n s =
    let more = push_digits fuel (n / 10) ((48 + n % 10) ∷ s) in
    if ltb n 10 then (48 + n % 10) ∷ s else more

-- A number that is not negative, as `%d` prints it. Twenty digits are enough for 64 bits.
unfoldable pub decimal_text : ℕ → Text
unfolding push_digits
decimal_text n = push_digits 20 n []

pub parse_uint-lt : (s : Text) (n : ℕ) → parse_uint s ≡ some n → n < 2 ^ 64
unfolding parse_uint
parse_uint-lt s n h = ground arith
