-- ===== src/Prelude/Hex.antt =====
-- Go's package `encoding/hex`.
use Prim.Native.Nat.{ℕ, ◌+◌, ◌-◌, ◌*◌, ◌/◌, ◌%◌, ◌<◌}
use mathlib.Core.Path.{◌≡◌, refl, ap}
use mathlib.Core.Bool.{◌&&◌}
use mathlib.Core.Option.{Option, none, some}
use mathlib.Core.List.{[], ◌∷◌}
use native.Mathlib.Omega.{arith}
use relaybox.Prelude.Tests.{ltb, leb, if◌then◌else◌}
use relaybox.Prelude.Lists.{All}
use relaybox.Prelude.Texts.{Text, Bytes}

-- The value of a hexadecimal digit, in either case.
abbrev digit_value : ℕ → Option ℕ
digit_value c =
    if leb b'0' c && leb c b'9'
    then some (c - b'0')
    else if leb b'a' c && leb c b'f'
    then some (c - 87)
    else if leb b'A' c && leb c b'F'
    then some (c - 55)
    else none

push_byte : Option ℕ → Option ℕ → Option Bytes → Option Bytes
push_byte (some a) (some b) (some rest) = some ((16 * a + b) ∷ rest)
push_byte _ _ _ = none

-- `hex.DecodeString(text)`
unfoldable pub hex_decode : Text → Option Bytes
unfolding push_byte
hex_decode [] = some []
hex_decode (c ∷ []) = none
hex_decode (c ∷ d ∷ s) = push_byte (digit_value c) (digit_value d) (hex_decode s)

abbrev hex_digit : ℕ → ℕ
hex_digit n = if ltb n 10 then n + 48 else n + 87

-- `hex.EncodeToString(bytes)`
unfoldable pub hex_encode : Bytes → Text
hex_encode [] = []
hex_encode (b ∷ rest) = hex_digit (b / 16) ∷ hex_digit (b % 16) ∷ hex_encode rest

digit_value-hex_digit : (n : ℕ) → n < 16 → digit_value (hex_digit n) ≡ some n
digit_value-hex_digit n h = ground arith

pub hex_decode-encode : (s : Bytes) → All (λ b. b < 256) s → hex_decode (hex_encode s) ≡ some s
unfolding hex_decode hex_encode
hex_decode-encode [] h = refl
hex_decode-encode (b ∷ s) h =
    let high : b / 16 < 16 = omega (arith, h.0) in
    let whole : 16 * (b / 16) + b % 16 ≡ b = omega arith in
    rw
      (
        digit_value-hex_digit (b / 16) high,
        digit_value-hex_digit (b % 16) (omega arith),
        hex_decode-encode s h.1,
        push_byte,
      )
      (ap (λ x. some (x ∷ s)) whole)
