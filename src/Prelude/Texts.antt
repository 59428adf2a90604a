-- ===== src/Prelude/Texts.antt =====
-- A Go string is a sequence of bytes: a list of numbers, compared element by element.
use Prim.Native.Nat.{ℕ}
use Prim.Native.Char.{code}
use Prim.Native.String.{String}
use mathlib.Core.Path.{◌≡◌, refl}
use mathlib.Core.Logic.{◌↔◌}
use mathlib.Core.Bool.{Bool, true, false, ◌&&◌}
use mathlib.Core.List.{List, [], ◌∷◌}
use native.Mathlib.Omega.{arith}
use relaybox.Prelude.Tests.{nat_eq, ltb, if◌then◌else◌}

abbrev pub Text : Type 0
Text = List ℕ

abbrev pub Bytes : Type 0
Bytes = List ℕ

-- The bytes of an ASCII literal.
abbrev pub codes : String → Text
codes String.[] = []
codes (String.◌∷◌ c s) = code c ∷ codes s

infix 50 ◌==◌
unfoldable pub ◌==◌ : Text → Text → Bool
[] == [] = true
[] == (y ∷ ys) = false
(x ∷ xs) == [] = false
(x ∷ xs) == (y ∷ ys) = nat_eq x y && xs == ys

abbrev pub is_empty {ℓ} : {A : Type ℓ} → List A → Bool
is_empty [] = true
is_empty (x ∷ xs) = false

eq_of_== : (a b : Text) → (a == b) ≡ true → a ≡ b
unfolding ◌==◌
eq_of_== [] [] h = refl
eq_of_== [] (y ∷ ys) h = cc
eq_of_== (x ∷ xs) [] h = cc
eq_of_== (x ∷ xs) (y ∷ ys) h = ground (arith, eq_of_== xs ys)

pub ==-refl : (a : Text) → (a == a) ≡ true
unfolding ◌==◌
==-refl [] = refl
==-refl (x ∷ xs) = ground (arith, ==-refl xs)

==_of_eq : (a b : Text) → a ≡ b → (a == b) ≡ true
==_of_eq a b h = rw h (==-refl b)

pub text_eq_iff : (a b : Text) → ((a == b) ≡ true) ↔ (a ≡ b)
text_eq_iff a b = (eq_of_== a b, ==_of_eq a b)

-- Byte order, as `sort.Strings` has it.
unfoldable pub text_less : Text → Text → Bool
text_less [] [] = false
text_less [] (y ∷ ys) = true
text_less (x ∷ xs) [] = false
text_less (x ∷ xs) (y ∷ ys) = if nat_eq x y then text_less xs ys else ltb x y
