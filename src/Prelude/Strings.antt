-- ===== src/Prelude/Strings.antt =====
-- What the program uses of Go's package `strings`, on texts as lists of bytes. A separator is one
-- byte. Space and case are those of ASCII.
pub mod Laws
pub mod Spaces
use Prim.Native.Nat.{ℕ, zero, suc, ◌+◌, ◌-◌, ◌≤◌}
use mathlib.Core.Path.{◌≡◌, refl, sym, ap, ◌∙◌}
use mathlib.Core.Logic.{◌≢◌, ◌↔◌}
use mathlib.Core.Bool.{Bool, true, false, ◌&&◌, ◌||◌}
use mathlib.Core.Option.{Option, none, some}
use mathlib.Core.List.{List, [], ◌∷◌, ◌++◌, map, append-nil}
use native.Mathlib.Omega.{arith}
use relaybox.Prelude.Tests.{nat_eq, leb, if◌then◌else◌, Bool-cases}
use relaybox.Prelude.Lists.{All}
use relaybox.Prelude.Texts.{Text, is_empty, ◌==◌, text_eq_iff, ==-refl}
use mathlib.Core.Logic.{inl, inr}

-- `strings.HasPrefix(text, p)`
unfoldable pub is_prefix : Text → Text → Bool
is_prefix [] text = true
is_prefix (x ∷ xs) [] = false
is_prefix (x ∷ xs) (y ∷ ys) = if nat_eq x y then is_prefix xs ys else false

-- `strings.Contains(text, q)`
unfoldable pub contains : Text → Text → Bool
unfolding is_prefix
contains [] q = is_empty q
contains (x ∷ xs) q = is_prefix q (x ∷ xs) || contains xs q

-- What stands behind a prefix, if it is one.
unfoldable pub strip_prefix : Text → Text → Option Text
strip_prefix [] text = some text
strip_prefix (x ∷ xs) [] = none
strip_prefix (x ∷ xs) (y ∷ ys) = if nat_eq x y then strip_prefix xs ys else none

-- `strings.TrimPrefix(text, p)`
unfoldable pub trim_prefix : Text → Text → Text
unfolding strip_prefix
trim_prefix p text = elim (strip_prefix p text) [ none ↦ text | some rest ↦ rest ]

cons_option : ℕ → Option Text → Option Text
cons_option c none = none
cons_option c (some s) = some (c ∷ s)

-- What stands before a suffix, if it is one.
unfoldable pub strip_suffix : Text → Text → Option Text
unfolding cons_option ◌==◌
strip_suffix q [] = if [] == q then some [] else none
strip_suffix q (c ∷ s) =
    let rest = cons_option c (strip_suffix q s) in if (c ∷ s) == q then some [] else rest

-- `strings.HasSuffix(text, q)`
abbrev pub is_suffix : Text → Text → Bool
is_suffix q text = elim (strip_suffix q text) [ none ↦ false | some s ↦ true ]

abbrev push : ℕ → List Text → List Text
push c [] = (c ∷ []) ∷ []
push c (p ∷ ps) = (c ∷ p) ∷ ps

-- `strings.Split(text, sep)`
unfoldable pub split : ℕ → Text → List Text
split sep [] = [] ∷ []
split sep (c ∷ s) = let rest = split sep s in if nat_eq c sep then [] ∷ rest else push c rest

-- `strings.Join(parts, sep)`
unfoldable pub join : ℕ → List Text → Text
join sep [] = []
join sep (p ∷ []) = p
join sep (p ∷ q ∷ ps) = p ++ sep ∷ join sep (q ∷ ps)

abbrev longer : ℕ → Option (Text × Text) → Option (Text × Text)
longer c none = none
longer c (some (a, b)) = some (c ∷ a, b)

-- `strings.Cut(text, sep)`
unfoldable pub cut : ℕ → Text → Option (Text × Text)
cut sep [] = none
cut sep (c ∷ s) = let rest = longer c (cut sep s) in if nat_eq c sep then some ([], s) else rest

-- `unicode.IsSpace` below 128
abbrev pub is_space : ℕ → Bool
is_space c = nat_eq c 32 || (leb 9 c && leb c 13)

unfoldable pub trim_left : Text → Text
trim_left [] = []
trim_left (c ∷ s) = let rest = trim_left s in if is_space c then rest else c ∷ s

drop_spaces : ℕ → Text → Text
drop_spaces c [] = if is_space c then [] else c ∷ []
drop_spaces c (d ∷ s) = c ∷ d ∷ s

unfoldable pub trim_right : Text → Text
unfolding drop_spaces
trim_right [] = []
trim_right (c ∷ s) = drop_spaces c (trim_right s)

-- `strings.TrimSpace(text)`
unfoldable pub trim_space : Text → Text
trim_space s = trim_right (trim_left s)

-- `unicode.ToLower` below 128
abbrev pub lower_byte : ℕ → ℕ
lower_byte c = if leb b'A' c && leb c b'Z' then c + 32 else c

-- `strings.ToLower(text)`
unfoldable pub to_lower : Text → Text
to_lower = map lower_byte

-- `strings.EqualFold(a, b)`
abbrev pub equal_fold : Text → Text → Bool
equal_fold a b = to_lower a == to_lower b

-- No byte of the text is `sep`.
abbrev pub Lacks : ℕ → Text → Type 0
Lacks sep = All (λ c. c ≢ sep)
