-- ===== src/Prelude/Strings/Spaces.antt =====
-- Trimming space and lowering letters do not interfere.
use Prim.Native.Nat.{ℕ}
use mathlib.Core.Path.{◌≡◌, refl, ap, ◌∙◌}
use mathlib.Core.List.{[], ◌∷◌}
use native.Mathlib.Omega.{arith}
use relaybox.Prelude.Texts.{Text}
use relaybox.Prelude.Strings.{
  is_space, lower_byte, to_lower, trim_space, trim_left, trim_right, drop_spaces,
}

lower_byte_space : (c : ℕ) → is_space (lower_byte c) ≡ is_space c
lower_byte_space c = ground arith

to_lower-trim_left : (s : Text) → to_lower (trim_left s) ≡ trim_left (to_lower s)
unfolding trim_left to_lower
to_lower-trim_left [] = refl
to_lower-trim_left (c ∷ s) = ground (arith, lower_byte_space c, to_lower-trim_left s)

to_lower-drop_spaces :
    (c : ℕ) (s : Text) → to_lower (drop_spaces c s) ≡ drop_spaces (lower_byte c) (to_lower s)
unfolding drop_spaces to_lower
to_lower-drop_spaces c [] = ground (arith, lower_byte_space c)
to_lower-drop_spaces c (d ∷ s) = refl

to_lower-trim_right : (s : Text) → to_lower (trim_right s) ≡ trim_right (to_lower s)
unfolding trim_right to_lower
to_lower-trim_right [] = refl
to_lower-trim_right (c ∷ s) =
    to_lower-drop_spaces c (trim_right s) ∙ ap (drop_spaces (lower_byte c)) (to_lower-trim_right s)

pub to_lower-trim_space : (s : Text) → to_lower (trim_space s) ≡ trim_space (to_lower s)
unfolding trim_space
to_lower-trim_space s = to_lower-trim_right (trim_left s) ∙ ap trim_right (to_lower-trim_left s)
