-- ===== src/App/Headers/Names.antt =====
-- Case and spelling of header names: what does not depend on them.
use relaybox.Prelude.{
  ℕ, ◌≡◌, refl, sym, ap, ◌∙◌, Text, Bool, true, false, [], ◌∷◌, leb, nat_eq, arith, lower_byte,
  to_lower, trim_space, Bool-cases, inl, inr, contains, ◌&&◌,
}
use relaybox.Prelude.Strings.Spaces.{to_lower-trim_space}
use relaybox.Map.{TextSet}
use relaybox.App.Headers.{
  sensitive_header, sensitive_lower, canonical, capitalise, all_tokens, upper_byte, lower_letter,
  is_token_byte,
}

lower-upper : (c : ℕ) → lower_byte (upper_byte c) ≡ lower_byte c
lower-upper c = ground arith

lower-lower : (c : ℕ) → lower_byte (lower_letter c) ≡ lower_byte c
lower-lower c = ground arith

to_lower-capitalise : (first : Bool) (s : Text) → to_lower (capitalise first s) ≡ to_lower s
unfolding capitalise to_lower
to_lower-capitalise first [] = refl
to_lower-capitalise true (c ∷ s) = cc (lower-upper c, to_lower-capitalise (nat_eq c b'-') s)
to_lower-capitalise false (c ∷ s) = cc (lower-lower c, to_lower-capitalise (nat_eq c b'-') s)

to_lower-canonical : (s : Text) → to_lower (canonical s) ≡ to_lower s
unfolding canonical
to_lower-canonical s = elim (Bool-cases (all_tokens s)) [
  | inl e ↦ rw e (to_lower-capitalise true s)
  | inr e ↦ rw e
]

-- Whether a name is sensitive does not depend on its spelling.
pub sensitive_header-canonical :
    (s : Text) (policy : TextSet)
    → sensitive_header (canonical s) policy ≡ sensitive_header s policy
unfolding sensitive_header
sensitive_header-canonical s policy = ap (sensitive_lower policy) (
    to_lower-trim_space (canonical s)
    ∙ ap trim_space (to_lower-canonical s)
    ∙ sym (to_lower-trim_space s))

upper_token : (c : ℕ) → is_token_byte c ≡ true → is_token_byte (upper_byte c) ≡ true
unfolding contains
upper_token c h = elim (Bool-cases (leb b'a' c && leb c b'z')) [
  | inl e ↦ ground (arith, e)
  | inr e ↦ rw e h
]

lower_token : (c : ℕ) → is_token_byte c ≡ true → is_token_byte (lower_letter c) ≡ true
lower_token c h = elim (Bool-cases (leb b'A' c && leb c b'Z')) [
  | inl e ↦ ground (arith, e)
  | inr e ↦ rw e h
]

all_tokens-capitalise :
    (first : Bool) (s : Text) → all_tokens s ≡ true → all_tokens (capitalise first s) ≡ true
unfolding all_tokens capitalise
all_tokens-capitalise first [] h = refl
all_tokens-capitalise true (c ∷ s) h =
    ground (arith, h, upper_token c, all_tokens-capitalise (nat_eq c b'-') s)
all_tokens-capitalise false (c ∷ s) h =
    ground (arith, h, lower_token c, all_tokens-capitalise (nat_eq c b'-') s)

upper_dash : (c : ℕ) → nat_eq (upper_byte c) b'-' ≡ nat_eq c b'-'
upper_dash c = ground arith

lower_dash : (c : ℕ) → nat_eq (lower_letter c) b'-' ≡ nat_eq c b'-'
lower_dash c = ground arith

capitalise_idem :
    (first : Bool) (s : Text) → capitalise first (capitalise first s) ≡ capitalise first s
unfolding capitalise
capitalise_idem first [] = refl
capitalise_idem true (c ∷ s) = ground (arith, upper_dash c, capitalise_idem (nat_eq c b'-') s)
capitalise_idem false (c ∷ s) = ground (arith, lower_dash c, capitalise_idem (nat_eq c b'-') s)

pub canonical_idem : (s : Text) → canonical (canonical s) ≡ canonical s
unfolding canonical
canonical_idem s = elim (Bool-cases (all_tokens s)) [
  | inl e ↦ rw (e, all_tokens-capitalise true s e, capitalise_idem true s)
  | inr e ↦ rw (e, e)
]
