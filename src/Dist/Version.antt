-- ===== src/Dist/Version.antt =====
-- `ValidateTag`, `validateSemverIdentifiers` and `decimalIdentifier` of
-- internal/distcheck/distcheck.go. A tag is a text of bytes; Go's loop over the runes of an
-- identifier refuses each byte above 127, as the loop over bytes here does.
pub mod Grammar
use relaybox.Prelude.{
  ℕ, suc, Text, Bool, true, false, not, ◌&&◌, ◌||◌, Option, none, some, List, [], ◌∷◌, is_empty,
  length, leb, ltb, nat_eq, contains, split, cut, if◌then◌else◌,
}
use relaybox.Prelude.Try.{Try, bad, good, unless}

pub data TagError : Type 0 where
  not_bounded build_metadata not_three_parts invalid_core : TagError
  empty_identifier invalid_character leading_zero : TagError

abbrev pub is_digit : ℕ → Bool
is_digit c = leb b'0' c && leb c b'9'

abbrev pub is_identifier_byte : ℕ → Bool
is_identifier_byte c =
    is_digit c || (leb b'A' c && leb c b'Z') || (leb b'a' c && leb c b'z') || nat_eq c b'-'

unfoldable pub all_bytes : (ℕ → Bool) → Text → Bool
all_bytes p [] = true
all_bytes p (c ∷ s) = p c && all_bytes p s

unfoldable pub decimal_identifier : Text → Bool
unfolding all_bytes
decimal_identifier s = not (is_empty s) && all_bytes is_digit s

-- `len(part) > 1 && part[0] == '0'`
abbrev pub padded : Text → Bool
padded [] = false
padded (c ∷ []) = false
padded (c ∷ d ∷ s) = nat_eq c b'0'

unfoldable pub identifier_error : Text → Option TagError
unfolding decimal_identifier all_bytes
identifier_error s =
    if is_empty s
    then some empty_identifier
    else if not (all_bytes is_identifier_byte s)
    then some invalid_character
    else if padded s && decimal_identifier s
    then some leading_zero
    else none

-- The loop of `validateSemverIdentifiers`, which is only called to refuse leading zeros.
unfoldable pub identifiers_error : List Text → Option TagError
identifiers_error [] = none
identifiers_error (s ∷ rest) = elim (identifier_error s) [
  | none ↦ identifiers_error rest
  | some e ↦ some e
]

unfoldable pub core_valid : List Text → Bool
unfolding decimal_identifier
core_valid [] = true
core_valid (s ∷ rest) = decimal_identifier s && not (padded s) && core_valid rest

unfoldable pub check_core : Text → Text → Try TagError Text
check_core core version =
    let parts = split b'.' core in
    unless (not (nat_eq (length parts) 3)) not_three_parts
      (unless (not (core_valid parts)) invalid_core (good version))

unfoldable pub check_version : Text → Try TagError Text
unfolding check_core
check_version version = elim (cut b'-' version) [
  | none ↦ check_core version version
  | some (core, pre) ↦ elim (identifiers_error (split b'.' pre)) [
    | some e ↦ bad e
    | none ↦ check_core core version
  ]
]

-- `ValidateTag`: the version, which is the tag without its "v".
unfoldable pub validate_tag : Text → Try TagError Text
unfolding check_version
validate_tag [] = bad not_bounded
validate_tag (c ∷ version) =
    unless (ltb (suc (length version)) 2 || ltb 128 (suc (length version)) || not (nat_eq c b'v'))
      not_bounded (unless (contains version (b'+' ∷ [])) build_metadata (check_version version))
