-- ===== src/Dist/Checksums.antt =====
-- `verifyChecksums` of internal/distcheck/distcheck.go, over the text of checksums.txt. The digest
-- of an archive, `fileSHA256`, reads a file and is a parameter: none where it fails.
-- `filepath.Base` is that of Unix.
pub mod Verified
use relaybox.Prelude.{
  ℕ, Text, Bytes, codes, Bool, true, false, not, ◌&&◌, ◌||◌, ◌==◌, Option, none, some, List, [],
  ◌∷◌, ◌++◌, is_empty, length, nat_eq, contains, split, trim_prefix, trim_space, equal_fold,
  is_space, hex_decode, hex_encode, if◌then◌else◌,
}
use relaybox.Map.{TextSet, put, has}
use relaybox.Prelude.Try.{Try, bad, good}
use relaybox.Dist.Archives.{Archive}

-- `strings.Fields(line)`; `current` is the field that is being read.
fields_from : Text → Text → List Text
fields_from current [] = if is_empty current then [] else current ∷ []
fields_from current (c ∷ s) = elim (is_space c) [
  | false ↦ fields_from (current ++ c ∷ []) s
  | true ↦ let rest = fields_from [] s in if is_empty current then rest else current ∷ rest
]

unfoldable pub fields : Text → List Text
unfolding fields_from
fields = fields_from []

pub data ChecksumError : Type 0 where
  wrong_count : ChecksumError
  invalid_line invalid_digest unsafe_name unexpected_artifact repeated_artifact not_hashed mismatch
        missing_artifact :
      Text → ChecksumError

-- `filepath.Base(name) != name || name == "."`
abbrev is_unsafe : Text → Bool
is_unsafe name =
    is_empty name || (contains name (codes "/") && not (name == codes "/")) || name == codes "."

-- `_, ok := wanted[name]`
unfoldable pub is_wanted : Text → List Archive → Bool
is_wanted name [] = false
is_wanted name (a ∷ l) = a.name == name || is_wanted name l

module _ (digest : Text → Option Bytes) (archives : List Archive) where
  -- The digest in a line is that of the archive it names.
  check_digest : Text → Text → TextSet → Option Bytes → Try ChecksumError TextSet
  check_digest hash name seen none = bad (not_hashed name)
  check_digest hash name seen (some actual) =
      if not (equal_fold hash (hex_encode actual))
      then bad (mismatch name)
      else good (put name tt seen)

  check_name : Text → Text → TextSet → Try ChecksumError TextSet
  unfolding check_digest
  check_name hash name seen =
      if is_unsafe name
      then bad (unsafe_name name)
      else if not (is_wanted name archives)
      then bad (unexpected_artifact name)
      else if has name seen
      then bad (repeated_artifact name)
      else check_digest hash name seen (digest name)

  abbrev is_digest : Option Bytes → Bool
  is_digest none = false
  is_digest (some b) = nat_eq (length b) 32

  check_fields : Text → TextSet → List Text → Try ChecksumError TextSet
  unfolding check_name
  check_fields line seen (hash ∷ artifact ∷ []) =
      if not (is_digest (hex_decode hash))
      then bad (invalid_digest line)
      else check_name hash (trim_prefix (codes "*") artifact) seen
  check_fields line seen _ = bad (invalid_line line)

  -- The loop over the lines; `seen` are the names that have passed.
  check_lines : List Text → TextSet → Try ChecksumError TextSet
  check_lines [] seen = good seen
  check_lines (line ∷ lines) seen = elim (check_fields line seen (fields line)) [
    | bad x ↦ bad x
    | good seen' ↦ check_lines lines seen'
  ]

first_unseen : List Archive → TextSet → Option ChecksumError
first_unseen [] seen = none
first_unseen (a ∷ l) seen =
    let rest = first_unseen l seen in
    if has a.name seen then rest else some (missing_artifact a.name)

finish_checks : List Archive → Try ChecksumError TextSet → Option ChecksumError
unfolding first_unseen
finish_checks archives (bad x) = some x
finish_checks archives (good seen) = first_unseen archives seen

-- `verifyChecksums` of a manifest that can be read: an error, if any.
pub verify_checksums : (Text → Option Bytes) → List Archive → Text → Option ChecksumError
unfolding check_lines check_fields check_name check_digest finish_checks
verify_checksums digest archives manifest =
    let lines = split 10 (trim_space manifest) in
    if not (nat_eq (length lines) (length archives))
    then some wrong_count
    else finish_checks archives (check_lines digest archives lines [])

-- What a run of `verify_checksums` unfolds.
unfoldable pub checksum_runs : Unit {0}
unfolding check_digest check_name check_fields check_lines first_unseen finish_checks
    verify_checksums
checksum_runs = tt
