-- ===== src/Dist/Tests/Members.antt =====
-- Examples of the theorems about what is inside an archive.
use relaybox.Prelude.{
  ℕ, ◌≡◌, ◌↔◌, refl, arith, Text, Bytes, codes, none, some, List, [], ◌∷◌, ◌==◌, true, false,
  is_prefix,
}
use relaybox.Prelude.Try.{good}
use relaybox.Dist.Archives.{Target}
use relaybox.Dist.Contents.{
  Readers, Elf, Member, has_text, validate_executable, inspect_archive, inspect_runs,
}
use relaybox.Dist.Contents.Complete.{IsComplete, inspect_archive-IsComplete}
use relaybox.Dist.Zip.{has_end_record, zip_ends_at_eof}
use relaybox.Dist.Zip.Window.{zip_ends_at_eof_iff}

abbrev program : Elf
program = record { is_64_bit = true; is_little_endian = true; is_program = true; machine = 62 }

abbrev readers : Readers
readers = record {
  elf = λ file. some program;
  macho = λ file. none;
  pe = λ file. none;
  clean = λ name. name;
}

abbrev linux : Target
linux = record { os = codes "linux"; arch = codes "amd64" }

abbrev member : Text → Member
member name = record {
  name = name;
  is_symlink = false;
  is_regular = true;
  owner_executes = true;
  size = 2;
  contents = some (1 ∷ 2 ∷ []);
}

abbrev members : List Member
members =
    member (codes "LICENSE")
    ∷ member (codes "relaybox")
    ∷ member (codes "README.md")
    ∷ member (codes "THIRD_PARTY_NOTICES.md")
    ∷ []

inspects : inspect_archive readers linux members ≡ good (1 ∷ 2 ∷ [])
unfolding inspect_runs ◌==◌ has_text is_prefix validate_executable
inspects = refl

inspect_archive-IsComplete_example : IsComplete readers linux members (1 ∷ 2 ∷ [])
inspect_archive-IsComplete_example =
    inspect_archive-IsComplete readers linux members (1 ∷ 2 ∷ []) inspects

-- An end record with a comment of one byte.
abbrev ending : Bytes
ending =
    80 ∷ 75 ∷ 5 ∷ 6 ∷ 0 ∷ 0 ∷ 0 ∷ 0 ∷ 0 ∷ 0 ∷ 0 ∷ 0 ∷ 0 ∷ 0 ∷ 0 ∷ 0 ∷ 0 ∷ 0 ∷ 0 ∷ 0 ∷ 1 ∷ 0 ∷ 33
    ∷ []

zip_ends_at_eof_iff_example :
    (zip_ends_at_eof ending ≡ true) ↔ ((offset : ℕ) × (has_end_record ending offset ≡ true))
zip_ends_at_eof_iff_example = zip_ends_at_eof_iff ending (omega arith)
