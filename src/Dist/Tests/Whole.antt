-- ===== src/Dist/Tests/Whole.antt =====
-- An example of the theorem about a whole distribution.
use relaybox.Prelude.{
  trim_prefix, ◌≡◌, refl, ℕ, Text, Bytes, codes, Option, none, some, List, [], ◌∷◌, ◌++◌, true,
  false, split, trim_space, is_prefix, strip_prefix, strip_suffix, ◌==◌, to_lower, hex_decode,
  hex_encode, text_less, trim_left, trim_right, contains, if◌then◌else◌,
}
use relaybox.Prelude.Sort.{sort, insert}
use relaybox.Prelude.Try.{good}
use relaybox.Map.{get, put, delete}
use relaybox.Dist.Tests.{entries, digest}
use relaybox.Dist.Archives.{
  discover_runs, expected_targets, has_target, target_eq, parse_archive_name,
}
use relaybox.Dist.Checksums.{checksum_runs, fields, is_wanted}
use relaybox.Dist.Contents.{Elf, MachO, Pe, Member, has_text, validate_executable, inspect_runs}
use relaybox.Dist.Verify.{Distribution, expected_version, verify_distribution, verify_runs}
use relaybox.Dist.Verify.Accepted.{IsAccepted, verify_distribution-IsAccepted}

abbrev manifest : Text
manifest =
    codes
      "ab12cd09ab12cd09ab12cd09ab12cd09ab12cd09ab12cd09ab12cd09ab12cd09  relaybox_1_darwin_amd64.tar.gz"
    ++ 10
      ∷ codes
          "ab12cd09ab12cd09ab12cd09ab12cd09ab12cd09ab12cd09ab12cd09ab12cd09  relaybox_1_darwin_arm64.tar.gz"
    ++ 10
      ∷ codes
          "ab12cd09ab12cd09ab12cd09ab12cd09ab12cd09ab12cd09ab12cd09ab12cd09  relaybox_1_linux_amd64.tar.gz"
    ++ 10
      ∷ codes
          "ab12cd09ab12cd09ab12cd09ab12cd09ab12cd09ab12cd09ab12cd09ab12cd09  relaybox_1_linux_arm64.tar.gz"
    ++ 10
      ∷ codes
          "ab12cd09ab12cd09ab12cd09ab12cd09ab12cd09ab12cd09ab12cd09ab12cd09  relaybox_1_windows_amd64.zip"
    ++ 10
      ∷ codes
          "ab12cd09ab12cd09ab12cd09ab12cd09ab12cd09ab12cd09ab12cd09ab12cd09  relaybox_1_windows_arm64.zip"

-- An executable of the example is one byte, 0 for amd64 and 1 for arm64.
abbrev machine : ℕ → ℕ → Bytes → ℕ
machine amd64 arm64 file = if file == (0 ∷ []) then amd64 else arm64

abbrev elf : Bytes → Option Elf
elf file = some (record {
  is_64_bit = true;
  is_little_endian = true;
  is_program = true;
  machine = machine 62 183 file;
})

abbrev macho : Bytes → Option MachO
macho file = some (record { is_program = true; cpu = machine 16777223 16777228 file })

abbrev pe : Bytes → Option Pe
pe file =
    some (record { is_program = true; has_header_64 = true; machine = machine 34404 43620 file })

abbrev member : Bytes → Text → Member
member contents name = record {
  name = name;
  is_symlink = false;
  is_regular = true;
  owner_executes = true;
  size = 1;
  contents = some contents;
}

abbrev members : Text → Option (List Member)
members name =
    let program = if contains name (codes "amd64") then 0 ∷ [] else 1 ∷ [] in
    some (
      member program
        (if contains name (codes "windows") then codes "relaybox.exe" else codes "relaybox")
      ∷ member program (codes "LICENSE")
      ∷ member program (codes "README.md")
      ∷ member program (codes "THIRD_PARTY_NOTICES.md")
      ∷ [])

abbrev distribution : Distribution
distribution = record {
  entries = entries;
  manifest = some manifest;
  digest = digest;
  members = members;
  readers = record { elf = elf; macho = macho; pe = pe; clean = λ name. name };
  host = record { os = codes "linux"; arch = codes "amd64" };
  runs_as = λ executable version. version == codes "1";
}

verifies : verify_distribution distribution (codes "") true ≡ none
unfolding trim_prefix discover_runs expected_targets has_target target_eq parse_archive_name
    is_prefix strip_prefix strip_suffix ◌==◌ text_less sort insert checksum_runs fields is_wanted
    split trim_space trim_left trim_right contains to_lower hex_decode hex_encode get put delete
    inspect_runs has_text validate_executable verify_runs expected_version
verifies = refl

verify_distribution-IsAccepted_example :
    (plain : Text) × (expected_version (codes "") ≡ good plain) × IsAccepted distribution plain
verify_distribution-IsAccepted_example =
    verify_distribution-IsAccepted distribution true (codes "") verifies
