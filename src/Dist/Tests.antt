-- ===== src/Dist/Tests.antt =====
-- Examples of the theorems about distributions.
mod Members
mod Whole
use relaybox.Prelude.{
  trim_prefix, ◌≡◌, ◌≤◌, ◌↔◌, refl, Text, Bytes, codes, All, Option, none, some, List, [], ◌∷◌,
  true, false, length, split, trim_space, is_prefix, strip_prefix, strip_suffix, ◌==◌, to_lower,
  hex_decode, hex_encode, text_less, trim_left, trim_right, contains,
}
use relaybox.Prelude.Sort.{sort, insert}
use relaybox.Prelude.Try.{bad, good}
use relaybox.Map.{get, put, delete}
use relaybox.Dist.Version.{validate_tag}
use relaybox.Dist.Version.Grammar.{IsVersion, validate_tag_iff}
use relaybox.Dist.Archives.{
  Archive, Entry, discover_archives, discover_runs, expected_targets, has_target, target_eq,
  parse_archive_name,
}
use relaybox.Dist.Archives.Matrix.{IsMatrix, discover_archives-IsMatrix}
use relaybox.Dist.Checksums.{verify_checksums, checksum_runs, fields, is_wanted}
use relaybox.Dist.Checksums.Verified.{IsVouched, verify_checksums_complete}

validate_tag_iff_example : (validate_tag (codes "v1.2.3-rc.1") ≡ good (codes "1.2.3-rc.1")) ↔ (
    (codes "v1.2.3-rc.1" ≡ codes "v1.2.3-rc.1")
    × (length (codes "v1.2.3-rc.1") ≤ 128)
    × IsVersion (codes "1.2.3-rc.1"))
validate_tag_iff_example = validate_tag_iff (codes "v1.2.3-rc.1") (codes "1.2.3-rc.1")

abbrev file : Text → Entry
file name = record { name = name; is_dir = false; info_fails = false; is_regular = true; size = 9 }

abbrev pub entries : List Entry
entries =
    file (codes "checksums.txt")
    ∷ file (codes "relaybox_1_windows_amd64.zip")
    ∷ file (codes "relaybox_1_windows_arm64.zip")
    ∷ file (codes "relaybox_1_linux_amd64.tar.gz")
    ∷ file (codes "relaybox_1_linux_arm64.tar.gz")
    ∷ file (codes "relaybox_1_darwin_amd64.tar.gz")
    ∷ file (codes "relaybox_1_darwin_arm64.tar.gz")
    ∷ []

abbrev found : List Archive × Text
found = elim (discover_archives entries) [ bad x ↦ ([], []) | good r ↦ r ]

discovers : discover_archives entries ≡ good (found.0, found.1)
unfolding trim_prefix discover_runs expected_targets has_target target_eq parse_archive_name
    is_prefix strip_prefix strip_suffix ◌==◌ text_less sort insert
discovers = refl

discover_archives-IsMatrix_example : IsMatrix found.0 found.1
discover_archives-IsMatrix_example = discover_archives-IsMatrix entries found.0 found.1 discovers

abbrev pub digest : Text → Option Bytes
digest name = some (
    171 ∷ 18 ∷ 205 ∷ 9 ∷ 171 ∷ 18 ∷ 205 ∷ 9 ∷ 171 ∷ 18 ∷ 205 ∷ 9 ∷ 171 ∷ 18 ∷ 205 ∷ 9 ∷ 171 ∷ 18
    ∷ 205 ∷ 9 ∷ 171 ∷ 18 ∷ 205 ∷ 9 ∷ 171 ∷ 18 ∷ 205 ∷ 9 ∷ 171 ∷ 18 ∷ 205 ∷ 9 ∷ [])

abbrev archive : Archive
archive = record {
  name = codes "a.zip";
  target = record { os = codes "windows"; arch = codes "amd64" };
  version = codes "1";
}

abbrev manifest : Text
manifest = codes "AB12CD09ab12cd09AB12CD09ab12cd09AB12CD09ab12cd09AB12CD09ab12cd09 *a.zip "

vouches : verify_checksums digest (archive ∷ []) manifest ≡ none
unfolding trim_prefix checksum_runs fields is_wanted split trim_space trim_left trim_right
    strip_prefix contains is_prefix ◌==◌ to_lower hex_decode hex_encode get put delete
vouches = refl

verify_checksums_complete_example :
    (length (split 10 (trim_space manifest)) ≡ length (archive ∷ []))
    × All (λ (a : Archive). IsVouched digest (split 10 (trim_space manifest)) a.name) (archive ∷ [])
verify_checksums_complete_example = verify_checksums_complete digest (archive ∷ []) manifest vouches
