-- ===== src/Dist/Verify.antt =====
-- `Verify` of internal/distcheck/distcheck.go, over what a directory holds. Reading a file and
-- running an executable are parameters.
pub mod Accepted
use relaybox.Prelude.{
  ℕ, Text, Bytes, codes, Bool, true, false, not, ◌&&◌, ◌||◌, ◌==◌, Option, none, some, List, [],
  ◌∷◌, is_empty, is_prefix, if◌then◌else◌,
}
use relaybox.Prelude.Try.{Try, bad, good}
use relaybox.Dist.Version.{TagError, validate_tag}
use relaybox.Dist.Archives.{Target, target_eq, Archive, ArchiveError, Entry, discover_archives}
use relaybox.Dist.Checksums.{ChecksumError, verify_checksums}
use relaybox.Dist.Contents.{Readers, Member, ContentError, inspect_archive}

-- The directory and the host. A manifest or an archive that cannot be read is none.
pub record Distribution : Type 0 where
  pub entries : List Entry
  pub manifest : Option Text
  pub digest : Text → Option Bytes
  pub members : Text → Option (List Member)
  pub readers : Readers
  pub host : Target
  -- the executable prints the version
  pub runs_as : Bytes → Text → Bool

pub data VerifyError : Type 0 where
  bad_tag : TagError → VerifyError
  bad_archives : ArchiveError → VerifyError
  bad_checksums : ChecksumError → VerifyError
  bad_contents : Text → ContentError → VerifyError
  wrong_version no_manifest unreadable_archive smoke_failed not_smoked : VerifyError

expected_tag : Text → Try TagError Text → Try VerifyError Text
expected_tag version (bad e) = bad (bad_tag e)
expected_tag version (good plain) = good version

stripped_tag : Try TagError Text → Try VerifyError Text
stripped_tag (bad e) = bad (bad_tag e)
stripped_tag (good plain) = good plain

-- The expected version without its leading "v"; empty where none is expected.
unfoldable pub expected_version : Text → Try VerifyError Text
unfolding expected_tag stripped_tag
expected_version expected =
    if is_empty expected
    then good expected
    else if is_prefix (codes "v") expected
    then stripped_tag (validate_tag expected)
    else expected_tag expected (validate_tag (b'v' ∷ expected))

module _ (d : Distribution) (smoke : Bool) (version : Text) where
  inspect_members : Archive → Option (List Member) → Try VerifyError Bytes
  inspect_members a none = bad unreadable_archive
  inspect_members a (some members) = elim (inspect_archive d.readers a.target members) [
    | bad e ↦ bad (bad_contents a.name e)
    | good executable ↦ good executable
  ]

  -- The loop over the archives; `smoked` says whether an executable has been run.
  inspect_all : Bool → List Archive → Try VerifyError Bool
  unfolding inspect_members
  inspect_all smoked [] = good smoked
  inspect_all smoked (a ∷ archives) = elim (inspect_members a (d.members a.name)) [
    | bad e ↦ bad e
    | good executable ↦
        if smoke && target_eq a.target d.host
        then (if d.runs_as executable version then inspect_all true archives else bad smoke_failed)
        else inspect_all smoked archives
  ]

finish_inspection : Try VerifyError Bool → Option VerifyError
finish_inspection (bad e) = some e
finish_inspection (good smoked) = if smoked then none else some not_smoked

check_manifest : Distribution → Bool → List Archive → Text → Option Text → Option VerifyError
unfolding inspect_all finish_inspection
check_manifest d smoke archives version none = some no_manifest
check_manifest d smoke archives version (some manifest) =
    elim (verify_checksums d.digest archives manifest) [
      | some e ↦ some (bad_checksums e)
      | none ↦ finish_inspection (inspect_all d smoke version (not smoke) archives)
    ]

check_archives :
    Distribution → Bool → Text → Try ArchiveError (List Archive × Text) → Option VerifyError
unfolding check_manifest
check_archives d smoke expected (bad e) = some (bad_archives e)
check_archives d smoke expected (good (archives, version)) =
    if not (is_empty expected) && not (version == expected)
    then some wrong_version
    else check_manifest d smoke archives version d.manifest

check_expected : Distribution → Bool → Try VerifyError Text → Option VerifyError
unfolding check_archives
check_expected d smoke (bad e) = some e
check_expected d smoke (good expected) =
    check_archives d smoke expected (discover_archives d.entries)

-- `Verify`: an error, if any.
pub verify_distribution : Distribution → Text → Bool → Option VerifyError
unfolding check_expected
verify_distribution d expected smoke = check_expected d smoke (expected_version expected)

-- What a run of `verify_distribution` unfolds.
unfoldable pub verify_runs : Unit {0}
unfolding expected_tag stripped_tag inspect_members inspect_all finish_inspection check_manifest
    check_archives check_expected verify_distribution
verify_runs = tt
