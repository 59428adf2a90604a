-- ===== src/Dist/Verify/Accepted.antt =====
-- What a distribution is that `Verify` accepts.
use relaybox.Prelude.{
  ◌≡◌, refl, inl, inr, Text, Bytes, Bool, true, false, not, ◌&&◌, ◌==◌, text_eq_iff, Option, none,
  some, List, [], ◌∷◌, All, is_empty, split, trim_space, arith, Bool-cases, Option-cases,
}
use relaybox.Prelude.Try.{Try, bad, good, Try-cases}
use relaybox.Dist.Archives.{target_eq, Archive, ArchiveError, discover_archives}
use relaybox.Dist.Archives.Matrix.{IsMatrix, discover_archives-IsMatrix}
use relaybox.Dist.Checksums.{verify_checksums}
use relaybox.Dist.Checksums.Verified.{IsVouched, verify_checksums_complete}
use relaybox.Dist.Contents.{Member, inspect_archive}
use relaybox.Dist.Contents.Complete.{IsComplete, inspect_archive-IsComplete}
use relaybox.Dist.Verify.{
  Distribution, VerifyError, expected_version, inspect_members, inspect_all, finish_inspection,
  check_manifest, check_archives, check_expected, verify_distribution,
}

-- The archive can be read, is complete, and holds an executable for its target.
pub record IsSoundArchive (d : Distribution) (a : Archive) : Type 0 where
  pub members : List Member
  pub executable : Bytes
  pub reads : d.members a.name ≡ some members
  pub complete : IsComplete d.readers a.target members executable

-- The matrix in one version, the one that is expected if one is, with the digests of the manifest.
pub record IsAccepted (d : Distribution) (expected : Text) : Type 0 where
  pub archives : List Archive
  pub version : Text
  pub manifest : Text
  pub matrix : IsMatrix archives version
  pub as_expected : is_empty expected ≡ false → version ≡ expected
  pub has_manifest : d.manifest ≡ some manifest
  pub vouched :
      All (λ (a : Archive). IsVouched d.digest (split 10 (trim_space manifest)) a.name) archives
  pub sound : All (IsSoundArchive d) archives

module _ (d : Distribution) (smoke : Bool) (version : Text) where
  inspect_members-IsSoundArchive :
      (a : Archive) (o : Option (List Member)) (executable : Bytes)
      → d.members a.name ≡ o
      → inspect_members d smoke version a o ≡ good executable
      → IsSoundArchive d a
  unfolding inspect_members
  inspect_members-IsSoundArchive a none executable e h = cc
  inspect_members-IsSoundArchive a (some members) executable e h =
      elim (Try-cases (inspect_archive d.readers a.target members)) [
        | inl (x, wrong) ↦ absurd (ground (arith, rw (wrong, inspect_members) at h))
        | inr (b, fine) ↦ record {
          members = members;
          executable = b;
          reads = e;
          complete = inspect_archive-IsComplete d.readers a.target members b fine;
        }
      ]

  inspect_all-IsSoundArchive :
      (smoked : Bool) (archives : List Archive) (b : Bool)
      → inspect_all d smoke version smoked archives ≡ good b
      → All (IsSoundArchive d) archives
  unfolding inspect_all
  inspect_all-IsSoundArchive smoked [] b h = tt
  inspect_all-IsSoundArchive smoked (a ∷ archives) b h =
      elim (Try-cases (inspect_members d smoke version a (d.members a.name))) [
        | inl (x, wrong) ↦ absurd (ground (arith, rw (wrong, inspect_all) at h))
        | inr (executable, fine) ↦
            let sound = inspect_members-IsSoundArchive a (d.members a.name) executable refl fine in
            elim (Bool-cases (smoke && target_eq a.target d.host)) [
              | inr passes ↦ (
                sound,
                inspect_all-IsSoundArchive smoked archives b (rw (fine, passes, inspect_all) at h),
              )
              | inl own ↦ elim (Bool-cases (d.runs_as executable version)) [
                | inr wrong ↦ absurd (ground (arith, rw (fine, own, wrong, inspect_all) at h))
                | inl right ↦ (
                  sound,
                  inspect_all-IsSoundArchive true archives b
                      (rw (fine, own, right, inspect_all) at h),
                )
              ]
            ]
      ]

inspection-good :
    (r : Try VerifyError Bool) → finish_inspection r ≡ none → (b : Bool) × (r ≡ good b)
unfolding finish_inspection
inspection-good (bad e) h = cc
inspection-good (good b) h = (b, refl)

module _ (d : Distribution) (smoke : Bool) where
  manifest-IsAccepted :
      (expected version : Text) (archives : List Archive) (o : Option Text)
      → IsMatrix archives version
      → (is_empty expected ≡ false → version ≡ expected)
      → d.manifest ≡ o
      → check_manifest d smoke archives version o ≡ none
      → IsAccepted d expected
  unfolding check_manifest
  manifest-IsAccepted expected version archives none matrix same e h = cc
  manifest-IsAccepted expected version archives (some manifest) matrix same e h =
      elim (Option-cases (verify_checksums d.digest archives manifest)) [
        | inr (x, wrong) ↦ absurd (ground (arith, rw (wrong, check_manifest) at h))
        | inl fine ↦
            let (b, inspected) =
              inspection-good (inspect_all d smoke version (not smoke) archives)
                (rw (fine, check_manifest) at h) in
            record {
              archives = archives;
              version = version;
              manifest = manifest;
              matrix = matrix;
              as_expected = same;
              has_manifest = e;
              vouched = (verify_checksums_complete d.digest archives manifest fine).1;
              sound = inspect_all-IsSoundArchive d smoke version (not smoke) archives b inspected;
            }
      ]

  archives-IsAccepted :
      (expected : Text) (r : Try ArchiveError (List Archive × Text))
      → discover_archives d.entries ≡ r
      → check_archives d smoke expected r ≡ none
      → IsAccepted d expected
  unfolding check_archives
  archives-IsAccepted expected (bad e) found h = cc
  archives-IsAccepted expected (good (archives, version)) found h =
      elim (Bool-cases (not (is_empty expected) && not (version == expected))) [
        | inl wrong ↦ absurd (ground (arith, rw (wrong, check_archives) at h))
        | inr fine ↦
            manifest-IsAccepted expected version archives d.manifest
              (discover_archives-IsMatrix d.entries archives version found)
              (λ given. (text_eq_iff version expected).0 (ground (arith, fine, given))) refl
              (rw (fine, check_archives) at h)
      ]

  expected-IsAccepted :
      (r : Try VerifyError Text)
      → check_expected d smoke r ≡ none
      → (plain : Text) × (r ≡ good plain) × IsAccepted d plain
  unfolding check_expected
  expected-IsAccepted (bad e) h = cc
  expected-IsAccepted (good plain) h =
      (plain, refl, archives-IsAccepted plain (discover_archives d.entries) refl h)

  -- A distribution that `Verify` accepts, for an expected version that is itself valid or empty, is
  -- the whole matrix of archives in one version, the expected one if one is expected; the manifest
  -- vouches for each archive, and each has the required members and an executable for its target.
  pub verify_distribution-IsAccepted :
      (expected : Text)
      → verify_distribution d expected smoke ≡ none
      → (plain : Text) × (expected_version expected ≡ good plain) × IsAccepted d plain
  unfolding verify_distribution
  verify_distribution-IsAccepted expected h = expected-IsAccepted (expected_version expected) h
