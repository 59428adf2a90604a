-- ===== src/Dist/Archives/Matrix.antt =====
-- A distribution that is accepted has each archive of the matrix once, all of one version.
use relaybox.Prelude.{
  ℕ, ◌+◌, ◌≡◌, refl, sym, ap, ◌∙◌, inl, inr, Text, Bool, true, false, not, ◌&&◌, ◌==◌, text_eq_iff,
  Option, none, some, List, [], ◌∷◌, ◌++◌, All, All-append, is_empty, is_prefix, is_suffix, codes,
  arith, Bool-cases, Option-cases, if◌then◌else◌,
}
use relaybox.Prelude.Sort.{sort, insert, All-sort}
use relaybox.Prelude.Try.{Try, bad, good, Try-cases}
use relaybox.Dist.Archives.{
  Target, target_eq, expected_targets, has_target, Archive, Entry, ArchiveError, Found, nothing,
  found_more, take_archive, take_entry, scan_entries, first_missing, finish_scan, scanned,
  discover_archives, by_name, parse_archive_name, is_skipped, parse_for, with_version, suffix_of,
}

-- How many archives of the list are for the target.
pub count_target : Target → List Archive → ℕ
count_target t [] = 0
count_target t (a ∷ l) = (if target_eq a.target t then 1 else 0) + count_target t l

abbrev one_if : Bool → ℕ
one_if b = if b then 1 else 0

count-append :
    (t : Target) (l m : List Archive)
    → count_target t (l ++ m) ≡ count_target t l + count_target t m
unfolding count_target
count-append t [] m = omega arith
count-append t (a ∷ l) m = omega (arith, count-append t l m)

count-insert :
    (t : Target) (a : Archive) (l : List Archive)
    → count_target t (insert by_name a l) ≡ count_target t (a ∷ l)
unfolding insert count_target
count-insert t a [] = refl
count-insert t a (b ∷ l) = ground (arith, count-insert t a l)

count-sort : (t : Target) (l : List Archive) → count_target t (sort by_name l) ≡ count_target t l
unfolding sort count_target
count-sort t [] = refl
count-sort t (a ∷ l) =
    count-insert t a (sort by_name l) ∙ ap (λ n. one_if (target_eq a.target t) + n) (count-sort t l)

target_of_eq : (a b : Target) → target_eq a b ≡ true → a ≡ b
unfolding target_eq
target_of_eq a b h =
    let os : a.os ≡ b.os = (text_eq_iff a.os b.os).0 (ground (arith, h)) in
    let arch : a.arch ≡ b.arch = (text_eq_iff a.arch b.arch).0 (ground (arith, h)) in
    λ i. record { os = os i; arch = arch i }

record IsFound (f : Found) : Type 0 where
  counted : (t : Target) → count_target t f.archives ≡ one_if (has_target t f.seen)
  wanted : (t : Target) → has_target t f.seen ≡ true → has_target t expected_targets ≡ true
  same : All (λ (a : Archive). a.version ≡ f.version) f.archives
  started : is_empty f.version ≡ true → f.archives ≡ []

nothing-IsFound : IsFound nothing
unfolding count_target has_target
nothing-IsFound = record {
  counted = λ t. refl;
  wanted = λ t h. absurd (ground (arith, h));
  same = tt;
  started = λ h. refl;
}

module _ (a : Archive) (f : Found) (v : IsFound f)
    (wanted : has_target a.target expected_targets ≡ true)
    (fresh : has_target a.target f.seen ≡ false) (named : is_empty a.version ≡ false)
    (agrees : (not (is_empty f.version) && not (a.version == f.version)) ≡ false) where
  other_target : (t : Target) → target_eq a.target t ≡ true → has_target t f.seen ≡ false
  other_target t e = ap (λ u. has_target u f.seen) (sym (target_of_eq a.target t e)) ∙ fresh

  wanted_target : (t : Target) → target_eq a.target t ≡ true → has_target t expected_targets ≡ true
  wanted_target t e =
      ap (λ u. has_target u expected_targets) (sym (target_of_eq a.target t e)) ∙ wanted

  same-more : All (λ (b : Archive). b.version ≡ (found_more a f).version) (f.archives ++ a ∷ [])
  same-more = elim (Bool-cases (is_empty f.version)) [
    | inl none_ ↦ rw (none_, v.started none_) (refl, tt)
    | inr some_ ↦
        let equal : a.version ≡ f.version =
          (text_eq_iff a.version f.version).0 (ground (arith, agrees, some_)) in
        rw some_ (All-append _ f.archives (a ∷ []) v.same (equal, tt))
  ]

  found_more-IsFound : IsFound (found_more a f)
  unfolding count_target has_target
  found_more-IsFound = record {
    counted = λ t. ground (arith, count-append t f.archives (a ∷ []), v.counted t, other_target t);
    wanted = λ t h. ground (arith, v.wanted t, wanted_target t, h);
    same = same-more;
    started = λ h. absurd (ground (arith, h, named));
  }

version_is_empty : Option Archive → Bool
version_is_empty none = false
version_is_empty (some a) = is_empty a.version

with_version-named :
    (name : Text) (t : Target) (version : Text)
    → version_is_empty (with_version name t version) ≡ false
unfolding version_is_empty
with_version-named name t [] = refl
with_version-named name t (c ∷ version) = refl

parse_for-named : (name : Text) (l : List Target) → version_is_empty (parse_for name l) ≡ false
unfolding parse_for version_is_empty
parse_for-named name [] = refl
parse_for-named name (t ∷ l) = elim (Bool-cases (is_suffix (suffix_of t) name)) [
  | inl e ↦ rw (e, parse_for) (with_version-named name t _)
  | inr e ↦ rw (e, parse_for) (parse_for-named name l)
]

parse-named :
    (name : Text) (a : Archive) → parse_archive_name name ≡ some a → is_empty a.version ≡ false
unfolding parse_archive_name version_is_empty
parse-named name a h = elim (Bool-cases (is_prefix (codes "relaybox_") name)) [
  | inl e ↦ sym (ap version_is_empty (rw e at h)) ∙ parse_for-named name expected_targets
  | inr e ↦ absurd (ground (arith, rw e at h))
]

taken {ℓ} : {A : Type ℓ} → A → Try ArchiveError A → A
taken a (bad x) = a
taken a (good b) = b

take_archive-good :
    (e : Entry) (a : Archive) (f f' : Found)
    → take_archive e (some a) f ≡ good f'
    → (has_target a.target expected_targets ≡ true)
      × (has_target a.target f.seen ≡ false)
      × ((not (is_empty f.version) && not (a.version == f.version)) ≡ false)
      × (take_archive e (some a) f ≡ good (found_more a f))
unfolding take_archive
take_archive-good e a f f' h = ground (arith, h)

take_archive-IsFound :
    (e : Entry) (a : Archive) (f f' : Found)
    → IsFound f
    → is_empty a.version ≡ false
    → take_archive e (some a) f ≡ good f'
    → IsFound f'
unfolding taken
take_archive-IsFound e a f f' v named h =
    let (wanted, fresh, agrees, result) = take_archive-good e a f f' h in
    rw (ap (taken f) (sym h ∙ result)) (found_more-IsFound a f v wanted fresh named agrees)

take_named :
    (e : Entry) (o : Option Archive) (f f' : Found)
    → IsFound f
    → ((a : Archive) → o ≡ some a → is_empty a.version ≡ false)
    → take_archive e o f ≡ good f'
    → IsFound f'
unfolding take_archive
take_named e none f f' v named h = cc
take_named e (some a) f f' v named h = take_archive-IsFound e a f f' v (named a refl) h

take_entry-IsFound : (e : Entry) (f f' : Found) → IsFound f → take_entry e f ≡ good f' → IsFound f'
unfolding take_entry taken
take_entry-IsFound e f f' v h = elim (Bool-cases (is_skipped e)) [
  | inl skip ↦ rw (← ap (taken f) (rw skip at h)) v
  | inr read ↦ take_named e (parse_archive_name e.name) f f' v (parse-named e.name) (rw read at h)
]

scan-IsFound :
    (entries : List Entry) (f f' : Found)
    → IsFound f
    → scan_entries entries f ≡ good f'
    → IsFound f'
unfolding scan_entries taken
scan-IsFound [] f f' v h = rw (← ap (taken f) h) v
scan-IsFound (e ∷ entries) f f' v h = elim (Try-cases (take_entry e f)) [
  | inl (x, wrong) ↦ absurd (ground (arith, rw (wrong, scan_entries) at h))
  | inr (g, fine) ↦
      scan-IsFound entries g f' (take_entry-IsFound e f g v fine) (rw (fine, scan_entries) at h)
]

covers :
    (t : Target) (targets seen : List Target)
    → first_missing targets seen ≡ none
    → has_target t targets ≡ true
    → has_target t seen ≡ true
unfolding first_missing has_target
covers t [] seen h k = absurd (ground (arith, k))
covers t (u ∷ targets) seen h k = elim (Bool-cases (has_target u seen)) [
  | inr missing ↦ absurd (ground (arith, rw missing at h))
  | inl there ↦ elim (Bool-cases (target_eq u t)) [
    | inl e ↦ ap (λ x. has_target x seen) (sym (target_of_eq u t e)) ∙ there
    | inr e ↦ covers t targets seen (rw there at h) (ground (arith, k, e))
  ]
]

-- The archives are the whole matrix, each once, and they have one version.
pub record IsMatrix (archives : List Archive) (version : Text) : Type 0 where
  pub each_once : (t : Target) → has_target t expected_targets ≡ true → count_target t archives ≡ 1
  pub no_other : (t : Target) → has_target t expected_targets ≡ false → count_target t archives ≡ 0
  pub one_version : All (λ (a : Archive). a.version ≡ version) archives

IsFound-IsMatrix :
    (f : Found)
    → IsFound f
    → first_missing expected_targets f.seen ≡ none
    → IsMatrix (sort by_name f.archives) f.version
IsFound-IsMatrix f v complete = record {
  each_once = λ t h.
      count-sort t f.archives
      ∙ v.counted t
      ∙ ap one_if (covers t expected_targets f.seen complete h);
  no_other = λ t h. count-sort t f.archives ∙ v.counted t ∙ ground (arith, v.wanted t, h);
  one_version = All-sort by_name (λ (a : Archive). a.version ≡ f.version) f.archives v.same;
}

result_of : List Archive × Text → Try ArchiveError (List Archive × Text) → List Archive × Text
result_of r (bad x) = r
result_of r (good q) = q

finish-IsMatrix :
    (f : Found) (archives : List Archive) (version : Text)
    → IsFound f
    → finish_scan f ≡ good (archives, version)
    → IsMatrix archives version
unfolding finish_scan result_of
finish-IsMatrix f archives version v h =
    elim (Option-cases (first_missing expected_targets f.seen)) [
      | inr (t, missing) ↦ absurd (ground (arith, rw (missing, finish_scan) at h))
      | inl complete ↦
          let same = ap (result_of ([], [])) (rw (complete, finish_scan) at h) in
          rw (← ap (λ r. r.0) same, ← ap (λ r. r.1) same) (IsFound-IsMatrix f v complete)
    ]

scanned-IsMatrix :
    (r : Try ArchiveError Found) (archives : List Archive) (version : Text)
    → ((f : Found) → r ≡ good f → IsFound f)
    → scanned r ≡ good (archives, version)
    → IsMatrix archives version
unfolding scanned
scanned-IsMatrix (bad x) archives version found h = cc
scanned-IsMatrix (good f) archives version found h =
    finish-IsMatrix f archives version (found f refl) h

-- A distribution that `discoverArchives` accepts has exactly one archive for each of the six targets
-- and none for any other, and all archives have the version that is returned.
pub discover_archives-IsMatrix :
    (entries : List Entry) (archives : List Archive) (version : Text)
    → discover_archives entries ≡ good (archives, version)
    → IsMatrix archives version
unfolding discover_archives
discover_archives-IsMatrix entries archives version =
    scanned-IsMatrix (scan_entries entries nothing) archives version
      (λ f. scan-IsFound entries nothing f nothing-IsFound)
