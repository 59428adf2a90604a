-- ===== src/Dist/Checksums/Verified.antt =====
-- What has been verified when `verifyChecksums` reports no error.
use relaybox.Prelude.{
  ◌≡◌, refl, ap, ◌∙◌, inl, inr, Text, Bytes, codes, true, ◌==◌, text_eq_iff, Option, none, some,
  List, [], ◌∷◌, ◌++◌, ◌⊎◌, All, All-imp, length, nat_eq, split, trim_prefix, trim_space,
  equal_fold, hex_decode, hex_encode, arith, Bool-cases,
}
use relaybox.Map.{TextSet, put, has, get-put, get-nil}
use relaybox.Prelude.Try.{Try, bad, good, Try-cases}
use relaybox.Dist.Archives.{Archive}
use relaybox.Dist.Checksums.{
  ChecksumError, fields, is_digest, check_digest, check_name, check_fields, check_lines,
  first_unseen, finish_checks, verify_checksums,
}

-- A line gives the digest of the named artifact, in either case, with or without a `*`.
pub record IsVouched (digest : Text → Option Bytes) (lines : List Text) (name : Text) : Type 0 where
  pub line : Text
  pub before : List Text
  pub after : List Text
  pub place : lines ≡ before ++ line ∷ after
  pub hash : Text
  pub artifact : Text
  pub actual : Bytes
  pub reads : fields line ≡ hash ∷ artifact ∷ []
  pub names : trim_prefix (codes "*") artifact ≡ name
  pub hashed : digest name ≡ some actual
  pub agrees : equal_fold hash (hex_encode actual) ≡ true

set_of : TextSet → Try ChecksumError TextSet → TextSet
set_of seen (bad x) = seen
set_of seen (good t) = t

-- A line that has passed: what it names, and that it vouches for it.
record IsPassed (digest : Text → Option Bytes) (line : Text) (seen seen' : TextSet) : Type 0 where
  name : Text
  vouched : (lines : List Text) → IsVouched digest (line ∷ lines) name
  grows : put name tt seen ≡ seen'

module _ (digest : Text → Option Bytes) (archives : List Archive) where
  check_digest-good :
      (hash name : Text) (seen seen' : TextSet) (o : Option Bytes)
      → check_digest digest archives hash name seen o ≡ good seen'
      → (actual : Bytes) × (o ≡ some actual)
        × (equal_fold hash (hex_encode actual) ≡ true)
        × (put name tt seen ≡ seen')
  unfolding check_digest set_of
  check_digest-good hash name seen seen' none h = cc
  check_digest-good hash name seen seen' (some actual) h =
      elim (Bool-cases (equal_fold hash (hex_encode actual))) [
        | inl e ↦ (actual, refl, e, ap (set_of seen) (rw (e, check_digest) at h))
        | inr e ↦ absurd (ground (arith, rw (e, check_digest) at h))
      ]

  check_name-good :
      (hash name : Text) (seen seen' : TextSet)
      → check_name digest archives hash name seen ≡ good seen'
      → check_digest digest archives hash name seen (digest name) ≡ good seen'
  unfolding check_name
  check_name-good hash name seen seen' h = ground (arith, h)

  check_fields-good :
      (line : Text) (seen seen' : TextSet) (l : List Text)
      → fields line ≡ l
      → check_fields digest archives line seen l ≡ good seen'
      → IsPassed digest line seen seen'
  unfolding check_fields
  check_fields-good line seen seen' [] e h = cc
  check_fields-good line seen seen' (x ∷ []) e h = cc
  check_fields-good line seen seen' (x ∷ y ∷ z ∷ l) e h = cc
  check_fields-good line seen seen' (hash ∷ artifact ∷ []) e h =
      elim (Bool-cases (is_digest digest archives (hex_decode hash))) [
        | inr wrong ↦ absurd (ground (arith, rw wrong at h))
        | inl right ↦
            let name = trim_prefix (codes "*") artifact in
            let (actual, hashed, agrees, grows) =
              check_digest-good hash name seen seen' (digest name)
                (check_name-good hash name seen seen' (rw right at h)) in
            record {
              name = name;
              vouched = λ lines. record {
                line = line;
                before = [];
                after = lines;
                place = refl;
                hash = hash;
                artifact = artifact;
                actual = actual;
                reads = e;
                names = refl;
                hashed = hashed;
                agrees = agrees;
              };
              grows = grows;
            }
      ]

IsVouched-by_tail :
    {digest : Text → Option Bytes} (line : Text) (lines : List Text) (name : Text)
    → IsVouched digest lines name
    → IsVouched digest (line ∷ lines) name
IsVouched-by_tail line lines name v = record {
  line = v.line;
  before = line ∷ v.before;
  after = v.after;
  place = ap (λ l. line ∷ l) v.place;
  hash = v.hash;
  artifact = v.artifact;
  actual = v.actual;
  reads = v.reads;
  names = v.names;
  hashed = v.hashed;
  agrees = v.agrees;
}

module _ (digest : Text → Option Bytes) (archives : List Archive) where
  check_lines-good :
      (lines : List Text) (seen t : TextSet) (name : Text)
      → check_lines digest archives lines seen ≡ good t
      → has name t ≡ true
      → (has name seen ≡ true) ⊎ IsVouched digest lines name
  unfolding check_lines set_of
  check_lines-good [] seen t name h k = inl (ap (has name) (ap (set_of seen) h) ∙ k)
  check_lines-good (line ∷ lines) seen t name h k =
      elim (Try-cases (check_fields digest archives line seen (fields line))) [
        | inl (x, wrong) ↦ absurd (ground (arith, rw (wrong, check_lines) at h))
        | inr (seen', fine) ↦
            let p = check_fields-good digest archives line seen seen' (fields line) refl fine in
            elim (check_lines-good lines seen' t name (rw (fine, check_lines) at h) k) [
              | inr later ↦ inr (IsVouched-by_tail line lines name later)
              | inl now ↦ elim (Bool-cases (p.name == name)) [
                | inl e ↦ inr (rw (← (text_eq_iff p.name name).0 e) (p.vouched lines))
                | inr e ↦
                    inl (ground (arith, get-put p.name name tt seen, e, ap (has name) p.grows, now))
              ]
            ]
      ]

seen-All :
    (l : List Archive) (seen : TextSet)
    → first_unseen l seen ≡ none
    → All (λ (a : Archive). has a.name seen ≡ true) l
unfolding first_unseen
seen-All [] seen h = tt
seen-All (a ∷ l) seen h = elim (Bool-cases (has a.name seen)) [
  | inl e ↦ (e, seen-All l seen (rw (e, first_unseen) at h))
  | inr e ↦ absurd (ground (arith, rw (e, first_unseen) at h))
]

finish-seen :
    (archives : List Archive) (r : Try ChecksumError TextSet)
    → finish_checks archives r ≡ none
    → (t : TextSet) × (r ≡ good t) × All (λ (a : Archive). has a.name t ≡ true) archives
unfolding finish_checks
finish-seen archives (bad x) h = cc
finish-seen archives (good t) h = (t, refl, seen-All archives t h)

-- Where `verifyChecksums` reports no error, the manifest has as many lines as there are archives,
-- and for every archive it has a line whose hexadecimal digest is that of the archive's file.
pub verify_checksums_complete :
    (digest : Text → Option Bytes) (archives : List Archive) (manifest : Text)
    → verify_checksums digest archives manifest ≡ none
    → (length (split 10 (trim_space manifest)) ≡ length archives)
      × All (λ (a : Archive). IsVouched digest (split 10 (trim_space manifest)) a.name) archives
unfolding verify_checksums
verify_checksums_complete digest archives manifest h =
    let lines = split 10 (trim_space manifest) in
    elim (Bool-cases (nat_eq (length lines) (length archives))) [
      | inr e ↦ absurd (ground (arith, rw e at h))
      | inl e ↦
          let (t, checked, all) =
            finish-seen archives (check_lines digest archives lines []) (rw e at h) in
          (
            ground (arith, e),
            All-imp
                (λ (a : Archive) k.
                  elim (check_lines-good digest archives lines [] t a.name checked k) [
                    | inl none_ ↦ absurd (ground (arith, get-nil {V = Unit {0}} a.name, none_))
                    | inr vouched ↦ vouched
                  ])
                archives all,
          )
    ]
