-- ===== src/Dist/Version/Grammar.antt =====
-- The grammar of versions, and that `ValidateTag` accepts it and nothing else.
use relaybox.Prelude.{
  ℕ, ◌≤◌, ◌<◌, ◌≡◌, ◌≢◌, ◌↔◌, ◌⊎◌, inl, inr, refl, sym, ap, ◌∙◌, Text, Bool, true, false, not, ◌&&◌,
  none, some, List, [], ◌∷◌, ◌++◌, length, length-append, append-nil, All, All-imp, All-append,
  nat_eq, split, join, cut, Lacks, arith, Bool-cases, Option-cases,
}
use relaybox.Prelude.Strings.Laws.{
  join-split, split-join, split-ne-nil, cut-append, cut_lacking, append-cut, join-Lacks,
  contains_lacking,
}
use relaybox.Prelude.Try.{good}
use relaybox.Dist.Version.{
  is_digit, is_identifier_byte, all_bytes, decimal_identifier, padded, identifier_error,
  identifiers_error, core_valid, check_core, check_version, validate_tag,
}

abbrev IsDigit : ℕ → Type 0
IsDigit c = (b'0' ≤ c) × (c ≤ b'9')

abbrev IsLetter : ℕ → Type 0
IsLetter c = ((b'A' ≤ c) × (c ≤ b'Z')) ⊎ ((b'a' ≤ c) × (c ≤ b'z'))

-- A number: "0", or digits of which the first is not "0".
abbrev pub IsNumber : Text → Type 0
IsNumber [] = ⊥
IsNumber (c ∷ s) = IsDigit c × All IsDigit s × ((c ≢ b'0') ⊎ (s ≡ []))

-- An identifier of a prerelease: letters, digits and "-". If it is all digits it is a number.
abbrev pub IsIdentifier : Text → Type 0
IsIdentifier s =
    (s ≢ []) × All (λ c. IsDigit c ⊎ IsLetter c ⊎ (c ≡ b'-')) s × (All IsDigit s → IsNumber s)

abbrev pub prerelease : List Text → Text
prerelease [] = []
prerelease (p ∷ ps) = b'-' ∷ join b'.' (p ∷ ps)

-- major.minor.patch, and after a "-" the identifiers of a prerelease if there is one.
pub record IsVersion (version : Text) : Type 0 where
  pub major : Text
  pub minor : Text
  pub patch : Text
  pub identifiers : List Text
  pub numbers : IsNumber major × IsNumber minor × IsNumber patch
  pub all_identifiers : All IsIdentifier identifiers
  pub spelled : version ≡ join b'.' (major ∷ minor ∷ patch ∷ []) ++ prerelease identifiers

all_bytes_iff :
    (p : ℕ → Bool) (P : ℕ → Type 0)
    → ((c : ℕ) → (p c ≡ true) ↔ P c)
    → (s : Text) → (all_bytes p s ≡ true) ↔ All P s
unfolding all_bytes
all_bytes_iff p P h [] = (λ e. tt, λ a. refl)
all_bytes_iff p P h (c ∷ s) = (
  λ e. ((h c).0 (ground (arith, e)), (all_bytes_iff p P h s).0 (ground (arith, e))),
  λ a. rw ((h c).1 a.0, (all_bytes_iff p P h s).1 a.1),
)

digits_iff : (s : Text) → (all_bytes is_digit s ≡ true) ↔ All IsDigit s
digits_iff = all_bytes_iff is_digit IsDigit (λ c. (λ e. ground (arith, e), λ a. ground (arith, a)))

identifier_bytes_iff :
    (s : Text)
    → (all_bytes is_identifier_byte s ≡ true) ↔ All (λ c. IsDigit c ⊎ IsLetter c ⊎ (c ≡ b'-')) s
identifier_bytes_iff =
    all_bytes_iff is_identifier_byte (λ c. IsDigit c ⊎ IsLetter c ⊎ (c ≡ b'-'))
      (λ c. (λ e. ground (arith, e), λ a. ground (arith, a)))

IsNumber-iff : (s : Text) → ((decimal_identifier s && not (padded s)) ≡ true) ↔ IsNumber s
unfolding decimal_identifier all_bytes
IsNumber-iff [] = (λ h. absurd (ground (arith, h)), λ a. absurd a)
IsNumber-iff (c ∷ []) = (λ h. ground (arith, h), λ a. ground (arith, a))
IsNumber-iff (c ∷ d ∷ s) =
    (λ h. ground (arith, h, digits_iff s), λ a. ground (arith, a, digits_iff s))

decimal_iff : (c : ℕ) (s : Text) → (decimal_identifier (c ∷ s) ≡ true) ↔ All IsDigit (c ∷ s)
unfolding decimal_identifier
decimal_iff c s = digits_iff (c ∷ s)

-- An identifier that is all digits is a number if it has no padding.
unpadded_iff :
    (c : ℕ) (s : Text)
    → ((padded (c ∷ s) && decimal_identifier (c ∷ s)) ≡ false)
      ↔ (All IsDigit (c ∷ s) → IsNumber (c ∷ s))
unpadded_iff c s = (
  λ h a.
      let decimal = (decimal_iff c s).1 a in (IsNumber-iff (c ∷ s)).0 (ground (arith, h, decimal)),
  λ f. elim (Bool-cases (decimal_identifier (c ∷ s))) [
    | inr other ↦ ground (arith, other)
    | inl decimal ↦
        let number = (IsNumber-iff (c ∷ s)).1 (f ((decimal_iff c s).0 decimal)) in
        ground (arith, decimal, number)
  ],
)

IsIdentifier-iff : (s : Text) → (identifier_error s ≡ none) ↔ IsIdentifier s
unfolding identifier_error
IsIdentifier-iff [] = (λ h. cc, λ a. absurd (a.0 refl))
IsIdentifier-iff (c ∷ s) = (
  λ h.
      let bytes : all_bytes is_identifier_byte (c ∷ s) ≡ true = ground (arith, h) in
      let free : (padded (c ∷ s) && decimal_identifier (c ∷ s)) ≡ false =
        ground (arith, h, bytes) in
      ((λ e. cc), (identifier_bytes_iff (c ∷ s)).0 bytes, (unpadded_iff c s).0 free),
  λ a.
      let bytes = (identifier_bytes_iff (c ∷ s)).1 a.1 in
      let free = (unpadded_iff c s).1 a.2 in rw (bytes, free),
)

identifiers_iff : (l : List Text) → (identifiers_error l ≡ none) ↔ All IsIdentifier l
unfolding identifiers_error
identifiers_iff [] = (λ h. tt, λ a. refl)
identifiers_iff (s ∷ rest) = (
  λ h. elim (Option-cases (identifier_error s)) [
    | inl fine ↦
        ((IsIdentifier-iff s).0 fine, (identifiers_iff rest).0 (rw (fine, identifiers_error) at h))
    | inr (e, wrong) ↦ absurd (ground (arith, wrong, h))
  ],
  λ a. rw ((IsIdentifier-iff s).1 a.0, identifiers_error) ((identifiers_iff rest).1 a.1),
)

-- What stands in a text of the grammar, with its separators.
core_iff : (parts : List Text) → (core_valid parts ≡ true) ↔ All IsNumber parts
unfolding core_valid
core_iff [] = (λ h. tt, λ a. refl)
core_iff (s ∷ rest) = (
  λ h. ((IsNumber-iff s).0 (ground (arith, h)), (core_iff rest).0 (ground (arith, h))),
  λ a.
      let one = (IsNumber-iff s).1 a.0 in
      let more = (core_iff rest).1 a.1 in ground (arith, one, more),
)

Lacks-of {κ} :
    (P : ℕ → Type κ) (sep : ℕ) (s : Text) → ((c : ℕ) → P c → c ≢ sep) → All P s → Lacks sep s
Lacks-of P sep s f h = All-imp f s h

number-Lacks : (sep : ℕ) (s : Text) → sep < b'0' → IsNumber s → Lacks sep s
number-Lacks sep [] h n = elim n [ ]
number-Lacks sep (c ∷ s) h n = (omega (arith, n.0), Lacks-of IsDigit sep s (λ c d. omega arith) n.1)

identifier-Lacks : (sep : ℕ) (s : Text) → sep < b'0' → sep ≢ b'-' → IsIdentifier s → Lacks sep s
identifier-Lacks sep s h k n =
    Lacks-of (λ c. IsDigit c ⊎ IsLetter c ⊎ (c ≡ b'-')) sep s (λ c d. ground (arith, d, k)) n.1

identifiers-Lacks :
    (sep : ℕ) (l : List Text) → sep < b'0' → sep ≢ b'-' → All IsIdentifier l → All (Lacks sep) l
identifiers-Lacks sep l h k a = All-imp (λ s n. identifier-Lacks sep s h k n) l a

record IsCore (core : Text) : Type 0 where
  major : Text
  minor : Text
  patch : Text
  numbers : IsNumber major × IsNumber minor × IsNumber patch
  spelled : core ≡ join b'.' (major ∷ minor ∷ patch ∷ [])

core-Lacks : (sep : ℕ) (core : Text) → sep < b'0' → b'.' ≢ sep → IsCore core → Lacks sep core
core-Lacks sep core h k v =
    let (a, b, c) = v.numbers in
    rw v.spelled (
      join-Lacks sep b'.' (v.major ∷ v.minor ∷ v.patch ∷ []) k (
        number-Lacks sep v.major h a,
        (number-Lacks sep v.minor h b, (number-Lacks sep v.patch h c, tt)),
      ))

IsCore-of_parts : (l : List Text) → length l ≡ 3 → All IsNumber l → IsCore (join b'.' l)
IsCore-of_parts [] h a = absurd (omega (arith, h))
IsCore-of_parts (x ∷ []) h a = absurd (omega (arith, h))
IsCore-of_parts (x ∷ y ∷ []) h a = absurd (omega (arith, h))
IsCore-of_parts (x ∷ y ∷ z ∷ []) h a = record {
  major = x;
  minor = y;
  patch = z;
  numbers = (a.0, a.1.0, a.1.1.0);
  spelled = refl;
}
IsCore-of_parts (x ∷ y ∷ z ∷ w ∷ l) h a = absurd (omega (arith, h))

check_core_sound :
    (core version v : Text) → check_core core version ≡ good v → (version ≡ v) × IsCore core
unfolding check_core
check_core_sound core version v h =
    let three : nat_eq (length (split b'.' core)) 3 ≡ true = ground (arith, h) in
    let valid : core_valid (split b'.' core) ≡ true = ground (arith, h, three) in
    (
      ground (arith, h, three, valid),
      rw (join-split b'.' core) at (
          IsCore-of_parts (split b'.' core) (ground (arith, three))
            ((core_iff (split b'.' core)).0 valid)),
    )

check_core_complete : (core version : Text) → IsCore core → check_core core version ≡ good version
unfolding check_core join
check_core_complete core version v =
    let (a, b, c) = v.numbers in
    let parts : split b'.' core ≡ v.major ∷ v.minor ∷ v.patch ∷ [] =
      ap (λ s. split b'.' s) v.spelled
      ∙ split-join b'.' v.major (v.minor ∷ v.patch ∷ []) (number-Lacks b'.' v.major (omega arith) a)
          (
            number-Lacks b'.' v.minor (omega arith) b,
            (number-Lacks b'.' v.patch (omega arith) c, tt),
          ) in
    let valid = (core_iff (v.major ∷ v.minor ∷ v.patch ∷ [])).1 (a, (b, (c, tt))) in
    rw (parts, valid)

-- The prerelease behind the first "-".
prerelease-split : (pre : Text) → prerelease (split b'.' pre) ≡ b'-' ∷ pre
prerelease-split pre = from (split b'.' pre) (split-ne-nil b'.' pre) (join-split b'.' pre)
  where
    from : (l : List Text) → l ≢ [] → join b'.' l ≡ pre → prerelease l ≡ b'-' ∷ pre
    from [] h e = absurd (h refl)
    from (p ∷ ps) h e = rw e

IsVersion-of_core :
    (core version : Text) (l : List Text)
    → IsCore core
    → All IsIdentifier l
    → version ≡ core ++ prerelease l
    → IsVersion version
IsVersion-of_core core version l v a e = record {
  major = v.major;
  minor = v.minor;
  patch = v.patch;
  identifiers = l;
  numbers = v.numbers;
  all_identifiers = a;
  spelled = e ∙ ap (λ s. s ++ prerelease l) v.spelled;
}

check_version_sound :
    (version v : Text) → check_version version ≡ good v → (version ≡ v) × IsVersion version
unfolding check_version
check_version_sound version v h = elim (Option-cases (cut b'-' version)) [
  | inl whole ↦
      let (same, core) = check_core_sound version version v (rw (whole, check_version) at h) in
      (same, IsVersion-of_core version version [] core tt (sym (append-nil version)))
  | inr ((core, pre), found) ↦ elim (Option-cases (identifiers_error (split b'.' pre))) [
    | inr (e, wrong) ↦ absurd (ground (arith, found, wrong, h))
    | inl fine ↦
        let (same, is_core) = check_core_sound core version v (ground (arith, found, fine, h)) in
        (
          same,
          IsVersion-of_core core version (split b'.' pre) is_core
              ((identifiers_iff (split b'.' pre)).0 fine)
              (rw (prerelease-split pre) (append-cut b'-' version core pre found)),
        )
  ]
]

IsCore-of_version :
    (version : Text) (v : IsVersion version) → IsCore (join b'.' (v.major ∷ v.minor ∷ v.patch ∷ []))
IsCore-of_version version v = record {
  major = v.major;
  minor = v.minor;
  patch = v.patch;
  numbers = v.numbers;
  spelled = refl;
}

check_version_complete :
    (core version : Text) (l : List Text)
    → IsCore core
    → All IsIdentifier l
    → version ≡ core ++ prerelease l
    → check_version version ≡ good version
unfolding check_version
check_version_complete core version [] v a e =
    let same : version ≡ core = e ∙ append-nil core in
    let whole : cut b'-' version ≡ none =
      ap (λ s. cut b'-' s) same
      ∙ cut_lacking b'-' core (core-Lacks b'-' core (omega arith) (omega arith) v) in
    rw (whole, check_version) (check_core_complete version version (rw (← same) at v))
check_version_complete core version (p ∷ ps) v a e =
    let pre = join b'.' (p ∷ ps) in
    let lacks = identifiers-Lacks b'.' (p ∷ ps) (omega arith) (omega arith) a in
    let found : cut b'-' version ≡ some (core, pre) =
      ap (λ s. cut b'-' s) e
      ∙ cut-append b'-' core pre (core-Lacks b'-' core (omega arith) (omega arith) v) in
    let parts : split b'.' pre ≡ p ∷ ps = split-join b'.' p ps lacks.0 lacks.1 in
    let fine : identifiers_error (split b'.' pre) ≡ none =
      ap identifiers_error parts ∙ (identifiers_iff (p ∷ ps)).1 a in
    ground (arith, found, fine, check_core_complete core version v)

version-Lacks : (version : Text) → IsVersion version → Lacks b'+' version
version-Lacks version v = rw v.spelled (
    All-append (λ c. c ≢ b'+') (join b'.' (v.major ∷ v.minor ∷ v.patch ∷ []))
      (prerelease v.identifiers)
      (core-Lacks b'+' _ (omega arith) (omega arith) (IsCore-of_version version v))
      (behind v.identifiers v.all_identifiers))
  where
    behind : (l : List Text) → All IsIdentifier l → Lacks b'+' (prerelease l)
    behind [] a = tt
    behind (p ∷ ps) a = (
      (omega arith),
      join-Lacks b'+' b'.' (p ∷ ps) (omega arith)
          (identifiers-Lacks b'+' (p ∷ ps) (omega arith) (omega arith) a),
    )

version-ne-nil : (version : Text) → IsVersion version → 0 < length version
unfolding join
version-ne-nil version v =
    let tail = v.minor ++ b'.' ∷ v.patch in
    omega (
      arith,
      ap (λ (s : Text). length s) v.spelled,
      length-append (v.major ++ b'.' ∷ tail) (prerelease v.identifiers),
      length-append v.major (b'.' ∷ tail),
    )

tag_sound :
    (tag version : Text)
    → validate_tag tag ≡ good version
    → (tag ≡ b'v' ∷ version) × (length tag ≤ 128) × IsVersion version
unfolding validate_tag
tag_sound [] version h = cc
tag_sound (c ∷ s) version h =
    let fine : check_version s ≡ good version = ground (arith, h) in
    let (same, is_version) = check_version_sound s version fine in
    let first : c ≡ b'v' = ground (arith, h) in
    (cc (first, same), ground (arith, h), rw same at is_version)

tag_complete :
    (version : Text)
    → length version < 128
    → IsVersion version
    → validate_tag (b'v' ∷ version) ≡ good version
unfolding validate_tag
tag_complete version h v =
    let plain = contains_lacking b'+' version (version-Lacks version v) in
    let fine =
      check_version_complete (join b'.' (v.major ∷ v.minor ∷ v.patch ∷ [])) version v.identifiers
        (IsCore-of_version version v) v.all_identifiers v.spelled in
    ground (arith, plain, fine, version-ne-nil version v)

-- A tag is accepted exactly if it is a "v" and a version of the grammar, of at most 128 bytes
-- together, and what is returned is that version.
pub validate_tag_iff :
    (tag version : Text)
    → (validate_tag tag ≡ good version)
      ↔ ((tag ≡ b'v' ∷ version) × (length tag ≤ 128) × IsVersion version)
validate_tag_iff tag version = (
  tag_sound tag version,
  λ (same, short, v).
      rw same (tag_complete version (omega (arith, ap (λ (s : Text). length s) same)) v),
)
