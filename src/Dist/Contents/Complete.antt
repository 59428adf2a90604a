-- ===== src/Dist/Contents/Complete.antt =====
-- What an archive has that `inspectArchive` accepts.
use relaybox.Prelude.{
  ℕ, suc, ◌≤◌, ◌<◌, ◌≡◌, ◌⊎◌, refl, sym, ap, ◌∙◌, inl, inr, Text, Bytes, codes, Bool, true, false,
  not, ◌&&◌, ◌||◌, ◌==◌, text_eq_iff, ==-refl, Option, none, some, List, [], ◌∷◌, ◌++◌, length, ltb,
  nat_eq, take, arith, Bool-cases, Option-cases, if◌then◌else◌,
}
use relaybox.Prelude.Try.{Try, bad, good, Try-cases}
use relaybox.Dist.Archives.{Target}
use relaybox.Dist.Contents.{
  Readers, Member, Visited, ContentError, unexpected_entry, repeated_entry, not_regular,
  not_executable, invalid_size, validate_executable, clean_archive_name, required, executable_name,
  has_text, max_entry_bytes, visit_contents, visit_clean, visit, visit_all, max_archive_entries,
  first_absent, finish_visits, inspect_archive,
}

-- Five tests in a row, of which none has refused.
guards :
    (a b c d e : Bool) (w x y z u : ContentError) (rest : Try ContentError Visited) (v : Visited)
    → (if a
        then bad w
        else if b
        then bad x
        else if c
        then bad y
        else if d
        then bad z
        else if e
        then bad u
        else rest)
      ≡ good v
    → (c ≡ false) × (e ≡ false) × (rest ≡ good v)
guards a b c d e w x y z u rest v h = ground (arith, h)

regular_flags :
    (link regular : Bool) → (link || not regular) ≡ false → (regular ≡ true) × (link ≡ false)
regular_flags link regular h = ground (arith, h)

allowed_size :
    (n : ℕ) → (not (ltb 0 n) || ltb max_entry_bytes n) ≡ false → (0 < n) × (n ≤ max_entry_bytes)
allowed_size n h = ground (arith, h)

module _ (r : Readers) (t : Target) where
  -- The list has a regular member of that name, of an allowed size.
  pub record HasMember (members : List Member) (name : Text) : Type 0 where
    pub member : Member
    pub before : List Member
    pub after : List Member
    pub place : members ≡ before ++ member ∷ after
    pub named : clean_archive_name r member.name ≡ good name
    pub regular : (member.is_regular ≡ true) × (member.is_symlink ≡ false)
    pub sized : (0 < member.size) × (member.size ≤ max_entry_bytes)

  -- The executable is one for the target, once it has been found.
  IsFit : Visited → Type 0
  IsFit v =
      has_text (executable_name t) v.found ≡ true → validate_executable r t v.executable ≡ true

  visited : Visited → Try ContentError Visited → Visited
  visited v (bad e) = v
  visited v (good w) = w

  record IsAdded (clean : Text) (v v' : Visited) : Type 0 where
    finds : v'.found ≡ clean ∷ v.found
    fits : IsFit v → IsFit v'

  record IsVisit (clean : Text) (m : Member) (v v' : Visited) : Type 0 where
    regular : (m.is_regular ≡ true) × (m.is_symlink ≡ false)
    sized : (0 < m.size) × (m.size ≤ max_entry_bytes)
    added : IsAdded clean v v'

  other-fits :
      (clean : Text) (v : Visited)
      → (clean == executable_name t) ≡ false
      → IsFit v
      → IsFit (record v { found = clean ∷ v.found })
  unfolding IsFit has_text
  other-fits clean v other fit h = fit (ground (arith, h, other))

  contents-IsAdded :
      (clean : Text) (m : Member) (v v' : Visited) (o : Option Bytes)
      → visit_contents r t clean m v o ≡ good v'
      → IsAdded clean v v'
  unfolding visit_contents visited IsFit
  contents-IsAdded clean m v v' none h = cc
  contents-IsAdded clean m v v' (some all) h =
      let contents = take (suc max_entry_bytes) all in
      elim (Bool-cases (nat_eq (length contents) m.size)) [
        | inr e ↦ absurd (ground (arith, rw (e, visit_contents) at h))
        | inl e ↦ elim (Bool-cases (clean == executable_name t)) [
          | inr other ↦
              rw (← ap (visited v) (rw (e, other, visit_contents) at h))
                (record { finds = refl; fits = other-fits clean v other })
          | inl own ↦ elim (Bool-cases (validate_executable r t contents)) [
            | inr wrong ↦ absurd (ground (arith, rw (e, own, wrong, visit_contents) at h))
            | inl right ↦
                rw (← ap (visited v) (rw (e, own, right, visit_contents) at h))
                  (record { finds = refl; fits = λ fit k. right })
          ]
        ]
      ]

  clean-checks :
      (clean : Text) (m : Member) (v v' : Visited)
      → visit_clean r t clean m v ≡ good v'
      → (m.is_regular ≡ true)
        × (m.is_symlink ≡ false)
        × (0 < m.size)
        × (m.size ≤ max_entry_bytes)
        × (visit_contents r t clean m v m.contents ≡ good v')
  unfolding visit_clean
  clean-checks clean m v v' h =
      let (plain, sized, rest) =
        guards (not (has_text clean (required t))) (has_text clean v.found)
          (m.is_symlink || not m.is_regular)
          (clean == executable_name t && not (t.os == codes "windows") && not m.owner_executes)
          (not (ltb 0 m.size) || ltb max_entry_bytes m.size) (unexpected_entry clean)
          (repeated_entry clean) (not_regular clean) (not_executable clean) (invalid_size clean)
          (visit_contents r t clean m v m.contents) v' h in
      let (regular, no_link) = regular_flags m.is_symlink m.is_regular plain in
      let (some_, bounded) = allowed_size m.size sized in (regular, no_link, some_, bounded, rest)

  clean-IsVisit :
      (clean : Text) (m : Member) (v v' : Visited)
      → visit_clean r t clean m v ≡ good v'
      → IsVisit clean m v v'
  clean-IsVisit clean m v v' h =
      let (regular, no_link, some_, bounded, rest) = clean-checks clean m v v' h in
      record {
        regular = (regular, no_link);
        sized = (some_, bounded);
        added = contents-IsAdded clean m v v' m.contents rest;
      }

  visit-IsVisit :
      (m : Member) (v v' : Visited)
      → visit r t m v ≡ good v'
      → (clean : Text) × (clean_archive_name r m.name ≡ good clean) × IsVisit clean m v v'
  unfolding visit
  visit-IsVisit m v v' h = elim (Try-cases (clean_archive_name r m.name)) [
    | inl (e, wrong) ↦ absurd (ground (arith, rw (wrong, visit) at h))
    | inr (clean, named) ↦ (clean, named, clean-IsVisit clean m v v' (rw (named, visit) at h))
  ]

  HasMember-later :
      (m : Member) (members : List Member) (name : Text)
      → HasMember members name
      → HasMember (m ∷ members) name
  HasMember-later m members name h = record {
    member = h.member;
    before = m ∷ h.before;
    after = h.after;
    place = ap (λ l. m ∷ l) h.place;
    named = h.named;
    regular = h.regular;
    sized = h.sized;
  }

  first-kept :
      (m : Member) (members : List Member) (v w : Visited) (clean name : Text)
      → clean_archive_name r m.name ≡ good clean
      → IsVisit clean m v w
      → has_text name w.found ≡ true
      → (has_text name v.found ≡ true) ⊎ HasMember (m ∷ members) name
  unfolding has_text
  first-kept m members v w clean name named seen now = elim (Bool-cases (clean == name)) [
    | inl same ↦ inr (record {
      member = m;
      before = [];
      after = members;
      place = refl;
      named = named ∙ ap (λ x. good x) ((text_eq_iff clean name).0 same);
      regular = seen.regular;
      sized = seen.sized;
    })
    | inr other ↦ inl (ground (arith, ap (has_text name) seen.added.finds, now, other))
  ]

  record IsRead (members : List Member) (v v' : Visited) : Type 0 where
    kept :
        (name : Text)
        → has_text name v'.found ≡ true
        → (has_text name v.found ≡ true) ⊎ HasMember members name
    fits : IsFit v → IsFit v'

  visit_all-IsRead :
      (n : ℕ) (members : List Member) (v v' : Visited)
      → visit_all r t n members v ≡ good v'
      → IsRead members v v'
  unfolding visit_all visited
  visit_all-IsRead n [] v v' h =
      rw (← ap (visited v) h) (record { kept = λ name k. inl k; fits = λ fit. fit })
  visit_all-IsRead n (m ∷ members) v v' h = elim (Bool-cases (ltb max_archive_entries (suc n))) [
    | inl full ↦ absurd (ground (arith, rw (full, visit_all) at h))
    | inr room ↦ elim (Try-cases (visit r t m v)) [
      | inl (e, wrong) ↦ absurd (ground (arith, rw (room, wrong, visit_all) at h))
      | inr (w, fine) ↦
          let (clean, named, seen) = visit-IsVisit m v w fine in
          let later = visit_all-IsRead (suc n) members w v' (rw (room, fine, visit_all) at h) in
          record {
            kept = λ name k. elim (later.kept name k) [
              | inr there ↦ inr (HasMember-later m members name there)
              | inl now ↦ first-kept m members v w clean name named seen now
            ];
            fits = λ fit. later.fits (seen.added.fits fit);
          }
    ]
  ]

absent-none :
    (l found : List Text) (x : Text)
    → first_absent l found ≡ none
    → has_text x l ≡ true
    → has_text x found ≡ true
unfolding first_absent has_text
absent-none [] found x h k = absurd (ground (arith, k))
absent-none (y ∷ l) found x h k = elim (Bool-cases (has_text y found)) [
  | inr missing ↦ absurd (ground (arith, rw missing at h))
  | inl there ↦ elim (Bool-cases (y == x)) [
    | inl e ↦ ap (λ z. has_text z found) (sym ((text_eq_iff y x).0 e)) ∙ there
    | inr e ↦ absent-none l found x (rw there at h) (ground (arith, k, e))
  ]
]

-- What an archive that is accepted has: each of the four names, and an executable for its target.
pub record IsComplete (r : Readers) (t : Target) (members : List Member) (executable : Bytes)
    : Type 0 where
  pub all_there : (name : Text) → has_text name (required t) ≡ true → HasMember r t members name
  pub fits : validate_executable r t executable ≡ true

bytes_of : Try ContentError Bytes → Bytes
bytes_of (bad e) = []
bytes_of (good b) = b

executable-required : (t : Target) → has_text (executable_name t) (required t) ≡ true
unfolding has_text
executable-required t = ground (arith, ==-refl (executable_name t))

module _ (r : Readers) (t : Target) (members : List Member) where
  abbrev unread : Visited
  unread = record { found = []; executable = [] }

  unread-IsFit : IsFit r t unread
  unfolding IsFit has_text
  unread-IsFit h = absurd (ground (arith, h))

  read-IsComplete :
      (v : Visited)
      → IsRead r t members unread v
      → first_absent (required t) v.found ≡ none
      → IsComplete r t members v.executable
  unfolding IsFit has_text
  read-IsComplete v read complete = record {
    all_there = λ name k. elim (read.kept name (absent-none (required t) v.found name complete k)) [
      | inl h ↦ absurd (ground (arith, h))
      | inr there ↦ there
    ];
    fits =
        read.fits unread-IsFit
          (absent-none (required t) v.found (executable_name t) complete (executable-required t));
  }

  finish-IsComplete :
      (o : Try ContentError Visited) (executable : Bytes)
      → ((v : Visited) → o ≡ good v → IsRead r t members unread v)
      → finish_visits t o ≡ good executable
      → IsComplete r t members executable
  unfolding finish_visits bytes_of
  finish-IsComplete (bad e) executable read h = cc
  finish-IsComplete (good v) executable read h =
      elim (Option-cases (first_absent (required t) v.found)) [
        | inr (x, missing) ↦ absurd (ground (arith, rw (missing, finish_visits) at h))
        | inl complete ↦
            rw (← ap bytes_of (rw (complete, finish_visits) at h))
              (read-IsComplete v (read v refl) complete)
      ]

  -- An archive that `inspectArchive` accepts has a regular member of an allowed size under each of the
  -- four required names, and the executable that is returned is one for the archive's target.
  pub inspect_archive-IsComplete :
      (executable : Bytes)
      → inspect_archive r t members ≡ good executable
      → IsComplete r t members executable
  unfolding inspect_archive
  inspect_archive-IsComplete executable h =
      elim (Bool-cases (t.os == codes "windows" && ltb max_archive_entries (length members))) [
        | inl full ↦ absurd (ground (arith, rw full at h))
        | inr fine ↦
            finish-IsComplete (visit_all r t 0 members unread) executable
              (λ v. visit_all-IsRead r t 0 members unread v) (rw fine at h)
      ]
