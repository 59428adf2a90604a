-- ===== src/Dist/Contents.antt =====
-- `inspectArchive`, `validateExecutable` and `cleanArchiveName` of internal/distcheck/distcheck.go,
-- and the loops over the members in `inspectTarGzip` and `inspectZip`. The readers of archives and
-- of executables and `path.Clean` are parameters; a size is not negative.
-- `inspectZip` tests the size of a member before `visit` does, with the same limit.
pub mod Complete
use relaybox.Prelude.{
  ℕ, suc, ◌+◌, Text, Bytes, codes, Bool, true, false, not, ◌&&◌, ◌||◌, ◌==◌, Option, none, some,
  List, [], ◌∷◌, ◌++◌, length, map, take, ltb, nat_eq, is_prefix, if◌then◌else◌,
}
use relaybox.Prelude.Try.{Try, bad, good}
use relaybox.Dist.Archives.{Target}

pub record Elf : Type 0 where
  pub is_64_bit : Bool
  pub is_little_endian : Bool
  pub is_program : Bool
  pub machine : ℕ

pub record MachO : Type 0 where
  pub is_program : Bool
  pub cpu : ℕ

pub record Pe : Type 0 where
  pub is_program : Bool
  pub has_header_64 : Bool
  pub machine : ℕ

-- What the program calls in Go's `debug` packages and in `path`.
pub record Readers : Type 0 where
  pub elf : Bytes → Option Elf
  pub macho : Bytes → Option MachO
  pub pe : Bytes → Option Pe
  pub clean : Text → Text

-- The machine for an architecture, 0 where there is none.
abbrev machine_for : ℕ → ℕ → Text → ℕ
machine_for amd64 arm64 arch =
    if arch == codes "amd64" then amd64 else if arch == codes "arm64" then arm64 else 0

abbrev is_machine : ℕ → ℕ → Bool
is_machine expected machine = not (nat_eq expected 0) && nat_eq machine expected

elf_fits : Text → Option Elf → Bool
elf_fits arch none = false
elf_fits arch (some e) =
    e.is_64_bit
    && e.is_little_endian
    && e.is_program
    && is_machine (machine_for 62 183 arch) e.machine

macho_fits : Text → Option MachO → Bool
macho_fits arch none = false
macho_fits arch (some e) = e.is_program && is_machine (machine_for 16777223 16777228 arch) e.cpu

pe_fits : Text → Option Pe → Bool
pe_fits arch none = false
pe_fits arch (some e) =
    e.is_program && e.has_header_64 && is_machine (machine_for 34404 43620 arch) e.machine

unfoldable pub validate_executable : Readers → Target → Bytes → Bool
unfolding elf_fits macho_fits pe_fits
validate_executable r t file =
    if t.os == codes "linux"
    then elf_fits t.arch (r.elf file)
    else if t.os == codes "darwin"
    then macho_fits t.arch (r.macho file)
    else if t.os == codes "windows"
    then pe_fits t.arch (r.pe file)
    else false

pub data ContentError : Type 0 where
  unsafe_path not_canonical unexpected_entry repeated_entry not_regular not_executable invalid_size
        unreadable size_changed missing_entry :
      Text → ContentError
  too_many wrong_executable : ContentError

-- `strings.ReplaceAll(name, "\\", "/")`
abbrev portable : Text → Text
portable = map (λ c. if nat_eq c 92 then 47 else c)

pub clean_archive_name : Readers → Text → Try ContentError Text
clean_archive_name r name =
    let clean = r.clean (portable name) in
    if clean == codes "."
      || clean == codes ".."
      || is_prefix (codes "../") clean
      || is_prefix (codes "/") clean
    then bad (unsafe_path name)
    else if not (name == portable name) || not (portable name == clean)
    then bad (not_canonical name)
    else good clean

abbrev executable_name : Target → Text
executable_name t = if t.os == codes "windows" then codes "relaybox.exe" else codes "relaybox"

-- The names that an archive must have.
abbrev pub required : Target → List Text
required t =
    codes "LICENSE" ∷ codes "README.md" ∷ codes "THIRD_PARTY_NOTICES.md" ∷ executable_name t ∷ []

unfoldable pub has_text : Text → List Text → Bool
has_text x [] = false
has_text x (y ∷ l) = y == x || has_text x l

-- A member of an archive. Its contents are none where they cannot be read.
pub record Member : Type 0 where
  pub name : Text
  pub is_symlink : Bool
  pub is_regular : Bool
  pub owner_executes : Bool
  pub size : ℕ
  pub contents : Option Bytes

-- `maxEntryBytes` and `maxArchiveEntries`
abbrev pub max_entry_bytes : ℕ
max_entry_bytes = 268435456

abbrev pub max_archive_entries : ℕ
max_archive_entries = 100

-- The names found so far, and the executable.
pub record Visited : Type 0 where
  pub found : List Text
  pub executable : Bytes

module _ (r : Readers) (t : Target) where
  -- The end of `visit`: the contents, as far as the limit allows to read them.
  visit_contents : Text → Member → Visited → Option Bytes → Try ContentError Visited
  visit_contents clean m v none = bad (unreadable clean)
  visit_contents clean m v (some all) =
      let contents = take (suc max_entry_bytes) all in
      if not (nat_eq (length contents) m.size)
      then bad (size_changed clean)
      else if not (clean == executable_name t)
      then good (record v { found = clean ∷ v.found })
      else if not (validate_executable r t contents)
      then bad wrong_executable
      else good (record { found = clean ∷ v.found; executable = contents })

  visit_clean : Text → Member → Visited → Try ContentError Visited
  unfolding visit_contents
  visit_clean clean m v =
      if not (has_text clean (required t))
      then bad (unexpected_entry clean)
      else if has_text clean v.found
      then bad (repeated_entry clean)
      else if m.is_symlink || not m.is_regular
      then bad (not_regular clean)
      else if clean == executable_name t && not (t.os == codes "windows") && not m.owner_executes
      then bad (not_executable clean)
      else if not (ltb 0 m.size) || ltb max_entry_bytes m.size
      then bad (invalid_size clean)
      else visit_contents clean m v m.contents

  visit : Member → Visited → Try ContentError Visited
  unfolding visit_clean
  visit m v = elim (clean_archive_name r m.name) [
    | bad e ↦ bad e
    | good clean ↦ visit_clean clean m v
  ]

  -- The loop over the members; `n` of them have been read. A ZIP archive is refused before the
  -- first where it has too many.
  visit_all : ℕ → List Member → Visited → Try ContentError Visited
  visit_all n [] v = good v
  visit_all n (m ∷ members) v =
      if ltb max_archive_entries (suc n)
      then bad too_many
      else elim (visit m v) [ bad e ↦ bad e | good v' ↦ visit_all (suc n) members v' ]

first_absent : List Text → List Text → Option Text
first_absent [] found = none
first_absent (x ∷ l) found = if has_text x found then first_absent l found else some x

finish_visits : Target → Try ContentError Visited → Try ContentError Bytes
unfolding first_absent
finish_visits t (bad e) = bad e
finish_visits t (good v) = elim (first_absent (required t) v.found) [
  | some x ↦ bad (missing_entry x)
  | none ↦ good v.executable
]

-- `inspectArchive`: the executable, of an archive whose members can be read to the end.
pub inspect_archive : Readers → Target → List Member → Try ContentError Bytes
unfolding visit_all visit finish_visits
inspect_archive r t members =
    if t.os == codes "windows" && ltb max_archive_entries (length members)
    then bad too_many
    else finish_visits t (visit_all r t 0 members (record { found = []; executable = [] }))

-- What a run of `inspect_archive` unfolds.
unfoldable pub inspect_runs : Unit {0}
unfolding clean_archive_name visit_contents visit_clean visit visit_all first_absent finish_visits
    inspect_archive
inspect_runs = tt
