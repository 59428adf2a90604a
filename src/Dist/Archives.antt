-- ===== src/Dist/Archives.antt =====
-- `discoverArchives` and `parseArchiveName` of internal/distcheck/distcheck.go. A directory entry
-- is what `os.ReadDir` and `Info` say of it. An archive's `path` is its directory and its name, and
-- stands here for neither.
pub mod Matrix
use relaybox.Prelude.{
  ℕ, Text, codes, Bool, true, false, not, ◌&&◌, ◌||◌, ◌==◌, Option, none, some, List, [], ◌∷◌, ◌++◌,
  is_empty, ltb, text_less, is_prefix, is_suffix, trim_prefix, strip_suffix, if◌then◌else◌,
}
use relaybox.Prelude.Sort.{sort}
use relaybox.Prelude.Try.{Try, bad, good}

pub record Target : Type 0 where
  pub os : Text
  pub arch : Text

abbrev target : Text → Text → Target
target os arch = record { os = os; arch = arch }

-- `expectedTargets`
unfoldable pub expected_targets : List Target
expected_targets =
    target (codes "darwin") (codes "amd64")
    ∷ target (codes "darwin") (codes "arm64")
    ∷ target (codes "linux") (codes "amd64")
    ∷ target (codes "linux") (codes "arm64")
    ∷ target (codes "windows") (codes "amd64")
    ∷ target (codes "windows") (codes "arm64")
    ∷ []

unfoldable pub target_eq : Target → Target → Bool
target_eq a b = a.os == b.os && a.arch == b.arch

-- `seen[t]`, of the targets that have been put in
unfoldable pub has_target : Target → List Target → Bool
unfolding target_eq
has_target t [] = false
has_target t (u ∷ l) = target_eq u t || has_target t l

pub record Archive : Type 0 where
  pub name : Text
  pub target : Target
  pub version : Text

-- `maxArchiveBytes`
abbrev pub max_archive_bytes : ℕ
max_archive_bytes = 536870912

abbrev extension : Target → Text
extension t = if t.os == codes "windows" then codes ".zip" else codes ".tar.gz"

abbrev pub suffix_of : Target → Text
suffix_of t = codes "_" ++ t.os ++ codes "_" ++ t.arch ++ extension t

-- `strings.TrimSuffix(text, q)`
abbrev trim_suffix : Text → Text → Text
trim_suffix q text = elim (strip_suffix q text) [ none ↦ text | some rest ↦ rest ]

abbrev pub with_version : Text → Target → Text → Option Archive
with_version name t version =
    if is_empty version then none else some (record { name = name; target = t; version = version })

abbrev pub archive_of : Text → Target → Option Archive
archive_of name t =
    with_version name t (trim_suffix (suffix_of t) (trim_prefix (codes "relaybox_") name))

parse_for : Text → List Target → Option Archive
parse_for name [] = none
parse_for name (t ∷ targets) = elim (is_suffix (suffix_of t) name) [
  | false ↦ parse_for name targets
  | true ↦ archive_of name t
]

unfoldable pub parse_archive_name : Text → Option Archive
unfolding parse_for expected_targets
parse_archive_name name =
    if not (is_prefix (codes "relaybox_") name) then none else parse_for name expected_targets

pub record Entry : Type 0 where
  pub name : Text
  pub is_dir : Bool
  pub info_fails : Bool
  pub is_regular : Bool
  pub size : ℕ

pub data ArchiveError : Type 0 where
  unexpected no_info not_bounded repeated_target other_version : Text → ArchiveError
  missing_target : Target → ArchiveError

-- What the loop has found: `version` is empty before the first archive.
pub record Found : Type 0 where
  pub seen : List Target
  pub version : Text
  pub archives : List Archive

abbrev nothing : Found
nothing = record { seen = []; version = []; archives = [] }

abbrev is_skipped : Entry → Bool
is_skipped e =
    e.is_dir || (not (is_suffix (codes ".tar.gz") e.name) && not (is_suffix (codes ".zip") e.name))

abbrev found_more : Archive → Found → Found
found_more a f = record {
  seen = a.target ∷ f.seen;
  version = if is_empty f.version then a.version else f.version;
  archives = f.archives ++ a ∷ [];
}

-- What the loop does with an entry, once its name has been read.
take_archive : Entry → Option Archive → Found → Try ArchiveError Found
take_archive e none f = bad (unexpected e.name)
take_archive e (some a) f =
    if not (has_target a.target expected_targets)
    then bad (unexpected e.name)
    else if e.info_fails
    then bad (no_info e.name)
    else if not e.is_regular || not (ltb 0 e.size) || ltb max_archive_bytes e.size
    then bad (not_bounded e.name)
    else if has_target a.target f.seen
    then bad (repeated_target e.name)
    else if not (is_empty f.version) && not (a.version == f.version)
    then bad (other_version e.name)
    else good (found_more a f)

take_entry : Entry → Found → Try ArchiveError Found
unfolding take_archive
take_entry e f = if is_skipped e then good f else take_archive e (parse_archive_name e.name) f

scan_entries : List Entry → Found → Try ArchiveError Found
scan_entries [] f = good f
scan_entries (e ∷ entries) f = elim (take_entry e f) [
  | bad x ↦ bad x
  | good f' ↦ scan_entries entries f'
]

first_missing : List Target → List Target → Option Target
unfolding has_target
first_missing [] seen = none
first_missing (t ∷ targets) seen = if has_target t seen then first_missing targets seen else some t

-- `archives[i].name < archives[j].name`
abbrev by_name : Archive → Archive → Bool
by_name a b = text_less a.name b.name

finish_scan : Found → Try ArchiveError (List Archive × Text)
unfolding first_missing
finish_scan f = elim (first_missing expected_targets f.seen) [
  | some t ↦ bad (missing_target t)
  | none ↦ good (sort by_name f.archives, f.version)
]

scanned : Try ArchiveError Found → Try ArchiveError (List Archive × Text)
unfolding finish_scan
scanned (bad x) = bad x
scanned (good f) = finish_scan f

-- `discoverArchives` of a directory that can be read.
pub discover_archives : List Entry → Try ArchiveError (List Archive × Text)
unfolding scan_entries take_entry scanned
discover_archives entries = scanned (scan_entries entries nothing)

-- What a run of `discover_archives` unfolds.
unfoldable pub discover_runs : Unit {0}
unfolding parse_for take_archive take_entry scan_entries first_missing finish_scan scanned
    discover_archives
discover_runs = tt
