-- ===== src/Cmd/ScanCatalog.antt =====
-- cmd/cvetool/scan_catalog.go and cmd/cvetool/scan.go: the resources of a prepared catalog and their
-- release, and the checks of a catalog against what a scan discovers.
pub mod Release
pub mod Validation
pub mod Prepare
mod Tests
use cvetool.Prelude.{
  if◌then◌else◌, Error, errorf, wrapf, joined, Result, err, ok, fail_if, ◌>>◌, ℕ, zero, suc, ◌+◌,
  ◌-◌, ◌<◌, String, Bool, true, false, not, ◌&&◌, ◌||◌, Option, none, some, List, [], ◌∷◌, ◌++◌,
}
use cvetool.Text.{Str, codes, str_eq, contains, join}
use cvetool.Catalog.Nevra.{is_empty}
use cvetool.Catalog.Json.{Metadata}

-- What `RepositoryMappingFile` returns as its cleanup: the function that removes its file, or, with
-- an error, the function that does nothing.
pub data Cleanup : Type 0 where
  no_op : Cleanup
  unlinks : Str → Cleanup

-- `scanCatalog`: whether there is a reader, the cleanup if there is one, and the two paths, empty if
-- there are none.
pub record ScanCatalog : Type 0 where
  pub reader : Bool
  pub mapping_cleanup : Option Cleanup
  pub mapping_path : Str
  pub temp_dir : Str

-- The outer effects, in their order.
pub data Effect : Type 0 where
  closes_reader : Effect
  runs_cleanup : Cleanup → Effect
  removes : Str → Effect
  removes_all : Str → Effect

abbrev pub if_some : Bool → Effect → List Effect
if_some true e = e ∷ []
if_some false e = []

abbrev pub cleanup_effects : Option Cleanup → List Effect
cleanup_effects none = []
cleanup_effects (some c) = runs_cleanup c ∷ []

-- The answers of the reader's `Close`, of os.Remove, where a missing file is no error, and of
-- os.RemoveAll.
pub record Answers : Type 0 where
  pub close_reader : Option Error
  pub remove : Str → Option Error
  pub remove_all : Str → Option Error

unfoldable pub wrapped : String → Option Error → List Error
wrapped format none = []
wrapped format (some e) = wrapf format [] e ∷ []

unfoldable pub reader_errors : Bool → Option Error → List Error
reader_errors true (some e) = e ∷ []
reader_errors _ _ = []

unfoldable pub path_errors : String → Str → (Str → Option Error) → List Error
path_errors format [] remove = []
path_errors format (c ∷ s) remove = wrapped format (remove (c ∷ s))

-- `errors.Join`
unfoldable pub join_errors : List Error → Result (Unit {0})
join_errors [] = ok tt
join_errors (e ∷ es) = elim (join_errors es) [ ok u ↦ err e | err f ↦ err (joined e f) ]

-- `Close`, with its effects: what is released is forgotten, also where the release fails.
unfoldable pub close : Answers → ScanCatalog → ScanCatalog × List Effect × Result (Unit {0})
close answers s = (
  record { reader = false; mapping_cleanup = none; mapping_path = []; temp_dir = [] },
  if_some s.reader closes_reader
      ++ (cleanup_effects s.mapping_cleanup
          ++ (if_some (not (is_empty s.mapping_path)) (removes s.mapping_path)
              ++ if_some (not (is_empty s.temp_dir)) (removes_all s.temp_dir))),
  join_errors (
      reader_errors s.reader answers.close_reader
      ++ (path_errors "remove temporary catalog mapping" s.mapping_path answers.remove
          ++ path_errors "remove scan catalog directory" s.temp_dir answers.remove_all)),
)

-- `closeScanCatalog`, with the effects.
unfoldable pub close_scan_catalog :
    Answers → Result (Unit {0}) → Option ScanCatalog → List Effect × Result (Unit {0})
close_scan_catalog answers scan none = ([], scan)
close_scan_catalog answers scan (some s) =
    let (t, effects, result) = close answers s in
    (
      effects,
      elim result [
        | ok u ↦ scan
        | err e ↦ elim scan [
          | ok u ↦ err (wrapf "error closing scan catalog" [] e)
          | err f ↦ err (joined f (wrapf "error closing scan catalog" [] e))
        ]
      ],
    )

-- `if cleanup != nil { s.mappingCleanup = cleanup }`
abbrev pub or_kept : Option Cleanup → Option Cleanup → Option Cleanup
or_kept none old = old
or_kept (some c) old = some c

-- `prepareRepositoryMapping`, on the answer of the reader's `RepositoryMappingFile`: a path, the
-- cleanup if there is one, and an error.
pub prepare_repository_mapping :
    Str × Option Cleanup × Option Error → ScanCatalog → ScanCatalog × Result (Unit {0})
prepare_repository_mapping (path, cleanup, some e) s = (
  record s { mapping_cleanup = or_kept cleanup s.mapping_cleanup },
  err (wrapf "create catalog repository mapping" [] e),
)
prepare_repository_mapping (path, cleanup, none) s =
    (record s { mapping_cleanup = or_kept cleanup s.mapping_cleanup; mapping_path = path }, ok tt)

-- The configuration of the repository scanner.
pub record RepositoryScannerConfig : Type 0 where
  pub repo2cpe_mapping_file : Str
  pub repo2cpe_mapping_url : Str

-- `configureScanner`, with the change that it registers.
unfoldable pub configure_scanner :
    Option ScanCatalog → Result (RepositoryScannerConfig → RepositoryScannerConfig)
configure_scanner none = err (errorf "scan catalog is not ready for scanner configuration" [])
configure_scanner (some s) =
    if not s.reader || is_empty s.mapping_path
    then err (errorf "scan catalog is not ready for scanner configuration" [])
    else ok (λ config. record config {
      repo2cpe_mapping_file = s.mapping_path;
      repo2cpe_mapping_url = [];
    })

-- The fields of claircore.Distribution that are used.
pub record Distribution : Type 0 where
  pub did : Str
  pub version_id : Str
  pub version : Str
  pub arch : Str

abbrev pub version_of : Distribution → Str
version_of d = elim d.version_id [ [] ↦ d.version | c ∷ s ↦ c ∷ s ]

pub check_distribution : Metadata → Distribution → Result (Unit {0})
check_distribution m d =
    if not (str_eq d.did (codes "rhel"))
    then ok tt
    else (fail_if (not (str_eq (version_of d) m.rhel_version)) (
          errorf "catalog RHEL version %q does not match discovered version %q"
            (m.rhel_version ∷ version_of d ∷ []))
        >> fail_if (not (is_empty d.arch) && not (str_eq d.arch m.architecture)) (
            errorf "catalog architecture %q does not match discovered architecture %q"
              (m.architecture ∷ d.arch ∷ [])))

-- `validateCatalogMetadata`; `none` is a nil distribution.
unfoldable pub validate_catalog_metadata : Metadata → List (Option Distribution) → Result (Unit {0})
validate_catalog_metadata m [] = ok tt
validate_catalog_metadata m (none ∷ ds) = validate_catalog_metadata m ds
validate_catalog_metadata m (some d ∷ ds) = check_distribution m d >> validate_catalog_metadata m ds

-- `catalogAdvice`
unfoldable pub catalog_advice : ℕ → Str → Str
catalog_advice (suc n) path = []
catalog_advice zero (c ∷ s) = []
catalog_advice zero [] =
    codes
      "No vulnerabilities found. For improved RHEL coverage, download a package catalog with `cvetool catalog` and rerun the scan with `--catalog-path <path>`."

-- `EnumValue` with its methods
pub record EnumValue : Type 0 where
  pub enum : List Str
  pub default_value : Str
  pub selected : Str

pub set : EnumValue → Str → Result EnumValue
set e value =
    if contains e.enum value
    then ok (record e { selected = value })
    else err (errorf "allowed values are %s" (join e.enum (codes ", ") ∷ []))

pub string_of : EnumValue → Str
string_of e = elim e.selected [ [] ↦ e.default_value | c ∷ s ↦ c ∷ s ]
