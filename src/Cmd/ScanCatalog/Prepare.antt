-- ===== src/Cmd/ScanCatalog/Prepare.antt =====
-- cmd/cvetool/scan_catalog.go: the preparation of a catalog for a scan, with the resources that it
-- acquires and releases, and the target that it is made for.
pub mod Owned
pub mod Accounted
pub mod Complete
mod Tests
use cvetool.Prelude.{
  if◌then◌else◌, Error, errorf, wrapf, joined, Result, err, ok, wrap, fail_if, ◌>>=◌, ◌>>◌, ℕ, ◌-◌,
  true, false, not, ◌||◌, Option, none, some, List, [], ◌∷◌,
}
use cvetool.Text.{Str, codes, trim_space, join_path}
use cvetool.Catalog.Nevra.{is_empty}
use cvetool.Catalog.Mapping.{RepositoryMapping, RepositorySelection, select_mapped_repositories}
use cvetool.Catalog.Json.{Catalog, empty_catalog}
use cvetool.Catalog.HostPaths.{Answer, found, missing, failed, Host}
use cvetool.Catalog.Dnf.{DnfOptions, CommandRunner, no_dirs, enabled_repositories}
use cvetool.Catalog.Generate.{GenerateOptions, generate}
use cvetool.Catalog.OsRelease.{TargetInfo, resolve_target_info, target_has_rhel_id}
use cvetool.Catalog.Target.Architecture.{resolve_target_architecture}
use cvetool.Catalog.Target.Roots.{
  System, absolute, resolve_target_release_version, query_installed_rpm_architectures,
}
use cvetool.Catalog.Target.RepoDirs.{resolve_target_repo_dirs}
use cvetool.Cmd.ScanCatalog.{
  Cleanup, no_op, unlinks, ScanCatalog, Effect, Answers, close, prepare_repository_mapping,
}

-- `scanCatalogOptions`; the files and the runner are in the environment.
pub record ScanCatalogOptions : Type 0 where
  pub explicit_path : Str
  pub target_root : Str
  pub target_info : TargetInfo
  pub dnf : DnfOptions

-- What the system answers: the target, the host, the commands, os.MkdirTemp, os.ReadFile and
-- json.Unmarshal of a catalog (a missing map is empty), the two calls of LoadRepositoryMapping, the
-- writing of a generated catalog, and os.CreateTemp, Encode and Close of the mapping.
pub record Environment : Type 0 where
  pub system : System
  pub host : Host
  pub run : CommandRunner
  pub mkdir_temp : Result Str
  pub read_file : Str → Result Str
  pub unmarshal : Str → Result Catalog
  pub loaded : Result RepositoryMapping
  pub loaded_again : Result RepositoryMapping
  pub write : Str → Catalog → Result (Unit {0})
  pub create_mapping : Result Str
  pub encode_mapping : Catalog → Result (Unit {0})
  pub close_mapping : Result (Unit {0})
  pub unbind : Str → Result (Unit {0})
  pub hash : Str → Str
  pub hash_json : List (Str × List Str) → Str
  pub now : ℕ

-- `OpenJSONReader` of catalog/json.go
open_json_reader : Environment → Str → Result Catalog
open_json_reader env path = env.read_file path >>= env.unmarshal

-- What a preparation acquires: a reader, a directory and a file for the mapping.
pub data Resource : Type 0 where
  reader : Resource
  directory : Str → Resource
  mapping : Str → Resource

-- `prepared`, the catalog of its reader, what calls have acquired, and the files that they have
-- removed again.
pub record Preparation : Type 0 where
  pub prepared : ScanCatalog
  pub contents : Catalog
  pub acquired : List Resource
  pub removed : List Str

-- A part of the preparation. The deferred function reads the state also after an error.
abbrev pub M : Type 0 → Type 0
M A = Preparation → Preparation × Result A

abbrev pub after : {A B : Type 0} → (A → M B) → Preparation × Result A → Preparation × Result B
after rest (s, err e) = (s, err e)
after rest (s, ok a) = rest a s

abbrev pub bind : {A B : Type 0} → M A → (A → M B) → M B
bind m rest s = after rest (m s)

abbrev pub lift : {A : Type 0} → Result A → M A
lift r s = (s, r)

-- The catalog that was opened becomes the reader.
opened : Result Catalog → M (Unit {0})
opened (err e) s = (s, err e)
opened (ok c) s = (
  record s {
    prepared = record s.prepared { reader = true };
    contents = c;
    acquired = reader ∷ s.acquired;
  },
  ok tt,
)

-- A reader that OpenJSONReader returns has no error in `Metadata`.
prepare_explicit : Environment → Str → M (Unit {0})
unfolding open_json_reader opened
prepare_explicit env path = opened (wrap "open explicit catalog" [] (open_json_reader env path))

-- os.MkdirTemp, and the assignment to `tempDir`
make_directory : Result Str → M Str
make_directory (err e) s = (s, err e)
make_directory (ok dir) s = (
  record s {
    prepared = record s.prepared { temp_dir = dir };
    acquired = directory dir ∷ s.acquired;
  },
  ok dir,
)

-- `prepared.tempDir, err = filepath.Abs(prepared.tempDir)`: an error comes with the empty text.
keep_absolute : Result Str → M Str
keep_absolute (err e) s = (record s { prepared = record s.prepared { temp_dir = [] } }, err e)
keep_absolute (ok dir) s = (record s { prepared = record s.prepared { temp_dir = dir } }, ok dir)

-- The tests of the options of a target.
pub check_target : ScanCatalogOptions → Result (Unit {0})
unfolding is_empty no_dirs
check_target options = do
  fail_if (is_empty (trim_space options.target_root)) (errorf "target root is required" [])
  fail_if
      (is_empty options.target_info.rhel_version
        || is_empty options.target_info.release_version
        || is_empty options.target_info.architecture
        || no_dirs options.target_info.architectures)
      (errorf "target RHEL metadata is incomplete" [])

-- `dnf`, with what the target determines.
pub dnf_of : ScanCatalogOptions → Str → Str → List Str → DnfOptions
dnf_of options root dir repo_dirs = record options.dnf {
  path = if is_empty (trim_space options.dnf.path) then codes "dnf" else options.dnf.path;
  install_root = root;
  scratch_dir = dir;
  release_version = options.target_info.release_version;
  architecture = options.target_info.architecture;
  repo_dirs = repo_dirs;
  architectures = options.target_info.architectures;
}

pub generate_options_of : ScanCatalogOptions → DnfOptions → List Str → Str → GenerateOptions
generate_options_of options dnf ids path = record {
  rhel_version = options.target_info.rhel_version;
  target_release_version = options.target_info.release_version;
  architecture = options.target_info.architecture;
  repository_ids = ids;
  output_path = path;
  dnf_path = [];
  dnf = dnf;
}

selected : RepositorySelection × Result (Unit {0}) → Result (List Str)
selected (s, err e) = err e
selected (s, ok u) = ok s.mapped

-- From the repository directories to the catalog in its file, whose path is returned.
pub generate_target : Environment → ScanCatalogOptions → Str → Str → Result Str
unfolding dnf_of generate_options_of selected
generate_target env options root dir = do
  repo_dirs ←
      wrap "resolve target repository directories" [] (resolve_target_repo_dirs env.system root)
  let dnf = dnf_of options root dir repo_dirs
  enabled ←
      wrap "discover enabled target repositories" [] (enabled_repositories env.host env.run dnf)
  repositories ← env.loaded
  ids ← selected (select_mapped_repositories env.unbind repositories enabled)
  let path = join_path dir (codes "catalog.json")
  wrap "generate target catalog" [] (
      generate env.unbind env.hash env.hash_json env.now env.host env.run env.loaded_again
        (generate_options_of options dnf ids path)
      >>= env.write path)
  ok path

-- The catalog is generated and its reader opened.
generate_reader : Environment → ScanCatalogOptions → Str → Str → M (Unit {0})
unfolding generate_target open_json_reader opened
generate_reader env options root dir =
    bind (lift (generate_target env options root dir))
      λ path. opened (wrap "open generated catalog" [] (open_json_reader env path))

-- The directory is made first.
prepare_root : Environment → ScanCatalogOptions → Str → M (Unit {0})
unfolding make_directory keep_absolute generate_reader
prepare_root env options root =
    bind (make_directory (wrap "create scan catalog directory" [] env.mkdir_temp)) λ made.
      bind (keep_absolute (wrap "resolve scan catalog directory" [] (absolute env.system made)))
        (generate_reader env options root)

prepare_target : Environment → ScanCatalogOptions → M (Unit {0})
unfolding check_target prepare_root
prepare_target env options = bind (lift (check_target options)) λ u.
    bind (lift (wrap "resolve target root" [] (absolute env.system options.target_root)))
      (prepare_root env options)

-- The end of `RepositoryMappingFile` of catalog/json.go, with the removal after an error.
written : Str → Result (Unit {0}) → M (Str × Option Cleanup × Option Error)
written path (err e) s = (record s { removed = path ∷ s.removed }, ok ([], some no_op, some e))
written path (ok u) s = (s, ok (path, some (unlinks path), none))

-- `RepositoryMappingFile`: a path, the cleanup, and an error.
mapping_file : Environment → Result Str → M (Str × Option Cleanup × Option Error)
unfolding written
mapping_file env (err e) s = (s, ok ([], some no_op, some e))
mapping_file env (ok path) s =
    written path (env.encode_mapping s.contents >> env.close_mapping)
      (record s { acquired = mapping path ∷ s.acquired })

-- `prepareRepositoryMapping` on `prepared`
keep_mapping : Str × Option Cleanup × Option Error → M (Unit {0})
unfolding prepare_repository_mapping
keep_mapping answer s =
    let (prepared, result) = prepare_repository_mapping answer s.prepared in
    (record s { prepared = prepared }, result)

abbrev pub start : Preparation
start = record {
  prepared = record { reader = false; mapping_cleanup = none; mapping_path = []; temp_dir = [] };
  contents = empty_catalog;
  acquired = [];
  removed = [];
}

prepare_source : Environment → ScanCatalogOptions → M (Unit {0})
unfolding prepare_explicit prepare_target
prepare_source env options = elim options.explicit_path [
  | [] ↦ prepare_target env options
  | c ∷ path ↦ prepare_explicit env (c ∷ path)
]

-- The body of `prepareScanCatalog`
pub prepare_body : Environment → ScanCatalogOptions → M (Unit {0})
unfolding prepare_source mapping_file keep_mapping
prepare_body env options =
    bind (prepare_source env options) λ u. bind (mapping_file env env.create_mapping) keep_mapping

-- The state at the end, the effects of `Close` and the result.
pub record Prepared : Type 0 where
  pub state : Preparation
  pub effects : List Effect
  pub result : Result ScanCatalog

-- The deferred function
finished : Answers → Preparation × Result (Unit {0}) → Prepared
unfolding close
finished answers (s, ok u) = record { state = s; effects = []; result = ok s.prepared }
finished answers (s, err e) =
    let (closed, effects, result) = close answers s.prepared in
    record {
      state = s;
      effects = effects;
      result = elim result [ ok u ↦ err e | err f ↦ err (joined e f) ];
    }

-- `prepareScanCatalog`
pub prepare_scan_catalog : Environment → Answers → ScanCatalogOptions → Prepared
unfolding prepare_body finished
prepare_scan_catalog env answers options = finished answers (prepare_body env options start)

-- `resolveScanCatalogTarget`: the root, and the target if it is a RHEL system.
resolve_rhel : Environment → Str → Str → Result (Str × Option TargetInfo)
resolve_rhel env root os_release = do
  installed ←
      wrap "query target RPM architectures" []
        (query_installed_rpm_architectures env.system env.run (codes "rpm") root)
  architectures ← wrap "resolve target RPM architectures" [] (resolve_target_architecture installed)
  info ← wrap "resolve target RHEL metadata" [] (resolve_target_info os_release [] architectures)
  release ←
      wrap "resolve target release version" []
        (resolve_target_release_version env.system root info.release_version)
  resolved ←
      wrap "resolve target RHEL metadata" [] (resolve_target_info os_release release architectures)
  ok (root, some resolved)

resolve_release : Environment → Str → Answer Str → Result (Str × Option TargetInfo)
unfolding resolve_rhel
resolve_release env root missing = ok (root, none)
resolve_release env root (failed e) = err (wrapf "read target os-release" [] e)
resolve_release env root (found os_release) = target_has_rhel_id os_release >>= λ is_rhel.
    if is_rhel then resolve_rhel env root os_release else ok (root, none)

pub resolve_scan_catalog_target : Environment → Str → Result (Str × Option TargetInfo)
unfolding resolve_release
resolve_scan_catalog_target env target_root = do
  fail_if (is_empty (trim_space target_root)) (errorf "target root is required" [])
  root ← wrap "resolve target root" [] (absolute env.system target_root)
  target ← wrap "open target root" [] (env.system.open_root root)
  resolve_release env root (target.read_file (codes "etc/os-release"))

-- No catalog, and no resources.
abbrev pub nothing : Result (Unit {0}) → Result (Option Prepared)
nothing (ok u) = ok none
nothing (err e) = err e

pub with_target :
    Environment → Answers → ScanCatalogOptions → Str × Option TargetInfo → Option Prepared
unfolding prepare_scan_catalog
with_target env answers options (root, none) = none
with_target env answers options (root, some info) =
    some
      (prepare_scan_catalog env answers (record options { target_root = root; target_info = info }))

-- `prepareScanCatalogForSource`: an error of its own, no catalog, or a preparation.
pub prepare_for_source :
    Environment → Answers → ScanCatalogOptions → Str → Str → Result (Option Prepared)
unfolding with_target resolve_scan_catalog_target prepare_scan_catalog
prepare_for_source env answers options image_path image_ref =
    if not (is_empty options.explicit_path)
    then ok (some (prepare_scan_catalog env answers options))
    else if not (is_empty image_path) || not (is_empty image_ref)
    then ok none
    else (resolve_scan_catalog_target env options.target_root >>= λ target.
        ok (with_target env answers options target))
