-- ===== src/Catalog/Target/Roots.antt =====
-- catalog/target.go: what is read below the root of the target system: the release version, the place
-- of the RPM database and the architectures in it. An os.Root, which keeps every access below its
-- directory, is a parameter.
pub mod Installed
pub mod Tests
use cvetool.Prelude.{
  if◌then◌else◌, errorf, wrapf, Result, ok, err, ◌>>=◌, ◌>>◌, fail_if, wrap, ◌+◌, ◌-◌, Bool, not,
  ◌||◌, none, List, [], ◌∷◌, ◌++◌,
}
use cvetool.Text.{
  Str, codes, str_eq, sort_strings, unseen, trim_space, scan_lines, too_long, is_abs, clean,
  join_path,
}
use cvetool.Catalog.Nevra.{is_empty}
use cvetool.Catalog.HostPaths.{Answer, found, missing, failed}
use cvetool.Catalog.Dnf.{CommandRunner}

-- The methods of an os.Root. A directory that is open answers `ReadDir` and `Close`.
pub record Root : Type 0 where
  pub read_file : Str → Answer Str
  pub stat : Str → Answer (Unit {0})
  pub open_dir : Str → Answer (Result (List Str) × Result (Unit {0}))

-- The working directory, and os.OpenRoot.
pub record System : Type 0 where
  pub working_directory : Result Str
  pub open_root : Str → Result Root

-- `filepath.Abs`
unfoldable pub absolute : System → Str → Result Str
absolute system path =
    if is_abs path
    then ok (clean path)
    else (system.working_directory >>= λ w. ok (join_path w path))

-- `openTargetRoot`
pub open_target_root : System → Str → Result (Root × Str)
open_target_root system root = do
  fail_if (is_empty (trim_space root)) (errorf "target root is required" [])
  path ← wrap "resolve target root" [] (absolute system root)
  target ← wrap "open target root %q" (clean path ∷ []) (system.open_root (clean path))
  ok (target, clean path)

release_from : Root → List Str → Result Str → Result Str
release_from root [] otherwise = otherwise
release_from root (p ∷ ps) otherwise =
    let rest = release_from root ps otherwise in
    elim (root.read_file p) [
      | missing ↦ rest
      | failed e ↦ err (wrapf "read target release version from %q" (p ∷ []) e)
      | found contents ↦ elim (trim_space contents) [ [] ↦ rest | c ∷ s ↦ ok (c ∷ s) ]
    ]

-- `ResolveTargetReleaseVersion`
pub resolve_target_release_version : System → Str → Str → Result Str
resolve_target_release_version system root_path version_id = do
  opened ← open_target_root system root_path
  release_from opened.0 (codes "etc/dnf/vars/releasever" ∷ codes "etc/yum/vars/releasever" ∷ []) (
      if is_empty (trim_space version_id)
      then err (errorf "target release version is unavailable" [])
      else ok (trim_space version_id))

database_in : Root → List (Str × Str) → Result Str
database_in root [] =
    err (errorf "target RPM database not found (checked /usr/lib/sysimage/rpm and /var/lib/rpm)" [])
database_in root ((dir, file) ∷ rest) =
    let next = database_in root rest in
    elim (root.stat (join_path dir file)) [
      | found u ↦ ok (b'/' ∷ dir)
      | missing ↦ next
      | failed e ↦ err (wrapf "inspect target RPM database at %q" (join_path dir file ∷ []) e)
    ]

-- `resolveTargetRPMDatabasePath`
pub resolve_target_rpm_database_path : System → Str → Result Str
resolve_target_rpm_database_path system root_path = do
  opened ← open_target_root system root_path
  database_in opened.0 (
      (codes "usr/lib/sysimage/rpm", codes "Packages")
      ∷ (codes "usr/lib/sysimage/rpm", codes "rpmdb.sqlite")
      ∷ (codes "var/lib/rpm", codes "Packages")
      ∷ (codes "var/lib/rpm", codes "rpmdb.sqlite")
      ∷ [])

pub no_architecture : Str → Bool
no_architecture a =
    is_empty a || str_eq a (codes "src") || str_eq a (codes "nosrc") || str_eq a (codes "(none)")

-- The architectures that the rows name, each row trimmed.
pub named_architectures : List Str → List Str
named_architectures [] = []
named_architectures (l ∷ ls) =
    let rest = named_architectures ls in
    if no_architecture (trim_space l) then rest else trim_space l ∷ rest

pub read_architectures : Str → Result (List Str)
read_architectures output =
    let (lines, long) = scan_lines output in
    fail_if long (wrapf "read installed RPM architectures" [] too_long)
    >> ok (sort_strings (unseen [] (named_architectures lines)))

-- `QueryInstalledRPMArchitectures`
pub query_installed_rpm_architectures : System → CommandRunner → Str → Str → Result (List Str)
query_installed_rpm_architectures system run rpm_path install_root = do
  fail_if (is_empty (trim_space install_root)) (errorf "target install root is required" [])
  fail_if (is_empty (trim_space rpm_path)) (errorf "rpm path is required" [])
  database ← resolve_target_rpm_database_path system install_root
  output ← wrap "query installed RPM architectures under %q" (install_root ∷ []) (
      run rpm_path (
        (codes "--root=" ++ install_root)
        ∷ (codes "--dbpath=" ++ database)
        ∷ codes "--query"
        ∷ codes "--all"
        ∷ codes "--queryformat=%{ARCH}\\n"
        ∷ []))
  read_architectures output
