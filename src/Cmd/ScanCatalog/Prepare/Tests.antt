-- ===== src/Cmd/ScanCatalog/Prepare/Tests.antt =====
-- A preparation that fails after its directory was made, and a target that is resolved.
use cvetool.Prelude.{
  external, err, ok, ok_injective, ◌≡◌, refl, sym, ap, ◌∙◌, false, none, some, [],
}
use cvetool.Text.{codes, trim_space, is_abs}
use cvetool.Catalog.Nevra.{is_empty}
use cvetool.Catalog.Dnf.{DnfOptions}
use cvetool.Catalog.Json.{empty_catalog}
use cvetool.Catalog.Mapping.{RepositoryMapping}
use cvetool.Catalog.OsRelease.Tests.{
  native_info, native_described, native_described_again, native_is_rhel,
}
use cvetool.Catalog.Target.Architecture.Tests.{native_resolved}
use cvetool.Catalog.Target.Roots.{absolute}
use cvetool.Catalog.Target.Roots.Tests.{rhel_system, native_rows, native_rows_read, release_read}
use cvetool.Catalog.HostPaths.{found, missing, Host}
use cvetool.Cmd.ScanCatalog.{Answers}
use cvetool.Cmd.ScanCatalog.Prepare.{
  ScanCatalogOptions, Environment, check_target, prepare_scan_catalog, resolve_rhel,
  resolve_release, resolve_scan_catalog_target,
}
use cvetool.Cmd.ScanCatalog.Prepare.Complete.{HasWorkingDirectory, check_target-resolve}
use cvetool.Cmd.ScanCatalog.Prepare.Accounted.{IsAccounted, prepare_scan_catalog-IsAccounted}
use cvetool.Cmd.ScanCatalog.Prepare.Owned.{HasAbsolute}

abbrev host : Host
host = record {
  eval_symlinks = λ p. found p;
  lstat_symlink = λ p. found false;
  stat = λ p. missing;
  effective_user = 0;
  temp_dir = codes "/tmp";
}

abbrev repositories : RepositoryMapping
repositories = record { data_of = []; repo_relative_urls = []; source = [] }

abbrev env : Environment
env = record {
  system = rhel_system;
  host = host;
  run = native_rows;
  mkdir_temp = ok (codes "/tmp/x");
  read_file = λ p. err (external 2);
  unmarshal = λ s. ok empty_catalog;
  loaded = ok repositories;
  loaded_again = ok repositories;
  write = λ p c. ok tt;
  create_mapping = ok (codes "/tmp/m");
  encode_mapping = λ c. ok tt;
  close_mapping = ok tt;
  unbind = λ s. ok tt;
  hash = λ s. s;
  hash_json = λ rows. [];
  now = 0;
}

abbrev answers : Answers
answers = record { close_reader = none; remove = λ p. none; remove_all = λ p. none }

abbrev dnf : DnfOptions
dnf = record {
  path = codes "dnf";
  install_root = [];
  scratch_dir = [];
  release_version = [];
  architecture = [];
  repo_dirs = [];
  architectures = [];
  legacy_host_query = false;
}

abbrev options : ScanCatalogOptions
options = record {
  explicit_path = [];
  target_root = codes "/t";
  target_info = native_info;
  dnf = dnf;
}

temp_absolute : absolute env.system (codes "/tmp/x") ≡ ok (codes "/tmp/x")
unfolding absolute is_abs cvetool.Text.clean cvetool.Text.join cvetool.Text.str_eq
temp_absolute = refl

env-HasAbsolute : HasAbsolute env
unfolding is_empty
env-HasAbsolute dir e =
    (codes "/tmp/x", ap (absolute env.system) (sym (ok_injective e)) ∙ temp_absolute, refl)

prepare_scan_catalog-IsAccounted_example :
    IsAccounted env
      (prepare_scan_catalog env answers options).state
      (prepare_scan_catalog env answers options).effects
      (prepare_scan_catalog env answers options).result
prepare_scan_catalog-IsAccounted_example =
    prepare_scan_catalog-IsAccounted env answers options env-HasAbsolute

root_absolute : absolute env.system (codes "/t") ≡ ok (codes "/t")
unfolding absolute is_abs cvetool.Text.clean cvetool.Text.join cvetool.Text.str_eq
root_absolute = refl

target_resolved : resolve_scan_catalog_target env (codes "/t") ≡ ok (codes "/t", some native_info)
unfolding resolve_scan_catalog_target resolve_release resolve_rhel is_empty trim_space
    cvetool.Text.str_eq
target_resolved =
    rw
      (
        root_absolute, native_is_rhel, native_rows_read, native_resolved, native_described,
        release_read, native_described_again,
      )
      refl

env-HasWorkingDirectory : HasWorkingDirectory env.system
unfolding is_abs
env-HasWorkingDirectory w e = ap is_abs (sym (ok_injective e))

check_target-resolve_example :
    check_target (record options { target_root = codes "/t"; target_info = native_info }) ≡ ok tt
check_target-resolve_example =
    check_target-resolve env options env-HasWorkingDirectory target_resolved
