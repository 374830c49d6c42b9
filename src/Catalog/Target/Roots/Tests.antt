-- ===== src/Catalog/Target/Roots/Tests.antt =====
-- Runs where every file is there.
use cvetool.Text.{str_eq, sort_strings, contains, unseen, trim_space, scan_lines, rel}
use cvetool.Catalog.Target.Roots.{
  absolute, release_from, resolve_target_release_version, resolve_target_rpm_database_path,
  named_architectures, read_architectures,
}
use cvetool.Catalog.Nevra.{validate_nevra}
use cvetool.Prelude.{if◌then◌else◌, ok, ◌≡◌, refl, [], ◌∷◌}
use cvetool.Text.{Str, codes, str_le}
use cvetool.Catalog.HostPaths.{Answer, found, missing}
use cvetool.Catalog.Dnf.{CommandRunner}
use cvetool.Catalog.Target.Roots.{Root, System, no_architecture, query_installed_rpm_architectures}

abbrev pub full_root : Root
full_root = record {
  read_file = λ p. found [];
  stat = λ p. found tt;
  open_dir = λ p. found (ok [], ok tt);
}

abbrev full_system : System
full_system = record { working_directory = ok (codes "/"); open_root = λ p. ok full_root }

abbrev two_rows : CommandRunner
two_rows path args = ok (codes "x86_64\nsrc\nnoarch\n")

two_rows_read :
    query_installed_rpm_architectures full_system two_rows (codes "rpm") (codes "/")
    ≡ ok (codes "noarch" ∷ codes "x86_64" ∷ [])
unfolding str_eq str_le sort_strings contains unseen trim_space scan_lines rel absolute
    resolve_target_rpm_database_path no_architecture named_architectures read_architectures
    query_installed_rpm_architectures validate_nevra cvetool.Catalog.Target.Roots.open_target_root
    cvetool.Catalog.Target.Roots.database_in
two_rows_read = refl

-- A system with a database of packages, an os-release, and no variables of DNF.
abbrev rhel_files : Str → Answer Str
rhel_files p =
    if str_eq p (codes "etc/os-release")
    then found (codes "ID=\"rhel\"\nVERSION_ID=9.4\n")
    else missing

abbrev pub rhel_root : Root
rhel_root = record full_root { read_file = rhel_files }

abbrev pub rhel_system : System
rhel_system = record { working_directory = ok (codes "/"); open_root = λ p. ok rhel_root }

abbrev pub native_rows : CommandRunner
native_rows path args = ok (codes "x86_64\nnoarch\n")

pub native_rows_read :
    query_installed_rpm_architectures rhel_system native_rows (codes "rpm") (codes "/t")
    ≡ ok (codes "noarch" ∷ codes "x86_64" ∷ [])
unfolding str_eq str_le sort_strings contains unseen trim_space scan_lines rel absolute
    resolve_target_rpm_database_path no_architecture named_architectures read_architectures
    query_installed_rpm_architectures validate_nevra cvetool.Catalog.Target.Roots.open_target_root
    cvetool.Catalog.Target.Roots.database_in
native_rows_read = refl

pub release_read :
    resolve_target_release_version rhel_system (codes "/t") (codes "9.4") ≡ ok (codes "9.4")
unfolding str_eq trim_space rel absolute resolve_target_release_version release_from
    cvetool.Catalog.Target.Roots.open_target_root validate_nevra
release_read = refl
