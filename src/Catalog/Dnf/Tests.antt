-- ===== src/Catalog/Dnf/Tests.antt =====
-- A run where no path is a symbolic link.
use cvetool.Text.{str_eq, contains, unseen, trim_prefix, contains_any, join_path, rel}
use cvetool.Catalog.Dnf.{check_children, check_repo_dir, check_repo_dirs, no_dirs}
use cvetool.Catalog.HostPaths.{
  dnf_path_within, join_suffix, at_path, look_at, otherwise, resolve_from,
  validate_dnf_scratch_info, stat_scratch, check_scratch_place,
}
use cvetool.Catalog.Nevra.{validate_nevra}
use cvetool.Prelude.{All, In, Distinct, ok, ◌≡◌, refl, true, false, some, List, [], ◌∷◌, ◌++◌}
use cvetool.Text.{Str, codes, join, trim_space, clean}
use cvetool.Catalog.HostPaths.{found, Host, resolve_dnf_path, validate_dnf_scratch}
use cvetool.Catalog.Dnf.Arguments.{IsConfined, WritesBelow, target_dnf_args-IsConfined}
use cvetool.Catalog.Dnf.{DnfOptions, target_dnf_args}

abbrev plain_host : Host
plain_host = record {
  eval_symlinks = λ p. found p;
  lstat_symlink = λ p. found false;
  stat = λ p. found (record { is_dir = true; perm = 0o700; owner = some 0 });
  effective_user = 0;
  temp_dir = codes "/tmp";
}

abbrev plain_options : DnfOptions
plain_options = record {
  path = codes "dnf";
  install_root = codes "/r";
  scratch_dir = codes "/t/s";
  release_version = codes "9.4";
  architecture = codes "x86_64";
  repo_dirs = codes "/r/etc/./a" ∷ codes "/r/etc/a" ∷ [];
  architectures = codes "x86_64" ∷ [];
  legacy_host_query = false;
}

abbrev plain_args : List Str
plain_args =
    codes "--quiet"
    ∷ codes "--disableplugin=subscription-manager,product-id"
    ∷ codes "--installroot=/r"
    ∷ codes "--setopt=reposdir=/r/etc/a"
    ∷ codes "--releasever=9.4"
    ∷ codes "--forcearch=x86_64"
    ∷ codes "--setopt=cachedir=/t/s/cache"
    ∷ codes "--setopt=persistdir=/t/s/state"
    ∷ codes "--setopt=logdir=/t/s/log"
    ∷ []

plain_args_made : target_dnf_args plain_host plain_options ≡ ok plain_args
unfolding str_eq contains unseen trim_prefix trim_space contains_any join_path rel check_children
    check_repo_dir check_repo_dirs no_dirs target_dnf_args dnf_path_within join_suffix at_path
    look_at otherwise resolve_from resolve_dnf_path validate_dnf_scratch_info stat_scratch
    check_scratch_place validate_dnf_scratch validate_nevra
plain_args_made = refl

target_dnf_args-IsConfined_example :
    (root resolved scratch : Str) × (dirs : List Str) × (root ≡ clean (trim_space (codes "/r")))
    × (resolve_dnf_path plain_host root ≡ ok resolved)
    × (resolve_dnf_path plain_host (clean (trim_space (codes "/t/s"))) ≡ ok scratch)
    × (validate_dnf_scratch plain_host root (clean (trim_space (codes "/t/s"))) resolved scratch
        ≡ ok tt)
    × All (IsConfined plain_host root resolved) dirs
    × Distinct dirs
    × In (codes "--setopt=reposdir=" ++ join dirs (codes ",")) plain_args
    × (let place = clean (trim_space (codes "/t/s")) in
        WritesBelow plain_host plain_args place scratch (codes "--setopt=cachedir=") (codes "cache")
        × WritesBelow plain_host plain_args place scratch
            (codes "--setopt=persistdir=")
            (codes "state")
        × WritesBelow plain_host plain_args place scratch (codes "--setopt=logdir=") (codes "log"))
target_dnf_args-IsConfined_example =
    target_dnf_args-IsConfined plain_host plain_options plain_args plain_args_made
