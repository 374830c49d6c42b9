-- ===== src/Catalog/Dnf.antt =====
-- catalog/dnf.go: the arguments of DNF and its calls.
pub mod Arguments
mod Tests
use cvetool.Prelude.{
  if◌then◌else◌, errorf, Result, ok, ◌>>=◌, ◌>>◌, fail_if, wrap, ◌+◌, Bool, true, false, not, ◌||◌,
  List, [], ◌∷◌, ◌++◌,
}
use cvetool.Text.{
  Str, codes, str_eq, contains, unseen, join, trim_space, contains_any, is_abs, clean, join_path,
}
use cvetool.Catalog.Nevra.{Nevra, is_empty}
use cvetool.Catalog.HostPaths.{Host, dnf_path_within, resolve_dnf_path, validate_dnf_scratch}
use cvetool.Catalog.DnfOutput.{read_rows, parse_enabled_repositories}

pub record DnfOptions : Type 0 where
  pub path : Str
  pub install_root : Str
  pub scratch_dir : Str
  pub release_version : Str
  pub architecture : Str
  pub repo_dirs : List Str
  pub architectures : List Str
  pub legacy_host_query : Bool

-- `CommandRunner`, and the command that a nil runner stands for.
abbrev pub CommandRunner : Type 0
CommandRunner = Str → List Str → Result Str

-- The loop over the directories that DNF writes.
check_children : Host → Str → Str → List Str → Result (Unit {0})
check_children host scratch resolved_scratch [] = ok tt
check_children host scratch resolved_scratch (child ∷ children) = do
  path ←
      wrap "resolve DNF %s directory" (child ∷ []) (resolve_dnf_path host (join_path scratch child))
  fail_if (not (dnf_path_within resolved_scratch path))
      (errorf "DNF %s directory resolves outside scratch directory" (child ∷ []))
  check_children host scratch resolved_scratch children

-- The checks of one repository directory.
check_repo_dir : Host → Str → Str → Str → Result Str
check_repo_dir host install_root resolved_root configured = do
  fail_if (contains_any configured (codes ", \t\r\n\u{b}\u{c}"))
      (errorf "repository directory %q contains a DNF list delimiter" (configured ∷ []))
  let dir = clean configured
  fail_if (str_eq dir (codes ".") || not (is_abs dir) || not (dnf_path_within install_root dir)) (
      errorf "repository directory %q is not under target install root %q"
        (dir ∷ install_root ∷ []))
  resolved ← wrap "resolve target repository directory %q" (dir ∷ []) (resolve_dnf_path host dir)
  fail_if (not (dnf_path_within resolved_root resolved)) (
      errorf "repository directory %q resolves outside target install root %q"
        (dir ∷ install_root ∷ []))
  ok dir

check_repo_dirs : Host → Str → Str → List Str → Result (List Str)
check_repo_dirs host install_root resolved_root [] = ok []
check_repo_dirs host install_root resolved_root (d ∷ ds) = do
  dir ← check_repo_dir host install_root resolved_root d
  dirs ← check_repo_dirs host install_root resolved_root ds
  ok (dir ∷ dirs)

unfoldable pub no_dirs : List Str → Bool
no_dirs [] = true
no_dirs (d ∷ ds) = false

-- `targetDNFArgs`
pub target_dnf_args : Host → DnfOptions → Result (List Str)
target_dnf_args host options = do
  fail_if (is_empty (trim_space options.path)) (errorf "DNF path is required" [])
  let root = clean (trim_space options.install_root)
  fail_if (str_eq root (codes ".") || not (is_abs root))
      (errorf "absolute target install root is required" [])
  let scratch = clean (trim_space options.scratch_dir)
  fail_if (str_eq scratch (codes ".") || not (is_abs scratch))
      (errorf "absolute DNF scratch directory is required" [])
  resolved_root ← wrap "resolve target install root" [] (resolve_dnf_path host root)
  resolved_scratch ← wrap "resolve DNF scratch directory" [] (resolve_dnf_path host scratch)
  validate_dnf_scratch host root scratch resolved_root resolved_scratch
  check_children host scratch resolved_scratch (codes "cache" ∷ codes "state" ∷ codes "log" ∷ [])
  let release = trim_space options.release_version
  fail_if (is_empty release) (errorf "target release version is required" [])
  let architecture = trim_space options.architecture
  fail_if (is_empty architecture) (errorf "target architecture is required" [])
  fail_if (no_dirs options.repo_dirs) (errorf "target repository directories are required" [])
  dirs ← check_repo_dirs host root resolved_root options.repo_dirs
  fail_if (no_dirs (unseen [] dirs)) (errorf "target repository directories are required" [])
  ok (
      codes "--quiet"
      ∷ codes "--disableplugin=subscription-manager,product-id"
      ∷ (codes "--installroot=" ++ root)
      ∷ (codes "--setopt=reposdir=" ++ join (unseen [] dirs) (codes ","))
      ∷ (codes "--releasever=" ++ release)
      ∷ (codes "--forcearch=" ++ architecture)
      ∷ (codes "--setopt=cachedir=" ++ join_path scratch (codes "cache"))
      ∷ (codes "--setopt=persistdir=" ++ join_path scratch (codes "state"))
      ∷ (codes "--setopt=logdir=" ++ join_path scratch (codes "log"))
      ∷ [])

unfoldable pub trimmed : List Str → List Str
trimmed [] = []
trimmed (a ∷ as₁) = elim (trim_space a) [ [] ↦ trimmed as₁ | c ∷ s ↦ (c ∷ s) ∷ trimmed as₁ ]

-- The architectures of a query: each once, with "noarch".
unfoldable pub query_architectures : List Str → List Str
query_architectures architectures =
    let named = unseen [] (trimmed architectures) in
    if contains named (codes "noarch") then named else named ++ (codes "noarch" ∷ [])

unfoldable pub dnf_query_format : Str
dnf_query_format = codes "%{name}\\t%{epoch}\\t%{version}\\t%{release}\\t%{arch}"

-- The arguments of `QueryDNFWithOptions`.
unfoldable pub query_args : Host → DnfOptions → Str → Result (List Str)
query_args host options id =
    if options.legacy_host_query
    then ok (
        codes "--quiet"
        ∷ (codes "--repo=" ++ id)
        ∷ (codes "--arch=" ++ (options.architecture ++ codes ",noarch"))
        ∷ codes "repoquery"
        ∷ codes "--qf"
        ∷ dnf_query_format
        ∷ [])
    else (fail_if (is_empty (trim_space id)) (errorf "repository ID is required" [])
        >> (target_dnf_args host options >>= λ args.
            fail_if (no_dirs (trimmed options.architectures))
              (errorf "target package architectures are required" [])
            >> ok (
                args
                ++ ((codes "--repo=" ++ id)
                    ∷ codes "repoquery"
                    ∷ (codes "--arch="
                        ++ join (query_architectures options.architectures) (codes ","))
                    ∷ codes "--qf"
                    ∷ dnf_query_format
                    ∷ []))))

-- `QueryDNFWithOptions`
unfoldable pub query_dnf_with_options :
    Host → CommandRunner → DnfOptions → Str → Result (List Nevra)
query_dnf_with_options host run options id = query_args host options id >>= λ args.
    wrap "query repository %q" (id ∷ []) (run options.path args) >>= read_rows id

-- `EnabledRepositories`
unfoldable pub enabled_repositories : Host → CommandRunner → DnfOptions → Result (List Str)
enabled_repositories host run options = target_dnf_args host options >>= λ args.
    wrap "list enabled target repositories" []
      (run options.path (args ++ (codes "repolist" ∷ codes "--enabled" ∷ [])))
    >>= λ output. wrap "parse enabled target repositories" [] (parse_enabled_repositories output)

-- `EnabledHostRepositories` of catalog/target.go
unfoldable enabled_host_repositories : CommandRunner → Str → Result (List Str)
enabled_host_repositories run path =
    fail_if (is_empty (trim_space path)) (errorf "DNF path is required" [])
    >> (wrap "list enabled host repositories" []
          (run path (codes "--quiet" ∷ codes "repolist" ∷ codes "--enabled" ∷ []))
        >>= λ output. wrap "parse enabled host repositories" [] (parse_enabled_repositories output))
