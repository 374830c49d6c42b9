-- ===== src/Catalog/Target/RepoDirs.antt =====
-- catalog/target.go: the repository directories of the target system, from its DNF configuration.
pub mod Contained
mod Tests
use cvetool.Prelude.{
  ◌==◌, if◌then◌else◌, Error, errorf, wrapf, external, Result, ok, err, ◌>>=◌, ◌>>◌, fail_if, wrap,
  ℕ, ◌+◌, String, Bool, false, not, ◌&&◌, ◌||◌, Option, none, some, List, [], ◌∷◌, ◌++◌,
}
use cvetool.Text.{
  Str, codes, str_eq, contains, split, cut, has_prefix, has_suffix, trim_prefix, trim_space,
  trim_left, equal_fold, scan_lines, too_long, is_abs, clean, join_path, rel,
}
use cvetool.Catalog.Nevra.{is_empty}
use cvetool.Catalog.HostPaths.{Answer, found, missing, failed}
use cvetool.Catalog.Target.Roots.{open_target_root, Root, System}

-- `isWithinRoot`
pub is_within_root : Str → Bool
is_within_root relative =
    str_eq relative (codes ".")
    || (not (str_eq relative (codes "..")) && not (has_prefix relative (codes "../")))

escapes : Str → Error
escapes configured = errorf "repository directory %q escapes target root" (configured ∷ [])

-- The part of `normalizeTargetRepoDir` for a path that is taken from the root.
pub normalize_relative : Str → Str → Result (Str × Str)
normalize_relative root configured =
    let dir = clean (join_path root (clean configured)) in
    if not (is_within_root (clean configured))
    then err (escapes configured)
    else elim (rel root dir) [
      | err e ↦ err (escapes configured)
      | ok relative ↦
          if is_within_root relative then ok (dir, relative) else err (escapes configured)
    ]

if_within : Result Str → Option Str
if_within (err e) = none
if_within (ok relative) = if is_within_root relative then some relative else none

-- The relative path of an absolute path that is already below the root.
already_below : Str → Str → Option Str
already_below root path = if_within (rel root path)

-- `normalizeTargetRepoDir`
pub normalize_target_repo_dir : Str → Str → Result (Str × Str)
normalize_target_repo_dir root text =
    let configured = trim_space text in
    if is_empty configured
    then err (errorf "target repository directory is empty" [])
    else if is_abs configured
    then elim (already_below root (clean configured)) [
      | some relative ↦ ok (clean configured, relative)
      | none ↦ normalize_relative root (trim_left configured b'/')
    ]
    else normalize_relative root configured

-- The variables of the loop of `parseDNFRepoDirs`.
pub record DnfSection : Type 0 where
  pub section : Str
  pub reposdir : Str

last_is : ℕ → Str → Bool
last_is c [] = false
last_is c (d ∷ []) = d == c
last_is c (d ∷ e ∷ s) = last_is c (e ∷ s)

without_last : Str → Str
without_last [] = []
without_last (c ∷ []) = []
without_last (c ∷ d ∷ s) = c ∷ without_last (d ∷ s)

pub strip_quotes : Str → Str
strip_quotes [] = []
strip_quotes (c ∷ s) =
    if ((c == b'"') || (c == b'\'')) && last_is c s then without_last s else c ∷ s

pub read_option : DnfSection → Str → DnfSection
read_option state line =
    let (name, value, has) = cut line b'=' in
    if not has || not (equal_fold (trim_space name) (codes "reposdir"))
    then state
    else record state { reposdir = strip_quotes (trim_space value) }

pub read_conf_line : DnfSection → Str → DnfSection
read_conf_line state text =
    let line = trim_space text in
    if is_empty line || has_prefix line (codes "#") || has_prefix line (codes ";")
    then state
    else if has_prefix line (codes "[") && has_suffix line (codes "]")
    then record state { section = trim_space (trim_prefix (without_last line) (codes "[")) }
    else if not (equal_fold state.section (codes "main"))
    then state
    else read_option state line

pub read_conf : DnfSection → List Str → DnfSection
read_conf state [] = state
read_conf state (l ∷ ls) = read_conf (read_conf_line state l) ls

trimmed_dirs : List Str → List Str
trimmed_dirs [] = []
trimmed_dirs (d ∷ ds) = elim (trim_space d) [
  | [] ↦ trimmed_dirs ds
  | c ∷ s ↦ (c ∷ s) ∷ trimmed_dirs ds
]

-- `parseDNFRepoDirs`
pub parse_dnf_repo_dirs : Str → Result (List Str)
parse_dnf_repo_dirs contents =
    let (lines, long) = scan_lines contents in
    let state = read_conf (record { section = []; reposdir = [] }) lines in
    fail_if long (wrapf "read target DNF configuration" [] too_long)
    >> (if is_empty (trim_space state.reposdir)
        then ok []
        else ok (trimmed_dirs (split state.reposdir b',')))

stat_all : Root → Str → List Str → Result (Unit {0})
stat_all root dir [] = ok tt
stat_all root dir (name ∷ names) =
    (if not (has_suffix name (codes ".repo"))
      then ok tt
      else elim (root.stat (join_path dir name)) [
        | found u ↦ ok tt
        | missing ↦
            err (wrapf "resolve repository file %q within target root" (name ∷ []) (external 2))
        | failed e ↦ err (wrapf "resolve repository file %q within target root" (name ∷ []) e)
      ])
    >> stat_all root dir names

-- `validateTargetRepoFiles`
pub validate_target_repo_files : Root → Str → Result (Unit {0})
validate_target_repo_files root dir = elim (root.open_dir dir) [
  | missing ↦ ok tt
  | failed e ↦ err e
  | found (entries, closed) ↦ wrap "read repository directory" [] entries >>= λ names.
      wrap "close repository directory" [] closed >> stat_all root dir names
]

stat_or_missing : String → List Str → Answer (Unit {0}) → Result (Unit {0})
stat_or_missing format args (found u) = ok tt
stat_or_missing format args missing = ok tt
stat_or_missing format args (failed e) = err (wrapf format args e)

-- `defaultTargetRepoDirs`
pub default_target_repo_dirs : Root → Str → Result (List Str)
default_target_repo_dirs root path = do
  stat_or_missing "validate default repository directory under target root" []
      (root.stat (codes "etc/yum.repos.d"))
  wrap "validate default repository files under target root" []
      (validate_target_repo_files root (codes "etc/yum.repos.d"))
  ok (join_path path (codes "etc/yum.repos.d") ∷ [])

-- The loop of `ResolveTargetRepoDirs`, with the directories that are done.
pub resolve_dirs : Root → Str → List Str → List Str → Result (List Str)
resolve_dirs root path [] done = ok done
resolve_dirs root path (d ∷ ds) done =
    (normalize_target_repo_dir path d >>= λ (dir, relative).
    (if contains done dir
      then ok done
      else (stat_or_missing "repository directory %q escapes target root" (d ∷ [])
            (root.stat relative)
          >> (wrap "validate repository files in %q" (d ∷ [])
                (validate_target_repo_files root relative)
              >> ok (done ++ (dir ∷ []))))))
    >>= resolve_dirs root path ds

read_or_empty : Answer Str → Result Str
read_or_empty (found s) = ok s
read_or_empty missing = ok []
read_or_empty (failed e) = err (wrapf "read target DNF configuration" [] e)

default_if_none : Root → Str → List Str → Result (List Str)
default_if_none root path [] = default_target_repo_dirs root path
default_if_none root path (d ∷ ds) = ok (d ∷ ds)

-- `ResolveTargetRepoDirs`
pub resolve_target_repo_dirs : System → Str → Result (List Str)
resolve_target_repo_dirs system root_path = do
  opened ← open_target_root system root_path
  contents ← read_or_empty (opened.0.read_file (codes "etc/dnf/dnf.conf"))
  configured ← parse_dnf_repo_dirs contents
  dirs ← resolve_dirs opened.0 opened.1 configured []
  default_if_none opened.0 opened.1 dirs
