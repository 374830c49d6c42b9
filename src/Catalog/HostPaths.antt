-- ===== src/Catalog/HostPaths.antt =====
-- The directories that catalog/dnf.go checks before it runs DNF: where they are, where their symbolic
-- links lead, and who may write them.
use cvetool.Prelude.{
  ◌==◌, if◌then◌else◌, Error, errorf, wrapf, external, Result, ok, err, ◌>>=◌, ◌>>◌, fail_if, wrap,
  ℕ, Bool, true, false, not, ◌&&◌, ◌||◌, Option, none, some, List, [], ◌∷◌, reverse,
}
use cvetool.Text.{Str, codes, str_eq, join, has_prefix, elements, clean, join_path, rel}

-- What a system call answers about a path: there is nothing there, or it fails in another way.
pub data Answer (A : Type 0) : Type 0 where
  found : A → Answer A
  missing : Answer A
  failed : Error → Answer A

-- os.FileInfo: `owner` is the user of a syscall.Stat_t.
pub record FileInfo : Type 0 where
  pub is_dir : Bool
  pub perm : ℕ
  pub owner : Option ℕ

-- The system: filepath.EvalSymlinks, os.Lstat (is the path a symbolic link), os.Stat, the effective
-- user, and os.TempDir as an absolute path.
pub record Host : Type 0 where
  pub eval_symlinks : Str → Answer Str
  pub lstat_symlink : Str → Answer Bool
  pub stat : Str → Answer FileInfo
  pub effective_user : ℕ
  pub temp_dir : Str

-- `dnfPathWithin`
unfoldable pub dnf_path_within : Str → Str → Bool
dnf_path_within root path = elim (rel root path) [
  | ok relative ↦
      str_eq relative (codes ".")
      || (not (str_eq relative (codes "..")) && not (has_prefix relative (codes "../")))
  | err e ↦ false
]

unfoldable pub not_exist : Error
not_exist = external 2

unfoldable pub join_suffix : Str → List Str → Str
join_suffix resolved [] = resolved
join_suffix resolved (s ∷ ss) = join_suffix (join_path resolved s) ss

unfoldable pub at_path : List Str → Str
at_path reversed = b'/' ∷ join (reverse reversed) (codes "/")

-- A turn of the loop of `resolveDNFPath` at a path, with `none` where it goes on at the parent.
unfoldable pub look_at : Host → Str → List Str → Option (Result Str)
look_at host path suffix = elim (host.eval_symlinks path) [
  | found resolved ↦ some (ok (clean (join_suffix resolved suffix)))
  | missing ↦ elim (host.lstat_symlink path) [
    | found true ↦ some (err (wrapf "path %q contains a dangling symlink" (path ∷ []) not_exist))
    | failed e ↦ some (err e)
    | _ ↦ none
  ]
  | failed e ↦ elim (host.lstat_symlink path) [
    | found true ↦ some (err (wrapf "path %q contains a dangling symlink" (path ∷ []) e))
    | failed f ↦ some (err f)
    | _ ↦ some (err e)
  ]
]

unfoldable pub otherwise : Option (Result Str) → Result Str → Result Str
otherwise none r = r
otherwise (some q) r = q

-- The loop of `resolveDNFPath` for an absolute path: the elements of `current`, the last one first,
-- and the elements that are taken off it.
unfoldable pub resolve_from : Host → List Str → List Str → Result Str
resolve_from host [] suffix = otherwise (look_at host (at_path []) suffix) (err not_exist)
resolve_from host (element ∷ parent) suffix =
    otherwise (look_at host (at_path (element ∷ parent)) suffix)
      (resolve_from host parent (element ∷ suffix))

-- `resolveDNFPath`
unfoldable pub resolve_dnf_path : Host → Str → Result Str
resolve_dnf_path host path = resolve_from host (reverse (elements path)) []

-- `validateDNFScratchInfo`
unfoldable pub validate_dnf_scratch_info : Host → FileInfo → Result (Unit {0})
validate_dnf_scratch_info host info = do
  fail_if (not info.is_dir || not (info.perm == 0o700))
      (errorf "DNF scratch directory must be owner-only with mode 0700" [])
  fail_if (elim info.owner [ none ↦ true | some user ↦ not (user == host.effective_user) ])
      (errorf "DNF scratch directory must be owned by effective user %d" [])
  ok tt

unfoldable pub stat_scratch : Host → Str → Result (Unit {0})
stat_scratch host path = elim (host.stat path) [
  | found info ↦ validate_dnf_scratch_info host info
  | missing ↦ err (wrapf "stat DNF scratch directory" [] not_exist)
  | failed e ↦ err (wrapf "stat DNF scratch directory" [] e)
]

-- The first part of `validateDNFScratch`.
unfoldable pub check_scratch_place : Host → Str → Str → Str → Str → Result (Unit {0})
check_scratch_place host install_root scratch_dir resolved_root resolved_scratch =
    if not (str_eq install_root (codes "/"))
    then fail_if (dnf_path_within resolved_root resolved_scratch)
        (errorf "DNF scratch directory must be outside target install root" [])
    else (wrap "resolve host temp directory" [] (resolve_dnf_path host (clean host.temp_dir))
        >>= λ resolved_temp.
            fail_if
              (str_eq scratch_dir (clean host.temp_dir)
                || not (dnf_path_within (clean host.temp_dir) scratch_dir)
                || str_eq resolved_scratch resolved_temp
                || not (dnf_path_within resolved_temp resolved_scratch))
              (errorf "host-root DNF scratch directory must be a dedicated directory under %q"
                (clean host.temp_dir ∷ [])))

-- `validateDNFScratch`
unfoldable pub validate_dnf_scratch : Host → Str → Str → Str → Str → Result (Unit {0})
validate_dnf_scratch host install_root scratch_dir resolved_root resolved_scratch =
    check_scratch_place host install_root scratch_dir resolved_root resolved_scratch
    >> stat_scratch host resolved_scratch
