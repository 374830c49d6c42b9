-- ===== src/Catalog/Dnf/Arguments.antt =====
-- What the arguments of DNF promise of the directories.
use mathlib.Core.Path.{subst}
use cvetool.Prelude.{
  All, In, Distinct, All_In, All-from_members, ok, wrap, >>=-eq-ok, Result-cases, fail_if-eq-ok,
  wrap-eq-ok, ok_injective, ◌≡◌, refl, inl, inr, true, not, ◌||◌, List, [], ◌∷◌, ◌++◌, arith,
}
use cvetool.Text.{
  Str, codes, str_eq, unseen, In-unseen, unseen-Distinct, join, trim_space, contains_any, is_abs,
  clean, join_path, rel,
}
use cvetool.Text.Paths.Below.{LiesBelow, within-LiesBelow}
use cvetool.Catalog.Nevra.{is_empty}
use cvetool.Catalog.HostPaths.{Host, dnf_path_within, resolve_dnf_path, validate_dnf_scratch}
use cvetool.Catalog.Dnf.{
  DnfOptions, check_children, check_repo_dir, check_repo_dirs, no_dirs, target_dnf_args,
}

-- The place where the symbolic links of a path lead lies below the directory.
abbrev pub LeadsBelow : Host → Str → Str → Type 0
LeadsBelow host directory path =
    (r : Str) × (resolve_dnf_path host path ≡ ok r) × LiesBelow directory r

-- An absolute path of a directory below the target's root, and its target is below the root's.
abbrev pub IsConfined : Host → Str → Str → Str → Type 0
IsConfined host root resolved_root dir =
    (is_abs dir ≡ true) × LiesBelow root dir × LeadsBelow host resolved_root dir

-- The option is among the arguments with the child of the scratch directory, whose links do not lead
-- out of it.
abbrev pub WritesBelow : Host → List Str → Str → Str → Str → Str → Type 0
WritesBelow host args scratch resolved_scratch option child =
    In (option ++ join_path scratch child) args
    × LeadsBelow host resolved_scratch (join_path scratch child)

dnf_path_within-LiesBelow :
    (root path : Str) → dnf_path_within root path ≡ true → LiesBelow root path
unfolding dnf_path_within
dnf_path_within-LiesBelow root path h = elim (Result-cases (rel root path)) [
  | inr (e, q) ↦ cc (rw (q, dnf_path_within) at h)
  | inl (relative, q) ↦ within-LiesBelow root path relative q (rw (q, dnf_path_within) at h)
]

check_children-LeadsBelow :
    (host : Host) (scratch resolved : Str) (children : List Str) {u : Unit {0}}
    → check_children host scratch resolved children ≡ ok u
    → All (λ child. LeadsBelow host resolved (join_path scratch child)) children
unfolding check_children
check_children-LeadsBelow host scratch resolved [] h = tt
check_children-LeadsBelow host scratch resolved (child ∷ children) h =
    let (r, e, k) =
      >>=-eq-ok
        (wrap "resolve DNF %s directory" (child ∷ [])
          (resolve_dnf_path host (join_path scratch child)))
        _ h in
    let (c, k) = fail_if-eq-ok (not (dnf_path_within resolved r)) _ _ k in
    (
      (r, wrap-eq-ok _ _ _ e, dnf_path_within-LiesBelow resolved r (ground (arith, c))),
      check_children-LeadsBelow host scratch resolved children k,
    )

check_repo_dir-IsConfined :
    (host : Host) (root resolved configured dir : Str)
    → check_repo_dir host root resolved configured ≡ ok dir
    → IsConfined host root resolved dir
unfolding check_repo_dir
check_repo_dir-IsConfined host root resolved configured dir h =
    let (a, k) = fail_if-eq-ok (contains_any configured (codes ", \t\r\n\u{b}\u{c}")) _ _ h in
    let d = clean configured in
    let (b, k) =
      fail_if-eq-ok (str_eq d (codes ".") || not (is_abs d) || not (dnf_path_within root d)) _ _
        k in
    let (r, e, k) =
      >>=-eq-ok (wrap "resolve target repository directory %q" (d ∷ []) (resolve_dnf_path host d)) _
        k in
    let (c, k) = fail_if-eq-ok (not (dnf_path_within resolved r)) _ _ k in
    subst (IsConfined host root resolved) (ok_injective k) (
      ground (arith, b),
      dnf_path_within-LiesBelow root d (ground (arith, b)),
      (r, wrap-eq-ok _ _ _ e, dnf_path_within-LiesBelow resolved r (ground (arith, c))),
    )

check_repo_dirs-IsConfined :
    (host : Host) (root resolved : Str) (ds dirs : List Str)
    → check_repo_dirs host root resolved ds ≡ ok dirs
    → All (IsConfined host root resolved) dirs
unfolding check_repo_dirs
check_repo_dirs-IsConfined host root resolved [] dirs h =
    subst (All (IsConfined host root resolved)) (ok_injective h) tt
check_repo_dirs-IsConfined host root resolved (d ∷ ds) dirs h =
    let (x, e, k) = >>=-eq-ok (check_repo_dir host root resolved d) _ h in
    let (xs, f, k) = >>=-eq-ok (check_repo_dirs host root resolved ds) _ k in
    subst (All (IsConfined host root resolved)) (ok_injective k) (
      check_repo_dir-IsConfined host root resolved d x e,
      check_repo_dirs-IsConfined host root resolved ds xs f,
    )

-- Where the arguments are made, they name repository directories that are absolute, different from
-- each other and below the target's root, also where their symbolic links lead. They place the
-- cache, the state and the log of DNF in the directories of these names in the scratch directory,
-- which passed its checks, and the links of none of the three lead out of it.
pub target_dnf_args-IsConfined :
    (host : Host) (options : DnfOptions) (args : List Str)
    → target_dnf_args host options ≡ ok args
    → (root resolved scratch : Str) × (dirs : List Str) × (root
        ≡ clean (trim_space options.install_root))
      × (resolve_dnf_path host root ≡ ok resolved)
      × (resolve_dnf_path host (clean (trim_space options.scratch_dir)) ≡ ok scratch)
      × (validate_dnf_scratch host root (clean (trim_space options.scratch_dir)) resolved scratch
          ≡ ok tt)
      × All (IsConfined host root resolved) dirs
      × Distinct dirs
      × In (codes "--setopt=reposdir=" ++ join dirs (codes ",")) args
      × (let place = clean (trim_space options.scratch_dir) in
          WritesBelow host args place scratch (codes "--setopt=cachedir=") (codes "cache")
          × WritesBelow host args place scratch (codes "--setopt=persistdir=") (codes "state")
          × WritesBelow host args place scratch (codes "--setopt=logdir=") (codes "log"))
unfolding target_dnf_args
target_dnf_args-IsConfined host o args h =
    let (a, k) = fail_if-eq-ok (is_empty (trim_space o.path)) _ _ h in
    let root = clean (trim_space o.install_root) in
    let (b, k) = fail_if-eq-ok (str_eq root (codes ".") || not (is_abs root)) _ _ k in
    let scratch = clean (trim_space o.scratch_dir) in
    let (c, k) = fail_if-eq-ok (str_eq scratch (codes ".") || not (is_abs scratch)) _ _ k in
    let (resolved, e, k) =
      >>=-eq-ok (wrap "resolve target install root" [] (resolve_dnf_path host root)) _ k in
    let (place, f, k) =
      >>=-eq-ok (wrap "resolve DNF scratch directory" [] (resolve_dnf_path host scratch)) _ k in
    let (u, g, k) = >>=-eq-ok (validate_dnf_scratch host root scratch resolved place) _ k in
    let (v, i, k) =
      >>=-eq-ok
        (check_children host scratch place (codes "cache" ∷ codes "state" ∷ codes "log" ∷ [])) _
        k in
    let (cache, others) = check_children-LeadsBelow host scratch place _ i in
    let (state, (log, end)) = others in
    let (l, k) = fail_if-eq-ok (is_empty (trim_space o.release_version)) _ _ k in
    let (m, k) = fail_if-eq-ok (is_empty (trim_space o.architecture)) _ _ k in
    let (n, k) = fail_if-eq-ok (no_dirs o.repo_dirs) _ _ k in
    let (dirs, p, k) = >>=-eq-ok (check_repo_dirs host root resolved o.repo_dirs) _ k in
    let (q, k) = fail_if-eq-ok (no_dirs (unseen [] dirs)) _ _ k in
    (
      root,
      resolved,
      place,
      unseen [] dirs,
      refl,
      wrap-eq-ok _ _ _ e,
      wrap-eq-ok _ _ _ f,
      g,
      All-from_members (IsConfined host root resolved) (unseen [] dirs) (λ x j.
          All_In (IsConfined host root resolved) dirs x
            (check_repo_dirs-IsConfined host root resolved o.repo_dirs dirs p)
            (In-unseen x [] dirs j).0),
      unseen-Distinct [] dirs,
      subst (In (codes "--setopt=reposdir=" ++ join (unseen [] dirs) (codes ","))) (ok_injective k)
          (inr (inr (inr (inl refl)))),
      (
        (
          subst (In (codes "--setopt=cachedir=" ++ join_path scratch (codes "cache")))
              (ok_injective k) (inr (inr (inr (inr (inr (inr (inl refl))))))),
          cache,
        ),
        (
          subst (In (codes "--setopt=persistdir=" ++ join_path scratch (codes "state")))
              (ok_injective k) (inr (inr (inr (inr (inr (inr (inr (inl refl)))))))),
          state,
        ),
        (
          subst (In (codes "--setopt=logdir=" ++ join_path scratch (codes "log"))) (ok_injective k)
              (inr (inr (inr (inr (inr (inr (inr (inr (inl refl))))))))),
          log,
        ),
      ),
    )
