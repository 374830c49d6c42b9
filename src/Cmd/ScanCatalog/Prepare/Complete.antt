-- ===== src/Cmd/ScanCatalog/Prepare/Complete.antt =====
-- What a resolved target brings to the preparation of its catalog.
use mathlib.Core.Path.{subst}
use cvetool.Prelude.{
  if◌then◌else◌, Bool-cases, In, errorf, ok, wrap, >>=-eq-ok, fail_if-eq-ok, wrap-eq-ok,
  ok_injective, ℕ, ◌≡◌, refl, sym, ap, ◌∙◌, ◌≢◌, inl, inr, Bool, true, false, Option, none, some,
  List, [], ◌∷◌, ◌++◌,
}
use cvetool.Text.{
  Str, codes, is_space, trim_left_func, trim_right_func, trim_space, is_abs, clean, join_path,
}
use cvetool.Catalog.Nevra.{is_empty}
use cvetool.Catalog.Dnf.{no_dirs}
use cvetool.Catalog.OsRelease.{TargetInfo, resolve_target_info, target_has_rhel_id}
use cvetool.Catalog.OsRelease.Agreement.{resolve_target_info-IsRhel}
use cvetool.Catalog.Mapping.{all_ascii_digits}
use cvetool.Catalog.Target.Architecture.{ArchitectureSet, resolve_target_architecture}
use cvetool.Catalog.Target.Architecture.Contract.{resolve_target_architecture-IsResolved}
use cvetool.Catalog.Target.Architecture.Primary.{resolve_target_architecture-primary}
use cvetool.Catalog.Target.Roots.{
  System, absolute, resolve_target_release_version, query_installed_rpm_architectures,
}
use cvetool.Catalog.HostPaths.{Answer, found, missing, failed}
use cvetool.Cmd.ScanCatalog.Prepare.{
  ScanCatalogOptions, Environment, check_target, resolve_rhel, resolve_release,
  resolve_scan_catalog_target,
}

slash_remains : (s : Str) → is_empty (trim_space (b'/' ∷ s)) ≡ false
unfolding trim_space trim_left_func trim_right_func is_space is_empty
slash_remains s = refl

clean_remains : (p : Str) → is_abs p ≡ true → is_empty (trim_space (clean p)) ≡ false
unfolding clean
clean_remains p h = rw h (slash_remains _)

absolute_append : (c : ℕ) (s t : Str) → is_abs (c ∷ s) ≡ true → is_abs ((c ∷ s) ++ t) ≡ true
unfolding is_abs
absolute_append c s t h = h

join_remains : (w p : Str) → is_abs w ≡ true → is_empty (trim_space (join_path w p)) ≡ false
unfolding join_path is_abs
join_remains [] p h = cc h
join_remains (c ∷ s) [] h = clean_remains (c ∷ s) h
join_remains (c ∷ s) (d ∷ t) h =
    clean_remains ((c ∷ s) ++ (b'/' ∷ d ∷ t)) (absolute_append c s (b'/' ∷ d ∷ t) h)

-- os.Getwd answers an absolute path.
abbrev pub HasWorkingDirectory : System → Type 0
HasWorkingDirectory system = (w : Str) → system.working_directory ≡ ok w → is_abs w ≡ true

absolute_remains :
    (system : System) (p : Str) {root : Str}
    → HasWorkingDirectory system
    → absolute system p ≡ ok root
    → is_empty (trim_space root) ≡ false
unfolding absolute
absolute_remains system p {root} h e = elim (Bool-cases (is_abs p)) [
  | inl a ↦
      subst (λ r. is_empty (trim_space r) ≡ false) (ok_injective (rw a at e)) (clean_remains p a)
  | inr a ↦
      let (w, f, g) = >>=-eq-ok system.working_directory (λ w. ok (join_path w p)) (rw a at e) in
      subst (λ r. is_empty (trim_space r) ≡ false) (ok_injective g) (join_remains w p (h w f))
]

digits_name : (s : Str) → all_ascii_digits s ≡ true → is_empty s ≡ false
unfolding all_ascii_digits is_empty
digits_name [] h = cc h
digits_name (c ∷ s) h = refl

not_nil : (s : Str) → s ≢ [] → is_empty s ≡ false
unfolding is_empty
not_nil [] h = absurd (h refl)
not_nil (c ∷ s) h = refl

some_member : (a : Str) (l : List Str) → In a l → no_dirs l ≡ false
unfolding no_dirs
some_member a [] i = absurd i
some_member a (x ∷ l) i = refl

-- No part of the description is missing.
abbrev pub IsComplete : TargetInfo → Type 0
IsComplete info =
    (is_empty info.rhel_version ≡ false)
    × (is_empty info.release_version ≡ false)
    × (is_empty info.architecture ≡ false)
    × (no_dirs info.architectures ≡ false)

resolve_target_info-IsComplete :
    (contents release : Str) (a : ArchitectureSet) (info : TargetInfo)
    → resolve_target_info contents release a ≡ ok info
    → IsComplete info
resolve_target_info-IsComplete contents release a info h =
    let (rhel, digits, named, resolved, primary) =
      resolve_target_info-IsRhel contents release a info h in
    let r = resolve_target_architecture-IsResolved a.packages resolved in
    (
      digits_name info.rhel_version digits,
      not_nil info.release_version named,
      ap is_empty primary ∙ resolve_target_architecture-primary a.packages resolved,
      some_member (codes "noarch") info.architectures r.has_noarch,
    )

some_injective : {A : Type 0} {a b : A} → some a ≡ some b → a ≡ b
some_injective e = cc e

resolve_rhel-IsComplete :
    (env : Environment) (root os_release : Str) {r : Str} {info : TargetInfo}
    → resolve_rhel env root os_release ≡ ok (r, some info)
    → IsComplete info × (r ≡ root)
unfolding resolve_rhel
resolve_rhel-IsComplete env root os_release {r} {info} h =
    let (installed, e1, k) =
      >>=-eq-ok
        (wrap "query target RPM architectures" []
          (query_installed_rpm_architectures env.system env.run (codes "rpm") root))
        _ h in
    let (architectures, e2, k) =
      >>=-eq-ok (wrap "resolve target RPM architectures" [] (resolve_target_architecture installed))
        _ k in
    let (first, e3, k) =
      >>=-eq-ok
        (wrap "resolve target RHEL metadata" [] (resolve_target_info os_release [] architectures)) _
        k in
    let (release, e4, k) =
      >>=-eq-ok
        (wrap "resolve target release version" []
          (resolve_target_release_version env.system root first.release_version))
        _ k in
    let (resolved, e5, k) =
      >>=-eq-ok
        (wrap "resolve target RHEL metadata" []
          (resolve_target_info os_release release architectures))
        _ k in
    let same =
      resolve_target_info-IsComplete os_release release architectures resolved
        (wrap-eq-ok "resolve target RHEL metadata" [] _ e5) in
    same_pair same (ok_injective k)
  where
    same_pair :
        {q : TargetInfo}
        → IsComplete q
        → ◌≡◌ {A = Str × Option TargetInfo} (root, some q) (r, some info)
        → IsComplete info × (r ≡ root)
    same_pair {q} c e =
        (subst IsComplete (some_injective (ap (λ p. p.1) e)) c, sym (ap (λ p. p.0) e))

resolve_release-IsComplete :
    (env : Environment) (root : Str) (answer : Answer Str) {r : Str} {info : TargetInfo}
    → resolve_release env root answer ≡ ok (r, some info)
    → IsComplete info × (r ≡ root)
unfolding resolve_release
resolve_release-IsComplete env root missing h = cc h
resolve_release-IsComplete env root (failed e) h = cc h
resolve_release-IsComplete env root (found os_release) {r} {info} h =
    let (is_rhel, e, k) = >>=-eq-ok (target_has_rhel_id os_release) _ h in from_test is_rhel k
  where
    from_test :
        (b : Bool)
        → (if b then resolve_rhel env root os_release else ok (root, none)) ≡ ok (r, some info)
        → IsComplete info × (r ≡ root)
    from_test true k = resolve_rhel-IsComplete env root os_release k
    from_test false k = cc k

-- A target that `resolveScanCatalogTarget` finds to be a RHEL system passes the tests with which
-- `prepareScanCatalog` begins, whatever the other options are: its root is not blank and no part of
-- its description is missing. The condition is that os.Getwd answers absolute paths.
pub check_target-resolve :
    (env : Environment) (options : ScanCatalogOptions) {root : Str} {info : TargetInfo}
    → HasWorkingDirectory env.system
    → resolve_scan_catalog_target env options.target_root ≡ ok (root, some info)
    → check_target (record options { target_root = root; target_info = info }) ≡ ok tt
unfolding resolve_scan_catalog_target check_target
check_target-resolve env options {root} {info} wd h =
    let (blank, h) =
      fail_if-eq-ok (is_empty (trim_space options.target_root))
        (errorf "target root is required" []) _ h in
    let (path, e, k) =
      >>=-eq-ok (wrap "resolve target root" [] (absolute env.system options.target_root)) _ h in
    let (target, e', k) = >>=-eq-ok (wrap "open target root" [] (env.system.open_root path)) _ k in
    let (complete, same) =
      resolve_release-IsComplete env path (target.read_file (codes "etc/os-release")) k in
    let remains =
      absolute_remains env.system options.target_root wd
        (wrap-eq-ok "resolve target root" [] _ e ∙ ap ok (sym same)) in
    rw (remains, complete.0, complete.1, complete.2, complete.3) refl
