-- ===== src/Catalog/Target/Roots/Installed.antt =====
-- The architectures that are read from the RPM database.
use mathlib.Core.Path.{subst}
use cvetool.Prelude.{
  Bool-cases, In, Distinct, Sorted, ok, wrap, >>=-eq-ok, fail_if-eq-ok, ok_injective, ◌≡◌, sym, ap,
  ◌∙◌, inl, inr, false, List, [], ◌∷◌,
}
use cvetool.Catalog.Nevra.{is_empty}
use cvetool.Catalog.Dnf.{CommandRunner}
use cvetool.Text.{
  Str, str_le, Le, str_le-TotalOrder, sort_by-Sorted, In-sort_by, sort_by-Distinct, sort_strings,
  unseen, In-unseen, unseen-Distinct, trim_space, scan_lines,
}
use cvetool.Catalog.Target.Roots.{
  System, resolve_target_rpm_database_path, no_architecture, named_architectures,
  read_architectures, query_installed_rpm_architectures,
}

In-named_architectures :
    (a : Str) (ls : List Str) → In a (named_architectures ls) → no_architecture a ≡ false
unfolding named_architectures
In-named_architectures a [] h = elim h [ ]
In-named_architectures a (l ∷ ls) h = elim (Bool-cases (no_architecture (trim_space l))) [
  | inl e ↦ In-named_architectures a ls (rw e at h)
  | inr e ↦ elim (rw e at h) [
    | inl p ↦ ap no_architecture (sym p) ∙ e
    | inr i ↦ In-named_architectures a ls i
  ]
]

-- The installed architectures are in order and different from each other, and none is empty, "src",
-- "nosrc" or "(none)".
pub query_installed_rpm_architectures-Sorted :
    (system : System) (run : CommandRunner) (rpm_path install_root : Str) (as₁ : List Str)
    → query_installed_rpm_architectures system run rpm_path install_root ≡ ok as₁
    → Sorted (Le str_le) as₁ × Distinct as₁ × ((a : Str) → In a as₁ → no_architecture a ≡ false)
unfolding query_installed_rpm_architectures read_architectures sort_strings
query_installed_rpm_architectures-Sorted system run rpm_path install_root as₁ h =
    let (a, k) = fail_if-eq-ok (is_empty (trim_space install_root)) _ _ h in
    let (b, k) = fail_if-eq-ok (is_empty (trim_space rpm_path)) _ _ k in
    let (database, e, k) = >>=-eq-ok (resolve_target_rpm_database_path system install_root) _ k in
    let (output, f, k) = >>=-eq-ok (wrap _ _ (run rpm_path _)) _ k in
    let (c, k) = fail_if-eq-ok (scan_lines output).1 _ _ k in
    let names = named_architectures (scan_lines output).0 in
    subst
      (λ z. Sorted (Le str_le) z × Distinct z × ((a : Str) → In a z → no_architecture a ≡ false))
      (ok_injective k)
      (
        sort_by-Sorted str_le str_le-TotalOrder (unseen [] names),
        sort_by-Distinct str_le (unseen [] names) (unseen-Distinct [] names),
        λ z i.
            In-named_architectures z (scan_lines output).0
              (In-unseen z [] names (In-sort_by str_le z (unseen [] names) i)).0,
      )
