-- ===== src/Catalog/Target/Architecture/Primary.antt =====
-- The primary architecture that is chosen has a name.
use mathlib.Core.Path.{subst}
use cvetool.Prelude.{ok, >>=-eq-ok, ok_injective, ◌≡◌, false, List, [], ◌∷◌, arith}
use cvetool.Text.{Str}
use cvetool.Catalog.Nevra.{is_empty}
use cvetool.Catalog.Target.Architecture.{
  ArchitectureSet, Found, nothing_found, scan_archs, choose_primary, resolve_sorted,
  resolve_target_architecture,
}

choose_primary-name : (f : Found) {p : Str} → choose_primary f ≡ ok p → is_empty p ≡ false
unfolding choose_primary is_empty
choose_primary-name f h = ground arith

resolve_sorted-primary :
    (l : List Str) {a : ArchitectureSet} → resolve_sorted l ≡ ok a → is_empty a.primary ≡ false
unfolding resolve_sorted
resolve_sorted-primary [] h = cc h
resolve_sorted-primary (x ∷ l) h =
    let (found, e, k) = >>=-eq-ok (scan_archs (x ∷ l) nothing_found) _ h in
    let (p, e', k') = >>=-eq-ok (choose_primary found) _ k in
    subst (λ a. is_empty a.primary ≡ false) (ok_injective k') (choose_primary-name found e')

pub resolve_target_architecture-primary :
    (installed : List Str) {a : ArchitectureSet}
    → resolve_target_architecture installed ≡ ok a
    → is_empty a.primary ≡ false
unfolding resolve_target_architecture
resolve_target_architecture-primary installed h = resolve_sorted-primary _ h
