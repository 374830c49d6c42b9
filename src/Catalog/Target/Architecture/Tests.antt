-- ===== src/Catalog/Target/Architecture/Tests.antt =====
-- Runs on small inventories.
use cvetool.Prelude.{ok, ◌≡◌, refl, [], ◌∷◌}
use cvetool.Text.{codes, str_eq, str_le, sort_strings, contains, unseen, trim_space}
use cvetool.Catalog.Nevra.{is_empty}
use cvetool.Catalog.Target.Architecture.{
  ArchitectureSet, classify, same_family, join_family, scan_arch, scan_archs, choose_primary,
  drop_empty, trimmed_distinct, with_noarch, resolve_sorted, resolve_target_architecture,
}
use cvetool.Catalog.Target.Architecture.Contract.{
  IsResolved, resolve_target_architecture-IsResolved,
}
use cvetool.Catalog.Target.Architecture.Order.{SameEntries, resolve_target_architecture-SameEntries}

abbrev pub x86_64_set : ArchitectureSet
x86_64_set = record {
  primary = codes "x86_64";
  packages = codes "i686" ∷ codes "noarch" ∷ codes "x86_64" ∷ [];
}

pub mixed_32_bit :
    resolve_target_architecture
      (codes " i686" ∷ codes "noarch" ∷ codes "x86_64" ∷ codes "i686" ∷ [])
    ≡ ok x86_64_set
unfolding resolve_target_architecture resolve_sorted with_noarch trimmed_distinct drop_empty
    choose_primary scan_archs scan_arch join_family same_family classify unseen contains
    sort_strings trim_space is_empty str_eq str_le
mixed_32_bit = refl

resolve_target_architecture-IsResolved_example : IsResolved x86_64_set
resolve_target_architecture-IsResolved_example =
    resolve_target_architecture-IsResolved
      (codes " i686" ∷ codes "noarch" ∷ codes "x86_64" ∷ codes "i686" ∷ []) mixed_32_bit

trimmed_same : SameEntries (codes " i686" ∷ []) (codes "i686" ∷ [])
unfolding trim_space
trimmed_same a = (λ h. h, λ h. h)

resolve_target_architecture-SameEntries_example :
    resolve_target_architecture (codes " i686" ∷ [])
    ≡ resolve_target_architecture (codes "i686" ∷ [])
resolve_target_architecture-SameEntries_example =
    resolve_target_architecture-SameEntries (codes " i686" ∷ []) (codes "i686" ∷ []) trimmed_same

abbrev pub native_set : ArchitectureSet
native_set = record { primary = codes "x86_64"; packages = codes "noarch" ∷ codes "x86_64" ∷ [] }

pub native_resolved :
    resolve_target_architecture (codes "noarch" ∷ codes "x86_64" ∷ []) ≡ ok native_set
unfolding resolve_target_architecture resolve_sorted with_noarch trimmed_distinct drop_empty
    choose_primary scan_archs scan_arch join_family same_family classify unseen contains
    sort_strings trim_space is_empty str_eq str_le
native_resolved = refl
