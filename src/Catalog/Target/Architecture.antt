-- ===== src/Catalog/Target/Architecture.antt =====
-- `ResolveTargetArchitecture` of catalog/target.go: the primary architecture of a system, from the
-- architectures of its installed packages.
pub mod Contract
pub mod Primary
pub mod Order
pub mod Tests
use cvetool.Prelude.{
  if◌then◌else◌, errorf, Result, ok, err, ◌>>=◌, ◌>>◌, ◌+◌, ◌-◌, Bool, true, false, not, ◌&&◌,
  Option, none, some, List, [], ◌∷◌, ◌++◌, map,
}
use cvetool.Text.{Str, codes, str_eq, sort_strings, contains, unseen, trim_space}
use cvetool.Catalog.Nevra.{is_empty}

pub record ArchitectureSet : Type 0 where
  pub primary : Str
  pub packages : List Str

-- The cases of the `switch` over an architecture.
pub data Arch : Type 0 where
  noarch x86_64 i686 i586 aarch64 armv7hl ppc64le s390x : Arch
  unsupported : Arch

pub data Family : Type 0 where
  x86 arm ppc64le_family s390x_family : Family

pub classify : Str → Arch
classify a =
    if str_eq a (codes "noarch")
    then noarch
    else if str_eq a (codes "x86_64")
    then x86_64
    else if str_eq a (codes "i686")
    then i686
    else if str_eq a (codes "i586")
    then i586
    else if str_eq a (codes "aarch64")
    then aarch64
    else if str_eq a (codes "armv7hl")
    then armv7hl
    else if str_eq a (codes "ppc64le")
    then ppc64le
    else if str_eq a (codes "s390x")
    then s390x
    else unsupported

-- The loop's variables; `none` is the empty family.
pub record Found : Type 0 where
  pub family : Option Family
  pub has_x86_64 : Bool
  pub has_i686 : Bool
  pub has_i586 : Bool
  pub has_aarch64 : Bool

abbrev nothing_found : Found
nothing_found = record {
  family = none;
  has_x86_64 = false;
  has_i686 = false;
  has_i586 = false;
  has_aarch64 = false;
}

same_family : Family → Family → Bool
same_family x86 x86 = true
same_family arm arm = true
same_family ppc64le_family ppc64le_family = true
same_family s390x_family s390x_family = true
same_family _ _ = false

-- The test of the family against the one found before, and the assignment.
join_family : Family → Found → Result Found
join_family current f = elim f.family [
  | none ↦ ok (record f { family = some current })
  | some family ↦
      if same_family family current
      then ok (record f { family = some current })
      else err (errorf "ambiguous target RPM architecture families" [])
]

-- One round of the loop over the sorted architectures.
pub scan_arch : Str → Arch → Found → Result Found
scan_arch a noarch f = ok f
scan_arch a x86_64 f = join_family x86 (record f { has_x86_64 = true })
scan_arch a i686 f = join_family x86 (record f { has_i686 = true })
scan_arch a i586 f = join_family x86 (record f { has_i586 = true })
scan_arch a aarch64 f = join_family arm (record f { has_aarch64 = true })
scan_arch a armv7hl f = join_family arm f
scan_arch a ppc64le f = join_family ppc64le_family f
scan_arch a s390x f = join_family s390x_family f
scan_arch a unsupported f = err (errorf "unsupported target RPM architecture %q" (a ∷ []))

pub scan_archs : List Str → Found → Result Found
scan_archs [] f = ok f
scan_archs (a ∷ as₁) f = do g ← scan_arch a (classify a) f; scan_archs as₁ g

pub choose_primary : Found → Result Str
choose_primary f = elim f.family [
  | none ↦ err (errorf "target RPM architecture inventory contains no native architecture" [])
  | some x86 ↦
      if f.has_x86_64
      then ok (codes "x86_64")
      else if f.has_i686 && not f.has_i586
      then ok (codes "i686")
      else err (errorf "ambiguous or unsupported 32-bit x86 target architectures" [])
  | some arm ↦
      if f.has_aarch64
      then ok (codes "aarch64")
      else err (errorf "unsupported target RPM architecture family %q" (codes "arm" ∷ []))
  | some ppc64le_family ↦ ok (codes "ppc64le")
  | some s390x_family ↦ ok (codes "s390x")
]

pub drop_empty : List Str → List Str
drop_empty [] = []
drop_empty (x ∷ xs) = let rest = drop_empty xs in if is_empty x then rest else x ∷ rest

-- The texts of the list, trimmed, without the empty ones and without repetition.
pub trimmed_distinct : List Str → List Str
trimmed_distinct xs = unseen [] (drop_empty (map trim_space xs))

pub with_noarch : List Str → List Str
with_noarch as₁ =
    if contains as₁ (codes "noarch") then as₁ else sort_strings (as₁ ++ (codes "noarch" ∷ []))

pub resolve_sorted : List Str → Result ArchitectureSet
resolve_sorted [] = err (errorf "target RPM architecture inventory is empty" [])
resolve_sorted (a ∷ as₁) = do
  found ← scan_archs (a ∷ as₁) nothing_found
  primary ← choose_primary found
  ok (record { primary = primary; packages = with_noarch (a ∷ as₁) })

pub resolve_target_architecture : List Str → Result ArchitectureSet
resolve_target_architecture installed = resolve_sorted (sort_strings (trimmed_distinct installed))
