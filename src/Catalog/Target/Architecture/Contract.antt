-- ===== src/Catalog/Target/Architecture/Contract.antt =====
-- What `ResolveTargetArchitecture` promises of its result.
use mathlib.Core.Path.{subst}
use cvetool.Prelude.{
  Bool-cases, All, In, Distinct, Sorted, In-append_left, In-append_right, In-append, All_In,
  All-from_members, Distinct-snoc, ok, >>=-eq-ok, ◌≡◌, refl, ◌≢◌, ◌⊎◌, inl, inr, true, Option, none,
  some, List, [], ◌∷◌, ◌++◌, map, arith,
}
use cvetool.Text.{
  Str, codes, str_eq, str_le, str_eq_iff, Le, str_le-TotalOrder, sort_by-Sorted, In-sort_by,
  In_sort_by, sort_by-Distinct, sort_strings, contains, contains_In, not_In_of_contains, unseen,
  unseen-Distinct, trim_space,
}
use cvetool.Catalog.Target.Architecture.{
  ArchitectureSet, Arch, noarch, x86_64, i686, i586, aarch64, armv7hl, ppc64le, s390x, unsupported,
  Family, x86, arm, ppc64le_family, s390x_family, classify, Found, nothing_found, same_family,
  join_family, scan_arch, scan_archs, choose_primary, drop_empty, trimmed_distinct, with_noarch,
  resolve_sorted, resolve_target_architecture,
}

-- The names that the `switch` tests.
abbrev spelling : Arch → Str
spelling noarch = codes "noarch"
spelling x86_64 = codes "x86_64"
spelling i686 = codes "i686"
spelling i586 = codes "i586"
spelling aarch64 = codes "aarch64"
spelling armv7hl = codes "armv7hl"
spelling ppc64le = codes "ppc64le"
spelling s390x = codes "s390x"
spelling unsupported = []

-- The family of an architecture, if it is native and supported.
abbrev pub family_of : Arch → Option Family
family_of x86_64 = some x86
family_of i686 = some x86
family_of i586 = some x86
family_of aarch64 = some arm
family_of armv7hl = some arm
family_of ppc64le = some ppc64le_family
family_of s390x = some s390x_family
family_of _ = none

classify-spelling : (a : Str) → classify a ≢ unsupported → a ≡ spelling (classify a)
unfolding classify
classify-spelling a h = ground (
  arith,
  str_eq_iff a (codes "noarch"),
  str_eq_iff a (codes "x86_64"),
  str_eq_iff a (codes "i686"),
  str_eq_iff a (codes "i586"),
  str_eq_iff a (codes "aarch64"),
  str_eq_iff a (codes "armv7hl"),
  str_eq_iff a (codes "ppc64le"),
  str_eq_iff a (codes "s390x"),
)

-- `a` is architecture independent or of the family.
abbrev pub InFamily : Option Family → Str → Type 0
InFamily family a = (classify a ≡ noarch) ⊎ (family_of (classify a) ≡ family)

-- What the loop's variables say is in the list.
record Accounted (l : List Str) (f : Found) : Type 0 where
  x86_64_in : f.has_x86_64 ≡ true → In (codes "x86_64") l
  i686_in : f.has_i686 ≡ true → In (codes "i686") l
  aarch64_in : f.has_aarch64 ≡ true → In (codes "aarch64") l
  ppc64le_in : f.family ≡ some ppc64le_family → In (codes "ppc64le") l
  s390x_in : f.family ≡ some s390x_family → In (codes "s390x") l

scan_arch-Accounted :
    (l : List Str) (a : Str) (c : Arch) (f g : Found)
    → (c ≢ unsupported → In (spelling c) l)
    → Accounted l f
    → scan_arch a c f ≡ ok g
    → Accounted l g
unfolding scan_arch join_family same_family
scan_arch-Accounted l a noarch f g i h e = ground arith
scan_arch-Accounted l a x86_64 f g i h e = let j = i (cc) in ground arith
scan_arch-Accounted l a i686 f g i h e = let j = i (cc) in ground arith
scan_arch-Accounted l a i586 f g i h e = let j = i (cc) in ground arith
scan_arch-Accounted l a aarch64 f g i h e = let j = i (cc) in ground arith
scan_arch-Accounted l a armv7hl f g i h e = let j = i (cc) in ground arith
scan_arch-Accounted l a ppc64le f g i h e = let j = i (cc) in ground arith
scan_arch-Accounted l a s390x f g i h e = let j = i (cc) in ground arith
scan_arch-Accounted l a unsupported f g i h e = cc

In_spelling :
    (l : List Str) (a : Str) → In a l → classify a ≢ unsupported → In (spelling (classify a)) l
In_spelling l a i h = subst (λ z. In z l) (classify-spelling a h) i

scan_archs-Accounted :
    (l as₁ : List Str) (f g : Found)
    → All (λ a. In a l) as₁
    → Accounted l f
    → scan_archs as₁ f ≡ ok g
    → Accounted l g
unfolding scan_archs
scan_archs-Accounted l [] f g i h e = ground arith
scan_archs-Accounted l (a ∷ as₁) f g (i, is) h e =
    let (m, e1, e2) = >>=-eq-ok (scan_arch a (classify a) f) (scan_archs as₁) e in
    scan_archs-Accounted l as₁ m g is
      (scan_arch-Accounted l a (classify a) f m (In_spelling l a i) h e1) e2

-- A round leaves a family that was found, and ends with an architecture of the family that it leaves.
scan_arch-family :
    (a : Str) (c : Arch) (f g : Found)
    → scan_arch a c f ≡ ok g
    → ((f.family ≡ none) ⊎ (f.family ≡ g.family))
      × ((c ≡ noarch) ⊎ ((family_of c ≡ g.family) × (family_of c ≢ none)))
unfolding scan_arch join_family same_family
scan_arch-family a noarch f g e = ground arith
scan_arch-family a c f g e = ground arith

join_kept :
    {x y z : Option Family} → (x ≡ none) ⊎ (x ≡ y) → (y ≡ none) ⊎ (y ≡ z) → (x ≡ none) ⊎ (x ≡ z)
join_kept h k = ground arith

join_own :
    {c : Arch} {x y z : Option Family}
    → (c ≡ noarch) ⊎ ((x ≡ y) × (x ≢ none))
    → (y ≡ none) ⊎ (y ≡ z)
    → (c ≡ noarch) ⊎ (x ≡ z)
join_own h k = ground arith

scan_archs-family :
    (as₁ : List Str) (f g : Found)
    → scan_archs as₁ f ≡ ok g
    → ((f.family ≡ none) ⊎ (f.family ≡ g.family)) × All (InFamily g.family) as₁
unfolding scan_archs
scan_archs-family [] f g e = ground arith
scan_archs-family (a ∷ as₁) f g e =
    let (m, e1, e2) = >>=-eq-ok (scan_arch a (classify a) f) (scan_archs as₁) e in
    let (kept, own) = scan_arch-family a (classify a) f m e1 in
    let (kept', others) = scan_archs-family as₁ m g e2 in
    (join_kept kept kept', (join_own own kept', others))

choose_primary-In :
    (l : List Str) (f : Found) {p : Str} → Accounted l f → choose_primary f ≡ ok p → In p l
unfolding choose_primary
choose_primary-In l f {p} h e = ground (arith)

pub with_noarch-In : (a : Str) (l : List Str) → In a l → In a (with_noarch l)
unfolding with_noarch sort_strings
with_noarch-In a l i = elim (Bool-cases (contains l (codes "noarch"))) [
  | inl e ↦ rw e i
  | inr e ↦ rw e (In_sort_by str_le a (l ++ (codes "noarch" ∷ [])) (In-append_left a l _ i))
]

pub In-with_noarch : (a : Str) (l : List Str) → In a (with_noarch l) → In a l ⊎ (codes "noarch" ≡ a)
unfolding with_noarch sort_strings
In-with_noarch a l i = elim (Bool-cases (contains l (codes "noarch"))) [
  | inl e ↦ inl (rw e at i)
  | inr e ↦ at_end (In-append a l _ (In-sort_by str_le a (l ++ (codes "noarch" ∷ [])) (rw e at i)))
]
  where
    at_end : In a l ⊎ In a (codes "noarch" ∷ []) → In a l ⊎ (codes "noarch" ≡ a)
    at_end (inl j) = inl j
    at_end (inr (inl p)) = inr p
    at_end (inr (inr j)) = absurd j

pub noarch-In-with_noarch : (l : List Str) → In (codes "noarch") (with_noarch l)
unfolding with_noarch sort_strings
noarch-In-with_noarch l = elim (Bool-cases (contains l (codes "noarch"))) [
  | inl e ↦ rw e (contains_In l (codes "noarch") e)
  | inr e ↦ rw e (
      In_sort_by str_le (codes "noarch") (l ++ (codes "noarch" ∷ []))
        (In-append_right (codes "noarch") l (codes "noarch" ∷ []) (inl refl)))
]

pub with_noarch-Sorted : (l : List Str) → Sorted (Le str_le) l → Sorted (Le str_le) (with_noarch l)
unfolding with_noarch sort_strings
with_noarch-Sorted l h = elim (Bool-cases (contains l (codes "noarch"))) [
  | inl e ↦ rw e h
  | inr e ↦ rw e (sort_by-Sorted str_le str_le-TotalOrder (l ++ (codes "noarch" ∷ [])))
]

pub with_noarch-Distinct : (l : List Str) → Distinct l → Distinct (with_noarch l)
unfolding with_noarch sort_strings
with_noarch-Distinct l h = elim (Bool-cases (contains l (codes "noarch"))) [
  | inl e ↦ rw e h
  | inr e ↦ rw e (
      sort_by-Distinct str_le (l ++ (codes "noarch" ∷ []))
        (Distinct-snoc (codes "noarch") l (not_In_of_contains l (codes "noarch") e) h))
]

-- What a result is made of.
pub record IsResolved (s : ArchitectureSet) : Type 0 where
  pub sorted : Sorted (Le str_le) s.packages
  pub distinct : Distinct s.packages
  pub has_noarch : In (codes "noarch") s.packages
  pub has_primary : In s.primary s.packages
  pub family : Option Family
  pub one_family : All (InFamily family) s.packages

pub classify-noarch : classify (codes "noarch") ≡ noarch
unfolding classify str_eq
classify-noarch = refl

nothing-Accounted : (l : List Str) → Accounted l nothing_found
nothing-Accounted l = ground arith

with_noarch-InFamily :
    (family : Option Family) (l : List Str)
    → All (InFamily family) l
    → All (InFamily family) (with_noarch l)
with_noarch-InFamily family l h = All-from_members (InFamily family) (with_noarch l) λ a i.
    elim (In-with_noarch a l i) [
      | inl j ↦ All_In (InFamily family) l a h j
      | inr e ↦ inl (cc (e, classify-noarch))
    ]

resolve_sorted-IsResolved :
    (l : List Str) {s : ArchitectureSet}
    → Sorted (Le str_le) l
    → Distinct l
    → resolve_sorted l ≡ ok s
    → IsResolved s
unfolding resolve_sorted
resolve_sorted-IsResolved [] hs hd e = cc
resolve_sorted-IsResolved (a ∷ as₁) {s} hs hd e =
    let (f, e1, e2) = >>=-eq-ok (scan_archs (a ∷ as₁) nothing_found) _ e in
    let (p, e3, e4) = >>=-eq-ok (choose_primary f) _ e2 in
    let accounted =
      scan_archs-Accounted (a ∷ as₁) (a ∷ as₁) nothing_found f
        (All-from_members (λ x. In x (a ∷ as₁)) (a ∷ as₁) (λ x i. i)) (nothing-Accounted (a ∷ as₁))
        e1 in
    subst IsResolved (cc e4) (record {
      sorted = with_noarch-Sorted (a ∷ as₁) hs;
      distinct = with_noarch-Distinct (a ∷ as₁) hd;
      has_noarch = noarch-In-with_noarch (a ∷ as₁);
      has_primary = with_noarch-In p (a ∷ as₁) (choose_primary-In (a ∷ as₁) f accounted e3);
      family = f.family;
      one_family =
          with_noarch-InFamily f.family (a ∷ as₁)
            (scan_archs-family (a ∷ as₁) nothing_found f e1).1;
    })

-- The architectures of a result are sorted and distinct, hold noarch and the primary one, and are all
-- of one family or noarch.
pub resolve_target_architecture-IsResolved :
    (installed : List Str) {s : ArchitectureSet}
    → resolve_target_architecture installed ≡ ok s
    → IsResolved s
unfolding resolve_target_architecture sort_strings trimmed_distinct
resolve_target_architecture-IsResolved installed h =
    resolve_sorted-IsResolved _
      (sort_by-Sorted str_le str_le-TotalOrder (unseen [] (drop_empty (map trim_space installed))))
      (sort_by-Distinct str_le _ (unseen-Distinct [] _)) h
