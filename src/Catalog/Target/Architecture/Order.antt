-- ===== src/Catalog/Target/Architecture/Order.antt =====
-- `ResolveTargetArchitecture` depends on which architectures are installed only, and its result
-- resolves to itself.
use mathlib.Core.Path.{subst, fun_ext}
use cvetool.Prelude.{
  Bool-cases, All, In, Distinct, Sorted, All_In, All-from_members, Result, ok, ◌>>=◌, >>=-eq-ok,
  ◌≡◌, refl, sym, ap, ◌∙◌, ◌↔◌, inl, inr, true, false, List, [], ◌∷◌, map,
}
use cvetool.Text.{
  Str, codes, str_le, insert_by, sort_by, Le, str_le-TotalOrder, In-insert_by, In_insert_by,
  insert_by-Sorted, sort_by-Sorted, sort_by-eq_self, Sorted-ext, In-sort_by, In_sort_by,
  insert_by-Distinct, sort_by-Distinct, sort_strings, contains, contains_In, In_contains,
  not_In_of_contains, unseen, In-unseen, In_unseen, unseen-Distinct, trim_space,
}
use cvetool.Text.Split.Trim.{trim_space_idem}
use cvetool.Catalog.Nevra.{is_empty}
use cvetool.Catalog.Target.Architecture.{
  ArchitectureSet, classify, Found, nothing_found, scan_arch, scan_archs, choose_primary,
  drop_empty, trimmed_distinct, with_noarch, resolve_sorted, resolve_target_architecture,
}
use cvetool.Catalog.Target.Architecture.Contract.{
  with_noarch-In, In-with_noarch, noarch-In-with_noarch, with_noarch-Sorted, with_noarch-Distinct,
  classify-noarch,
}

-- The lists have the same texts, apart from spaces around them, repetitions and empty ones.
abbrev pub SameEntries : List Str → List Str → Type 0
SameEntries xs ys =
    (a : Str) → In a (drop_empty (map trim_space xs)) ↔ In a (drop_empty (map trim_space ys))

sorted_distinct-eq :
    (xs ys : List Str)
    → ((a : Str) → In a xs ↔ In a ys)
    → sort_strings (unseen [] xs) ≡ sort_strings (unseen [] ys)
unfolding sort_strings
sorted_distinct-eq xs ys h =
    Sorted-ext str_le str_le-TotalOrder _ _ (sort_by-Sorted str_le str_le-TotalOrder (unseen [] xs))
      (sort_by-Sorted str_le str_le-TotalOrder (unseen [] ys))
      (sort_by-Distinct str_le _ (unseen-Distinct [] xs))
      (sort_by-Distinct str_le _ (unseen-Distinct [] ys)) (λ a i. move a xs ys ((h a).0) i)
      (λ a i. move a ys xs ((h a).1) i)
  where
    move :
        (a : Str) (us vs : List Str)
        → (In a us → In a vs)
        → In a (sort_by str_le (unseen [] us))
        → In a (sort_by str_le (unseen [] vs))
    move a us vs f i =
        In_sort_by str_le a _
          (In_unseen a [] vs (f (In-unseen a [] us (In-sort_by str_le a _ i)).0) (λ z. z))

-- The order, the repetitions and the spaces of the inventory do not matter: neither for the result nor
-- for the error.
pub resolve_target_architecture-SameEntries :
    (xs ys : List Str)
    → SameEntries xs ys
    → resolve_target_architecture xs ≡ resolve_target_architecture ys
unfolding resolve_target_architecture trimmed_distinct
resolve_target_architecture-SameEntries xs ys h = ap resolve_sorted (sorted_distinct-eq _ _ h)

-- A trimmed text that is not empty.
abbrev IsTrimmed : Str → Type 0
IsTrimmed a = (trim_space a ≡ a) × (is_empty a ≡ false)

trimmed-id : (xs : List Str) → All IsTrimmed xs → drop_empty (map trim_space xs) ≡ xs
unfolding drop_empty
trimmed-id [] h = refl
trimmed-id (x ∷ xs) ((t, n), hs) = rw (t, n, trimmed-id xs hs)

not_seen :
    (x : Str) (seen xs : List Str)
    → ¬ In x xs
    → All (λ a. ¬ In a seen) xs
    → All (λ a. ¬ In a (x ∷ seen)) xs
not_seen x seen [] n h = tt
not_seen x seen (y ∷ ys) n (hy, hs) =
    (elim [ inl e ↦ n (inl (sym e)) | inr i ↦ hy i ], not_seen x seen ys (λ i. n (inr i)) hs)

unseen-id : (seen xs : List Str) → Distinct xs → All (λ a. ¬ In a seen) xs → unseen seen xs ≡ xs
unfolding unseen
unseen-id seen [] d h = refl
unseen-id seen (x ∷ xs) (nx, d) (n, hs) = elim (Bool-cases (contains seen x)) [
  | inl e ↦ absurd (n (contains_In seen x e))
  | inr e ↦ rw e (ap (λ r. x ∷ r) (unseen-id (x ∷ seen) xs d (not_seen x seen xs nx hs)))
]

-- noarch passes through the loop.
scan_archs-insert_noarch :
    (l : List Str) (f : Found) → scan_archs (insert_by str_le (codes "noarch") l) f ≡ scan_archs l f
unfolding scan_archs insert_by scan_arch
scan_archs-insert_noarch [] f = rw classify-noarch
scan_archs-insert_noarch (a ∷ as₁) f = elim (Bool-cases (str_le (codes "noarch") a)) [
  | inl e ↦ rw (e, classify-noarch)
  | inr e ↦
      rw e
        (ap (λ k. scan_arch a (classify a) f >>= k) (fun_ext (λ g. scan_archs-insert_noarch as₁ g)))
]

-- Sorting a list with noarch at its end puts noarch at its place.
sort-snoc_noarch :
    (l : List Str)
    → Sorted (Le str_le) l
    → Distinct l
    → contains l (codes "noarch") ≡ false
    → with_noarch l ≡ insert_by str_le (codes "noarch") l
sort-snoc_noarch l hs hd e =
    Sorted-ext str_le str_le-TotalOrder (with_noarch l) (insert_by str_le (codes "noarch") l)
      (with_noarch-Sorted l hs) (insert_by-Sorted str_le str_le-TotalOrder (codes "noarch") l hs)
      (with_noarch-Distinct l hd)
      (insert_by-Distinct str_le (codes "noarch") l (not_In_of_contains l (codes "noarch") e) hd)
      (λ a i. elim (In-with_noarch a l i) [
        | inl j ↦ In_insert_by str_le (codes "noarch") a l (inr j)
        | inr p ↦ In_insert_by str_le (codes "noarch") a l (inl p)
      ])
      (λ a i. elim (In-insert_by str_le (codes "noarch") a l i) [
        | inl p ↦ subst (λ z. In z (with_noarch l)) p (noarch-In-with_noarch l)
        | inr j ↦ with_noarch-In a l j
      ])

conclude : Result Found → List Str → Result ArchitectureSet
conclude r packages = do
  found ← r
  primary ← choose_primary found
  ok (record { primary = primary; packages = packages })

resolve_sorted-conclude :
    (l : List Str) (a : Str)
    → In a l
    → resolve_sorted l ≡ conclude (scan_archs l nothing_found) (with_noarch l)
unfolding resolve_sorted conclude
resolve_sorted-conclude [] a i = elim i [ ]
resolve_sorted-conclude (x ∷ xs) a i = refl

with_noarch-contains : (l : List Str) → contains l (codes "noarch") ≡ true → with_noarch l ≡ l
unfolding with_noarch
with_noarch-contains l e = rw e

with_noarch_idem : (l : List Str) → with_noarch (with_noarch l) ≡ with_noarch l
with_noarch_idem l =
    with_noarch-contains (with_noarch l)
      (In_contains (with_noarch l) (codes "noarch") (noarch-In-with_noarch l))

scan_archs-with_noarch :
    (l : List Str) (f : Found)
    → Sorted (Le str_le) l
    → Distinct l
    → scan_archs (with_noarch l) f ≡ scan_archs l f
scan_archs-with_noarch l f hs hd = elim (Bool-cases (contains l (codes "noarch"))) [
  | inl e ↦ rw (with_noarch-contains l e)
  | inr e ↦ rw (sort-snoc_noarch l hs hd e) (scan_archs-insert_noarch l f)
]

resolve_sorted-with_noarch :
    (l : List Str) {s : ArchitectureSet}
    → Sorted (Le str_le) l
    → Distinct l
    → resolve_sorted l ≡ ok s
    → resolve_sorted (with_noarch l) ≡ ok s
resolve_sorted-with_noarch [] hs hd e = unfold resolve_sorted in cc e
resolve_sorted-with_noarch (a ∷ as₁) hs hd e =
    rw
      (
        resolve_sorted-conclude (with_noarch (a ∷ as₁)) (codes "noarch")
            (noarch-In-with_noarch (a ∷ as₁)),
        with_noarch_idem,
        scan_archs-with_noarch (a ∷ as₁) nothing_found hs hd,
      )
      (sym (resolve_sorted-conclude (a ∷ as₁) a (inl refl)) ∙ e)

head_IsTrimmed :
    (a x : Str) (xs : List Str)
    → is_empty (trim_space x) ≡ false
    → (In a (drop_empty (map trim_space xs)) → IsTrimmed a)
    → In a (trim_space x ∷ drop_empty (map trim_space xs))
    → IsTrimmed a
head_IsTrimmed a x xs e f (inl p) = subst IsTrimmed p (trim_space_idem x, e)
head_IsTrimmed a x xs e f (inr i) = f i

In-IsTrimmed : (a : Str) (xs : List Str) → In a (drop_empty (map trim_space xs)) → IsTrimmed a
unfolding drop_empty
In-IsTrimmed a [] i = elim i [ ]
In-IsTrimmed a (x ∷ xs) i = elim (Bool-cases (is_empty (trim_space x))) [
  | inl e ↦ In-IsTrimmed a xs (rw e at i)
  | inr e ↦ head_IsTrimmed a x xs e (In-IsTrimmed a xs) (rw e at i)
]

noarch-IsTrimmed : IsTrimmed (codes "noarch")
unfolding trim_space is_empty
noarch-IsTrimmed = (refl, refl)

with_noarch-IsTrimmed : (l : List Str) → All IsTrimmed l → All IsTrimmed (with_noarch l)
with_noarch-IsTrimmed l h = All-from_members IsTrimmed (with_noarch l) λ a i.
    elim (In-with_noarch a l i) [
      | inl j ↦ All_In IsTrimmed l a h j
      | inr e ↦ subst IsTrimmed e noarch-IsTrimmed
    ]

packages_of_resolve_sorted :
    (l : List Str) {s : ArchitectureSet} → resolve_sorted l ≡ ok s → s.packages ≡ with_noarch l
unfolding resolve_sorted
packages_of_resolve_sorted [] h = cc
packages_of_resolve_sorted (a ∷ as₁) h =
    let (f, e1, e2) = >>=-eq-ok (scan_archs (a ∷ as₁) nothing_found) _ h in
    let (p, e3, e4) = >>=-eq-ok (choose_primary f) _ e2 in cc e4

-- A list that is trimmed, sorted and distinct is taken as it is.
resolve_normal :
    (l : List Str)
    → All IsTrimmed l
    → Sorted (Le str_le) l
    → Distinct l
    → resolve_target_architecture l ≡ resolve_sorted l
unfolding resolve_target_architecture trimmed_distinct sort_strings
resolve_normal l ht hs hd = rw (
  trimmed-id l ht,
  unseen-id [] l hd (All-from_members (λ a. ¬ In a []) l (λ a i j. j)),
  sort_by-eq_self str_le str_le-TotalOrder l hs,
)

-- The architectures of a result resolve to the same result.
pub resolve_target_architecture_idem :
    (installed : List Str) {s : ArchitectureSet}
    → resolve_target_architecture installed ≡ ok s
    → resolve_target_architecture s.packages ≡ ok s
unfolding resolve_target_architecture trimmed_distinct sort_strings
resolve_target_architecture_idem installed {s} h =
    let entries = drop_empty (map trim_space installed) in
    let l = sort_by str_le (unseen [] entries) in
    let sorted = sort_by-Sorted str_le str_le-TotalOrder (unseen [] entries) in
    let distinct = sort_by-Distinct str_le (unseen [] entries) (unseen-Distinct [] entries) in
    ap resolve_target_architecture (packages_of_resolve_sorted l h)
    ∙ (resolve_normal (with_noarch l)
          (with_noarch-IsTrimmed l (
            All-from_members IsTrimmed l (λ a i.
              In-IsTrimmed a installed
                (In-unseen a [] entries (In-sort_by str_le a (unseen [] entries) i)).0)))
          (with_noarch-Sorted l sorted) (with_noarch-Distinct l distinct)
        ∙ resolve_sorted-with_noarch l sorted distinct h)
