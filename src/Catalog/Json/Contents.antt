-- ===== src/Catalog/Json/Contents.antt =====
-- A catalog holds what was added to it: `AddPackage` against `Lookup`.
use mathlib.Core.Path.{subst}
use cvetool.Prelude.{
  if◌then◌else◌, Bool-cases, In, Distinct, Sorted, In-append_left, In-append_right, In-append,
  Distinct-snoc, Result, ok, err, Result-cases, ◌≡◌, refl, sym, ap, ◌∙◌, ◌↔◌, ◌⊎◌, inl, inr, true,
  false, List, [], ◌∷◌, ◌++◌, arith,
}
use cvetool.Text.{
  Str, str_eq, str_eq_iff, str_le_total, str_le_trans, str_le_antisym, Le, TotalOrder,
  sort_by-Sorted, In-sort_by, In_sort_by, sort_by-Distinct, lookup, lookup-insert,
}
use cvetool.Catalog.Nevra.{Nevra, key}
use cvetool.Catalog.Json.{
  Match, Catalog, entries, match_eq, contains_match, match_less, match_le, check_package,
  add_checked, add_package, lookup_matches,
}

match_eq_iff : (a b : Match) → (match_eq a b ≡ true) ↔ (a ≡ b)
unfolding match_eq
match_eq_iff a b =
    ground (arith, str_eq_iff a.repository_id b.repository_id, str_eq_iff a.cpe b.cpe)

match_le_total : (a b : Match) → match_le a b ≡ false → match_le b a ≡ true
unfolding match_le match_less
match_le_total a b h = ground (
  arith,
  str_eq_iff a.repository_id b.repository_id,
  str_eq_iff b.repository_id a.repository_id,
  str_le_total a.repository_id b.repository_id,
  str_le_total a.cpe b.cpe,
)

match_le_trans : (a b c : Match) → match_le a b ≡ true → match_le b c ≡ true → match_le a c ≡ true
unfolding match_le match_less
match_le_trans a b c h k = ground (
  arith,
  str_eq_iff b.repository_id a.repository_id,
  str_eq_iff c.repository_id b.repository_id,
  str_eq_iff c.repository_id a.repository_id,
  str_le_trans a.repository_id b.repository_id c.repository_id,
  str_le_trans a.cpe b.cpe c.cpe,
  str_le_antisym a.repository_id b.repository_id,
)

match_le_antisym : (a b : Match) → match_le a b ≡ true → match_le b a ≡ true → a ≡ b
unfolding match_le match_less
match_le_antisym a b h k = ground (
  arith,
  str_eq_iff b.repository_id a.repository_id,
  str_eq_iff a.repository_id b.repository_id,
  str_le_antisym a.repository_id b.repository_id,
  str_le_antisym a.cpe b.cpe,
)

match_le-TotalOrder : TotalOrder match_le
match_le-TotalOrder = record {
  total = match_le_total;
  trans = match_le_trans;
  antisym = match_le_antisym;
}

contains_match_iff : (xs : List Match) (m : Match) → (contains_match xs m ≡ true) ↔ In m xs
unfolding contains_match
contains_match_iff [] m = (λ h. cc h, λ i. absurd i)
contains_match_iff (x ∷ xs) m = elim (Bool-cases (match_eq x m)) [
  | inl e ↦ rw e (λ h. inl ((match_eq_iff x m).0 e), λ h. refl)
  | inr e ↦ rw e (
    λ h. inr ((contains_match_iff xs m).0 h),
    λ i. elim i [ inl p ↦ cc (e, (match_eq_iff x m).1 p) | inr j ↦ (contains_match_iff xs m).1 j ],
  )
]

-- What `AddPackage` does to the matches of a key.
with_match : List Match → Match → List Match
with_match xs m = if contains_match xs m then xs else xs ++ (m ∷ [])

In-with_match : (x m : Match) (xs : List Match) → In x (with_match xs m) ↔ (In x xs ⊎ (m ≡ x))
unfolding with_match
In-with_match x m xs = elim (Bool-cases (contains_match xs m)) [
  | inl e ↦ rw e (
    λ i. inl i,
    λ h. elim h [ inl i ↦ i | inr p ↦ subst (λ z. In z xs) p ((contains_match_iff xs m).0 e) ],
  )
  | inr e ↦ rw e (
    λ i. elim (In-append x xs (m ∷ []) i) [
      | inl j ↦ inl j
      | inr (inl p) ↦ inr p
      | inr (inr j) ↦ absurd j
    ],
    λ h. elim h [
      | inl i ↦ In-append_left x xs (m ∷ []) i
      | inr p ↦ In-append_right x xs (m ∷ []) (inl p)
    ],
  )
]

with_match-Distinct : (xs : List Match) (m : Match) → Distinct xs → Distinct (with_match xs m)
unfolding with_match
with_match-Distinct xs m d = elim (Bool-cases (contains_match xs m)) [
  | inl e ↦ rw e d
  | inr e ↦ rw e (Distinct-snoc m xs (λ i. cc (e, (contains_match_iff xs m).1 i)) d)
]

-- No key has a match twice.
abbrev pub HasDistinctRows : Catalog → Type 0
HasDistinctRows w = (k : Str) → Distinct (entries (lookup w.packages k))

-- The matches of a key.
row : Catalog → Str → List Match
row w k = entries (lookup w.packages k)

module _ (unbind : Str → Result (Unit {0})) where
  row-add_checked :
      (w : Catalog) (k : Str) (m : Match) (j : Str)
      → row (add_checked unbind (ok tt) w k m).0 j
        ≡ (if str_eq k j then with_match (row w k) m else row w j)
  unfolding row add_checked with_match
  row-add_checked w k m j = elim (Bool-cases (contains_match (entries (lookup w.packages k)) m)) [
    | inl e ↦
        rw e
          (elim (Bool-cases (str_eq k j)) [ inl t ↦ rw (t, (str_eq_iff k j).0 t) | inr f ↦ rw f ])
    | inr e ↦ rw (e, lookup-insert) (elim (Bool-cases (str_eq k j)) [ inl t ↦ rw t | inr f ↦ rw f ])
  ]

  In-row :
      (k j : Str) (m x : Match) (old new own : List Match)
      → own ≡ (if str_eq k j then with_match old m else new)
      → (k ≡ j → old ≡ new)
      → In x own ↔ (In x new ⊎ ((k ≡ j) × (m ≡ x)))
  In-row k j m x old new own e same = elim (Bool-cases (str_eq k j)) [
    | inl t ↦
        let p = (str_eq_iff k j).0 t in
        rw (e, t, ← same p)
          (
            λ i. elim ((In-with_match x m old).0 i) [ inl l ↦ inl l | inr r ↦ inr (p, r) ],
            λ i. (In-with_match x m old).1 (elim i [ inl l ↦ inl l | inr r ↦ inr r.1 ]),
          )
    | inr f ↦
        rw (e, f) (λ i. inl i, λ i. elim i [ inl l ↦ l | inr r ↦ cc (f, (str_eq_iff k j).1 r.0) ])
  ]

  -- A package that is added has accepted parts, and the new catalog is that of the unchecked addition.
  add_package-ok :
      (w w' : Catalog) (pkg : Nevra) (m : Match)
      → add_package unbind w pkg m ≡ (w', ok tt)
      → w' ≡ (add_checked unbind (ok tt) w (key pkg) m).0
  unfolding add_package add_checked
  add_package-ok w w' pkg m h = elim (Result-cases (check_package unbind pkg m)) [
    | inl (u, e) ↦ sym (ap (λ q. q.0) (rw (e, add_checked) at h))
    | inr (x, e) ↦ cc (ap (λ q. q.1) (rw (e, add_checked) at h))
  ]

  -- After an addition without an error, a lookup finds what it found before and, for a package of the
  -- same key, the new match; and nothing else.
  pub lookup_matches-add_package :
      (w w' : Catalog) (pkg q : Nevra) (m x : Match)
      → add_package unbind w pkg m ≡ (w', ok tt)
      → In x (lookup_matches w' q) ↔ (In x (lookup_matches w q) ⊎ ((key pkg ≡ key q) × (m ≡ x)))
  unfolding lookup_matches row
  lookup_matches-add_package w w' pkg q m x h =
      let (forth, back) =
        In-row (key pkg) (key q) m x (row w (key pkg)) (row w (key q)) (row w' (key q))
          (ap (λ z. row z (key q)) (add_package-ok w w' pkg m h)
            ∙ row-add_checked w (key pkg) m (key q))
          (ap (row w)) in
      (
        λ i. elim (forth (In-sort_by match_le x (row w' (key q)) i)) [
          | inl l ↦ inl (In_sort_by match_le x (row w (key q)) l)
          | inr r ↦ inr r
        ],
        λ i. In_sort_by match_le x (row w' (key q)) (
            back
              (elim i [ inl l ↦ inl (In-sort_by match_le x (row w (key q)) l) | inr r ↦ inr r ])),
      )

  row_add_checked-Distinct :
      (w : Catalog) (k : Str) (m : Match) (r : Result (Unit {0}))
      → HasDistinctRows w
      → HasDistinctRows (add_checked unbind r w k m).0
  unfolding row
  row_add_checked-Distinct w k m (err e) d j = unfold add_checked in d j
  row_add_checked-Distinct w k m (ok u) d j =
      let e = row-add_checked w k m j in
      subst Distinct (sym e) (elim (Bool-cases (str_eq k j)) [
        | inl t ↦ rw t (with_match-Distinct (row w k) m (d k))
        | inr f ↦ rw f (d j)
      ])

  -- An addition, accepted or not, keeps the matches of every key distinct.
  pub add_package-HasDistinctRows :
      (w : Catalog) (pkg : Nevra) (m : Match)
      → HasDistinctRows w
      → HasDistinctRows (add_package unbind w pkg m).0
  unfolding add_package
  add_package-HasDistinctRows w pkg m d =
      row_add_checked-Distinct w (key pkg) m (check_package unbind pkg m) d

-- A lookup is sorted by repository and CPE, and without repetitions if the rows are.
pub lookup_matches-Sorted :
    (w : Catalog) (q : Nevra)
    → HasDistinctRows w
    → Sorted (Le match_le) (lookup_matches w q) × Distinct (lookup_matches w q)
unfolding lookup_matches
lookup_matches-Sorted w q d = (
  sort_by-Sorted match_le match_le-TotalOrder (entries (lookup w.packages (key q))),
  sort_by-Distinct match_le (entries (lookup w.packages (key q))) (d (key q)),
)
