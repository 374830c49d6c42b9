-- ===== src/Prelude/Lists.antt =====
-- Lists measured by native numbers, and predicates on lists by recursion.
use Prim.Native.Nat.{ℕ, suc, ◌+◌}
use mathlib.Core.Path.{◌≡◌, refl, sym, ap, subst}
use mathlib.Core.Logic.{◌⊎◌, ◌↔◌, inl, inr}
use mathlib.Core.Bool.{Bool, true}
use cvetool.Prelude.Tests.{if◌then◌else◌, Bool-cases}
use mathlib.Core.List.{List, [], ◌∷◌, ◌++◌, map}
use native.Mathlib.Omega.{arith}

module _ {ℓ} {A : Type ℓ} where
  abbrev pub length : List A → ℕ
  length [] = 0
  length (x ∷ xs) = suc (length xs)

  pub length-append : (xs ys : List A) → length (xs ++ ys) ≡ length xs + length ys
  length-append [] ys = omega arith
  length-append (x ∷ xs) ys = omega (arith, length-append xs ys)

-- `P` holds of every entry.
abbrev pub All {ℓ κ} : {A : Type ℓ} → (A → Type κ) → List A → Type κ
All P [] = Unit
All P (x ∷ xs) = P x × All P xs

-- `a` is an entry of the list; an element of this type is a position of `a`.
abbrev pub In : {A : Type 0} → A → List A → Type 0
In a [] = ⊥
In a (x ∷ xs) = (x ≡ a) ⊎ In a xs

-- No entry stands twice.
abbrev pub Distinct : {A : Type 0} → List A → Type 0
Distinct [] = Unit
Distinct (x ∷ xs) = (¬ In x xs) × Distinct xs

-- Each entry is related to all that follow it.
abbrev pub Sorted : {A : Type 0} → (A → A → Type 0) → List A → Type 0
Sorted R [] = Unit
Sorted R (x ∷ xs) = All (R x) xs × Sorted R xs

module _ {A : Type 0} where
  pub In-append_left : (a : A) (xs ys : List A) → In a xs → In a (xs ++ ys)
  In-append_left a [] ys h = elim h [ ]
  In-append_left a (x ∷ xs) ys (inl e) = inl e
  In-append_left a (x ∷ xs) ys (inr h) = inr (In-append_left a xs ys h)

  pub In-append_right : (a : A) (xs ys : List A) → In a ys → In a (xs ++ ys)
  In-append_right a [] ys h = h
  In-append_right a (x ∷ xs) ys h = inr (In-append_right a xs ys h)

  pub In-append : (a : A) (xs ys : List A) → In a (xs ++ ys) → In a xs ⊎ In a ys
  In-append a [] ys h = inr h
  In-append a (x ∷ xs) ys (inl e) = inl (inl e)
  In-append a (x ∷ xs) ys (inr h) = elim (In-append a xs ys h) [
    | inl l ↦ inl (inr l)
    | inr r ↦ inr r
  ]

  pub All_In : (P : A → Type 0) (xs : List A) (a : A) → All P xs → In a xs → P a
  All_In P [] a hs h = elim h [ ]
  All_In P (x ∷ xs) a (hx, hs) (inl e) = subst P e hx
  All_In P (x ∷ xs) a (hx, hs) (inr h) = All_In P xs a hs h

  pub All-append : (P : A → Type 0) (xs ys : List A) → All P xs → All P ys → All P (xs ++ ys)
  All-append P [] ys hx hy = hy
  All-append P (x ∷ xs) ys (h, hx) hy = (h, All-append P xs ys hx hy)

  pub All-mono : (P Q : A → Type 0) (xs : List A) → ((a : A) → P a → Q a) → All P xs → All Q xs
  All-mono P Q [] f h = tt
  All-mono P Q (x ∷ xs) f (hx, hs) = (f x hx, All-mono P Q xs f hs)

  pub All-from_members : (P : A → Type 0) (xs : List A) → ((a : A) → In a xs → P a) → All P xs
  All-from_members P [] h = tt
  All-from_members P (x ∷ xs) h = (h x (inl refl), All-from_members P xs (λ a i. h a (inr i)))

  pub Distinct-snoc : (a : A) (xs : List A) → ¬ In a xs → Distinct xs → Distinct (xs ++ (a ∷ []))
  Distinct-snoc a [] n d = (λ i. i, tt)
  Distinct-snoc a (x ∷ xs) n (nx, d) = (
    λ i. elim (In-append x xs (a ∷ []) i) [
      | inl j ↦ nx j
      | inr (inl e) ↦ n (inl (sym e))
      | inr (inr j) ↦ j
    ],
    Distinct-snoc a xs (λ i. n (inr i)) d,
  )

module _ {A : Type 0} (p : A → Bool) where
  -- The entries that pass the test. It runs, unlike the library's `filter` over a shut decision.
  unfoldable pub filter_by : List A → List A
  filter_by [] = []
  filter_by (x ∷ xs) = let rest = filter_by xs in if p x then x ∷ rest else rest

module _ {A : Type 0} (p : A → Bool) where
  pub In-filter_by : (a : A) (xs : List A) → In a (filter_by p xs) ↔ (In a xs × (p a ≡ true))
  unfolding filter_by
  In-filter_by a [] = (λ i. absurd i, λ h. h.0)
  In-filter_by a (x ∷ xs) = elim (Bool-cases (p x)) [
    | inl e ↦ rw e (
      λ i. elim i [
        | inl q ↦ (inl q, subst (λ z. p z ≡ true) q e)
        | inr j ↦ (inr ((In-filter_by a xs).0 j).0, ((In-filter_by a xs).0 j).1)
      ],
      λ h. elim h.0 [ inl q ↦ inl q | inr j ↦ inr ((In-filter_by a xs).1 (j, h.1)) ],
    )
    | inr e ↦ rw e (
      λ i. (inr ((In-filter_by a xs).0 i).0, ((In-filter_by a xs).0 i).1),
      λ h. elim h.0 [ inl q ↦ cc (e, h.1, ap p q) | inr j ↦ (In-filter_by a xs).1 (j, h.1) ],
    )
  ]

  pub All-filter_by : (P : A → Type 0) (xs : List A) → All P xs → All P (filter_by p xs)
  All-filter_by P xs h =
      All-from_members P (filter_by p xs) (λ a i. All_In P xs a h ((In-filter_by a xs).0 i).0)

  pub filter_by-Sorted :
      (R : A → A → Type 0) (xs : List A) → Sorted R xs → Sorted R (filter_by p xs)
  unfolding filter_by
  filter_by-Sorted R [] h = tt
  filter_by-Sorted R (x ∷ xs) (hx, hs) = elim (Bool-cases (p x)) [
    | inl e ↦ rw e (All-filter_by (R x) xs hx, filter_by-Sorted R xs hs)
    | inr e ↦ rw e (filter_by-Sorted R xs hs)
  ]

  pub filter_by-Distinct : (xs : List A) → Distinct xs → Distinct (filter_by p xs)
  unfolding filter_by
  filter_by-Distinct [] h = tt
  filter_by-Distinct (x ∷ xs) (n, d) = elim (Bool-cases (p x)) [
    | inl e ↦ rw e ((λ i. n ((In-filter_by x xs).0 i).0), filter_by-Distinct xs d)
    | inr e ↦ rw e (filter_by-Distinct xs d)
  ]

module _ {A : Type 0} where
  -- An entry in the middle of a list, and the list without it.
  pub In-middle : (a x : A) (xs ys : List A) → In a (xs ++ (x ∷ ys)) ↔ ((x ≡ a) ⊎ In a (xs ++ ys))
  In-middle a x [] ys = (λ i. i, λ i. i)
  In-middle a x (z ∷ xs) ys = (
    λ i. elim i [
      | inl e ↦ inr (inl e)
      | inr j ↦ elim ((In-middle a x xs ys).0 j) [ inl e ↦ inl e | inr k ↦ inr (inr k) ]
    ],
    λ i. elim i [
      | inl e ↦ inr ((In-middle a x xs ys).1 (inl e))
      | inr (inl e) ↦ inl e
      | inr (inr j) ↦ inr ((In-middle a x xs ys).1 (inr j))
    ],
  )

  pub Distinct-middle :
      (x : A) (xs ys : List A)
      → Distinct (xs ++ (x ∷ ys))
      → Distinct (xs ++ ys) × (¬ In x (xs ++ ys))
  Distinct-middle x [] ys (n, d) = (d, n)
  Distinct-middle x (z ∷ xs) ys (n, d) =
      let (d', n') = Distinct-middle x xs ys d in
      (
        (λ i. n ((In-middle z x xs ys).1 (inr i)), d'),
        λ i. elim i [ inl e ↦ n ((In-middle z x xs ys).1 (inl (sym e))) | inr j ↦ n' j ],
      )

module _ {A B : Type 0} (f : A → B) where
  pub In-map : (a : A) (xs : List A) → In a xs → In (f a) (map f xs)
  In-map a [] i = absurd i
  In-map a (x ∷ xs) (inl e) = inl (ap f e)
  In-map a (x ∷ xs) (inr i) = inr (In-map a xs i)

  pub In_map : (b : B) (xs : List A) → In b (map f xs) → (a : A) × In a xs × (f a ≡ b)
  In_map b [] i = absurd i
  In_map b (x ∷ xs) (inl e) = (x, inl refl, e)
  In_map b (x ∷ xs) (inr i) = let (a, j, e) = In_map b xs i in (a, inr j, e)
