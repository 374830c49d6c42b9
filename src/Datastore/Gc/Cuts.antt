-- ===== src/Datastore/Gc/Cuts.antt =====
-- Lists that are cut, and lists of entries that a function tells apart.
use cvetool.Prelude.{
  ltb, Bool-cases, length, length-append, In, Distinct, Sorted, In-append_left, In-append_right,
  In-append, All_In, In-middle, In-map, ℕ, zero, suc, ◌≤◌, ◌≡◌, refl, sym, ap, ◌∙◌, ◌⊎◌, inl, inr,
  List, [], ◌∷◌, ◌++◌, map, arith,
}
use cvetool.Datastore.Gc.{drop, take, min}
use mathlib.Core.Path.{subst}

module _ {A : Type 0} where
  pub split_at : (a : A) (ys : List A) → In a ys → (l : List A) × (r : List A) × (ys ≡ l ++ (a ∷ r))
  split_at a [] i = absurd i
  split_at a (y ∷ ys) (inl e) = ([], ys, ap (λ z. z ∷ ys) e)
  split_at a (y ∷ ys) (inr i) = let (l, r, e) = split_at a ys i in (y ∷ l, r, ap (λ zs. y ∷ zs) e)

  -- Distinct entries of a list are not more than its length.
  pub length-le_of_Distinct :
      (xs ys : List A) → Distinct xs → ((a : A) → In a xs → In a ys) → length xs ≤ length ys
  length-le_of_Distinct [] ys d f = omega arith
  length-le_of_Distinct (x ∷ xs) ys (n, d) f =
      let (l, r, e) = split_at x ys (f x (inl refl)) in
      let smaller = length-le_of_Distinct xs (l ++ r) d (λ a i.
        elim ((In-middle a x l r).0 (subst (In a) e (f a (inr i)))) [
          | inl p ↦ absurd (n (subst (λ z. In z xs) (sym p) i))
          | inr j ↦ j
        ]) in
      omega (arith, smaller, ap length e, length-append l (x ∷ r), length-append l r)

  pub take-append-drop : (n : ℕ) (xs : List A) → take n xs ++ drop n xs ≡ xs
  take-append-drop zero xs = refl
  take-append-drop (suc n) [] = refl
  take-append-drop (suc n) (x ∷ xs) = ap (λ zs. x ∷ zs) (take-append-drop n xs)

  pub length-take : (n : ℕ) (xs : List A) → length (take n xs) ≤ n
  length-take zero xs = omega arith
  length-take (suc n) [] = omega arith
  length-take (suc n) (x ∷ xs) = omega (arith, length-take n xs)

  pub drop_all : (n : ℕ) (xs : List A) → length xs ≤ n → drop n xs ≡ []
  drop_all zero [] h = refl
  drop_all zero (x ∷ xs) h = absurd (omega arith)
  drop_all (suc n) [] h = refl
  drop_all (suc n) (x ∷ xs) h = drop_all n xs (omega arith)

  -- The cut at `min(len, keep)` is the cut at `keep`.
  pub drop-min : (keep : ℕ) (xs : List A) → drop (min (length xs) keep) xs ≡ drop keep xs
  drop-min keep xs = elim (Bool-cases (ltb (length xs) keep)) [
    | inl e ↦ rw e (drop_all (length xs) xs (omega arith) ∙ sym (drop_all keep xs (ground arith)))
    | inr e ↦ rw e
  ]

  pub In-take_drop : (a : A) (n : ℕ) (xs : List A) → In a xs → In a (take n xs) ⊎ In a (drop n xs)
  In-take_drop a n xs i =
      In-append a (take n xs) (drop n xs) (subst (In a) (sym (take-append-drop n xs)) i)

  pub In_take : (a : A) (n : ℕ) (xs : List A) → In a (take n xs) → In a xs
  In_take a n xs i =
      subst (In a) (take-append-drop n xs) (In-append_left a (take n xs) (drop n xs) i)

  pub In_drop : (a : A) (n : ℕ) (xs : List A) → In a (drop n xs) → In a xs
  In_drop a n xs i =
      subst (In a) (take-append-drop n xs) (In-append_right a (take n xs) (drop n xs) i)

  pub not_both : (a : A) (n : ℕ) (xs : List A) → Distinct xs → In a (take n xs) → ¬ In a (drop n xs)
  not_both a zero xs d i j = i
  not_both a (suc n) [] d i j = i
  not_both a (suc n) (x ∷ xs) (nx, d) (inl e) j =
      nx (subst (λ z. In z xs) (sym e) (In_drop a n xs j))
  not_both a (suc n) (x ∷ xs) (nx, d) (inr i) j = not_both a n xs d i j

module _ {A : Type 0} where
  pub length-take-min : (n : ℕ) (xs : List A) → length (take n xs) ≡ min n (length xs)
  length-take-min zero xs = ground arith
  length-take-min (suc n) [] = ground arith
  length-take-min (suc n) (x ∷ xs) = ground (arith, length-take-min n xs)

  pub Distinct-take : (n : ℕ) (xs : List A) → Distinct xs → Distinct (take n xs)
  Distinct-take zero xs d = tt
  Distinct-take (suc n) [] d = tt
  Distinct-take (suc n) (x ∷ xs) (nx, d) = (λ i. nx (In_take x n xs i), Distinct-take n xs d)

  -- In a sorted list, what stands before the cut is related to what stands behind it.
  pub Sorted-take_drop :
      (R : A → A → Type 0) (n : ℕ) (xs : List A) (a b : A)
      → Sorted R xs
      → In a (take n xs)
      → In b (drop n xs)
      → R a b
  Sorted-take_drop R zero xs a b s i j = absurd i
  Sorted-take_drop R (suc n) [] a b s i j = absurd i
  Sorted-take_drop R (suc n) (x ∷ xs) a b (h, s) (inl e) j =
      subst (λ z. R z b) e (All_In (R x) xs b h (In_drop b n xs j))
  Sorted-take_drop R (suc n) (x ∷ xs) a b (h, s) (inr i) j = Sorted-take_drop R n xs a b s i j

module _ {A B : Type 0} (f : A → B) where
  pub map-drop : (n : ℕ) (xs : List A) → drop n (map f xs) ≡ map f (drop n xs)
  map-drop zero xs = refl
  map-drop (suc n) [] = refl
  map-drop (suc n) (x ∷ xs) = map-drop n xs

  pub Distinct-map_inverse : (xs : List A) → Distinct (map f xs) → Distinct xs
  Distinct-map_inverse [] d = tt
  Distinct-map_inverse (x ∷ xs) (n, d) = (λ i. n (In-map f x xs i), Distinct-map_inverse xs d)

  pub injective_on :
      (xs : List A) → Distinct (map f xs) → (a b : A) → In a xs → In b xs → f a ≡ f b → a ≡ b
  injective_on [] d a b i j e = absurd i
  injective_on (x ∷ xs) (n, d) a b (inl p) (inl q) e = sym p ∙ q
  injective_on (x ∷ xs) (n, d) a b (inl p) (inr j) e =
      absurd (n (subst (λ z. In z (map f xs)) (sym (ap f p ∙ e)) (In-map f b xs j)))
  injective_on (x ∷ xs) (n, d) a b (inr i) (inl q) e =
      absurd (n (subst (λ z. In z (map f xs)) (e ∙ sym (ap f q)) (In-map f a xs i)))
  injective_on (x ∷ xs) (n, d) a b (inr i) (inr j) e = injective_on xs d a b i j e
