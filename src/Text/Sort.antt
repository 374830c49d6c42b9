-- ===== src/Text/Sort.antt =====
-- `sort.Strings` and `sort.Slice`, as insertion sort over the comparison that the code gives. The
-- comparisons of the program are total orders, for which the sorted list does not depend on the method.
use cvetool.Prelude.{
  if◌then◌else◌, Bool-cases, length, All, In, Distinct, Sorted, All_In, suc, ◌≡◌, refl, sym, ◌∙◌,
  ◌⊎◌, inl, inr, Bool, true, false, List, [], ◌∷◌, arith,
}
use mathlib.Core.Path.{subst}
use cvetool.Text.Order.{Str, str_le, str_le_total, str_le_trans, str_le_antisym}

module _ {A : Type 0} (le : A → A → Bool) where
  unfoldable pub insert_by : A → List A → List A
  insert_by a [] = a ∷ []
  insert_by a (x ∷ xs) = if le a x then a ∷ x ∷ xs else x ∷ insert_by a xs

  unfoldable pub sort_by : List A → List A
  unfolding insert_by
  sort_by [] = []
  sort_by (x ∷ xs) = insert_by x (sort_by xs)

abbrev pub Le : {A : Type 0} → (A → A → Bool) → A → A → Type 0
Le le a b = le a b ≡ true

pub record TotalOrder {A : Type 0} (le : A → A → Bool) : Type 0 where
  pub total : (a b : A) → le a b ≡ false → le b a ≡ true
  pub trans : (a b c : A) → le a b ≡ true → le b c ≡ true → le a c ≡ true
  pub antisym : (a b : A) → le a b ≡ true → le b a ≡ true → a ≡ b

pub str_le-TotalOrder : TotalOrder str_le
str_le-TotalOrder = record { total = str_le_total; trans = str_le_trans; antisym = str_le_antisym }

module _ {A : Type 0} (le : A → A → Bool) where
  pub In-insert_by : (a b : A) (xs : List A) → In b (insert_by le a xs) → (a ≡ b) ⊎ In b xs
  unfolding insert_by
  In-insert_by a b [] h = h
  In-insert_by a b (x ∷ xs) h = ground (arith, In-insert_by a b xs)

  pub In_insert_by : (a b : A) (xs : List A) → (a ≡ b) ⊎ In b xs → In b (insert_by le a xs)
  unfolding insert_by
  In_insert_by a b [] h = h
  In_insert_by a b (x ∷ xs) h = ground (arith, In_insert_by a b xs)

  All-insert_by :
      (P : A → Type 0) (a : A) (xs : List A) → P a → All P xs → All P (insert_by le a xs)
  unfolding insert_by
  All-insert_by P a [] h hs = (h, tt)
  All-insert_by P a (x ∷ xs) h (hx, hs) = elim (Bool-cases (le a x)) [
    | inl e ↦ rw e (h, (hx, hs))
    | inr e ↦ rw e (hx, All-insert_by P a xs h hs)
  ]

module _ {A : Type 0} (le : A → A → Bool) (total : (a b : A) → le a b ≡ false → le b a ≡ true)
    (trans : (a b c : A) → le a b ≡ true → le b c ≡ true → le a c ≡ true) where
  Le-All : (a x : A) (xs : List A) → Le le a x → All (Le le x) xs → All (Le le a) xs
  Le-All a x [] h hs = tt
  Le-All a x (y ∷ ys) h (hy, hys) = (trans a x y h hy, Le-All a x ys h hys)

  insert_by-Sorted_of :
      (a : A) (xs : List A) → Sorted (Le le) xs → Sorted (Le le) (insert_by le a xs)
  unfolding insert_by
  insert_by-Sorted_of a [] h = (tt, tt)
  insert_by-Sorted_of a (x ∷ xs) (hx, hs) = elim (Bool-cases (le a x)) [
    | inl e ↦ rw e ((e, Le-All a x xs e hx), (hx, hs))
    | inr e ↦ rw e (All-insert_by le (Le le x) a xs (total a x e) hx, insert_by-Sorted_of a xs hs)
  ]

  -- The sorted list, also where entries may be equal in the order.
  pub sort_by-Sorted_of : (xs : List A) → Sorted (Le le) (sort_by le xs)
  unfolding sort_by
  sort_by-Sorted_of [] = tt
  sort_by-Sorted_of (x ∷ xs) = insert_by-Sorted_of x (sort_by le xs) (sort_by-Sorted_of xs)

module _ {A : Type 0} (le : A → A → Bool) (order : TotalOrder le) where
  pub insert_by-Sorted :
      (a : A) (xs : List A) → Sorted (Le le) xs → Sorted (Le le) (insert_by le a xs)
  insert_by-Sorted = insert_by-Sorted_of le order.total order.trans

  pub sort_by-Sorted : (xs : List A) → Sorted (Le le) (sort_by le xs)
  sort_by-Sorted = sort_by-Sorted_of le order.total order.trans

  -- Sorting a sorted list changes nothing.
  pub sort_by-eq_self : (xs : List A) → Sorted (Le le) xs → sort_by le xs ≡ xs
  unfolding sort_by
  sort_by-eq_self [] h = refl
  sort_by-eq_self (x ∷ []) h = refl
  sort_by-eq_self (x ∷ y ∷ ys) (hx, hs) = rw (sort_by-eq_self (y ∷ ys) hs, hx.0)

  heads_eq :
      (x y : A) (xs ys : List A)
      → All (Le le x) xs
      → All (Le le y) ys
      → In x (y ∷ ys)
      → In y (x ∷ xs)
      → x ≡ y
  heads_eq x y xs ys hx hy (inl e) i = sym e
  heads_eq x y xs ys hx hy (inr j) (inl e) = e
  heads_eq x y xs ys hx hy (inr j) (inr i) =
      order.antisym x y (All_In (Le le x) xs y hx i) (All_In (Le le y) ys x hy j)

  tail_In :
      (x y : A) (xs ys : List A) → ¬ In x xs → x ≡ y → (a : A) → In a xs → In a (y ∷ ys) → In a ys
  tail_In x y xs ys nx e a i (inl p) = absurd (nx (subst (λ z. In z xs) (sym (e ∙ p)) i))
  tail_In x y xs ys nx e a i (inr j) = j

  -- Two sorted lists without repetition that have the same entries are equal.
  pub Sorted-ext :
      (xs ys : List A)
      → Sorted (Le le) xs
      → Sorted (Le le) ys
      → Distinct xs
      → Distinct ys
      → ((a : A) → In a xs → In a ys)
      → ((a : A) → In a ys → In a xs)
      → xs ≡ ys
  Sorted-ext [] [] hx hy dx dy f g = refl
  Sorted-ext [] (y ∷ ys) hx hy dx dy f g = absurd (g y (inl refl))
  Sorted-ext (x ∷ xs) [] hx hy dx dy f g = absurd (f x (inl refl))
  Sorted-ext (x ∷ xs) (y ∷ ys) (hx, hxs) (hy, hys) (nx, dx) (ny, dy) f g =
      let same = heads_eq x y xs ys hx hy (f x (inl refl)) (g y (inl refl)) in
      cc (
        same,
        Sorted-ext xs ys hxs hys dx dy (λ a i. tail_In x y xs ys nx same a i (f a (inr i)))
            (λ a i. tail_In y x ys xs ny (sym same) a i (g a (inr i))),
      )

module _ {A : Type 0} (le : A → A → Bool) where
  pub In-sort_by : (b : A) (xs : List A) → In b (sort_by le xs) → In b xs
  unfolding sort_by
  In-sort_by b [] h = h
  In-sort_by b (x ∷ xs) h = elim (In-insert_by le x b (sort_by le xs) h) [
    | inl e ↦ inl e
    | inr i ↦ inr (In-sort_by b xs i)
  ]

  pub In_sort_by : (b : A) (xs : List A) → In b xs → In b (sort_by le xs)
  unfolding sort_by
  In_sort_by b [] h = h
  In_sort_by b (x ∷ xs) (inl e) = In_insert_by le x b (sort_by le xs) (inl e)
  In_sort_by b (x ∷ xs) (inr i) = In_insert_by le x b (sort_by le xs) (inr (In_sort_by b xs i))

  pub insert_by-Distinct :
      (a : A) (xs : List A) → ¬ In a xs → Distinct xs → Distinct (insert_by le a xs)
  unfolding insert_by
  insert_by-Distinct a [] h d = (λ z. z, tt)
  insert_by-Distinct a (x ∷ xs) h (nx, d) = elim (Bool-cases (le a x)) [
    | inl e ↦ rw e (h, (nx, d))
    | inr e ↦ rw e (
      λ i. elim (In-insert_by le a x xs i) [ inl p ↦ h (inl (sym p)) | inr j ↦ nx j ],
      insert_by-Distinct a xs (λ i. h (inr i)) d,
    )
  ]

  pub sort_by-Distinct : (xs : List A) → Distinct xs → Distinct (sort_by le xs)
  unfolding sort_by
  sort_by-Distinct [] d = tt
  sort_by-Distinct (x ∷ xs) (nx, d) =
      insert_by-Distinct x (sort_by le xs) (λ i. nx (In-sort_by x xs i)) (sort_by-Distinct xs d)

  length-insert_by : (a : A) (xs : List A) → length (insert_by le a xs) ≡ suc (length xs)
  unfolding insert_by
  length-insert_by a [] = refl
  length-insert_by a (x ∷ xs) = ground (arith, length-insert_by a xs)

  pub length-sort_by : (xs : List A) → length (sort_by le xs) ≡ length xs
  unfolding sort_by
  length-sort_by [] = refl
  length-sort_by (x ∷ xs) = omega (arith, length-insert_by x (sort_by le xs), length-sort_by xs)

-- `sort.Strings`
unfoldable pub sort_strings : List Str → List Str
unfolding sort_by
sort_strings = sort_by str_le
