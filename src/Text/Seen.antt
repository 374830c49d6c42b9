-- ===== src/Text/Seen.antt =====
-- The loop that the program writes to drop repetitions: a map `seen` of the texts that were met, and
-- an `append` of each text that is not in it.
use mathlib.Core.Path.{subst}
use cvetool.Prelude.{
  if◌then◌else◌, Bool-cases, In, Distinct, Sorted, All_In, All-from_members, ◌≡◌, refl, sym, inl,
  inr, Bool, true, false, ◌||◌, List, [], ◌∷◌, arith,
}
use cvetool.Text.Order.{Str, str_eq, str_eq_iff}

-- `slices.Contains` on strings, and a lookup in a map that is used as a set.
unfoldable pub contains : List Str → Str → Bool
contains [] a = false
contains (x ∷ xs) a = str_eq x a || contains xs a

pub contains_In : (xs : List Str) (a : Str) → contains xs a ≡ true → In a xs
unfolding contains
contains_In [] a h = ground arith
contains_In (x ∷ xs) a h = elim (Bool-cases (str_eq x a)) [
  | inl e ↦ inl ((str_eq_iff x a).0 e)
  | inr e ↦ inr (contains_In xs a (rw e at h))
]

pub In_contains : (xs : List Str) (a : Str) → In a xs → contains xs a ≡ true
unfolding contains
In_contains [] a h = elim h [ ]
In_contains (x ∷ xs) a (inl e) = rw ((str_eq_iff x a).1 e)
In_contains (x ∷ xs) a (inr i) = ground (arith, In_contains xs a i)

pub not_In_of_contains : (xs : List Str) (a : Str) → contains xs a ≡ false → ¬ In a xs
not_In_of_contains xs a h i = cc (h, In_contains xs a i)

-- The texts of the list that are not in `seen`, each at its first place.
unfoldable pub unseen : List Str → List Str → List Str
unseen seen [] = []
unseen seen (x ∷ xs) =
    let skip = unseen seen xs in
    let keep = x ∷ unseen (x ∷ seen) xs in if contains seen x then skip else keep

kept :
    (a : Str) (seen : List Str) (x : Str) (xs : List Str)
    → contains seen x ≡ false
    → (In a (unseen (x ∷ seen) xs) → In a xs × (¬ In a (x ∷ seen)))
    → In a (x ∷ unseen (x ∷ seen) xs)
    → In a (x ∷ xs) × (¬ In a seen)
kept a seen x xs e f (inl p) =
    (inl p, λ i. not_In_of_contains seen x e (subst (λ z. In z seen) (sym p) i))
kept a seen x xs e f (inr i) = let (j, n) = f i in (inr j, λ k. n (inr k))

pub In-unseen : (a : Str) (seen xs : List Str) → In a (unseen seen xs) → In a xs × (¬ In a seen)
unfolding unseen
In-unseen a seen [] h = elim h [ ]
In-unseen a seen (x ∷ xs) h = elim (Bool-cases (contains seen x)) [
  | inl e ↦ let (i, n) = In-unseen a seen xs (rw e at h) in (inr i, n)
  | inr e ↦ kept a seen x xs e (In-unseen a (x ∷ seen) xs) (rw e at h)
]

first_or_later :
    (a : Str) (seen : List Str) (x : Str) (xs : List Str)
    → ¬ In a seen
    → (¬ In a (x ∷ seen) → In a (unseen (x ∷ seen) xs))
    → In a (x ∷ unseen (x ∷ seen) xs)
first_or_later a seen x xs n f = elim (Bool-cases (str_eq x a)) [
  | inl e ↦ inl ((str_eq_iff x a).0 e)
  | inr e ↦ inr (f (elim [ inl p ↦ cc (e, (str_eq_iff x a).1 p) | inr i ↦ n i ]))
]

pub In_unseen : (a : Str) (seen xs : List Str) → In a xs → ¬ In a seen → In a (unseen seen xs)
unfolding unseen
In_unseen a seen [] h n = elim h [ ]
In_unseen a seen (x ∷ xs) (inl p) n = elim (Bool-cases (contains seen x)) [
  | inl e ↦ absurd (n (subst (λ z. In z seen) p (contains_In seen x e)))
  | inr e ↦ rw e (inl p)
]
In_unseen a seen (x ∷ xs) (inr i) n = elim (Bool-cases (contains seen x)) [
  | inl e ↦ rw e (In_unseen a seen xs i n)
  | inr e ↦ rw e (first_or_later a seen x xs n (In_unseen a (x ∷ seen) xs i))
]

pub unseen-Distinct : (seen xs : List Str) → Distinct (unseen seen xs)
unfolding unseen
unseen-Distinct seen [] = tt
unseen-Distinct seen (x ∷ xs) = elim (Bool-cases (contains seen x)) [
  | inl e ↦ rw e (unseen-Distinct seen xs)
  | inr e ↦ rw e ((λ i. (In-unseen x (x ∷ seen) xs i).1 (inl refl)), unseen-Distinct (x ∷ seen) xs)
]

pub unseen-Sorted :
    (R : Str → Str → Type 0) (seen xs : List Str) → Sorted R xs → Sorted R (unseen seen xs)
unfolding unseen
unseen-Sorted R seen [] h = tt
unseen-Sorted R seen (x ∷ xs) (hx, hs) = elim (Bool-cases (contains seen x)) [
  | inl e ↦ rw e (unseen-Sorted R seen xs hs)
  | inr e ↦ rw e (
    All-from_members (R x) (unseen (x ∷ seen) xs)
        (λ a i. All_In (R x) xs a hx (In-unseen a (x ∷ seen) xs i).0),
    unseen-Sorted R (x ∷ seen) xs hs,
  )
]
