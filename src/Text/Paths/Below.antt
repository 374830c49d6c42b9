-- ===== src/Text/Paths/Below.antt =====
-- Paths that lie below a directory, by their elements: what the tests of `filepath.Rel` against ".."
-- in catalog/dnf.go and catalog/target.go mean.
use cvetool.Prelude.{
  Bool-cases, ok, ok_injective, ◌≡◌, refl, sym, ap, ◌∙◌, inl, inr, Bool, true, false, not, ◌&&◌,
  ◌||◌, List, [], ◌∷◌, ◌++◌, map, append-nil, arith,
}
use cvetool.Text.Order.{Str, codes, str_eq, str_eq_iff}
use cvetool.Text.Split.{join, has_prefix}
use cvetool.Text.Paths.{is_abs, elements, or_dot, after_common, starts_up, rel}

-- The path has all elements of the root, and then others; both are absolute or neither.
abbrev pub LiesBelow : Str → Str → Type 0
LiesBelow root path =
    (is_abs path ≡ is_abs root) × (rest : List Str) × (elements path ≡ elements root ++ rest)

after_common_lem :
    (bs ts : List Str)
    → (common : List Str) × (bs ≡ common ++ (after_common bs ts).0)
      × (ts ≡ common ++ (after_common bs ts).1)
unfolding after_common
after_common_lem [] ts = ([], refl, refl)
after_common_lem (b ∷ bs) [] = ([], refl, refl)
after_common_lem (b ∷ bs) (t ∷ ts) = elim (Bool-cases (str_eq b t)) [
  | inr e ↦ rw e ([], refl, refl)
  | inl e ↦
      let (common, p, q) = after_common_lem bs ts in
      rw e (b ∷ common, ap (λ z. b ∷ z) p, cc (ap (λ z. b ∷ z) q, (str_eq_iff b t).0 e))
]

-- The test of a relative path.
abbrev pub within : Str → Bool
within relative =
    str_eq relative (codes ".")
    || (not (str_eq relative (codes "..")) && not (has_prefix relative (codes "../")))

up_within :
    (us ds : List Str) → within (or_dot (join ((codes "..") ∷ (us ++ ds)) (codes "/"))) ≡ false
unfolding join str_eq has_prefix
up_within [] [] = refl
up_within [] (d ∷ ds) = refl
up_within (u ∷ us) ds = refl

below_of :
    (root path relative : Str) (up down common : List Str)
    → elements root ≡ common ++ up
    → elements path ≡ common ++ down
    → or_dot (join (map (λ b. codes "..") up ++ down) (codes "/")) ≡ relative
    → within relative ≡ true
    → (rest : List Str) × (elements path ≡ elements root ++ rest)
below_of root path relative [] down common p q e h =
    (down, q ∙ ap (λ z. z ++ down) (sym (append-nil common) ∙ sym p))
below_of root path relative (u ∷ us) down common p q e h =
    cc (up_within (map (λ b. codes "..") us) down, ap within e, h)

-- A relative path of `filepath.Rel` that passes the test is one of a path below the root.
pub within-LiesBelow :
    (root path relative : Str)
    → rel root path ≡ ok relative
    → within relative ≡ true
    → LiesBelow root path
unfolding rel
within-LiesBelow root path relative e h =
    let (up, down) = after_common (elements root) (elements path) in
    let differ = (is_abs root && not (is_abs path)) || (is_abs path && not (is_abs root)) in
    elim (Bool-cases (differ || starts_up up)) [
      | inl f ↦ cc (rw f at e)
      | inr f ↦
          let (common, p, q) = after_common_lem (elements root) (elements path) in
          let (rest, t) =
            below_of root path relative up down common p q (ok_injective (rw f at e)) h in
          (ground (arith, f), rest, t)
    ]
