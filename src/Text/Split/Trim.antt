-- ===== src/Text/Split/Trim.antt =====
-- Trimming twice is trimming once.
use cvetool.Prelude.{Bool-cases, ℕ, ◌≡◌, refl, inl, inr, Bool, true, false, [], ◌∷◌}
use cvetool.Text.Order.{Str}
use cvetool.Text.Split.{drop_if_last, is_space, trim_left_func, trim_right_func, trim_space}

-- The first code point is no space.
abbrev StartsPlain : Str → Type 0
StartsPlain [] = Unit
StartsPlain (c ∷ s) = is_space c ≡ false

abbrev left : Str → Str
left = trim_left_func is_space

abbrev right : Str → Str
right = trim_right_func is_space

left-StartsPlain : (s : Str) → StartsPlain (left s)
unfolding trim_left_func
left-StartsPlain [] = tt
left-StartsPlain (c ∷ s) = elim (Bool-cases (is_space c)) [
  | inl e ↦ rw e (left-StartsPlain s)
  | inr e ↦ rw e e
]

left_of_StartsPlain : (s : Str) → StartsPlain s → left s ≡ s
unfolding trim_left_func
left_of_StartsPlain [] h = refl
left_of_StartsPlain (c ∷ s) h = rw h

right-drop_if_last :
    (b : Bool) (c : ℕ) (t : Str)
    → is_space c ≡ b
    → right t ≡ t
    → right (drop_if_last b c t) ≡ drop_if_last b c t
unfolding trim_right_func
right-drop_if_last true c [] e h = refl
right-drop_if_last true c (d ∷ t) e h = rw (e, h)
right-drop_if_last false c t e h = rw (e, h)

right-StartsPlain : (s : Str) → StartsPlain s → StartsPlain (right s)
unfolding trim_right_func
right-StartsPlain [] h = tt
right-StartsPlain (c ∷ s) h = rw h h

right-right : (s : Str) → right (right s) ≡ right s
unfolding trim_right_func
right-right [] = refl
right-right (c ∷ s) = right-drop_if_last (is_space c) c (right s) refl (right-right s)

-- `strings.TrimSpace` is idempotent.
pub trim_space_idem : (s : Str) → trim_space (trim_space s) ≡ trim_space s
unfolding trim_space
trim_space_idem s =
    rw (left_of_StartsPlain _ (right-StartsPlain _ (left-StartsPlain s))) (right-right (left s))
