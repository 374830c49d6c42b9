-- ===== src/Text/Split/Laws.antt =====
-- `Split` undoes `Join`, and `Cut` and `LastIndexByte` find the separator between two texts.
use cvetool.Prelude.{◌==◌, ==_refl, All, ℕ, ◌≡◌, refl, true, false, none, some, List, [], ◌∷◌, ◌++◌}
use cvetool.Text.Order.{Str}
use cvetool.Text.Split.{push, split, split_double, join, cut, cut_last}

-- The separator does not occur in the text.
abbrev pub Lacks : ℕ → Str → Type 0
Lacks sep = All (λ c. (c == sep) ≡ false)

pub split-append :
    (p s : Str) (sep : ℕ) → Lacks sep p → split (p ++ (sep ∷ s)) sep ≡ p ∷ split s sep
unfolding split
split-append [] s sep h = rw (==_refl sep)
split-append (c ∷ p) s sep (hc, hs) = rw hc (rw (split-append p s sep hs))

pub split-Lacks : (p : Str) (sep : ℕ) → Lacks sep p → split p sep ≡ p ∷ []
unfolding split
split-Lacks [] sep h = refl
split-Lacks (c ∷ p) sep (hc, hs) = rw hc (rw (split-Lacks p sep hs))

join-one : (p sep : Str) → join (p ∷ []) sep ≡ p
unfolding join
join-one p sep = refl

join-cons :
    (p q : Str) (ps : List Str) (sep : Str)
    → join (p ∷ q ∷ ps) sep ≡ p ++ (sep ++ join (q ∷ ps) sep)
unfolding join
join-cons p q ps sep = refl

-- A split of joined parts gives the parts back, if there is a part and none has the separator.
pub split-join :
    (p : Str) (ps : List Str) (sep : ℕ)
    → All (Lacks sep) (p ∷ ps)
    → split (join (p ∷ ps) (sep ∷ [])) sep ≡ p ∷ ps
split-join p [] sep (h, hs) = rw join-one (split-Lacks p sep h)
split-join p (q ∷ ps) sep (h, hs) =
    rw (join-cons, split-append p (join (q ∷ ps) (sep ∷ [])) sep h, split-join q ps sep hs)

pub cut-append : (p s : Str) (sep : ℕ) → Lacks sep p → cut (p ++ (sep ∷ s)) sep ≡ (p, s, true)
unfolding cut
cut-append [] s sep h = rw (==_refl sep)
cut-append (c ∷ p) s sep (hc, hs) = rw hc (rw (cut-append p s sep hs))

pub cut-Lacks : (p : Str) (sep : ℕ) → Lacks sep p → cut p sep ≡ (p, [], false)
unfolding cut
cut-Lacks [] sep h = refl
cut-Lacks (c ∷ p) sep (hc, hs) = rw hc (rw (cut-Lacks p sep hs))

cut_last-Lacks : (s : Str) (sep : ℕ) → Lacks sep s → cut_last s sep ≡ none
unfolding cut_last
cut_last-Lacks [] sep h = refl
cut_last-Lacks (c ∷ s) sep (hc, hs) = rw (cut_last-Lacks s sep hs) (rw hc)

pub cut_last-append :
    (p s : Str) (sep : ℕ) → Lacks sep s → cut_last (p ++ (sep ∷ s)) sep ≡ some (p, s)
unfolding cut_last
cut_last-append [] s sep h = rw (cut_last-Lacks s sep h) (rw (==_refl sep))
cut_last-append (c ∷ p) s sep h = rw (cut_last-append p s sep h)

split_double-step :
    (c d : ℕ) (s : Str) (sep : ℕ)
    → (c == sep) ≡ false
    → split_double (c ∷ d ∷ s) sep ≡ push c (split_double (d ∷ s) sep)
unfolding split_double
split_double-step c d s sep h = rw h

pub split_double-append :
    (p s : Str) (sep : ℕ)
    → Lacks sep p
    → split_double (p ++ (sep ∷ sep ∷ s)) sep ≡ p ∷ split_double s sep
unfolding split_double
split_double-append [] s sep h = rw (==_refl sep)
split_double-append (c ∷ []) s sep (hc, hs) =
    rw (split_double-step c sep (sep ∷ s) sep hc) (rw (split_double-append [] s sep tt))
split_double-append (c ∷ d ∷ p) s sep (hc, hs) =
    rw (split_double-step c d (p ++ (sep ∷ sep ∷ s)) sep hc)
      (rw (split_double-append (d ∷ p) s sep hs))

pub split_double-Lacks : (p : Str) (sep : ℕ) → Lacks sep p → split_double p sep ≡ p ∷ []
unfolding split_double
split_double-Lacks [] sep h = refl
split_double-Lacks (c ∷ []) sep h = refl
split_double-Lacks (c ∷ d ∷ p) sep (hc, hs) =
    rw (split_double-step c d p sep hc) (rw (split_double-Lacks (d ∷ p) sep hs))
