-- ===== src/Datastore/Versions/Stored.antt =====
-- What `FromString` and `version_in` make of the ranges that the store writes.
use mathlib.Core.Path.{subst}
use cvetool.Prelude.{
  ltb, ◌==◌, length, length-append, All, All-append, All-mono, ok, ℕ, suc, ◌+◌, ◌≤◌, ◌≡◌, refl, ap,
  ◌∙◌, Bool, true, false, List, [], ◌∷◌, ◌++◌, map, append-nil, append_assoc, arith,
}
use cvetool.Text.{ℤ, parse_int32}
use cvetool.Text.{
  Str, codes, split, trim_left_func, trim_right_func, one_of, trim_any, IsInt32, format_int,
}
use cvetool.Text.Decimal.RoundTrip.{IsNumeral, parse_int32-format_int, format_int-IsNumeral}
use cvetool.Text.Split.Laws.{Lacks, split-append, split-Lacks}
use cvetool.Datastore.Ranges.{numbers}
use cvetool.Datastore.Versions.{returns, set, parts, from_parts}

-- The code points of a bound between its braces: those of numbers, and the comma.
abbrev pub IsInner : ℕ → Type 0
IsInner c = (b',' ≤ c) × (c ≤ b'9')

IsInner-of_IsNumeral : (s : Str) → All IsNumeral s → All IsInner s
IsInner-of_IsNumeral s h = All-mono IsNumeral IsInner s (λ c d. omega arith) h

numbers-IsInner : (zs : List ℤ) → All IsInner (numbers zs)
numbers-IsInner [] = tt
numbers-IsInner (z ∷ zs) = (
  omega arith,
  All-append IsInner (format_int z) (numbers zs)
      (IsInner-of_IsNumeral (format_int z) (format_int-IsNumeral z)) (numbers-IsInner zs),
)

pub body-IsInner : (z : ℤ) (zs : List ℤ) → All IsInner (format_int z ++ numbers zs)
body-IsInner z zs = (numbers-IsInner (z ∷ zs)).1

numeral-Lacks : (s : Str) → All IsNumeral s → Lacks b',' s
numeral-Lacks s h = All-mono IsNumeral (λ c. (c == b',') ≡ false) s (λ c d. ground arith) h

pub split-body :
    (z : ℤ) (zs : List ℤ)
    → split (format_int z ++ numbers zs) b',' ≡ format_int z ∷ map format_int zs
split-body z [] =
    rw (append-nil (format_int z))
      (split-Lacks (format_int z) b',' (numeral-Lacks (format_int z) (format_int-IsNumeral z)))
split-body z (y ∷ zs) =
    split-append (format_int z) (format_int y ++ numbers zs) b','
      (numeral-Lacks (format_int z) (format_int-IsNumeral z))
    ∙ ap (λ r. format_int z ∷ r) (split-body y zs)

module _ (f : ℕ → Bool) (x : ℕ) (fx : f x ≡ true) where
  trim_right-snoc : (s : Str) → All (λ c. f c ≡ false) s → trim_right_func f (s ++ (x ∷ [])) ≡ s
  unfolding trim_right_func
  trim_right-snoc [] h = rw fx
  trim_right-snoc (c ∷ s) (hc, hs) = rw (trim_right-snoc s hs) (rw hc)

  trim_left-snoc :
      (s : Str)
      → All (λ c. f c ≡ false) s
      → trim_right_func f (trim_left_func f (s ++ (x ∷ []))) ≡ s
  unfolding trim_left_func trim_right_func
  trim_left-snoc [] h = rw fx
  trim_left-snoc (c ∷ s) (hc, hs) = rw hc (trim_right-snoc (c ∷ s) (hc, hs))

abbrev is_brace : ℕ → Bool
is_brace = one_of (codes "{}")

inner_not_brace : (s : Str) → All IsInner s → All (λ c. is_brace c ≡ false) s
unfolding one_of
inner_not_brace s h = All-mono IsInner (λ c. is_brace c ≡ false) s (λ c d. ground arith) h

pub trim_braces : (s : Str) → All IsInner s → trim_any (b'{' ∷ (s ++ codes "}")) (codes "{}") ≡ s
unfolding trim_any trim_left_func one_of
trim_braces s h = trim_left-snoc is_brace b'}' refl s (inner_not_brace s h)

-- What the array holds after the parts are written over the first elements.
abbrev pub overwritten : List ℤ → List ℤ → List ℤ
overwritten [] zs = zs
overwritten (p ∷ ps) [] = []
overwritten (p ∷ ps) (z ∷ zs) = p ∷ overwritten ps zs

set-append :
    (done : List ℤ) (z p : ℤ) (zs : List ℤ)
    → set (done ++ (z ∷ zs)) (length done) p ≡ (done ++ (p ∷ [])) ++ zs
unfolding set
set-append [] z p zs = refl
set-append (d ∷ done) z p zs = ap (λ r. d ∷ r) (set-append done z p zs)

pub from_parts-step :
    (i : ℕ) (s : Str) (ss : List Str) (v : List ℤ) (p : ℤ)
    → parse_int32 s ≡ ok p
    → ltb i parts ≡ true
    → from_parts i (s ∷ ss) v ≡ from_parts (suc i) ss (set v i p)
unfolding from_parts
from_parts-step i s ss v p e below = rw (e, from_parts) (rw (below, from_parts))

from_parts-nil : (i : ℕ) (v : List ℤ) → from_parts i [] v ≡ returns (ok v)
unfolding from_parts
from_parts-nil i v = refl

pub from_parts-format :
    (done ps zs : List ℤ)
    → length ps ≤ length zs
    → length done + length zs ≡ parts
    → All IsInt32 ps
    → from_parts (length done) (map format_int ps) (done ++ zs)
      ≡ returns (ok (done ++ overwritten ps zs))
from_parts-format done [] zs fits whole h = from_parts-nil (length done) (done ++ zs)
from_parts-format done (p ∷ ps) [] fits whole h = absurd (omega arith)
from_parts-format done (p ∷ ps) (z ∷ zs) fits whole (hp, hs) =
    let longer : length (done ++ (p ∷ [])) ≡ suc (length done) =
      omega (arith, length-append {0} done (p ∷ [])) in
    from_parts-step (length done) (format_int p) (map format_int ps) (done ++ (z ∷ zs)) p
      (parse_int32-format_int p hp) (ground arith)
    ∙ ap (from_parts (suc (length done)) (map format_int ps)) (set-append done z p zs)
    ∙ subst
        (λ n.
          from_parts n (map format_int ps) ((done ++ (p ∷ [])) ++ zs)
          ≡ returns (ok ((done ++ (p ∷ [])) ++ overwritten ps zs)))
        longer (from_parts-format (done ++ (p ∷ [])) ps zs (omega arith) (omega (arith, longer)) hs)
    ∙ ap (λ v. returns (ok v)) (append_assoc done (p ∷ []) (overwritten ps zs))
