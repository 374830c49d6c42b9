-- ===== src/Text/Decimal/RoundTrip.antt =====
-- An int32 is read back from its decimal text, and nothing else is read.
use Prim.Native.Nat.{◌/◌, ◌%◌, ◌^◌}
use mathlib.Core.Path.{subst}
use cvetool.Prelude.{
  ltb, leb, ◌==◌, Bool-cases, All, All-mono, ok, ok_injective, ℕ, zero, suc, ◌+◌, ◌≤◌, ◌<◌, ◌≡◌,
  refl, ap, ◌∙◌, inl, inr, Bool, true, false, Option, none, some, [], ◌∷◌, arith,
}
use cvetool.Text.Order.{Str}
use cvetool.Text.Decimal.{
  ℤ, pos, negsuc, IsInt32, emit, format_digits, format_int, scan_digits, magnitude, negated, ranged,
  parse_int32,
}

-- A sign or a digit: the code points of `format_int`, and two between them.
abbrev pub IsNumeral : ℕ → Type 0
IsNumeral c = (b'-' ≤ c) × (c ≤ b'9')

scan_last : (n : ℕ) (out : Str) → scan_digits ((b'0' + n % 10) ∷ out) (n / 10) ≡ scan_digits out n
unfolding scan_digits
scan_last n out = ground arith

scan-emit :
    (rounds n : ℕ) (out : Str) → n ≤ rounds → scan_digits (emit rounds n out) 0 ≡ scan_digits out n
unfolding emit
scan-emit zero n out h = ap (scan_digits out) (omega arith)
scan-emit (suc rounds) n out h = elim (Bool-cases (n == 0)) [
  | inl e ↦ rw e (ap (scan_digits out) (ground arith))
  | inr e ↦
      rw e (scan-emit rounds (n / 10) ((b'0' + n % 10) ∷ out) (ground arith) ∙ scan_last n out)
]

emit-is_some :
    (rounds n c : ℕ) (out : Str) → (d : ℕ) × (s : Str) × (emit rounds n (c ∷ out) ≡ d ∷ s)
unfolding emit
emit-is_some zero n c out = (c, out, refl)
emit-is_some (suc rounds) n c out = elim (Bool-cases (n == 0)) [
  | inl e ↦ rw e (c, out, refl)
  | inr e ↦ rw e (emit-is_some rounds (n / 10) (b'0' + n % 10) (c ∷ out))
]

abbrev IsDigit : ℕ → Type 0
IsDigit c = (b'0' ≤ c) × (c ≤ b'9')

emit-IsDigit : (rounds n : ℕ) (out : Str) → All IsDigit out → All IsDigit (emit rounds n out)
unfolding emit
emit-IsDigit zero n out h = h
emit-IsDigit (suc rounds) n out h = elim (Bool-cases (n == 0)) [
  | inl e ↦ rw e h
  | inr e ↦ rw e (emit-IsDigit rounds (n / 10) ((b'0' + n % 10) ∷ out) (omega arith, h))
]

-- The digits of a number: a first one and the rest, which are read back.
record Digits (n : ℕ) (s : Str) : Type 0 where
  first : ℕ
  rest : Str
  shape : s ≡ first ∷ rest
  digits : All IsDigit (first ∷ rest)
  value : scan_digits (first ∷ rest) 0 ≡ some n

first_digit : (n : ℕ) → emit (suc n) (suc n) [] ≡ emit n (suc n / 10) ((b'0' + suc n % 10) ∷ [])
unfolding emit
first_digit n = ground arith

as_Digits :
    (n d : ℕ) (s t : Str) → s ≡ d ∷ t → All IsDigit s → scan_digits s 0 ≡ some n → Digits n s
as_Digits n d s t e a v = record {
  first = d;
  rest = t;
  shape = e;
  digits = subst (All IsDigit) e a;
  value = subst (λ u. scan_digits u 0 ≡ some n) e v;
}

emitted : (n : ℕ) → Digits (suc n) (emit (suc n) (suc n) [])
unfolding scan_digits
emitted n =
    let (d, s, e) = emit-is_some n (suc n / 10) (b'0' + suc n % 10) [] in
    as_Digits (suc n) d (emit (suc n) (suc n) []) s (first_digit n ∙ e)
      (emit-IsDigit (suc n) (suc n) [] tt) (scan-emit (suc n) (suc n) [] (omega arith))

positive : (n : ℕ) → emit (suc n) (suc n) [] ≡ format_digits (suc n)
unfolding format_digits
positive n = ground arith

format_digits-Digits : (n : ℕ) → Digits n (format_digits n)
unfolding format_digits
format_digits-Digits zero = record {
  first = b'0';
  rest = [];
  shape = refl;
  digits = omega arith;
  value = unfold scan_digits in refl;
}
format_digits-Digits (suc n) = subst (Digits (suc n)) (positive n) (emitted n)

plain : (n : ℕ) (s : Str) → Digits n s → n < 2 ^ 31 → parse_int32 s ≡ ok (pos n)
unfolding parse_int32 magnitude ranged
plain n s d h = rw d.shape (ground (arith, d.digits.0, d.value))

minus : (n : ℕ) (s : Str) → Digits (suc n) s → n < 2 ^ 31 → parse_int32 (b'-' ∷ s) ≡ ok (negsuc n)
unfolding parse_int32 magnitude ranged negated
minus n s d h = rw d.shape (ground (arith, d.value))

-- Every int32 is read back from its decimal text.
pub parse_int32-format_int : (z : ℤ) → IsInt32 z → parse_int32 (format_int z) ≡ ok z
unfolding format_int
parse_int32-format_int (pos n) h = plain n _ (format_digits-Digits n) h
parse_int32-format_int (negsuc n) h = minus n _ (format_digits-Digits (suc n)) h

negated-IsInt32 : (n : ℕ) → n ≤ 2 ^ 31 → IsInt32 (negated n)
unfolding negated
negated-IsInt32 zero h = omega arith
negated-IsInt32 (suc n) h = omega arith

ranged-IsInt32 :
    (s : Str) (negative : Bool) (m : Option ℕ) {z : ℤ} → ranged s negative m ≡ ok z → IsInt32 z
unfolding ranged
ranged-IsInt32 s negative none h = cc h
ranged-IsInt32 s false (some n) {z} h = elim (Bool-cases (ltb n (2 ^ 31))) [
  | inl e ↦ subst IsInt32 (ok_injective (rw e at h)) (ground arith)
  | inr e ↦ cc (rw e at h)
]
ranged-IsInt32 s true (some n) {z} h = elim (Bool-cases (leb n (2 ^ 31))) [
  | inl e ↦ subst IsInt32 (ok_injective (rw e at h)) (negated-IsInt32 n (ground arith))
  | inr e ↦ cc (rw e at h)
]

-- What is read is in the range of int32.
pub parse_int32-IsInt32 : (s : Str) {z : ℤ} → parse_int32 s ≡ ok z → IsInt32 z
unfolding parse_int32
parse_int32-IsInt32 [] h = cc h
parse_int32-IsInt32 (c ∷ s) h = elim (Bool-cases (c == b'+')) [
  | inl e ↦ ranged-IsInt32 (c ∷ s) false (magnitude s) (rw e at h)
  | inr e ↦ elim (Bool-cases (c == b'-')) [
    | inl f ↦ ranged-IsInt32 (c ∷ s) true (magnitude s) (rw (e, f) at h)
    | inr f ↦ ranged-IsInt32 (c ∷ s) false (magnitude (c ∷ s)) (rw (e, f) at h)
  ]
]

digits-IsNumeral : (s : Str) → All IsDigit s → All IsNumeral s
digits-IsNumeral s h = All-mono IsDigit IsNumeral s (λ c d. omega arith) h

format_digits-IsNumeral : (n : ℕ) → All IsNumeral (format_digits n)
format_digits-IsNumeral n =
    let d = format_digits-Digits n in rw d.shape (digits-IsNumeral (d.first ∷ d.rest) d.digits)

pub format_int-IsNumeral : (z : ℤ) → All IsNumeral (format_int z)
unfolding format_int
format_int-IsNumeral (pos n) = format_digits-IsNumeral n
format_int-IsNumeral (negsuc n) = (omega arith, format_digits-IsNumeral (suc n))
