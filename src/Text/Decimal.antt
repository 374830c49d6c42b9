-- ===== src/Text/Decimal.antt =====
-- The decimal texts of `strconv`: AppendInt (which fmt.Sprint uses too) and ParseInt for 32 bits.
-- The integers stand on the native numbers.
pub mod RoundTrip
mod Tests
use Prim.Native.Nat.{◌/◌, ◌%◌, ◌*◌, ◌^◌}
use cvetool.Prelude.{
  ltb, leb, ◌==◌, if◌then◌else◌, Error, errorf, Result, err, ok, ℕ, zero, suc, ◌+◌, ◌-◌, ◌*◌, ◌<◌,
  Bool, true, false, ◌&&◌, Option, none, some, [], ◌∷◌,
}
use cvetool.Text.Order.{Str}

-- `negsuc n` is -(n + 1).
pub data ℤ : Type 0 where
  pos : ℕ → ℤ
  negsuc : ℕ → ℤ

-- The range of int32
abbrev pub IsInt32 : ℤ → Type 0
IsInt32 (pos n) = n < 2 ^ 31
IsInt32 (negsuc n) = n < 2 ^ 31

-- Each round takes the last digit; `n` rounds are enough for the digits of `n`.
emit : ℕ → ℕ → Str → Str
emit zero n out = out
emit (suc rounds) n out =
    let rest = emit rounds (n / 10) ((b'0' + n % 10) ∷ out) in if n == 0 then out else rest

format_digits : ℕ → Str
unfolding emit
format_digits n = if n == 0 then b'0' ∷ [] else emit n n []

-- `strconv.AppendInt(b, z, 10)`, without what stands before
unfoldable pub format_int : ℤ → Str
unfolding format_digits
format_int (pos n) = format_digits n
format_int (negsuc n) = b'-' ∷ format_digits (suc n)

is_digit : ℕ → Bool
is_digit c = leb b'0' c && leb c b'9'

-- The value of the digits. A value that is too large stays so with more digits, so the test of the
-- range can stand at the end.
scan_digits : Str → ℕ → Option ℕ
unfolding is_digit
scan_digits [] n = some n
scan_digits (c ∷ s) n =
    let rest = scan_digits s (n * 10 + (c - b'0')) in if is_digit c then rest else none

magnitude : Str → Option ℕ
unfolding scan_digits
magnitude [] = none
magnitude (c ∷ s) = scan_digits (c ∷ s) 0

negated : ℕ → ℤ
negated zero = pos 0
negated (suc n) = negsuc n

abbrev pub syntax_error : Str → Error
syntax_error s = errorf "strconv.ParseInt: parsing %q: invalid syntax" (s ∷ [])

abbrev pub range_error : Str → Error
range_error s = errorf "strconv.ParseInt: parsing %q: value out of range" (s ∷ [])

ranged : Str → Bool → Option ℕ → Result ℤ
unfolding negated
ranged s negative none = err (syntax_error s)
ranged s false (some n) = if ltb n (2 ^ 31) then ok (pos n) else err (range_error s)
ranged s true (some n) = if leb n (2 ^ 31) then ok (negated n) else err (range_error s)

-- `strconv.ParseInt(s, 10, 32)`
unfoldable pub parse_int32 : Str → Result ℤ
unfolding ranged magnitude
parse_int32 [] = err (syntax_error [])
parse_int32 (c ∷ s) =
    if c == b'+'
    then ranged (c ∷ s) false (magnitude s)
    else if c == b'-'
    then ranged (c ∷ s) true (magnitude s)
    else ranged (c ∷ s) false (magnitude (c ∷ s))
