-- ===== src/Text/Decimal/Tests.antt =====
-- Runs of the decimal texts at the bounds of int32.
use cvetool.Prelude.{err, ok, ◌≡◌, refl}
use cvetool.Text.Order.{codes}
use cvetool.Text.Decimal.{pos, negsuc, format_int, syntax_error, range_error, parse_int32}

largest : parse_int32 (codes "2147483647") ≡ ok (pos 2147483647)
unfolding parse_int32
largest = refl

too_large : parse_int32 (codes "2147483648") ≡ err (range_error (codes "2147483648"))
unfolding parse_int32
too_large = refl

smallest : parse_int32 (format_int (negsuc 2147483647)) ≡ ok (negsuc 2147483647)
unfolding parse_int32 format_int
smallest = refl

not_a_number : parse_int32 (codes "1_0") ≡ err (syntax_error (codes "1_0"))
unfolding parse_int32
not_a_number = refl
