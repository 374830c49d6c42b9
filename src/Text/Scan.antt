-- ===== src/Text/Scan.antt =====
-- `bufio.Scanner` with its default split function and its default limit of 64 KiB for a token.
use cvetool.Prelude.{
  ltb, leb, ◌==◌, if◌then◌else◌, Error, external, ℕ, ◌+◌, Bool, true, false, List, [], ◌∷◌,
}
use cvetool.Text.Order.{Str}
use cvetool.Text.Split.{split}

-- The bytes of the UTF-8 form.
abbrev utf8_len : ℕ → ℕ
utf8_len c = if ltb c 0x80 then 1 else if ltb c 0x800 then 2 else if ltb c 0x10000 then 3 else 4

byte_len : Str → ℕ
byte_len [] = 0
byte_len (c ∷ s) = utf8_len c + byte_len s

-- A carriage return before the end of a line is dropped.
drop_cr : Str → Str
drop_cr [] = []
drop_cr (c ∷ []) = if c == b'\r' then [] else c ∷ []
drop_cr (c ∷ d ∷ s) = c ∷ drop_cr (d ∷ s)

-- What follows the last newline is a line only if it is not empty.
drop_empty_last : List Str → List Str
drop_empty_last [] = []
drop_empty_last ([] ∷ []) = []
drop_empty_last (p ∷ ps) = p ∷ drop_empty_last ps

-- A line that does not fit the buffer ends the loop, and `Err` returns an error.
scan_from : List Str → List Str × Bool
scan_from [] = ([], false)
scan_from (l ∷ ls) =
    let (rest, too_long) = scan_from ls in
    if leb 65536 (byte_len l) then ([], true) else (drop_cr l ∷ rest, too_long)

-- The texts of the scanner's calls of `Scan`, and whether `Err` returns an error after them.
unfoldable pub scan_lines : Str → List Str × Bool
unfolding scan_from drop_empty_last drop_cr byte_len split
scan_lines s = scan_from (drop_empty_last (split s b'\n'))

abbrev pub too_long : Error
too_long = external 1
