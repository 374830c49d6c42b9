-- ===== src/Text/Tests.antt =====
-- Runs of the functions on paths and lines.
use cvetool.Prelude.{ok, ◌≡◌, refl, false, [], ◌∷◌}
use cvetool.Text.{join, str_eq, codes, clean, rel, scan_lines}

clean_dots : clean (codes "/a/./b//../c/../../..") ≡ codes "/"
unfolding clean join str_eq
clean_dots = refl

rel_up : rel (codes "/a/b") (codes "/a/c/d") ≡ ok (codes "../c/d")
unfolding rel str_eq
rel_up = refl

scan_two_lines : scan_lines (codes "a\r\n\nb") ≡ (codes "a" ∷ [] ∷ codes "b" ∷ [], false)
unfolding scan_lines
scan_two_lines = refl
