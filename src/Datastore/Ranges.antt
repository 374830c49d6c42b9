-- ===== src/Datastore/Ranges.antt =====
-- The texts of a version range: `rangefmt` of datastore/sqlite/update_vulnerabilities.go.
use cvetool.Prelude.{if◌then◌else◌, not, Option, none, some, List, [], ◌∷◌, ◌++◌}
use cvetool.Text.{ℤ, Str, codes, str_eq, format_int}
use cvetool.Datastore.Tables.{Range, RangeText}

-- The loops of `rangefmt`: a comma stands before every part but the first.
abbrev pub numbers : List ℤ → Str
numbers [] = []
numbers (z ∷ zs) = b',' ∷ (format_int z ++ numbers zs)

abbrev pub braced : List ℤ → Str
braced [] = codes "{}"
braced (z ∷ zs) = b'{' ∷ (format_int z ++ (numbers zs ++ codes "}"))

-- `rangefmt`; the kind is nil where there is no range, or no common kind.
unfoldable pub rangefmt : Option Range → RangeText
unfolding format_int
rangefmt none = record { kind = none; lower = codes "{}"; upper = codes "{}" }
rangefmt (some r) =
    if not (str_eq r.lower.kind r.upper.kind)
    then record { kind = none; lower = codes "{}"; upper = codes "{}" }
    else record { kind = some r.lower.kind; lower = braced r.lower.v; upper = braced r.upper.v }
