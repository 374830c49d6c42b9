-- ===== src/Catalog/Generate/Contents.antt =====
-- What the packages of a generated catalog are: the rows of all queries with the CPEs of their
-- repositories, and nothing else.
use cvetool.Prelude.{In, Result, ℕ, ◌≡◌, ◌↔◌, ◌⊎◌, List}
use cvetool.Text.{Str, sort_by, Dict, lookup}
use cvetool.Catalog.Nevra.{Nevra, key}
use cvetool.Catalog.Mapping.{RepositoryMapping}
use cvetool.Catalog.Json.{Match, Catalog, entries, match_le, lookup_matches}
use cvetool.Catalog.Generate.{must_mapping_lookup}

-- The match of a repository and one of its CPEs.
abbrev IsOf : Str → List Str → Match → Type 0
IsOf id cpes x = (cpe : Str) × In cpe cpes × (record { repository_id = id; cpe = cpe } ≡ x)

module _ (unbind : Str → Result (Unit {0})) (hash : Str → Str)
    (hash_json : List (Str × List Str) → Str) (now : ℕ) where
  -- What a lookup finds in a catalog, and the matches of some rows.
  abbrev HasAlso : Catalog → Catalog → (Match → Type 0) → Nevra → Type 0
  HasAlso c c' Extra q =
      (x : Match) → In x (lookup_matches c' q) ↔ (In x (lookup_matches c q) ⊎ Extra x)

  -- The match of a row for a package with the row's key.
  abbrev IsOfRow : RepositoryMapping → List (Str × Nevra) → Nevra → Match → Type 0
  IsOfRow m rows q x =
      (id : Str) × (n : Nevra) × In (id, n) rows
      × (key n ≡ key q)
      × IsOf id (must_mapping_lookup m id) x

  -- A package with the repository that lists it.
  abbrev tagged : Str → Nevra → Str × Nevra
  tagged id n = (id, n)

  -- The matches of a package in a table of packages.
  abbrev found_in : Dict (List Match) → Nevra → List Match
  found_in packages q = sort_by match_le (entries (lookup packages (key q)))
