-- ===== src/Catalog/Json/Tests.antt =====
-- Runs on a catalog of one package, where every name is accepted.
use cvetool.Prelude.{In, Result, ok, ◌≡◌, refl, ◌↔◌, ◌⊎◌}
use cvetool.Text.{Str, codes, lookup}
use cvetool.Catalog.Nevra.{Nevra, key}
use cvetool.Catalog.Json.{Match, Catalog, empty_catalog, match_le, add_package, lookup_matches}
use cvetool.Catalog.Json.Contents.{HasDistinctRows, lookup_matches-add_package}

abbrev accept_all : Str → Result (Unit {0})
accept_all c = ok tt

abbrev bash_nevra : Nevra
bash_nevra = record {
  name = codes "b";
  epoch = codes "0";
  version = codes "5";
  release = codes "9";
  arch = codes "x";
}

abbrev baseos_match : Match
baseos_match = record { repository_id = codes "r"; cpe = codes "c" }

abbrev bash_catalog : Catalog
bash_catalog = (add_package accept_all empty_catalog bash_nevra baseos_match).0

lookup_matches-add_package_example : In baseos_match (lookup_matches bash_catalog bash_nevra) ↔ (
    In baseos_match (lookup_matches empty_catalog bash_nevra)
    ⊎ ((key bash_nevra ≡ key bash_nevra) × (baseos_match ≡ baseos_match)))
unfolding add_package cvetool.Catalog.Json.add_checked cvetool.Catalog.Json.check_package
    cvetool.Catalog.Nevra.validate_nevra
lookup_matches-add_package_example =
    lookup_matches-add_package accept_all empty_catalog bash_catalog bash_nevra bash_nevra
      baseos_match baseos_match refl

empty-HasDistinctRows : HasDistinctRows empty_catalog
unfolding lookup
empty-HasDistinctRows k = tt
