-- ===== src/Catalog/Enrich/Tests.antt =====
-- Runs on one match, where a parsed name is its text and a digest is the text itself.
use cvetool.Prelude.{All, Result, ok, List, [], ◌∷◌}
use cvetool.Text.{Str, codes}
use cvetool.Catalog.Json.{Match}
use cvetool.Catalog.Enrich.{Progress, enrich_environment}
use cvetool.Catalog.Enrich.Report.{IsCovered, enrich_environment-IsCovered}

abbrev parse_all : Str → Result Str
parse_all c = ok c

abbrev same_text : Str → Str
same_text s = s

abbrev baseos_match : Match
baseos_match = record { repository_id = codes "r"; cpe = codes "c" }

abbrev no_progress : Progress parse_all same_text
no_progress = record { repositories = []; added = 0 }

abbrev one_match : List (Match × Str)
one_match = (baseos_match, codes "c") ∷ []

enrich_environment-IsCovered_example :
    All
      (λ v.
        IsCovered parse_all same_text
          (enrich_environment parse_all same_text one_match [] no_progress).0
          (enrich_environment parse_all same_text one_match [] no_progress).1.repositories
          v.0)
      one_match
enrich_environment-IsCovered_example =
    enrich_environment-IsCovered parse_all same_text one_match [] no_progress
