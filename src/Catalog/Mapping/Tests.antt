-- ===== src/Catalog/Mapping/Tests.antt =====
-- Runs on a mapping of one repository, where every name is accepted.
use cvetool.Prelude.{Result, ok, refl, [], ◌∷◌}
use cvetool.Text.{Str, codes}
use cvetool.Catalog.Mapping.{RepositoryMapping, lookup_cpes, validate}
use cvetool.Catalog.Mapping.Selection.{IsSelection, select_mapped_repositories-IsSelection}

abbrev accept_all : Str → Result (Unit {0})
accept_all c = ok tt

abbrev baseos : RepositoryMapping
baseos = record {
  data_of = (codes "baseos", codes "cpe:/o:redhat" ∷ []) ∷ [];
  repo_relative_urls = [];
  source = [];
}

select_mapped_repositories-IsSelection_example :
    IsSelection accept_all baseos
      (codes "epel" ∷ codes "baseos" ∷ codes "baseos" ∷ [])
      (record { mapped = codes "baseos" ∷ []; skipped = codes "epel" ∷ [] })
unfolding cvetool.Catalog.Mapping.select_mapped_repositories cvetool.Catalog.Mapping.nothing_mapped
    cvetool.Catalog.Mapping.select_from cvetool.Text.unseen cvetool.Text.sort_strings
    cvetool.Text.str_le cvetool.Text.contains lookup_cpes cvetool.Text.lookup cvetool.Text.str_eq
    validate cvetool.Catalog.Mapping.validate_row cvetool.Catalog.Mapping.validate_cpes
select_mapped_repositories-IsSelection_example =
    select_mapped_repositories-IsSelection accept_all baseos
      (codes "epel" ∷ codes "baseos" ∷ codes "baseos" ∷ []) refl
