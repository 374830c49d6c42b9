-- ===== src/Datastore/Indexer/Tests.antt =====
-- Two scanners store packages of one layer.
use cvetool.Prelude.{ℕ, String, ◌≡◌, refl, none, List, [], ◌∷◌}
use cvetool.Text.{Str, codes}
use cvetool.Datastore.Indexer.{
  Labelled, index_distributions, distributions_by_layer, index_repositories, repositories_by_layer,
  index_files, files_by_layer, IndexedItem, new_local_indexer_store, prepare, index_packages,
  packages_by_layer,
}
use cvetool.Datastore.Indexer.Layers.{Call, run, packages_of_all, packages_by_layer-run}

abbrev same : Str → Str
same s = s

abbrev item : String → IndexedItem
item name = record {
  id = [];
  fields = record { name = codes name; version = []; kind = []; module_name = []; arch = [] };
  source = none;
}

abbrev calls : List Call
calls =
    record { layer = codes "d1"; scanner = codes "rpm"; pkgs = item "bash" ∷ [] }
    ∷ record { layer = codes "d2"; scanner = codes "rpm"; pkgs = item "vim" ∷ [] }
    ∷ []

store_run :
    packages_by_layer
      (run same same calls new_local_indexer_store)
      (codes "d1")
      (codes "gem" ∷ codes "rpm" ∷ [])
    ≡ prepare same same (item "bash") ∷ []
unfolding packages_by_layer index_packages cvetool.Text.str_eq
store_run = refl

packages_by_layer-run_example :
    packages_by_layer
      (run same same calls new_local_indexer_store)
      (codes "d1")
      (codes "gem" ∷ codes "rpm" ∷ [])
    ≡ packages_of_all same same calls (codes "d1") (codes "gem" ∷ codes "rpm" ∷ [])
packages_by_layer-run_example =
    packages_by_layer-run same same calls (codes "d1") (codes "gem" ∷ codes "rpm" ∷ [])
      (refl, (refl, tt))

abbrev labelled : String → Labelled
labelled name = record { id = []; label = codes name }

abbrev uuid : ℕ → Str
uuid n = n ∷ []

-- Two distributions get two IDs, and a repository and a file of the layer stand in maps of their
-- own.
other_maps_run :
    (distributions_by_layer
        (index_distributions uuid
          (labelled "a" ∷ labelled "b" ∷ [])
          (codes "d1")
          (codes "os")
          new_local_indexer_store)
        (codes "d1")
        (codes "os" ∷ [])
      ≡ record { id = 0 ∷ []; label = codes "a" } ∷ record { id = 1 ∷ []; label = codes "b" } ∷ [])
    × (repositories_by_layer
          (index_repositories uuid
            (labelled "r" ∷ [])
            (codes "d1")
            (codes "os")
            new_local_indexer_store)
          (codes "d1")
          (codes "os" ∷ [])
        ≡ record { id = 0 ∷ []; label = codes "r" } ∷ [])
    × (files_by_layer
          (index_files (codes "f" ∷ []) (codes "d1") (codes "os") new_local_indexer_store)
          (codes "d1")
          (codes "os" ∷ [])
        ≡ codes "f" ∷ [])
unfolding distributions_by_layer index_distributions repositories_by_layer index_repositories
    files_by_layer index_files cvetool.Text.str_eq
other_maps_run = (refl, refl, refl)
