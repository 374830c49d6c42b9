-- ===== src/Datastore/Indexer.antt =====
-- datastore/indexer_store.go: what the scanners found in the layers. Every method holds the lock
-- for its whole body, so a method is a function on the four maps. MD5, base64 and UUIDs are
-- parameters; the methods that only return a constant have no model.
pub mod Layers
mod Tests
use cvetool.Prelude.{ℕ, suc, ◌+◌, Option, none, some, List, [], ◌∷◌, ◌++◌, map}
use cvetool.Text.{Str, Dict, lookup, insert}

-- The fields of a claircore.Package that md5Package reads.
pub record PackageFields : Type 0 where
  pub name : Str
  pub version : Str
  pub kind : Str
  pub module_name : Str
  pub arch : Str

pub record IndexedItem : Type 0 where
  pub id : Str
  pub fields : PackageFields
  pub source : Option PackageFields

-- A distribution or a repository, with the fields other than its ID as one text.
pub record Labelled : Type 0 where
  pub id : Str
  pub label : Str

-- `localStore`
pub record LocalStore : Type 0 where
  pub pkg_map : Dict (List IndexedItem)
  pub distro_map : Dict (List Labelled)
  pub repo_map : Dict (List Labelled)
  pub file_map : Dict (List Str)

-- `NewLocalIndexerStore`
abbrev pub new_local_indexer_store : LocalStore
new_local_indexer_store = record { pkg_map = []; distro_map = []; repo_map = []; file_map = [] }

abbrev pub or_empty : {A : Type 0} → Option (List A) → List A
or_empty none = []
or_empty (some xs) = xs

-- An entry of a map of slices, which is nil for a missing key.
abbrev pub found_at : {A : Type 0} → Dict (List A) → Str → List A
found_at m key = or_empty (lookup m key)

module _ {A : Type 0} where
  -- The loop of the methods `…ByLayer` over the scanners.
  pub by_layer : Dict (List A) → Str → List Str → List A
  unfolding lookup
  by_layer m d [] = []
  by_layer m d (vs ∷ vss) = found_at m (d ++ vs) ++ by_layer m d vss

  -- The loop of the methods `Index…` over the prepared items.
  pub append_items : Dict (List A) → Str → List A → Dict (List A)
  unfolding lookup insert
  append_items m key [] = m
  append_items m key (x ∷ xs) = append_items (insert m key (found_at m key ++ (x ∷ []))) key xs

abbrev pub bytes_of : PackageFields → Str
bytes_of p = p.name ++ (p.version ++ (p.kind ++ (p.module_name ++ p.arch)))

abbrev pub bytes_of_source : Option PackageFields → Str
bytes_of_source none = []
bytes_of_source (some p) = p.name ++ (p.version ++ (p.kind ++ (p.module_name ++ p.arch)))

-- `&claircore.Package{}` for a nil source
abbrev pub source_or_empty : Option PackageFields → PackageFields
source_or_empty none = record { name = []; version = []; kind = []; module_name = []; arch = [] }
source_or_empty (some p) = p

module _ (md5 base64 : Str → Str) where
  -- `md5Package`
  pub md5_package : IndexedItem → Str
  md5_package p = md5 (bytes_of p.fields ++ bytes_of_source p.source)

  -- What the loop of IndexPackages makes of a package.
  pub prepare : IndexedItem → IndexedItem
  unfolding md5_package
  prepare p =
      let q : IndexedItem = record p { source = some (source_or_empty p.source) } in
      record q { id = base64 (md5_package q) }

  -- `IndexPackages`
  pub index_packages : List IndexedItem → Str → Str → LocalStore → LocalStore
  unfolding prepare append_items
  index_packages pkgs layer vs s = record s {
    pkg_map = append_items s.pkg_map (layer ++ vs) (map prepare pkgs);
  }

-- The IDs from `uuid.New`, one for each item.
pub with_ids : (ℕ → Str) → ℕ → List Labelled → List Labelled
with_ids uuid n [] = []
with_ids uuid n (x ∷ xs) = record x { id = uuid n } ∷ with_ids uuid (suc n) xs

-- `IndexDistributions`, `IndexRepositories` and `IndexFiles`
unfoldable pub index_distributions : (ℕ → Str) → List Labelled → Str → Str → LocalStore → LocalStore
unfolding with_ids append_items
index_distributions uuid distros layer vs s = record s {
  distro_map = append_items s.distro_map (layer ++ vs) (with_ids uuid 0 distros);
}

unfoldable pub index_repositories : (ℕ → Str) → List Labelled → Str → Str → LocalStore → LocalStore
unfolding with_ids append_items
index_repositories uuid repos layer vs s = record s {
  repo_map = append_items s.repo_map (layer ++ vs) (with_ids uuid 0 repos);
}

unfoldable pub index_files : List Str → Str → Str → LocalStore → LocalStore
unfolding append_items
index_files files layer vs s = record s { file_map = append_items s.file_map (layer ++ vs) files }

-- `PackagesByLayer`, `DistributionsByLayer`, `RepositoriesByLayer` and `FilesByLayer`
pub packages_by_layer : LocalStore → Str → List Str → List IndexedItem
unfolding by_layer
packages_by_layer s d vss = by_layer s.pkg_map d vss

unfoldable pub distributions_by_layer : LocalStore → Str → List Str → List Labelled
unfolding by_layer
distributions_by_layer s d vss = by_layer s.distro_map d vss

unfoldable pub repositories_by_layer : LocalStore → Str → List Str → List Labelled
unfolding by_layer
repositories_by_layer s d vss = by_layer s.repo_map d vss

unfoldable pub files_by_layer : LocalStore → Str → List Str → List Str
unfolding by_layer
files_by_layer s d vss = by_layer s.file_map d vss
