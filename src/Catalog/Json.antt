-- ===== src/Catalog/Json.antt =====
-- catalog/catalog.go and catalog/json.go: the catalog that a writer builds and a reader looks up.
pub mod Contents
mod Tests
use cvetool.Prelude.{
  if◌then◌else◌, errorf, wrapf, Result, ok, err, ◌>>=◌, ◌>>◌, fail_if, wrap, ℕ, ◌+◌, Bool, false,
  not, ◌&&◌, ◌||◌, Option, none, some, List, [], ◌∷◌, ◌++◌,
}
use cvetool.Text.{Str, str_eq, str_lt, sort_by, sort_strings, contains, Dict, lookup, insert}
use cvetool.Catalog.Nevra.{Nevra, is_empty, validate_nevra, key}

-- `Match`
pub record Match : Type 0 where
  pub repository_id : Str
  pub cpe : Str

-- `Repository`
pub record Repository : Type 0 where
  pub id : Str
  pub cpes : List Str

-- `Metadata`; a time is a number of nanoseconds.
pub record Metadata : Type 0 where
  pub schema_version : Str
  pub rhel_version : Str
  pub architecture : Str
  pub repository_ids : List Str
  pub mapping_source : Str
  pub mapping_fingerprint : Str
  pub package_fingerprint : Str
  pub generated_at : ℕ

-- `jsonCatalog`, the state of a writer and of a reader
pub record Catalog : Type 0 where
  pub metadata : Metadata
  pub repositories : Dict (List Str)
  pub packages : Dict (List Match)

abbrev pub no_metadata : Metadata
no_metadata = record {
  schema_version = [];
  rhel_version = [];
  architecture = [];
  repository_ids = [];
  mapping_source = [];
  mapping_fingerprint = [];
  package_fingerprint = [];
  generated_at = 0;
}

-- The catalog of `NewJSONWriter`
abbrev pub empty_catalog : Catalog
empty_catalog = record { metadata = no_metadata; repositories = []; packages = [] }

-- `NewJSONWriter`, which keeps the path for `Close`
unfoldable new_json_writer : Str → Result Catalog
new_json_writer [] = err (errorf "empty catalog path" [])
new_json_writer (c ∷ path) = ok empty_catalog

-- A missing key of a map of slices reads as the empty slice.
abbrev pub entries {ℓ} : {A : Type ℓ} → Option (List A) → List A
entries none = []
entries (some xs) = xs

pub match_eq : Match → Match → Bool
match_eq a b = str_eq a.repository_id b.repository_id && str_eq a.cpe b.cpe

unfoldable pub contains_match : List Match → Match → Bool
contains_match [] m = false
contains_match (x ∷ xs) m = match_eq x m || contains_match xs m

-- The comparison of `Lookup`, and the order that it makes.
match_less : Match → Match → Bool
match_less a b =
    if not (str_eq a.repository_id b.repository_id)
    then str_lt a.repository_id b.repository_id
    else str_lt a.cpe b.cpe

pub match_le : Match → Match → Bool
match_le a b = not (match_less b a)

-- cpe.Unbind of the claircore library: the names that it accepts.
module _ (unbind : Str → Result (Unit {0})) where
  unfoldable pub add_cpes : Str → List Str → Dict (List Str) → Dict (List Str) × Result (Unit {0})
  add_cpes id [] rows = (rows, ok tt)
  add_cpes id (value ∷ values) rows =
      let present = entries (lookup rows id) in
      let rest =
        add_cpes id values
          (if contains present value then rows else insert rows id (present ++ (value ∷ []))) in
      elim (unbind value) [
        | ok u ↦ rest
        | err e ↦ (rows, err (wrapf "invalid CPE %q" (value ∷ []) e))
      ]

  unfoldable pub sort_row : Str → Option (List Str) → Dict (List Str) → Dict (List Str)
  sort_row id none rows = rows
  sort_row id (some cpes) rows = insert rows id (sort_strings cpes)

  unfoldable pub sort_if_ok :
      Str → Dict (List Str) × Result (Unit {0}) → Dict (List Str) × Result (Unit {0})
  sort_if_ok id (rows, ok u) = (sort_row id (lookup rows id) rows, ok tt)
  sort_if_ok id (rows, err e) = (rows, err e)

  -- `AddRepository`; what was added before an invalid CPE stays.
  unfoldable pub add_repository : Catalog → Repository → Catalog × Result (Unit {0})
  add_repository w r =
      if is_empty r.id
      then (w, err (errorf "empty repository ID" []))
      else let (rows, result) = sort_if_ok r.id (add_cpes r.id r.cpes w.repositories) in
        (record w { repositories = rows }, result)

  -- The tests of `AddPackage`, in its order.
  unfoldable pub check_package : Nevra → Match → Result (Unit {0})
  check_package pkg m = do
    validate_nevra pkg
    fail_if (is_empty m.repository_id) (errorf "empty repository ID" [])
    wrap "invalid CPE %q" (m.cpe ∷ []) (unbind m.cpe)

  unfoldable pub add_checked :
      Result (Unit {0}) → Catalog → Str → Match → Catalog × Result (Unit {0})
  add_checked (err e) w k m = (w, err e)
  add_checked (ok u) w k m =
      let present = entries (lookup w.packages k) in
      (
        record w {
          packages =
              if contains_match present m
              then w.packages
              else insert w.packages k (present ++ (m ∷ []));
        },
        ok tt,
      )

  -- `AddPackage`
  unfoldable pub add_package : Catalog → Nevra → Match → Catalog × Result (Unit {0})
  add_package w pkg m = add_checked (check_package pkg m) w (key pkg) m

-- `SetMetadata`
unfoldable pub set_metadata : Catalog → Metadata → Catalog
set_metadata w metadata = record w { metadata = metadata }

-- `Lookup` of the reader
unfoldable pub lookup_matches : Catalog → Nevra → List Match
lookup_matches r pkg = sort_by match_le (entries (lookup r.packages (key pkg)))
