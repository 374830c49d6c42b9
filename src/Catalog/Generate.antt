-- ===== src/Catalog/Generate.antt =====
-- catalog/generate.go: the contents of the catalog that `Generate` writes. The file of the catalog is
-- written at another path and renamed at the end, so that it is there only where all of this is done.
pub mod Contents
mod Tests
use cvetool.Prelude.{
  if◌then◌else◌, errorf, Result, ok, err, ◌>>=◌, ◌>>◌, fail_if, ℕ, ◌+◌, Bool, true, not, ◌&&◌, ◌||◌,
  List, [], ◌∷◌, ◌++◌, map,
}
use cvetool.Text.{Str, codes, str_eq, str_le, sort_by, sort_strings, unseen, join, cut, trim_space}
use cvetool.Catalog.Nevra.{Nevra, key, is_empty}
use cvetool.Catalog.Mapping.{RepositoryMapping, lookup_cpes, get_or_nil, validate, for_rhel_release}
use cvetool.Catalog.Json.{
  Catalog, Metadata, empty_catalog, add_repository, add_package, set_metadata,
}
use cvetool.Catalog.HostPaths.{Host}
use cvetool.Catalog.Dnf.{DnfOptions, CommandRunner, no_dirs, trimmed, query_dnf_with_options}

pub record GenerateOptions : Type 0 where
  pub rhel_version : Str
  pub target_release_version : Str
  pub architecture : Str
  pub repository_ids : List Str
  pub output_path : Str
  pub dnf_path : Str
  pub dnf : DnfOptions

without_noarch : List Str → List Str
without_noarch [] = []
without_noarch (a ∷ as₁) =
    let rest = without_noarch as₁ in if str_eq a (codes "noarch") then rest else a ∷ rest

-- The architectures of a query of the host.
host_architecture : Str → List Str → Str
host_architecture architecture [] = architecture
host_architecture architecture (a ∷ as₁) = join (a ∷ as₁) (codes ",")

abbrev pub or_default : Str → Str → Str
or_default [] t = t
or_default (c ∷ s) t = c ∷ s

pub dnf_path_of : GenerateOptions → Str
dnf_path_of o = or_default (or_default o.dnf_path o.dnf.path) (codes "dnf")

-- The options of the queries.
pub dnf_options_of : GenerateOptions → Result DnfOptions
dnf_options_of o =
    if is_empty o.dnf.install_root
    then (fail_if
          (not (is_empty o.dnf.scratch_dir)
            || not (is_empty o.dnf.release_version)
            || not (is_empty o.dnf.architecture)
            || not (no_dirs o.dnf.repo_dirs))
          (errorf "target DNF install root is required" [])
        >> ok (record o.dnf {
          path = dnf_path_of o;
          legacy_host_query = true;
          architecture =
              host_architecture o.architecture
                (unseen [] (without_noarch (trimmed o.dnf.architectures)));
        }))
    else ok (record o.dnf {
      path = dnf_path_of o;
      architecture = or_default o.dnf.architecture o.architecture;
    })

pub query_all : Host → CommandRunner → DnfOptions → List Str → Result (List (Str × Nevra))
query_all host run options [] = ok []
query_all host run options (id ∷ ids) = do
  rows ← query_dnf_with_options host run options id
  rest ← query_all host run options ids
  ok (map (λ n. (id, n)) rows ++ rest)

row_le : Str × Nevra → Str × Nevra → Bool
row_le (i, m) (j, n) = if str_eq i j then str_le (key m) (key n) else str_le i j

-- `joinStrings`
pub join_strings : List Str → Str
join_strings [] = []
join_strings (s ∷ ss) = s ++ (b'\n' ∷ join_strings ss)

package_value : Str × Nevra → Str
package_value (id, n) = id ++ (0 ∷ key n)

-- A writer's method that fails ends the writing.
kept : Catalog × Result (Unit {0}) → Result Catalog
kept (c, ok u) = ok c
kept (c, err e) = err e

-- `mustMappingLookup`
pub must_mapping_lookup : RepositoryMapping → Str → List Str
must_mapping_lookup m id = get_or_nil (lookup_cpes m id)

-- `unbind` is cpe.Unbind of claircore; `hash` is hex.EncodeToString of sha256.Sum256, `hash_json` the
-- same of an encoded value, `now` the time.
module _ (unbind : Str → Result (Unit {0})) (hash : Str → Str)
    (hash_json : List (Str × List Str) → Str) (now : ℕ) where
  -- `Fingerprint` of catalog/repository_mapping.go
  pub fingerprint : RepositoryMapping → List Str → Str
  fingerprint m ids =
      hash_json (map (λ id. (id, sort_strings (must_mapping_lookup m id))) (sort_strings ids))

  pub validate_all : RepositoryMapping → List Str → Result (Unit {0})
  validate_all m [] = ok tt
  validate_all m (id ∷ ids) = validate unbind m id >> validate_all m ids

  pub write_repositories : RepositoryMapping → List Str → Catalog → Result Catalog
  write_repositories m [] c = ok c
  write_repositories m (id ∷ ids) c =
      kept (add_repository unbind c (record { id = id; cpes = must_mapping_lookup m id }))
      >>= write_repositories m ids

  write_matches : Nevra → Str → List Str → Catalog → Result Catalog
  write_matches n id [] c = ok c
  write_matches n id (cpe ∷ cpes) c =
      kept (add_package unbind c n (record { repository_id = id; cpe = cpe }))
      >>= write_matches n id cpes

  pub write_packages : RepositoryMapping → List (Str × Nevra) → Catalog → Result Catalog
  write_packages m [] c = ok c
  write_packages m ((id, n) ∷ rows) c =
      write_matches n id (must_mapping_lookup m id) c >>= write_packages m rows

  pub metadata_of : GenerateOptions → RepositoryMapping → List Str → List (Str × Nevra) → Metadata
  metadata_of o m ids rows = record {
    schema_version = codes "1";
    rhel_version = (cut (trim_space o.rhel_version) b'.').0;
    architecture = o.architecture;
    repository_ids = ids;
    mapping_source = m.source;
    mapping_fingerprint = fingerprint m ids;
    package_fingerprint = hash (join_strings (map package_value rows));
    generated_at = now;
  }

  -- The part of `Generate` that writes, on the sorted rows.
  pub write_catalog :
      GenerateOptions → RepositoryMapping → List Str → List (Str × Nevra) → Result Catalog
  write_catalog o m ids rows = do
    repositories ← write_repositories m ids empty_catalog
    packages ← write_packages m rows repositories
    ok (set_metadata packages (metadata_of o m ids rows))

  -- `Generate`, where `loaded` is the result of `LoadRepositoryMapping`.
  pub generate : Host → CommandRunner → Result RepositoryMapping → GenerateOptions → Result Catalog
  generate host run loaded o = do
    fail_if
        (is_empty o.rhel_version
          || is_empty o.architecture
          || no_dirs o.repository_ids
          || is_empty o.output_path)
        (errorf "RHEL version, architecture, repository IDs, and output path are required" [])
    fail_if (not (is_empty o.dnf.architecture) && not (str_eq o.dnf.architecture o.architecture)) (
        errorf "DNF architecture %q does not match catalog architecture %q"
          (o.dnf.architecture ∷ o.architecture ∷ []))
    let ids = sort_strings o.repository_ids
    mapping ← loaded
    selected ← for_rhel_release mapping ids o.target_release_version o.architecture
    validate_all selected ids
    dnf ← dnf_options_of o
    rows ← query_all host run dnf ids
    write_catalog o selected ids (sort_by row_le rows)
