-- ===== src/Catalog/Enrich.antt =====
-- catalog/enrich.go: the repositories of a catalog are added to an index report.
pub mod Report
mod Tests
use cvetool.Prelude.{
  if◌then◌else◌, is_some, length, errorf, wrapf, Result, ok, err, ◌>>=◌, ◌>>◌, wrap, ℕ, ◌+◌, ◌-◌,
  Option, none, some, List, [], ◌∷◌, ◌++◌,
}
use cvetool.Text.{Str, codes, contains, Dict, lookup, insert}
use cvetool.Catalog.Nevra.{Nevra, Package, parse_package}
use cvetool.Catalog.Json.{Match}

pub record Diagnostics : Type 0 where
  pub packages_inspected : ℕ
  pub catalog_matches : ℕ
  pub unmapped_packages : ℕ
  pub repositories_added : ℕ

-- The fields of claircore.Environment and claircore.Repository that the code touches. The type of a
-- parsed CPE is a parameter.
pub record Environment : Type 0 where
  pub repository_ids : List Str

pub record ReportRepository (Wfn : Type 0) : Type 0 where
  pub id : Str
  pub key : Str
  pub uri : Str
  pub cpe : Wfn

-- claircore.IndexReport: its maps of packages, environments and repositories. `none` is a nil pointer.
-- No environment is shared between two packages. The nil map of repositories is the empty one.
pub record IndexReport (Wfn : Type 0) : Type 0 where
  pub packages : Dict (Option Package)
  pub environments : Dict (List (Option Environment))
  pub repositories : Dict (ReportRepository Wfn)

abbrev pub repository_key : Str
repository_key = codes "rhel-cpe-repository"

-- The parameters are the parsed CPE names with cpe.Unbind of the claircore library, and the
-- hexadecimal SHA-256 digest of a text.
module _ {Wfn : Type 0} (unbind : Str → Result Wfn) (sha256_hex : Str → Str) where
  -- `syntheticRepositoryID`
  pub synthetic_repository_id : Match → Str
  synthetic_repository_id m =
      repository_key ++ (codes "-" ++ sha256_hex (m.repository_id ++ (0 ∷ m.cpe)))

  -- The matches with their parsed CPEs; the first that cannot be parsed ends the loop.
  pub validate_matches : List Match → Result (List (Match × Wfn))
  validate_matches [] = ok []
  validate_matches (m ∷ ms) = do
    wfn ← wrap "invalid catalog CPE %q" (m.cpe ∷ []) (unbind m.cpe)
    rest ← validate_matches ms
    ok ((m, wfn) ∷ rest)

  -- The variables that the inner loops assign.
  pub record Progress : Type 0 where
    pub repositories : Dict (ReportRepository Wfn)
    pub added : ℕ

  add_repository_of : Str → Match → Wfn → Progress → Progress
  add_repository_of id m wfn p = if is_some (lookup p.repositories id) then p else record {
    repositories =
        insert p.repositories id
          (record { id = id; key = repository_key; uri = m.repository_id; cpe = wfn });
    added = p.added + 1;
  }

  -- `if !hasRepositoryID(ids, id) { ids = append(ids, id) }`
  append_id : List Str → Str → List Str
  append_id ids id = if contains ids id then ids else ids ++ (id ∷ [])

  -- The loop over the matches for one environment.
  pub enrich_environment : List (Match × Wfn) → List Str → Progress → List Str × Progress
  enrich_environment [] ids p = (ids, p)
  enrich_environment ((m, wfn) ∷ ms) ids p =
      let id = synthetic_repository_id m in
      let skip = enrich_environment ms ids p in
      let add = enrich_environment ms (append_id ids id) (add_repository_of id m wfn p) in
      if contains ids m.repository_id then skip else add

  -- The loop over the environments of one package.
  pub enrich_environments :
      List (Match × Wfn)
      → List (Option Environment)
      → Progress
      → List (Option Environment) × Progress
  enrich_environments ms [] p = ([], p)
  enrich_environments ms (none ∷ envs) p =
      let (rest, p') = enrich_environments ms envs p in (none ∷ rest, p')
  enrich_environments ms (some e ∷ envs) p =
      let (ids, p') = enrich_environment ms e.repository_ids p in
      let (rest, q) = enrich_environments ms envs p' in
      (some (record { repository_ids = ids }) ∷ rest, q)

  -- The state of the outer loop.
  pub record State : Type 0 where
    pub environments : Dict (List (Option Environment))
    pub repositories : Dict (ReportRepository Wfn)
    pub diagnostics : Diagnostics

  -- `append` and assignments through pointers change the environments of the package in place.
  put_environments : Str → Option (List (Option Environment)) → List (Match × Wfn) → State → State
  put_environments id none ms s = s
  put_environments id (some envs) ms s =
      let (envs', p) =
        enrich_environments ms envs
          (record { repositories = s.repositories; added = s.diagnostics.repositories_added }) in
      record {
        environments = insert s.environments id envs';
        repositories = p.repositories;
        diagnostics = record (s.diagnostics) { repositories_added = p.added };
      }

  inspected : State → State
  inspected s = record s {
    diagnostics = record (s.diagnostics) {
      packages_inspected = s.diagnostics.packages_inspected + 1;
    };
  }

  unmapped : State → State
  unmapped s = record s {
    diagnostics = record (s.diagnostics) {
      unmapped_packages = s.diagnostics.unmapped_packages + 1;
    };
  }

  matched : ℕ → State → State
  matched n s = record s {
    diagnostics = record (s.diagnostics) { catalog_matches = s.diagnostics.catalog_matches + n };
  }

  use_matches : Str → List Match → State → State × Result (Unit {0})
  use_matches id [] s = (unmapped s, ok tt)
  use_matches id (m ∷ ms) s =
      let counted = matched (length (m ∷ ms)) s in
      elim (validate_matches (m ∷ ms)) [
        | err e ↦ (counted, err e)
        | ok validated ↦ (put_environments id (lookup s.environments id) validated counted, ok tt)
      ]

  -- One round of the loop over the packages. `find` is the `Lookup` of the reader.
  pub enrich_package :
      (Nevra → Result (List Match)) → Str → Option Package → State → State × Result (Unit {0})
  enrich_package find id pkg s = elim (parse_package pkg) [
    | err e ↦ (unmapped (inspected s), ok tt)
    | ok nevra ↦ elim (find nevra) [
      | err e ↦ (inspected s, err (wrapf "lookup package %q" (id ∷ []) e))
      | ok matches ↦ use_matches id matches (inspected s)
    ]
  ]

  unfoldable pub enrich_packages :
      (Nevra → Result (List Match)) → Dict (Option Package) → State → State × Result (Unit {0})
  enrich_packages find [] s = (s, ok tt)
  enrich_packages find ((id, pkg) ∷ rest) s =
      let (s', r) = enrich_package find id pkg s in
      let next = enrich_packages find rest s' in elim r [ ok u ↦ next | err e ↦ (s', err e) ]

  abbrev pub no_diagnostics : Diagnostics
  no_diagnostics = record {
    packages_inspected = 0;
    catalog_matches = 0;
    unmapped_packages = 0;
    repositories_added = 0;
  }

  -- `EnrichIndexReport`; `none` is a nil report and a nil reader. The changed report, the diagnostics
  -- and the error come back.
  unfoldable pub enrich_index_report :
      Option (IndexReport Wfn)
      → Option (Nevra → Result (List Match))
      → Option (IndexReport Wfn) × Diagnostics × Result (Unit {0})
  enrich_index_report none find = (none, no_diagnostics, err (errorf "nil index report" []))
  enrich_index_report (some r) none = (some r, no_diagnostics, err (errorf "nil catalog reader" []))
  enrich_index_report (some r) (some find) =
      let (s, result) = enrich_packages find r.packages (record {
        environments = r.environments;
        repositories = r.repositories;
        diagnostics = no_diagnostics;
      }) in
      (
        some (record r { environments = s.environments; repositories = s.repositories }),
        s.diagnostics,
        result,
      )
