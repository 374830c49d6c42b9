-- ===== src/Datastore/Operations/Tests.antt =====
-- Runs on three operations of two updaters.
use cvetool.Prelude.{In, Sorted, ℕ, ◌≤◌, ◌≡◌, refl, ◌↔◌, inl, true, some, List, [], ◌∷◌, map}
use cvetool.Text.{Str, codes, lookup}
use cvetool.Catalog.Json.{entries}
use cvetool.Datastore.Tables.{UpdateKind, vulnerability_kind, enrichment_kind, Operation, Database}
use cvetool.Datastore.Operations.{update_operation_of, has_kind, get_update_operations}
use cvetool.Datastore.Operations.Grouped.{lookup-get_update_operations}

abbrev pub operation : ℕ → Str → UpdateKind → ℕ → Operation
operation id updater kind date = record {
  id = id;
  ref = [];
  updater = updater;
  fingerprint = [];
  kind = kind;
  date = date;
}

abbrev pub three_operations : Database
three_operations = record {
  operations =
      operation 1 (codes "rhel") vulnerability_kind 100
      ∷ operation 2 (codes "cvss") enrichment_kind 200
      ∷ operation 3 (codes "rhel") vulnerability_kind 300
      ∷ [];
  operation_seq = 3;
  vulns = [];
  metadata = [];
  uo_vuln = [];
  enrichments = [];
  uo_enrich = [];
}

lookup-get_update_operations_example :
    (rows : List Operation) × (entries (
        lookup (get_update_operations (some vulnerability_kind) [] three_operations) (codes "rhel"))
      ≡ map update_operation_of rows)
    × Sorted (λ a b. b.id ≤ a.id) rows
    × ((o : Operation)
        → In o rows ↔ (
            In o three_operations.operations
            × (o.updater ≡ codes "rhel")
            × (has_kind (some vulnerability_kind) o ≡ true)))
lookup-get_update_operations_example =
    lookup-get_update_operations (some vulnerability_kind) [] three_operations (codes "rhel")
      (inl refl)
