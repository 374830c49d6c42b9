-- ===== src/Datastore/Gc.antt =====
-- datastore/sqlite/gc.go and DeleteUpdateOperations of update_operations.go: old update operations
-- are deleted, and then the rows that no operation refers to.
mod Cuts
pub mod Kept
pub mod Orphans
mod Tests
use cvetool.Prelude.{
  ltb, leb, ◌==◌, if◌then◌else◌, length, filter_by, ℕ, zero, suc, ◌+◌, ◌-◌, Bool, false, not, ◌&&◌,
  ◌||◌, List, [], ◌∷◌, ◌++◌, map,
}
use cvetool.Text.{Str, str_eq, sort_by, contains, unseen, clean}
use cvetool.Datastore.Tables.{
  UpdateKind, vulnerability_kind, enrichment_kind, same_kind, Operation, Database,
}

abbrev pub drop : {A : Type 0} → ℕ → List A → List A
drop zero xs = xs
drop (suc n) [] = []
drop (suc n) (x ∷ xs) = drop n xs

abbrev pub take : {A : Type 0} → ℕ → List A → List A
take zero xs = []
take (suc n) [] = []
take (suc n) (x ∷ xs) = x ∷ take n xs

abbrev pub min : ℕ → ℕ → ℕ
min a b = if ltb a b then a else b

-- `ORDER BY date desc`; among equal dates, of which SQLite chooses the order, later rows stand
-- later.
abbrev pub newer : Operation → Operation → Bool
newer a b = leb b.date a.date

-- The operations of a group of `GROUP BY updater`, in the order of `json_group_array`.
pub group_of : List Operation → Str → List Operation
unfolding sort_by filter_by
group_of os updater = sort_by newer (filter_by (λ o. str_eq o.updater updater) os)

abbrev pub updaters_of : List Operation → List Str
unfolding unseen
updaters_of os = unseen [] (map (λ o. o.updater) os)

-- The loop of `eligibleUpdateOpts` over the groups. Every `ref` is the text of a UUID, which
-- `json.Unmarshal` reads; a negative `keep` panics.
pub eligible_refs : ℕ → List Operation → List Str → List Str
unfolding group_of
eligible_refs keep os [] = []
eligible_refs keep os (u ∷ us) =
    let refs = map (λ o. o.ref) (group_of os u) in
    drop (min (length refs) keep) refs ++ eligible_refs keep os us

-- `eligibleUpdateOpts`
pub eligible_update_opts : ℕ → Database → List Str
unfolding eligible_refs unseen
eligible_update_opts keep d = eligible_refs keep d.operations (updaters_of d.operations)

-- What a deleted operation takes with it, where the foreign keys of a connection are enforced.
abbrev pub deleted_id : List Str → List Operation → ℕ → Bool
unfolding contains
deleted_id refs [] id = false
deleted_id refs (o ∷ os) id = ((o.id == id) && contains refs o.ref) || deleted_id refs os id

abbrev pub cascaded : Bool → List Str → List Operation → List (ℕ × ℕ) → List (ℕ × ℕ)
unfolding filter_by
cascaded foreign_keys refs os pairs =
    if foreign_keys then filter_by (λ p. not (deleted_id refs os p.0)) pairs else pairs

-- `DeleteUpdateOperations`: the number of the deleted operations, and the database after it.
pub delete_update_operations : Bool → List Str → Database → ℕ × Database
unfolding filter_by contains
delete_update_operations foreign_keys [] d = (0, d)
delete_update_operations foreign_keys (r ∷ rs) d = (
  length (filter_by (λ o. contains (r ∷ rs) o.ref) d.operations),
  record d {
    operations = filter_by (λ o. not (contains (r ∷ rs) o.ref)) d.operations;
    uo_vuln = cascaded foreign_keys (r ∷ rs) d.operations d.uo_vuln;
    uo_enrich = cascaded foreign_keys (r ∷ rs) d.operations d.uo_enrich;
  },
)

-- `distinctUpdaters` for one kind
abbrev pub of_kind : UpdateKind → List Operation → List Operation
unfolding filter_by same_kind
of_kind kind os = filter_by (λ o. same_kind o.kind kind) os

pub distinct_updaters : UpdateKind → Database → List Str
unfolding unseen filter_by same_kind
distinct_updaters kind d = updaters_of (of_kind kind d.operations)

pub is_referenced : List (ℕ × ℕ) → ℕ → Bool
is_referenced [] id = false
is_referenced ((uo, k) ∷ ps) id = k == id || is_referenced ps id

-- `vulnCleanup`
pub vuln_cleanup : Database → Str → Database
unfolding is_referenced filter_by
vuln_cleanup d updater = record d {
  vulns =
      filter_by (λ r. not (not (is_referenced d.uo_vuln r.id) && str_eq r.updater updater)) d.vulns;
}

-- `enrichmentCleanup`
pub enrichment_cleanup : Database → Str → Database
unfolding is_referenced filter_by
enrichment_cleanup d updater = record d {
  enrichments =
      filter_by (λ r. not (not (is_referenced d.uo_enrich r.id) && str_eq r.updater updater))
        d.enrichments;
}

abbrev pub each : (Database → Str → Database) → List Str → Database → Database
each cleanup [] d = d
each cleanup (u ∷ us) d = each cleanup us (cleanup d u)

-- `GC`: the database after it, and the number of operations that it should have deleted and did
-- not. The order of the two kinds, which Go leaves open, does not matter: they clean different
-- tables.
pub gc : Bool → ℕ → Database → Database × ℕ
unfolding eligible_update_opts delete_update_operations distinct_updaters vuln_cleanup
    enrichment_cleanup
gc foreign_keys keep d =
    let ops = eligible_update_opts keep d in
    let (deleted, d') = delete_update_operations foreign_keys ops d in
    let clean = each vuln_cleanup (distinct_updaters vulnerability_kind d') d' in
    (each enrichment_cleanup (distinct_updaters enrichment_kind d') clean, length ops - deleted)
