-- ===== src/Datastore/Operations.antt =====
-- datastore/sqlite/update_operations.go: GetUpdateOperations. No name of an updater has a quote, so
-- the text of the query is the one that is meant.
pub mod Grouped
pub mod Tests
use cvetool.Prelude.{
  leb, filter_by, ℕ, ◌+◌, Bool, true, ◌&&◌, Option, none, some, List, [], ◌∷◌, ◌++◌, map,
}
use cvetool.Text.{Str, sort_by, contains, unseen, Dict, lookup, insert}
use cvetool.Catalog.Json.{entries}
use cvetool.Datastore.Tables.{UpdateKind, same_kind, Operation, Database}

-- driver.UpdateOperation
pub record UpdateOperation : Type 0 where
  pub ref : Str
  pub updater : Str
  pub fingerprint : Str
  pub date : ℕ

pub update_operation_of : Operation → UpdateOperation
update_operation_of o = record {
  ref = o.ref;
  updater = o.updater;
  fingerprint = o.fingerprint;
  date = o.date;
}

-- `SELECT DISTINCT(updater) FROM update_operation`, where no updaters are given.
pub updaters_or_all : List Str → List Operation → List Str
updaters_or_all [] os = unseen [] (map (λ o. o.updater) os)
updaters_or_all (u ∷ us) os = u ∷ us

-- The list between the quotes of `updater IN ('…')`: one empty name, if there is none.
pub quoted : List Str → List Str
quoted [] = [] ∷ []
quoted (u ∷ us) = u ∷ us

-- The condition on the kind; `none` is the empty kind.
unfoldable pub has_kind : Option UpdateKind → Operation → Bool
has_kind none o = true
has_kind (some kind) o = same_kind o.kind kind

-- `WHERE updater IN (…) AND kind = … ORDER BY id DESC`
pub rows_of : List Operation → Option UpdateKind → List Str → List Operation
unfolding has_kind
rows_of os kind us =
    sort_by (λ a b. leb b.id a.id) (filter_by (λ o. contains us o.updater && has_kind kind o) os)

-- `out[uo.Updater] = append(out[uo.Updater], uo)`
unfoldable pub append_operation :
    Dict (List UpdateOperation) → UpdateOperation → Dict (List UpdateOperation)
append_operation m uo = insert m uo.updater (entries (lookup m uo.updater) ++ (uo ∷ []))

unfoldable pub group : List Operation → Dict (List UpdateOperation) → Dict (List UpdateOperation)
unfolding append_operation update_operation_of
group [] m = m
group (o ∷ os) m = group os (append_operation m (update_operation_of o))

-- `GetUpdateOperations`
unfoldable pub get_update_operations :
    Option UpdateKind → List Str → Database → Dict (List UpdateOperation)
unfolding updaters_or_all quoted rows_of group
get_update_operations kind updaters d =
    group (rows_of d.operations kind (quoted (updaters_or_all updaters d.operations))) []
