-- ===== src/Datastore/Operations/Grouped.antt =====
-- What GetUpdateOperations returns for an updater: its operations of the kind, the newest first.
use mathlib.Core.Path.{subst}
use cvetool.Prelude.{
  leb, if◌then◌else◌, Bool-cases, In, Sorted, All-mono, filter_by, In-filter_by, filter_by-Sorted,
  In-map, ◌≤◌, ◌≡◌, refl, sym, ap, ◌∙◌, ◌↔◌, ◌⊎◌, inl, inr, Bool, true, false, ◌&&◌, Option, List,
  [], ◌∷◌, ◌++◌, map, append-nil, append_assoc, arith,
}
use cvetool.Text.{
  Str, str_eq, str_eq_iff, sort_by-Sorted_of, In-sort_by, In_sort_by, contains, In_contains,
  In_unseen, Dict, lookup, lookup-insert,
}
use cvetool.Catalog.Json.{entries}
use cvetool.Datastore.Tables.{UpdateKind, Operation, Database}
use cvetool.Datastore.Operations.{
  UpdateOperation, update_operation_of, updaters_or_all, quoted, has_kind, rows_of,
  append_operation, group, get_update_operations,
}

abbrev named : Str → Operation → Bool
named u o = str_eq o.updater u

lookup-append_operation :
    (m : Dict (List UpdateOperation)) (uo : UpdateOperation) (u : Str)
    → entries (lookup (append_operation m uo) u)
      ≡ (if str_eq uo.updater u then entries (lookup m u) ++ (uo ∷ []) else entries (lookup m u))
unfolding append_operation
lookup-append_operation m uo u = elim (Bool-cases (str_eq uo.updater u)) [
  | inl e ↦
      let same = (str_eq_iff uo.updater u).0 e in
      rw (lookup-insert, e) (ap (λ k. entries (lookup m k) ++ (uo ∷ [])) same)
  | inr e ↦ rw (lookup-insert, e) refl
]

pub lookup-group :
    (os : List Operation) (m : Dict (List UpdateOperation)) (u : Str)
    → entries (lookup (group os m) u)
      ≡ entries (lookup m u) ++ map update_operation_of (filter_by (named u) os)
unfolding group filter_by
lookup-group [] m u = sym (append-nil (entries (lookup m u)))
lookup-group (o ∷ os) m u =
    lookup-group os (append_operation m (update_operation_of o)) u
    ∙ ap (λ xs. xs ++ map update_operation_of (filter_by (named u) os))
        (lookup-append_operation m (update_operation_of o) u)
    ∙ one_more (str_eq o.updater u)
  where
    one_more :
        (b : Bool)
        → (if b then entries (lookup m u) ++ (update_operation_of o ∷ []) else entries (lookup m u))
            ++ map update_operation_of (filter_by (named u) os)
          ≡ entries (lookup m u)
            ++ map update_operation_of
                (if b then o ∷ filter_by (named u) os else filter_by (named u) os)
    one_more true =
        append_assoc (entries (lookup m u)) (update_operation_of o ∷ [])
          (map update_operation_of (filter_by (named u) os))
    one_more false = refl

and_true : (a b : Bool) → (a && b) ≡ true → (a ≡ true) × (b ≡ true)
and_true true b h = (refl, h)
and_true false b h = cc h

true_and : (a b : Bool) → a ≡ true → b ≡ true → (a && b) ≡ true
true_and true b h k = k
true_and false b h k = cc h

quoted_In : (us : List Str) (u : Str) → In u us → In u (quoted us)
unfolding quoted
quoted_In [] u i = absurd i
quoted_In (x ∷ us) u i = i

-- The updater is asked for: it is named, or no updater is.
abbrev pub IsAsked : List Str → Str → Type 0
IsAsked updaters u = (updaters ≡ []) ⊎ In u updaters

asked_In :
    (updaters : List Str) (os : List Operation) (o : Operation)
    → IsAsked updaters o.updater
    → In o os
    → In o.updater (updaters_or_all updaters os)
unfolding updaters_or_all
asked_In [] os o h i =
    In_unseen o.updater [] (map (λ p. p.updater) os) (In-map (λ p. p.updater) o os i) (λ j. j)
asked_In (u ∷ us) os o (inl e) i = cc e
asked_In (u ∷ us) os o (inr j) i = j

ids_Sorted :
    (xs : List Operation) → Sorted (λ a b. leb b.id a.id ≡ true) xs → Sorted (λ a b. b.id ≤ a.id) xs
ids_Sorted [] h = tt
ids_Sorted (x ∷ xs) (hx, hs) = (
  All-mono (λ b. leb b.id x.id ≡ true) (λ b. b.id ≤ x.id) xs (λ b e. ground arith) hx,
  ids_Sorted xs hs,
)

rows_of-Sorted :
    (os : List Operation) (kind : Option UpdateKind) (us : List Str)
    → Sorted (λ a b. b.id ≤ a.id) (rows_of os kind us)
unfolding rows_of
rows_of-Sorted os kind us = ids_Sorted (rows_of os kind us) (
    sort_by-Sorted_of (λ a b. leb b.id a.id) (λ a b h. ground arith) (λ a b c h k. ground arith)
      (filter_by (λ o. contains us o.updater && has_kind kind o) os))

pub In-rows_of :
    (os : List Operation) (kind : Option UpdateKind) (us : List Str) (o : Operation)
    → In o (rows_of os kind us)
      ↔ (In o os × (contains us o.updater ≡ true) × (has_kind kind o ≡ true))
unfolding rows_of
In-rows_of os kind us o = (
  λ i.
      let (j, e) = (In-filter_by (λ p. contains us p.updater && has_kind kind p) o os).0 (
        In-sort_by (λ a b. leb b.id a.id) o
          (filter_by (λ p. contains us p.updater && has_kind kind p) os) i) in
      let (a, b) = and_true (contains us o.updater) (has_kind kind o) e in (j, a, b),
  λ (i, a, b).
      In_sort_by (λ a b. leb b.id a.id) o
        (filter_by (λ p. contains us p.updater && has_kind kind p) os)
        ((In-filter_by (λ p. contains us p.updater && has_kind kind p) o os).1
          (i, true_and (contains us o.updater) (has_kind kind o) a b)),
)

-- For each updater that is asked for, GetUpdateOperations returns its operations of the kind (of all
-- kinds, if the kind is empty), each of them and no others, in the falling order of their identifiers.
pub lookup-get_update_operations :
    (kind : Option UpdateKind) (updaters : List Str) (d : Database) (u : Str)
    → IsAsked updaters u
    → (rows : List Operation) × (entries (lookup (get_update_operations kind updaters d) u)
        ≡ map update_operation_of rows)
      × Sorted (λ a b. b.id ≤ a.id) rows
      × ((o : Operation)
          → In o rows ↔ (In o d.operations × (o.updater ≡ u) × (has_kind kind o ≡ true)))
unfolding get_update_operations lookup
lookup-get_update_operations kind updaters d u h =
    let us = quoted (updaters_or_all updaters d.operations) in
    let all = rows_of d.operations kind us in
    (
      filter_by (named u) all,
      lookup-group all [] u,
      filter_by-Sorted (named u) (λ a b. b.id ≤ a.id) all (rows_of-Sorted d.operations kind us),
      λ o. (
        λ i.
            let (j, e) = (In-filter_by (named u) o all).0 i in
            let (k, a, b) = (In-rows_of d.operations kind us o).0 j in
            (k, (str_eq_iff o.updater u).0 e, b),
        λ (i, e, b). (In-filter_by (named u) o all).1 (
          (In-rows_of d.operations kind us o).1 (
            i,
            In_contains us o.updater (
                quoted_In (updaters_or_all updaters d.operations) o.updater
                  (asked_In updaters d.operations o (subst (IsAsked updaters) (sym e) h) i)),
            b,
          ),
          (str_eq_iff o.updater u).1 e,
        ),
      ),
    )
