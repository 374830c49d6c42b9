-- ===== src/Datastore/Gc/Kept.antt =====
-- GC: which update operations stay.
use cvetool.Prelude.{
  Bool-cases, length, In, Distinct, Sorted, In-append_left, In-append_right, In-append, All-mono,
  filter_by, In-filter_by, filter_by-Distinct, In-map, In_map, ℕ, ◌≤◌, ◌≡◌, refl, sym, ap, ◌∙◌, ◌↔◌,
  inl, inr, Bool, true, not, List, [], ◌∷◌, map, arith,
}
use cvetool.Text.{
  Str, codes, str_eq, str_le, str_lt, str_eq_iff, str_eq_refl, str_le_refl, str_le_total,
  str_le_trans, str_le_antisym, insert_by, sort_by, Le, TotalOrder, str_le-TotalOrder, In-insert_by,
  In_insert_by, sort_by-Sorted_of, insert_by-Sorted, sort_by-Sorted, sort_by-eq_self, Sorted-ext,
  In-sort_by, In_sort_by, insert_by-Distinct, sort_by-Distinct, length-sort_by, sort_strings,
  contains, contains_In, In_contains, not_In_of_contains, unseen, In-unseen, In_unseen,
  unseen-Distinct, unseen-Sorted, split, join, cut, cut_last, has_prefix, has_suffix, contains_sub,
  trim_prefix, replace_all, is_space, trim_left_func, drop_if_last, trim_right_func, trim_space,
  trim_left, trim, contains_any, fields, to_lower, equal_fold, scan_lines, too_long, Dict, lookup,
  insert, remove, lookup-insert, lookup-insert_self, lookup-remove, is_abs, push_element,
  elements_from, elements, clean, join_path, after_common, rel,
}
use cvetool.Datastore.Tables.{vulnerability_kind, enrichment_kind, Operation, Database}
use cvetool.Datastore.Gc.{
  drop, take, min, newer, group_of, updaters_of, eligible_refs, eligible_update_opts,
  delete_update_operations, distinct_updaters, vuln_cleanup, enrichment_cleanup, each, gc,
}
use cvetool.Datastore.Gc.Cuts.{
  length-le_of_Distinct, drop_all, drop-min, In-take_drop, In_take, In_drop, not_both,
  length-take-min, Distinct-take, Sorted-take_drop, map-drop, Distinct-map_inverse, injective_on,
}
use mathlib.Core.Path.{subst}

-- The column `ref` is UNIQUE.
abbrev pub HasUniqueRefs : Database → Type 0
HasUniqueRefs d = Distinct (map (λ o. o.ref) d.operations)

-- The operations of an updater, the newest first.
pub group_of-Sorted :
    (os : List Operation) (u : Str) → Sorted (λ a b. b.date ≤ a.date) (group_of os u)
unfolding group_of
group_of-Sorted os u = dates (sort_by newer (filter_by (λ o. str_eq o.updater u) os)) (
    sort_by-Sorted_of newer (λ a b h. ground arith) (λ a b c h k. ground arith)
      (filter_by (λ o. str_eq o.updater u) os))
  where
    dates :
        (xs : List Operation)
        → Sorted (λ a b. newer a b ≡ true) xs
        → Sorted (λ a b. b.date ≤ a.date) xs
    dates [] s = tt
    dates (x ∷ xs) (h, s) = (
      All-mono (λ b. newer x b ≡ true) (λ b. b.date ≤ x.date) xs (λ b e. ground arith) h,
      dates xs s,
    )

In-group_of :
    (os : List Operation) (u : Str) (o : Operation)
    → In o (group_of os u) ↔ (In o os × (o.updater ≡ u))
unfolding group_of
In-group_of os u o =
    let p : Operation → Bool = λ z. str_eq z.updater u in
    (
      λ i.
          let (j, e) = (In-filter_by p o os).0 (In-sort_by newer o (filter_by p os) i) in
          (j, (str_eq_iff o.updater u).0 e),
      λ h.
          In_sort_by newer o (filter_by p os)
            ((In-filter_by p o os).1 (h.0, (str_eq_iff o.updater u).1 h.1)),
    )

group_of-Distinct : (os : List Operation) (u : Str) → Distinct os → Distinct (group_of os u)
unfolding group_of
group_of-Distinct os u d =
    sort_by-Distinct newer (filter_by (λ o. str_eq o.updater u) os)
      (filter_by-Distinct (λ o. str_eq o.updater u) os d)

-- A text is eligible if it is the reference of an operation behind the cut of its group.
In-eligible_refs :
    (keep : ℕ) (os : List Operation) (us : List Str) (r : Str)
    → In r (eligible_refs keep os us)
      ↔ ((u : Str) × In u us × ((o : Operation) × In o (drop keep (group_of os u)) × (o.ref ≡ r)))
unfolding eligible_refs
In-eligible_refs keep os [] r = (λ i. absurd i, λ h. absurd h.1)
In-eligible_refs keep os (u ∷ us) r =
    let ref = λ (o : Operation). o.ref in
    let refs = map ref (group_of os u) in
    let cut = drop-min keep refs ∙ map-drop ref keep (group_of os u) in
    let rest = In-eligible_refs keep os us r in
    (
      λ i. elim (In-append r (drop (min (length refs) keep) refs) (eligible_refs keep os us) i) [
        | inl l ↦ (u, inl refl, In_map ref r (drop keep (group_of os u)) (subst (In r) cut l))
        | inr j ↦ let (v, k, h) = rest.0 j in (v, inr k, h)
      ],
      λ h.
          let (v, k, (o, j, e)) = h in
          elim k [
            | inl q ↦
                In-append_left r (drop (min (length refs) keep) refs) (eligible_refs keep os us) (
                  subst (In r) (sym cut) (
                    subst (λ z. In z (map ref (drop keep (group_of os u)))) e
                      (In-map ref o (drop keep (group_of os u))
                        (subst (λ w. In o (drop keep (group_of os w))) (sym q) j))))
            | inr l ↦
                In-append_right r (drop (min (length refs) keep) refs) (eligible_refs keep os us)
                  (rest.1 (v, l, (o, j, e)))
          ],
    )

filter_by-true : (os : List Operation) → filter_by (λ o. not (contains [] o.ref)) os ≡ os
unfolding filter_by contains
filter_by-true [] = refl
filter_by-true (o ∷ os) = ap (λ z. o ∷ z) (filter_by-true os)

operations-delete :
    (foreign_keys : Bool) (refs : List Str) (d : Database)
    → (delete_update_operations foreign_keys refs d).1.operations
      ≡ filter_by (λ o. not (contains refs o.ref)) d.operations
unfolding delete_update_operations
operations-delete foreign_keys [] d = sym (filter_by-true d.operations)
operations-delete foreign_keys (r ∷ rs) d = refl

operations-vulns :
    (us : List Str) (d : Database) → (each vuln_cleanup us d).operations ≡ d.operations
unfolding vuln_cleanup
operations-vulns [] d = refl
operations-vulns (u ∷ us) d = operations-vulns us (vuln_cleanup d u)

operations-enrichments :
    (us : List Str) (d : Database) → (each enrichment_cleanup us d).operations ≡ d.operations
unfolding enrichment_cleanup
operations-enrichments [] d = refl
operations-enrichments (u ∷ us) d = operations-enrichments us (enrichment_cleanup d u)

operations-gc :
    (foreign_keys : Bool) (keep : ℕ) (d : Database)
    → (gc foreign_keys keep d).0.operations
      ≡ filter_by (λ o. not (contains (eligible_update_opts keep d) o.ref)) d.operations
unfolding gc
operations-gc foreign_keys keep d =
    let deleted = (delete_update_operations foreign_keys (eligible_update_opts keep d) d).1 in
    let clean = each vuln_cleanup (distinct_updaters vulnerability_kind deleted) deleted in
    operations-enrichments (distinct_updaters enrichment_kind deleted) clean
    ∙ operations-vulns (distinct_updaters vulnerability_kind deleted) deleted
    ∙ operations-delete foreign_keys (eligible_update_opts keep d) d

In-updaters_of : (os : List Operation) (o : Operation) → In o os → In o.updater (updaters_of os)
unfolding updaters_of cvetool.Text.unseen
In-updaters_of os o i =
    In_unseen o.updater [] (map (λ p. p.updater) os) (In-map (λ p. p.updater) o os i) (λ b. b)

-- The references of `eligibleUpdateOpts`: those of the operations behind the newest `keep` of their
-- updaters.
eligible_update_opts_iff :
    (keep : ℕ) (d : Database) (o : Operation)
    → HasUniqueRefs d
    → In o d.operations
    → In o.ref (eligible_update_opts keep d) ↔ In o (drop keep (group_of d.operations o.updater))
unfolding eligible_update_opts
eligible_update_opts_iff keep d o unique i =
    let os = d.operations in
    let lem = In-eligible_refs keep os (updaters_of os) o.ref in
    (
      λ h.
          let (u, k, (p, j, e)) = lem.0 h in
          let (pi, pu) = (In-group_of os u p).0 (In_drop p keep (group_of os u) j) in
          let same = injective_on (λ (z : Operation). z.ref) os unique p o pi i e in
          subst (λ z. In z (drop keep (group_of os z.updater))) same
            (subst (λ w. In p (drop keep (group_of os w))) (sym pu) j),
      λ j. lem.1 (o.updater, In-updaters_of os o i, (o, j, refl)),
    )

-- GC leaves, of each updater's operations in the order of their dates, exactly the newest `keep`.
pub In-gc :
    (foreign_keys : Bool) (keep : ℕ) (d : Database) (o : Operation)
    → HasUniqueRefs d
    → In o (gc foreign_keys keep d).0.operations
      ↔ (In o d.operations × In o (take keep (group_of d.operations o.updater)))
In-gc foreign_keys keep d o unique =
    let os = d.operations in
    let refs = eligible_update_opts keep d in
    let kept = In-filter_by (λ p. not (contains refs p.ref)) o os in
    let gone = operations-gc foreign_keys keep d in
    let distinct = group_of-Distinct os o.updater (Distinct-map_inverse (λ p. p.ref) os unique) in
    (
      λ i.
          let (j, e) = kept.0 (subst (In o) gone i) in
          (
            j,
            elim (In-take_drop o keep (group_of os o.updater)
                ((In-group_of os o.updater o).1 (j, refl))) [
                  | inl t ↦ t
                  | inr b ↦
                      cc (
                        e,
                        In_contains refs o.ref ((eligible_update_opts_iff keep d o unique j).1 b),
                      )
                ],
          ),
      λ h. subst (In o) (sym gone) (
          kept.1 (
            h.0,
            elim (Bool-cases (contains refs o.ref)) [
              | inr e ↦ rw e
              | inl e ↦ absurd (
                  not_both o keep (group_of os o.updater) distinct h.1
                    ((eligible_update_opts_iff keep d o unique h.0).0 (contains_In refs o.ref e)))
            ],
          )),
    )

eligible_refs_nil :
    (keep : ℕ) (os : List Operation) (us : List Str)
    → ((u : Str) → length (group_of os u) ≤ keep)
    → eligible_refs keep os us ≡ []
unfolding eligible_refs
eligible_refs_nil keep os [] h = refl
eligible_refs_nil keep os (u ∷ us) h =
    let refs = map (λ o. o.ref) (group_of os u) in
    let cut : drop (min (length refs) keep) refs ≡ [] =
      drop-min keep refs
      ∙ map-drop (λ o. o.ref) keep (group_of os u)
      ∙ ap (map (λ o. o.ref)) (drop_all keep (group_of os u) (h u)) in
    rw cut (eligible_refs_nil keep os us h)

group_of-gc :
    (foreign_keys : Bool) (keep : ℕ) (d : Database) (u : Str)
    → HasUniqueRefs d
    → length (group_of (gc foreign_keys keep d).0.operations u)
      ≤ min keep (length (group_of d.operations u))
group_of-gc foreign_keys keep d u unique =
    let os' = (gc foreign_keys keep d).0.operations in
    let distinct : Distinct os' = subst Distinct (sym (operations-gc foreign_keys keep d)) (
      filter_by-Distinct (λ o. not (contains (eligible_update_opts keep d) o.ref)) d.operations
        (Distinct-map_inverse (λ p. p.ref) d.operations unique)) in
    let within =
      length-le_of_Distinct (group_of os' u) (take keep (group_of d.operations u))
        (group_of-Distinct os' u distinct)
        (λ o i.
          let (j, e) = (In-group_of os' u o).0 i in
          subst (λ w. In o (take keep (group_of d.operations w))) e
            ((In-gc foreign_keys keep d o unique).0 j).1) in
    omega (arith, within, length-take-min keep (group_of d.operations u))

remaining_nil :
    (foreign_keys : Bool) (keep : ℕ) (d : Database)
    → eligible_update_opts keep d ≡ []
    → (gc foreign_keys keep d).1 ≡ 0
unfolding gc
remaining_nil foreign_keys keep d e = rw e (omega arith)

-- If the references are unique, one run is a full garbage collection: a second run with the same
-- `keep` finds no operation to delete, leaves the operations, and returns 0 as the number of those
-- that are left to delete.
pub gc_again :
    (foreign_keys : Bool) (keep : ℕ) (d : Database)
    → HasUniqueRefs d
    → (eligible_update_opts keep (gc foreign_keys keep d).0 ≡ [])
      × ((gc foreign_keys keep (gc foreign_keys keep d).0).1 ≡ 0)
      × ((gc foreign_keys keep (gc foreign_keys keep d).0).0.operations
          ≡ (gc foreign_keys keep d).0.operations)
unfolding eligible_update_opts
gc_again foreign_keys keep d unique =
    let d' = (gc foreign_keys keep d).0 in
    let none_left : eligible_update_opts keep d' ≡ [] =
      eligible_refs_nil keep d'.operations (updaters_of d'.operations)
        (λ u. ground (arith, group_of-gc foreign_keys keep d u unique)) in
    (
      none_left,
      remaining_nil foreign_keys keep d' none_left,
      operations-gc foreign_keys keep d'
          ∙ ap (λ refs. filter_by (λ o. not (contains refs o.ref)) d'.operations) none_left
          ∙ filter_by-true d'.operations,
    )

-- The number of the operations of an updater.
abbrev pub count_of : List Operation → Str → ℕ
count_of os u = length (filter_by (λ o. str_eq o.updater u) os)

length-group_of : (os : List Operation) (u : Str) → length (group_of os u) ≡ count_of os u
unfolding group_of
length-group_of os u = length-sort_by newer (filter_by (λ o. str_eq o.updater u) os)

count_of-gc_le :
    (foreign_keys : Bool) (keep : ℕ) (d : Database) (u : Str)
    → HasUniqueRefs d
    → min keep (count_of d.operations u) ≤ count_of (gc foreign_keys keep d).0.operations u
count_of-gc_le foreign_keys keep d u unique =
    let os' = (gc foreign_keys keep d).0.operations in
    let group = group_of d.operations u in
    let distinct =
      Distinct-take keep group (
        group_of-Distinct d.operations u (Distinct-map_inverse (λ p. p.ref) d.operations unique)) in
    let within = length-le_of_Distinct (take keep group) (group_of os' u) distinct (λ o i.
      let (j, e) = (In-group_of d.operations u o).0 (In_take o keep group i) in
      (In-group_of os' u o).1 (
        (In-gc foreign_keys keep d o unique).1
            (j, subst (λ w. In o (take keep (group_of d.operations w))) (sym e) i),
        e,
      )) in
    omega (
      arith,
      within,
      length-take-min keep group,
      ap (min keep) (length-group_of d.operations u),
      length-group_of os' u,
    )

-- If the references are unique, GC keeps, of each updater, as many operations as it is told to, or
-- all if there are fewer, and no operation that it deletes is newer than one of the same updater
-- that it keeps.
pub gc_keeps_newest :
    (foreign_keys : Bool) (keep : ℕ) (d : Database)
    → HasUniqueRefs d
    → ((u : Str)
        → count_of (gc foreign_keys keep d).0.operations u ≡ min keep (count_of d.operations u))
      × ((o p : Operation)
          → In o (gc foreign_keys keep d).0.operations
          → In p d.operations
          → ¬ In p (gc foreign_keys keep d).0.operations
          → p.updater ≡ o.updater
          → p.date ≤ o.date)
gc_keeps_newest foreign_keys keep d unique = (
  λ u. omega (
    arith,
    count_of-gc_le foreign_keys keep d u unique,
    group_of-gc foreign_keys keep d u unique,
    length-group_of (gc foreign_keys keep d).0.operations u,
    ap (min keep) (length-group_of d.operations u),
  ),
  λ o p i j n e.
      let group = group_of d.operations o.updater in
      let kept = ((In-gc foreign_keys keep d o unique).0 i).1 in
      let behind : In p (drop keep group) =
        elim (In-take_drop p keep group ((In-group_of d.operations o.updater p).1 (j, e))) [
          | inl t ↦ absurd (
              n (
                (In-gc foreign_keys keep d p unique).1
                  (j, subst (λ w. In p (take keep (group_of d.operations w))) (sym e) t)))
          | inr b ↦ b
        ] in
      Sorted-take_drop (λ a b. b.date ≤ a.date) keep group o p
        (group_of-Sorted d.operations o.updater) kept behind,
)
