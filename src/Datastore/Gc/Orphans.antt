-- ===== src/Datastore/Gc/Orphans.antt =====
-- GC: which vulnerabilities stay.
use cvetool.Prelude.{
  ◌==◌, ==_iff, Bool-cases, In, In-filter_by, In-map, In_map, ℕ, ◌≡◌, refl, sym, ap, ◌∙◌, ◌↔◌, inl,
  inr, Bool, true, false, not, ◌&&◌, List, [], ◌∷◌, map, arith,
}
use cvetool.Text.{Str, str_eq, str_eq_iff, In-unseen, In_unseen}
use cvetool.Datastore.Tables.{
  VulnRow, UpdateKind, vulnerability_kind, enrichment_kind, same_kind, Operation, Database,
}
use cvetool.Datastore.Gc.{
  eligible_update_opts, delete_update_operations, of_kind, distinct_updaters, is_referenced,
  vuln_cleanup, enrichment_cleanup, each, gc,
}
use mathlib.Core.Path.{subst}

is_referenced_In :
    (ps : List (ℕ × ℕ)) (id : ℕ) → is_referenced ps id ≡ true → (uo : ℕ) × In (uo, id) ps
unfolding is_referenced
is_referenced_In [] id h = cc
is_referenced_In ((uo, k) ∷ ps) id h = elim (Bool-cases (k == id)) [
  | inl e ↦ (uo, inl (ap (λ z. (uo, z)) ((==_iff k id).0 e)))
  | inr e ↦ let (m, i) = is_referenced_In ps id (rw e at h) in (m, inr i)
]

In_is_referenced : (ps : List (ℕ × ℕ)) (id uo : ℕ) → In (uo, id) ps → is_referenced ps id ≡ true
unfolding is_referenced
In_is_referenced [] id uo i = absurd i
In_is_referenced ((m, k) ∷ ps) id uo (inl e) = ground (arith, ap (λ p. p.1) e)
In_is_referenced ((m, k) ∷ ps) id uo (inr i) = ground (arith, In_is_referenced ps id uo i)

unreferenced_iff :
    (ps : List (ℕ × ℕ)) (id : ℕ) → (is_referenced ps id ≡ false) ↔ ((uo : ℕ) → ¬ In (uo, id) ps)
unreferenced_iff ps id = (
  λ h uo i. cc (h, In_is_referenced ps id uo i),
  λ h. elim (Bool-cases (is_referenced ps id)) [
    | inl e ↦ let (uo, i) = is_referenced_In ps id e in absurd (h uo i)
    | inr e ↦ e
  ],
)

-- A row that no pair refers to and whose updater is cleaned.
abbrev IsOrphan : Database → List Str → VulnRow → Type 0
IsOrphan d us r = (is_referenced d.uo_vuln r.id ≡ false) × In r.updater us

not_orphan_iff : (a b : Bool) → (not (not a && b) ≡ true) ↔ (¬ ((a ≡ false) × (b ≡ true)))
not_orphan_iff true b = (λ h e. cc (e.0), λ h. refl)
not_orphan_iff false true = (λ h e. cc (h), λ h. absurd (h (refl, refl)))
not_orphan_iff false false = (λ h e. cc (e.1), λ h. refl)

In-vuln_cleanup :
    (d : Database) (u : Str) (r : VulnRow)
    → In r (vuln_cleanup d u).vulns
      ↔ (In r d.vulns × (¬ ((is_referenced d.uo_vuln r.id ≡ false) × (u ≡ r.updater))))
unfolding vuln_cleanup
In-vuln_cleanup d u r =
    let lem =
      In-filter_by (λ z. not (not (is_referenced d.uo_vuln z.id) && str_eq z.updater u)) r
        d.vulns in
    let test = not_orphan_iff (is_referenced d.uo_vuln r.id) (str_eq r.updater u) in
    (
      λ i. ((lem.0 i).0, λ o. test.0 (lem.0 i).1 (o.0, (str_eq_iff r.updater u).1 (sym o.1))),
      λ h. lem.1 (h.0, test.1 (λ o. h.1 (o.0, sym ((str_eq_iff r.updater u).0 o.1)))),
    )

uo_vuln-each : (us : List Str) (d : Database) → (each vuln_cleanup us d).uo_vuln ≡ d.uo_vuln
unfolding vuln_cleanup
uo_vuln-each [] d = refl
uo_vuln-each (u ∷ us) d = uo_vuln-each us (vuln_cleanup d u)

In-each :
    (us : List Str) (d : Database) (r : VulnRow)
    → In r (each vuln_cleanup us d).vulns ↔ (In r d.vulns × (¬ IsOrphan d us r))
unfolding vuln_cleanup
In-each [] d r = (λ i. (i, λ o. o.1), λ h. h.0)
In-each (u ∷ us) d r =
    let rest = In-each us (vuln_cleanup d u) r in
    let first = In-vuln_cleanup d u r in
    (
      λ i.
          let (j, n) = rest.0 i in
          ((first.0 j).0, λ o. elim o.1 [ inl e ↦ (first.0 j).1 (o.0, e) | inr k ↦ n (o.0, k) ]),
      λ h. rest.1 (first.1 (h.0, λ o. h.1 (o.0, inl o.1)), λ o. h.1 (o.0, inr o.1)),
    )

enrichments_apart :
    (us : List Str) (d : Database)
    → ((each enrichment_cleanup us d).vulns ≡ d.vulns)
      × ((each enrichment_cleanup us d).uo_vuln ≡ d.uo_vuln)
      × ((each enrichment_cleanup us d).operations ≡ d.operations)
unfolding enrichment_cleanup
enrichments_apart [] d = (refl, refl, refl)
enrichments_apart (u ∷ us) d = enrichments_apart us (enrichment_cleanup d u)

vulns_apart : (us : List Str) (d : Database) → (each vuln_cleanup us d).operations ≡ d.operations
unfolding vuln_cleanup
vulns_apart [] d = refl
vulns_apart (u ∷ us) d = vulns_apart us (vuln_cleanup d u)

same_kind_iff : (a b : UpdateKind) → (same_kind a b ≡ true) ↔ (a ≡ b)
unfolding same_kind
same_kind_iff vulnerability_kind vulnerability_kind = (λ h. refl, λ e. refl)
same_kind_iff vulnerability_kind enrichment_kind = (λ h. cc (h), λ e. cc (e))
same_kind_iff enrichment_kind vulnerability_kind = (λ h. cc (h), λ e. cc (e))
same_kind_iff enrichment_kind enrichment_kind = (λ h. refl, λ e. refl)

-- An updater with an operation of the kind.
abbrev pub HasOperation : UpdateKind → Database → Str → Type 0
HasOperation kind d u = (o : Operation) × In o d.operations × (o.kind ≡ kind) × (o.updater ≡ u)

In-distinct_updaters :
    (kind : UpdateKind) (d : Database) (u : Str)
    → In u (distinct_updaters kind d) ↔ HasOperation kind d u
unfolding distinct_updaters
In-distinct_updaters kind d u =
    let os = of_kind kind d.operations in
    (
      λ i.
          let (o, j, e) =
            In_map (λ (z : Operation). z.updater) u os
              (In-unseen u [] (map (λ z. z.updater) os) i).0 in
          let (k, s) = (In-filter_by (λ z. same_kind z.kind kind) o d.operations).0 j in
          (o, k, (same_kind_iff o.kind kind).0 s, e),
      λ h.
          let (o, k, s, e) = h in
          let j =
            (In-filter_by (λ z. same_kind z.kind kind) o d.operations).1
              (k, (same_kind_iff o.kind kind).1 s) in
          In_unseen u [] (map (λ z. z.updater) os)
            (subst (λ z. In z (map (λ z. z.updater) os)) e
              (In-map (λ (z : Operation). z.updater) o os j))
            (λ b. b),
    )

vulns-delete :
    (foreign_keys : Bool) (refs : List Str) (d : Database)
    → (delete_update_operations foreign_keys refs d).1.vulns ≡ d.vulns
unfolding delete_update_operations
vulns-delete foreign_keys [] d = refl
vulns-delete foreign_keys (r ∷ rs) d = refl

uo_vuln-delete :
    (refs : List Str) (d : Database) → (delete_update_operations false refs d).1.uo_vuln ≡ d.uo_vuln
unfolding delete_update_operations
uo_vuln-delete [] d = refl
uo_vuln-delete (r ∷ rs) d = refl

module _ (foreign_keys : Bool) (keep : ℕ) (d : Database) where
  abbrev deleted : Database
  deleted = (delete_update_operations foreign_keys (eligible_update_opts keep d) d).1

  gc_parts :
      ((gc foreign_keys keep d).0.vulns
        ≡ (each vuln_cleanup (distinct_updaters vulnerability_kind deleted) deleted).vulns)
      × ((gc foreign_keys keep d).0.uo_vuln ≡ deleted.uo_vuln)
      × ((gc foreign_keys keep d).0.operations ≡ deleted.operations)
  unfolding gc
  gc_parts =
      let us = distinct_updaters vulnerability_kind deleted in
      let clean = each vuln_cleanup us deleted in
      let apart = enrichments_apart (distinct_updaters enrichment_kind deleted) clean in
      (apart.0, apart.1 ∙ (uo_vuln-each us deleted), apart.2 ∙ vulns_apart us deleted)

-- GC removes a vulnerability exactly if no pair of `uo_vuln` that is left refers to it and its
-- updater still has an operation of the kind "vulnerability": what belonged to an updater without
-- such an operation stays.
pub vulns-gc :
    (foreign_keys : Bool) (keep : ℕ) (d : Database) (r : VulnRow)
    → In r (gc foreign_keys keep d).0.vulns ↔ (
        In r d.vulns
        × (¬ (
            ((uo : ℕ) → ¬ In (uo, r.id) (gc foreign_keys keep d).0.uo_vuln)
            × HasOperation vulnerability_kind (gc foreign_keys keep d).0 r.updater)))
vulns-gc foreign_keys keep d r =
    let d' = deleted foreign_keys keep d in
    let us = distinct_updaters vulnerability_kind d' in
    let (vulns, pairs, operations) = gc_parts foreign_keys keep d in
    let old = vulns-delete foreign_keys (eligible_update_opts keep d) d in
    let lem = In-each us d' r in
    let kind = In-distinct_updaters vulnerability_kind d' r.updater in
    (
      λ i.
          let (j, n) = lem.0 (subst (In r) vulns i) in
          (
            subst (In r) old j,
            λ o.
                let (z, k, s, u) = o.1 in
                n (
                  (unreferenced_iff d'.uo_vuln r.id).1
                      (subst (λ ps. (uo : ℕ) → ¬ In (uo, r.id) ps) pairs o.0),
                  kind.1 (z, subst (In z) operations k, s, u),
                ),
          ),
      λ h. subst (In r) (sym vulns) (
          lem.1 (
            subst (In r) (sym old) h.0,
            λ o.
                let (z, k, s, u) = kind.0 o.1 in
                h.1 (
                  subst (λ ps. (uo : ℕ) → ¬ In (uo, r.id) ps) (sym pairs)
                      ((unreferenced_iff d'.uo_vuln r.id).0 o.0),
                  (z, subst (In z) (sym operations) k, s, u),
                ),
          )),
    )

-- Where the foreign keys are not enforced, which is SQLite's default, GC leaves `uo_vuln` alone,
-- and so keeps every vulnerability that an operation was ever associated with.
pub vulns-gc_unenforced :
    (keep : ℕ) (d : Database) (r : VulnRow) (uo : ℕ)
    → In r d.vulns
    → In (uo, r.id) d.uo_vuln
    → In r (gc false keep d).0.vulns × ((gc false keep d).0.uo_vuln ≡ d.uo_vuln)
vulns-gc_unenforced keep d r uo i j =
    let pairs = (gc_parts false keep d).1 ∙ uo_vuln-delete (eligible_update_opts keep d) d in
    ((vulns-gc false keep d r).1 (i, λ o. o.0 uo (subst (In (uo, r.id)) (sym pairs) j)), pairs)
