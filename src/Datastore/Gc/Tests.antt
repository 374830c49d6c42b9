-- ===== src/Datastore/Gc/Tests.antt =====
-- Runs of GC on a store with two operations of one updater, of which one is kept.
use cvetool.Prelude.{
  In, ℕ, ◌≤◌, String, ◌≡◌, refl, ◌↔◌, inl, inr, true, false, none, [], ◌∷◌, arith,
}
use cvetool.Text.{Str, codes}
use cvetool.Datastore.Tables.{VulnRow, vulnerability_kind, Operation, Database}
use cvetool.Datastore.Gc.{min, eligible_update_opts, gc}
use cvetool.Datastore.Gc.Kept.{HasUniqueRefs, gc_again, count_of, gc_keeps_newest}
use cvetool.Datastore.Gc.Orphans.{HasOperation, vulns-gc, vulns-gc_unenforced}

abbrev operation : ℕ → String → Operation
operation n ref = record {
  id = n;
  ref = codes ref;
  updater = codes "u";
  fingerprint = [];
  kind = vulnerability_kind;
  date = n;
}

abbrev row : ℕ → VulnRow
row n = record {
  id = n;
  hash = [];
  updater = codes "u";
  name_id = 1;
  description_id = 1;
  issued = [];
  links = [];
  severity = [];
  normalized_severity = [];
  pkg = record { name = []; version = []; module_name = []; arch = []; kind = [] };
  dist = record {
    did = [];
    name = [];
    version = [];
    version_code_name = [];
    version_id = [];
    arch = [];
    cpe = [];
    pretty_name = [];
  };
  repo = record { name = []; key = []; uri = [] };
  fixed_in_version = [];
  arch_operation = [];
  version_kind = none;
  vulnerable_range = [];
}

-- The vulnerability of the first operation only.
abbrev old_row : VulnRow
old_row = row 1

abbrev d : Database
d = record {
  operations = operation 1 "a" ∷ operation 2 "b" ∷ [];
  operation_seq = 2;
  vulns = row 1 ∷ row 2 ∷ [];
  metadata = [];
  uo_vuln = (1, 1) ∷ (2, 2) ∷ [];
  enrichments = [];
  uo_enrich = [];
}

-- The cascade removes the pair of the deleted operation, and the cleanup its vulnerability.
gc_run : (gc true 1 d).0.vulns ≡ row 2 ∷ []
unfolding gc cvetool.Text.str_eq
gc_run = refl

-- Without the cascade, the vulnerability stays.
gc_unenforced_run : (gc false 1 d).0.vulns ≡ row 1 ∷ row 2 ∷ []
unfolding gc cvetool.Text.str_eq
gc_unenforced_run = refl

d-HasUniqueRefs : HasUniqueRefs d
d-HasUniqueRefs = (λ i. elim i [ inl e ↦ ground arith | inr b ↦ b ], ((λ b. b), tt))

gc_keeps_newest_example :
    ((u : Str) → count_of (gc true 1 d).0.operations u ≡ min 1 (count_of d.operations u))
    × ((o p : Operation)
        → In o (gc true 1 d).0.operations
        → In p d.operations
        → ¬ In p (gc true 1 d).0.operations
        → p.updater ≡ o.updater
        → p.date ≤ o.date)
gc_keeps_newest_example = gc_keeps_newest true 1 d d-HasUniqueRefs

gc_again_example :
    (eligible_update_opts 1 (gc true 1 d).0 ≡ [])
    × ((gc true 1 (gc true 1 d).0).1 ≡ 0)
    × ((gc true 1 (gc true 1 d).0).0.operations ≡ (gc true 1 d).0.operations)
gc_again_example = gc_again true 1 d d-HasUniqueRefs

vulns-gc_example : In old_row (gc true 1 d).0.vulns ↔ (
    In old_row d.vulns
    × (¬ (
        ((uo : ℕ) → ¬ In (uo, old_row.id) (gc true 1 d).0.uo_vuln)
        × HasOperation vulnerability_kind (gc true 1 d).0 old_row.updater)))
vulns-gc_example = vulns-gc true 1 d old_row

vulns-gc_unenforced_example :
    In old_row (gc false 1 d).0.vulns × ((gc false 1 d).0.uo_vuln ≡ d.uo_vuln)
vulns-gc_unenforced_example = vulns-gc_unenforced 1 d old_row 1 (inl refl) (inl refl)
