-- ===== src/Datastore/Update/Tests.antt =====
-- Runs of an update on a store with one operation, and what its theorems state of them.
use cvetool.Prelude.{
  if◌then◌else◌, In, wrapf, external, Result, err, ok, ℕ, suc, String, ◌≡◌, refl, ap, ◌≢◌, ◌↔◌, ◌⊎◌,
  inl, inr, Bool, true, false, Option, none, some, List, [], ◌∷◌, arith,
}
use cvetool.Text.{Str, codes, str_eq}
use cvetool.Datastore.Tables.{PackageInfo, Vulnerability, vulnerability_kind, Database, latest_of}
use cvetool.Datastore.Update.{vuln_row, update_vulnerabilities}
use cvetool.Datastore.Update.Stored.{SomeStoredAs}
use cvetool.Datastore.Update.Associations.{
  IsFresh, IsCarried, uo_vuln-update_vulnerabilities, latest_of-update_vulnerabilities,
  update_vulnerabilities_fails,
}

abbrev md5 : Str → Str
md5 s = s

abbrev updater : Str
updater = codes "rhel"

abbrev fingerprint : Str
fingerprint = codes "f"

abbrev ref : Str
ref = codes "r2"

abbrev date : ℕ
date = 7

abbrev bash : PackageInfo
bash = record {
  name = codes "bash";
  version = [];
  module_name = [];
  arch = [];
  kind = codes "binary";
}

abbrev named : String → Bool → Vulnerability
named name invert = record {
  name = codes name;
  description = codes "d";
  issued_string = [];
  issued_rfc3339 = [];
  links = [];
  severity = [];
  normalized_severity = [];
  pkg = some bash;
  dist = none;
  repo = none;
  arch_operation = [];
  fixed_in_version = [];
  range = none;
  updater = updater;
  invert = invert;
}

abbrev items : List (Result Vulnerability)
items = ok (named "B" false) ∷ ok (named "C" true) ∷ []

abbrev bad_items : List (Result Vulnerability)
bad_items = ok (named "B" false) ∷ err (external 3) ∷ []

abbrev deleted : Option (List Str)
deleted = some []

-- One operation with the vulnerability "A".
abbrev d : Database
d = record {
  operations =
      record {
        id = 1;
        ref = codes "r1";
        updater = updater;
        fingerprint = [];
        kind = vulnerability_kind;
        date = 3;
      }
      ∷ [];
  operation_seq = 1;
  vulns = vuln_row md5 1 (named "A" false) bash 2 1 ∷ [];
  metadata =
      record { id = 1; kind = codes "name"; hash = codes "A"; value = codes "A" }
      ∷ record { id = 2; kind = codes "description"; hash = codes "d"; value = codes "d" }
      ∷ [];
  uo_vuln = (1, 1) ∷ [];
  enrichments = [];
  uo_enrich = [];
}

d-IsFresh : IsFresh d
d-IsFresh = record {
  operations_le = (omega arith, tt);
  pairs_le = λ m k i. elim i [ inl e ↦ omega (arith, ap (λ p. p.0) e) | inr b ↦ absurd b ];
}

-- "A" is carried over, "B" is stored, and "C", which is inverted, is not.
update_run :
    (update_vulnerabilities md5 updater fingerprint ref date items deleted d).0.uo_vuln
    ≡ (1, 1) ∷ (2, 1) ∷ (2, 2) ∷ []
unfolding update_vulnerabilities str_eq cvetool.Text.remove cvetool.Datastore.Tables.next_id
    cvetool.Datastore.Ranges.rangefmt
update_run = refl

uo_vuln-update_vulnerabilities_example :
    (d' : Database) × (update_vulnerabilities md5 updater fingerprint ref date items deleted d
      ≡ (d', ok ref))
    × ((k : ℕ)
        → In (suc d.operation_seq, k) d'.uo_vuln ↔ (
            IsCarried d updater items deleted k
            ⊎ SomeStoredAs md5 (suc d.operation_seq) items d' k))
    × ((m k : ℕ) → m ≢ suc d.operation_seq → In (m, k) d'.uo_vuln ↔ In (m, k) d.uo_vuln)
uo_vuln-update_vulnerabilities_example =
    uo_vuln-update_vulnerabilities md5 updater fingerprint ref date items deleted d d-IsFresh refl

latest_of-update_vulnerabilities_example :
    (d' : Database) × (update_vulnerabilities md5 updater fingerprint ref date items deleted d
      ≡ (d', ok ref))
    × ((u : Str)
        → latest_of d'.operations u ≡ (
            if str_eq updater u
            then some (record {
              id = suc d.operation_seq;
              ref = ref;
              updater = updater;
              fingerprint = fingerprint;
              kind = vulnerability_kind;
              date = date;
            })
            else latest_of d.operations u))
    × IsFresh d'
latest_of-update_vulnerabilities_example =
    latest_of-update_vulnerabilities md5 updater fingerprint ref date items deleted d d-IsFresh refl

update_vulnerabilities_fails_example :
    update_vulnerabilities md5 updater fingerprint ref date bad_items deleted d
    ≡ (d, err (wrapf "iterating on vulnerabilities" [] (external 3)))
update_vulnerabilities_fails_example =
    update_vulnerabilities_fails md5 updater fingerprint ref date bad_items deleted d (external 3)
      refl
