-- ===== src/Output/Quay/Tests.antt =====
-- Runs with natural numbers as scores, and decoded texts.
use cvetool.Prelude.{
  ltb, Result, ok, ℕ, ◌≡◌, refl, Bool, true, none, some, List, [], ◌∷◌, ◌++◌, arith,
}
use cvetool.Text.{str_eq, lookup, Str, codes, Dict}
use cvetool.Output.Quay.{
  returns, Enrichment, get_most_severe_enrichment, VulnerabilityReport, QuayReport,
  report_to_sec_scan,
}
use cvetool.Output.Quay.Severity.{IsStrict, get_most_severe_enrichment_misses_last}
use cvetool.Output.Quay.Features.{IsWellFormed, Describes, report_to_sec_scan-returns}

abbrev greater : ℕ → ℕ → Bool
greater a b = ltb b a

greater-IsStrict : IsStrict greater
greater-IsStrict = record { asym = λ a b h. ground arith; trans = λ a b c h k. ground arith }

abbrev scored : ℕ → Enrichment ℕ
scored n = record { vector_string = []; base_severity = codes "HIGH"; base_score = n }

get_most_severe_enrichment_misses_last_example :
    (r : Enrichment ℕ) × (get_most_severe_enrichment greater (scored 3 ∷ ([] ++ (scored 9 ∷ [])))
      ≡ returns r)
    × (greater 9 r.base_score ≡ true)
get_most_severe_enrichment_misses_last_example =
    get_most_severe_enrichment_misses_last greater greater-IsStrict (scored 3) (scored 9) []
      (refl, tt)

abbrev decoded : Dict (List (Enrichment ℕ)) → Result (Dict (List (Enrichment ℕ)))
decoded d = ok d

abbrev same_text : Str → Str
same_text s = s

abbrev one_package : VulnerabilityReport (Dict (List (Enrichment ℕ)))
one_package = record {
  hash = codes "sha256:0";
  packages = (codes "1", record { name = codes "bash"; version = codes "5" }) ∷ [];
  package_vulnerabilities = (codes "1", codes "v" ∷ []) ∷ [];
  environments = (codes "1", codes "layer" ∷ []) ∷ [];
  vulnerabilities =
      (
        codes "v",
        record {
          normalized_severity = codes "Unknown";
          updater = [];
          links = [];
          fixed_in_version = [];
          description = [];
          name = codes "CVE";
          repo = some (record { name = []; detail = [] });
          dist = some (record { name = []; detail = [] });
        },
      )
      ∷ [];
  enrichments = none;
}

cons_nonempty : {A : Type 0} {a : A} {as₁ : List A} → ¬ ((a ∷ as₁) ≡ [])
cons_nonempty = cc

one_package-IsWellFormed : IsWellFormed greater decoded same_text one_package
unfolding lookup str_eq
one_package-IsWellFormed = (tt, ((λ h. cons_nonempty h, ((refl, refl), tt)), tt))

report_to_sec_scan-returns_example :
    (r : QuayReport ℕ) × (report_to_sec_scan greater decoded same_text one_package ≡ returns r)
    × (r.status ≡ codes "scanned")
    × (r.layer_name ≡ codes "sha256:0")
    × Describes greater decoded same_text one_package one_package.packages r.features
report_to_sec_scan-returns_example =
    report_to_sec_scan-returns greater decoded same_text one_package one_package-IsWellFormed
