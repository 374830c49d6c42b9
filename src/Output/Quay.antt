-- ===== src/Output/Quay.antt =====
-- output/quay.go: a vulnerability report in the format of Quay's security endpoint. A nil dereference or
-- an index out of range is a panic.
pub mod Severity
pub mod Features
mod Tests
use cvetool.Prelude.{
  if◌then◌else◌, Error, Result, ok, err, ◌>>◌, ℕ, Bool, Option, none, some, List, [], ◌∷◌,
}
use cvetool.Text.{Str, codes, str_eq, Dict, lookup}

pub data Outcome (A : Type 0) : Type 0 where
  returns : A → Outcome A
  fails : Error → Outcome A
  panics : Outcome A

infixl 5 ◌>>=◌
abbrev pub ◌>>=◌ : {A B : Type 0} → Outcome A → (A → Outcome B) → Outcome B
returns a >>= f = f a
fails e >>= f = fails e
panics >>= f = panics

-- A value that is there, or a panic.
abbrev pub deref : {A : Type 0} → Option A → Outcome A
deref none = panics
deref (some a) = returns a

-- `x[0]`
abbrev pub first : {A : Type 0} → List A → Outcome A
first [] = panics
first (x ∷ xs) = returns x

-- `if err != nil { return nil, err }`
abbrev pub from_result : {A : Type 0} → Result A → Outcome A
from_result (ok a) = returns a
from_result (err e) = fails e

-- The fields of `Enrichment` that are used; a float64 is a value of the parameter `Score`.
pub record Enrichment (Score : Type 0) : Type 0 where
  pub vector_string : Str
  pub base_severity : Str
  pub base_score : Score

module _ {Score : Type 0} (gt : Score → Score → Bool) where
  pub severer : Enrichment Score → Enrichment Score → Enrichment Score
  severer best e = if gt e.base_score best.base_score then e else best

  -- The loop of `getMostSevereEnrichment` from index 1 up to the index before the last one.
  pub most_severe_from : Enrichment Score → List (Enrichment Score) → Enrichment Score
  most_severe_from best [] = best
  most_severe_from best (e ∷ []) = best
  most_severe_from best (e ∷ f ∷ es) = most_severe_from (severer best e) (f ∷ es)

  -- `getMostSevereEnrichment`
  pub get_most_severe_enrichment : List (Enrichment Score) → Outcome (Enrichment Score)
  get_most_severe_enrichment [] = panics
  get_most_severe_enrichment (e ∷ es) = returns (most_severe_from e es)

-- The parts of claircore.VulnerabilityReport that are used.
pub record NamedSource : Type 0 where
  pub name : Str
  pub detail : Str

pub record Vulnerability : Type 0 where
  pub normalized_severity : Str
  pub updater : Str
  pub links : Str
  pub fixed_in_version : Str
  pub description : Str
  pub name : Str
  -- The name and the URI of the repository, the name and the version of the distribution.
  pub repo : Option NamedSource
  pub dist : Option NamedSource

pub record ReportPackage : Type 0 where
  pub name : Str
  pub version : Str

pub record VulnerabilityReport (Blob : Type 0) : Type 0 where
  pub hash : Str
  pub packages : Dict ReportPackage
  pub package_vulnerabilities : Dict (List Str)
  -- The layers that introduced the package.
  pub environments : Dict (List Str)
  pub vulnerabilities : Dict Vulnerability
  -- The entry of the CVSS enricher, if there is one.
  pub enrichments : Option (List Blob)

pub record Nvd (Score : Type 0) : Type 0 where
  pub vectors : Str
  pub score : Score

-- `Vuln` with its `Metadata`
pub record Vuln (Score : Type 0) : Type 0 where
  pub severity : Str
  pub namespace_name : Str
  pub link : Str
  pub fixed_by : Str
  pub description : Str
  pub name : Str
  pub updated_by : Str
  pub repo_name : Str
  pub repo_link : Str
  pub distro_name : Str
  pub distro_version : Str
  pub nvd : Option (Nvd Score)

pub record Feature (Score : Type 0) : Type 0 where
  pub name : Str
  pub added_by : Str
  pub version : Str
  pub vulnerabilities : List (Vuln Score)

pub record QuayReport (Score : Type 0) : Type 0 where
  pub status : Str
  pub layer_name : Str
  pub indexed_by_version : ℕ
  pub features : List (Feature Score)

-- A missing key of a map of lists.
abbrev pub ids_of : Option (List Str) → List Str
ids_of none = []
ids_of (some ids) = ids

-- Parameters: the scores with their comparison, the undecoded JSON texts with json.Unmarshal, and
-- strings.Title after strings.ToLower.
module _ {Score Blob : Type 0} (gt : Score → Score → Bool)
    (decode : Blob → Result (Dict (List (Enrichment Score)))) (title_lower : Str → Str) where
  pub base_vuln : Vulnerability → NamedSource → NamedSource → Vuln Score
  base_vuln v repo dist = record {
    severity = v.normalized_severity;
    namespace_name = v.updater;
    link = v.links;
    fixed_by = v.fixed_in_version;
    description = v.description;
    name = v.name;
    updated_by = v.updater;
    repo_name = repo.name;
    repo_link = repo.detail;
    distro_name = dist.name;
    distro_version = dist.detail;
    nvd = none;
  }

  -- The severity is reclassified if it is unknown.
  pub with_enrichment : Vuln Score → Enrichment Score → Vuln Score
  with_enrichment v e = record v {
    severity =
        if str_eq v.severity (codes "Unknown") then title_lower e.base_severity else v.severity;
    nvd = some (record { vectors = e.vector_string; score = e.base_score });
  }

  pub enrich_known : Option (List (Enrichment Score)) → Vuln Score → Outcome (Vuln Score)
  enrich_known none v = returns v
  enrich_known (some es) v = get_most_severe_enrichment gt es >>= λ e. returns (with_enrichment v e)

  pub enrich : Option (List Blob) → Str → Vuln Score → Outcome (Vuln Score)
  enrich none id v = returns v
  enrich (some blobs) id v =
      first blobs >>= λ blob. from_result (decode blob) >>= λ ens. enrich_known (lookup ens id) v

  pub to_vuln : VulnerabilityReport Blob → Str → Outcome (Vuln Score)
  to_vuln vr id = deref (lookup vr.vulnerabilities id) >>= λ v. deref v.repo >>= λ repo.
      deref v.dist >>= λ dist. enrich vr.enrichments id (base_vuln v repo dist)

  pub to_vulns : VulnerabilityReport Blob → List Str → Outcome (List (Vuln Score))
  to_vulns vr [] = returns []
  to_vulns vr (id ∷ ids) = to_vuln vr id >>= λ v. to_vulns vr ids >>= λ vs. returns (v ∷ vs)

  pub to_feature : VulnerabilityReport Blob → Str → ReportPackage → Outcome (Feature Score)
  to_feature vr id p = first (ids_of (lookup vr.environments id)) >>= λ layer.
      to_vulns vr (ids_of (lookup vr.package_vulnerabilities id)) >>= λ vulns.
      returns
        (record { name = p.name; added_by = layer; version = p.version; vulnerabilities = vulns })

  pub to_features : VulnerabilityReport Blob → Dict ReportPackage → Outcome (List (Feature Score))
  to_features vr [] = returns []
  to_features vr ((id, p) ∷ ps) =
      to_feature vr id p >>= λ f. to_features vr ps >>= λ fs. returns (f ∷ fs)

  -- `ReportToSecScan`
  pub report_to_sec_scan : VulnerabilityReport Blob → Outcome (QuayReport Score)
  report_to_sec_scan vr = to_features vr vr.packages >>= λ fs. returns (record {
    status = codes "scanned";
    layer_name = vr.hash;
    indexed_by_version = 4;
    features = fs;
  })
