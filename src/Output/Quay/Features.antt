-- ===== src/Output/Quay/Features.antt =====
-- `ReportToSecScan` of output/quay.go: when it returns, and what the features hold.
use cvetool.Prelude.{
  is_some, length, All, Result, ok, suc, ◌≡◌, refl, ap, ◌≢◌, Bool, true, Option, none, some, List,
  [], ◌∷◌,
}
use cvetool.Text.{Str, codes, Dict, lookup}
use cvetool.Output.Quay.{
  ◌>>=◌, returns, deref, first, Enrichment, get_most_severe_enrichment, Vulnerability,
  ReportPackage, VulnerabilityReport, Vuln, Feature, QuayReport, base_vuln, enrich_known, enrich,
  to_vuln, to_vulns, ids_of, to_feature, to_features, report_to_sec_scan,
}

deref-returns : {A : Type 0} (o : Option A) → is_some o ≡ true → (a : A) × (deref o ≡ returns a)
deref-returns none h = cc h
deref-returns (some a) h = (a, refl)

first-returns : {A : Type 0} (as₁ : List A) → as₁ ≢ [] → (a : A) × (first as₁ ≡ returns a)
first-returns [] h = absurd (h refl)
first-returns (a ∷ as₁) h = (a, refl)

module _ {Score Blob : Type 0} (gt : Score → Score → Bool)
    (decode : Blob → Result (Dict (List (Enrichment Score)))) (title_lower : Str → Str) where
  -- A known vulnerability with a repository and a distribution.
  abbrev pub IsKnown : Option Vulnerability → Type 0
  IsKnown none = ⊥
  IsKnown (some v) = (is_some v.repo ≡ true) × (is_some v.dist ≡ true)

  -- The enrichments are absent, or one text that decodes to lists with entries.
  abbrev pub AreDecodable : Option (List Blob) → Type 0
  AreDecodable none = Unit
  AreDecodable (some []) = ⊥
  AreDecodable (some (b ∷ bs)) =
      (ens : Dict (List (Enrichment Score))) × (decode b ≡ ok ens)
      × ((id : Str) → lookup ens id ≢ some [])

  abbrev pub layers_of : VulnerabilityReport Blob → Str → List Str
  layers_of vr id = ids_of (lookup vr.environments id)

  abbrev pub vulnerabilities_of : VulnerabilityReport Blob → Str → List Str
  vulnerabilities_of vr id = ids_of (lookup vr.package_vulnerabilities id)

  -- Every package has an environment, and its vulnerabilities are known.
  abbrev pub IsWellFormed : VulnerabilityReport Blob → Type 0
  IsWellFormed vr =
      AreDecodable vr.enrichments
      × All
          (λ q.
            (layers_of vr q.0 ≢ [])
            × All (λ v. IsKnown (lookup vr.vulnerabilities v)) (vulnerabilities_of vr q.0))
          vr.packages

  enrich_known-returns :
      (o : Option (List (Enrichment Score))) (v : Vuln Score)
      → o ≢ some []
      → (w : Vuln Score) × (enrich_known gt decode title_lower o v ≡ returns w)
  unfolding enrich_known get_most_severe_enrichment
  enrich_known-returns none v h = (v, refl)
  enrich_known-returns (some []) v h = absurd (h refl)
  enrich_known-returns (some (e ∷ es)) v h = (_, refl)

  enrich-returns :
      (o : Option (List Blob)) (id : Str) (v : Vuln Score)
      → AreDecodable o
      → (w : Vuln Score) × (enrich gt decode title_lower o id v ≡ returns w)
  unfolding enrich
  enrich-returns none id v h = (v, refl)
  enrich-returns (some []) id v h = absurd h
  enrich-returns (some (b ∷ bs)) id v (ens, e, n) =
      let (w, p) = enrich_known-returns (lookup ens id) v (n id) in (w, rw e p)

  enrich_vuln-returns :
      (vr : VulnerabilityReport Blob) (id : Str) (o : Option Vulnerability)
      → AreDecodable vr.enrichments
      → IsKnown o
      → (w : Vuln Score) × ((deref o >>= λ v. deref v.repo >>= λ repo. deref v.dist >>= λ dist.
            enrich gt decode title_lower vr.enrichments id
              (base_vuln gt decode title_lower v repo dist))
          ≡ returns w)
  enrich_vuln-returns vr id none h k = absurd k
  enrich_vuln-returns vr id (some v) h (r, d) =
      let (repo, p) = deref-returns v.repo r in
      let (dist, q) = deref-returns v.dist d in
      let (w, e) =
        enrich-returns vr.enrichments id (base_vuln gt decode title_lower v repo dist) h in
      (w, rw (p, q, e))

  to_vulns-returns :
      (vr : VulnerabilityReport Blob) (ids : List Str)
      → AreDecodable vr.enrichments
      → All (λ v. IsKnown (lookup vr.vulnerabilities v)) ids
      → (vs : List (Vuln Score)) × (to_vulns gt decode title_lower vr ids ≡ returns vs)
        × (length vs ≡ length ids)
  unfolding to_vulns to_vuln
  to_vulns-returns vr [] h k = ([], refl, refl)
  to_vulns-returns vr (id ∷ ids) h (k, ks) =
      let (w, p) = enrich_vuln-returns vr id (lookup vr.vulnerabilities id) h k in
      let (ws, q, n) = to_vulns-returns vr ids h ks in (w ∷ ws, rw (p, q), ap suc n)

  to_feature-returns :
      (vr : VulnerabilityReport Blob) (id : Str) (p : ReportPackage)
      → AreDecodable vr.enrichments
      → layers_of vr id ≢ []
      → All (λ v. IsKnown (lookup vr.vulnerabilities v)) (vulnerabilities_of vr id)
      → (f : Feature Score) × (to_feature gt decode title_lower vr id p ≡ returns f)
        × (f.name ≡ p.name)
        × (length f.vulnerabilities ≡ length (vulnerabilities_of vr id))
  unfolding to_feature
  to_feature-returns vr id p h l k =
      let (layer, e) = first-returns (layers_of vr id) l in
      let (vs, q, n) = to_vulns-returns vr (vulnerabilities_of vr id) h k in
      (
        record { name = p.name; added_by = layer; version = p.version; vulnerabilities = vs },
        rw (e, q),
        refl,
        n,
      )

  -- One feature for each package, with its name and as many vulnerabilities as the report has for it.
  abbrev pub Describes :
      VulnerabilityReport Blob → Dict ReportPackage → List (Feature Score) → Type 0
  Describes vr [] [] = Unit
  Describes vr ((id, p) ∷ ps) (f ∷ fs) =
      (f.name ≡ p.name)
      × (length f.vulnerabilities ≡ length (vulnerabilities_of vr id))
      × Describes vr ps fs
  Describes vr _ _ = ⊥

  to_features-returns :
      (vr : VulnerabilityReport Blob) (ps : Dict ReportPackage)
      → AreDecodable vr.enrichments
      → All
          (λ q.
            (layers_of vr q.0 ≢ [])
            × All (λ v. IsKnown (lookup vr.vulnerabilities v)) (vulnerabilities_of vr q.0))
          ps
      → (fs : List (Feature Score)) × (to_features gt decode title_lower vr ps ≡ returns fs)
        × Describes vr ps fs
  unfolding to_features
  to_features-returns vr [] h k = ([], refl, tt)
  to_features-returns vr ((id, p) ∷ ps) h ((l, k), ks) =
      let (f, e, n, m) = to_feature-returns vr id p h l k in
      let (fs, q, d) = to_features-returns vr ps h ks in (f ∷ fs, rw (e, q), (n, m, d))

  -- A well-formed report is converted without a panic and without an error: the status is
  -- "scanned", the layer is the manifest's hash, and there is one feature for each package, in the
  -- same order, with the package's name and as many vulnerabilities as the report has for it.
  pub report_to_sec_scan-returns :
      (vr : VulnerabilityReport Blob)
      → IsWellFormed vr
      → (r : QuayReport Score) × (report_to_sec_scan gt decode title_lower vr ≡ returns r)
        × (r.status ≡ codes "scanned")
        × (r.layer_name ≡ vr.hash)
        × Describes vr vr.packages r.features
  unfolding report_to_sec_scan
  report_to_sec_scan-returns vr (h, k) =
      let (fs, e, d) = to_features-returns vr vr.packages h k in
      (
        record {
          status = codes "scanned";
          layer_name = vr.hash;
          indexed_by_version = 4;
          features = fs;
        },
        rw e,
        refl,
        refl,
        d,
      )
