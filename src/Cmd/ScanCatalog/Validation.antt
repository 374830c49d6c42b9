-- ===== src/Cmd/ScanCatalog/Validation.antt =====
-- The catalogs that a scan accepts.
use cvetool.Prelude.{
  if◌then◌else◌, All, Error, ok, ◌>>◌, fail_if, >>=-eq-ok, ◌≡◌, refl, ◌↔◌, ◌⊎◌, inl, inr, Bool,
  true, false, not, ◌&&◌, Option, none, some, List, [], ◌∷◌,
}
use cvetool.Text.{codes, str_eq}
use cvetool.Catalog.Nevra.{is_empty}
use cvetool.Catalog.Json.{Metadata}
use cvetool.Cmd.ScanCatalog.{
  Distribution, version_of, check_distribution, validate_catalog_metadata,
}

-- A distribution of RHEL has the catalog's version, and its architecture if it names one.
abbrev pub Matches : Metadata → Option Distribution → Type 0
Matches m none = Unit
Matches m (some d) =
    str_eq d.did (codes "rhel") ≡ true
    → (str_eq (version_of d) m.rhel_version ≡ true)
      × ((is_empty d.arch ≡ true) ⊎ (str_eq d.arch m.architecture ≡ true))

checked_iff :
    (rhel version any arch : Bool) (x y : Error)
    → ((if not rhel then ok tt else (fail_if (not version) x >> fail_if (not any && not arch) y))
        ≡ ok tt)
      ↔ (rhel ≡ true → (version ≡ true) × ((any ≡ true) ⊎ (arch ≡ true)))
checked_iff false v e a x y = (λ h p. cc p, λ h. refl)
checked_iff true false e a x y = (λ h. cc h, λ h. cc (h refl).0)
checked_iff true true true a x y = (λ h p. (refl, inl refl), λ h. refl)
checked_iff true true false true x y = (λ h p. (refl, inr refl), λ h. refl)
checked_iff true true false false x y =
    (λ h. cc h, λ h. elim (h refl).1 [ inl e ↦ cc e | inr e ↦ cc e ])

check_distribution_iff :
    (m : Metadata) (d : Distribution) → (check_distribution m d ≡ ok tt) ↔ Matches m (some d)
unfolding check_distribution
check_distribution_iff m d = checked_iff _ _ _ _ _ _

-- The catalog is accepted exactly where every distribution that was discovered matches it.
pub validate_catalog_metadata_iff :
    (m : Metadata) (ds : List (Option Distribution))
    → (validate_catalog_metadata m ds ≡ ok tt) ↔ All (Matches m) ds
unfolding validate_catalog_metadata
validate_catalog_metadata_iff m [] = (λ h. tt, λ h. refl)
validate_catalog_metadata_iff m (none ∷ ds) =
    let (f, g) = validate_catalog_metadata_iff m ds in (λ h. (tt, f h), λ (u, h). g h)
validate_catalog_metadata_iff m (some d ∷ ds) =
    let (f, g) = validate_catalog_metadata_iff m ds in
    let (p, q) = check_distribution_iff m d in
    (
      λ h. let (u, e, k) = >>=-eq-ok (check_distribution m d) _ h in (p e, f k),
      λ (h, k). rw (q h) (g k),
    )
