-- ===== src/Catalog/Nevra/RoundTrip.antt =====
-- What catalog/nevra.go reads back from the text forms of a package identity.
use cvetool.Prelude.{
  All, Result, ok, ◌>>=◌, ◌>>◌, >>=-eq-ok, ◌≡◌, refl, ◌↔◌, false, some, [], ◌∷◌, ◌++◌, arith,
}
use cvetool.Text.{Str, codes, split, join}
use cvetool.Text.Split.Laws.{Lacks, split-join, cut-append, cut_last-append}
use cvetool.Catalog.Nevra.{
  Nevra, Package, is_empty, validate_nevra, split_epoch, split_release, parse_evr, parse_package,
  from_fields, parse_dnf_row, columns,
}

abbrev IsNonempty : Str → Type 0
IsNonempty s = is_empty s ≡ false

-- All fields are present.
pub record IsComplete (n : Nevra) : Type 0 where
  pub has_name : IsNonempty n.name
  pub has_epoch : IsNonempty n.epoch
  pub has_version : IsNonempty n.version
  pub has_release : IsNonempty n.release
  pub has_arch : IsNonempty n.arch

-- Validation accepts the complete identities and no others.
pub validate_nevra_iff : (n : Nevra) → (validate_nevra n ≡ ok tt) ↔ IsComplete n
unfolding validate_nevra
validate_nevra_iff n = (λ h. ground arith, λ h. ground arith)

checked-IsComplete : (m : Nevra) {n : Nevra} → (validate_nevra m >> ok m) ≡ ok n → IsComplete n
unfolding validate_nevra
checked-IsComplete m {n} h = ground arith

-- The row that DNF prints for the query format of the program reads back as the identity, if its
-- fields are not empty and hold no tab.
pub parse_dnf_row-join :
    (n : Nevra)
    → IsComplete n
    → All (Lacks b'\t') (columns n)
    → parse_dnf_row (join (columns n) (codes "\t")) ≡ ok n
unfolding parse_dnf_row validate_nevra
parse_dnf_row-join n c h =
    rw (split-join n.name _ b'\t' h)
      (unfold from_fields in rw c.has_epoch (rw ((validate_nevra_iff n).1 c)))

-- An accepted row gives a complete identity: an empty epoch is read as 0, and no other field is empty.
pub parse_dnf_row-IsComplete : (row : Str) {n : Nevra} → parse_dnf_row row ≡ ok n → IsComplete n
unfolding parse_dnf_row
parse_dnf_row-IsComplete row {n} h =
    let (m, _, e) = >>=-eq-ok (from_fields (split row b'\t')) _ h in checked-IsComplete m e

-- "epoch:version-release"
abbrev pub evr_text : Nevra → Str
evr_text n = (n.epoch ++ (b':' ∷ n.version)) ++ (b'-' ∷ n.release)

is_empty-append : (a b : Str) → is_empty a ≡ false → is_empty (a ++ b) ≡ false
unfolding is_empty
is_empty-append [] b h = ground arith
is_empty-append (c ∷ a) b h = refl

split_release-text :
    (before release : Str)
    → IsNonempty before
    → IsNonempty release
    → Lacks b'-' release
    → split_release (before ++ (b'-' ∷ release)) ≡ ok (before, release)
unfolding split_release
split_release-text before release hb hr h =
    rw (cut_last-append before release b'-' h, split_release) (rw (hb, hr))

split_epoch-text :
    (evr epoch version : Str)
    → IsNonempty epoch
    → IsNonempty version
    → Lacks b':' epoch
    → split_epoch evr (epoch ++ (b':' ∷ version)) ≡ ok (epoch, version)
unfolding split_epoch
split_epoch-text evr epoch version he hv h = rw (cut-append epoch version b':' h) (rw (he, hv))

-- A package whose version is "epoch:version-release" is read back as the identity, if its fields are
-- not empty, the epoch holds no colon and the release holds no dash.
pub parse_package-evr :
    (n : Nevra)
    → IsComplete n
    → Lacks b':' n.epoch
    → Lacks b'-' n.release
    → parse_package (some (record { name = n.name; version = evr_text n; arch = n.arch })) ≡ ok n
unfolding parse_package parse_evr
parse_package-evr n c he hr = rw (
  c.has_name,
  c.has_arch,
  is_empty-append (n.epoch ++ (b':' ∷ n.version)) (b'-' ∷ n.release)
      (is_empty-append n.epoch (b':' ∷ n.version) c.has_epoch),
  split_release-text (n.epoch ++ (b':' ∷ n.version)) n.release
      (is_empty-append n.epoch (b':' ∷ n.version) c.has_epoch) c.has_release hr,
  split_epoch-text (evr_text n) n.epoch n.version c.has_epoch c.has_version he,
  (validate_nevra_iff n).1 c,
)

named : Package → Nevra → Nevra
named p n = record n { name = p.name; arch = p.arch }

named-IsComplete :
    (p : Package) (r : Result Nevra) {n : Nevra}
    → (r >>= λ m. validate_nevra (named p m) >> ok (named p m)) ≡ ok n
    → IsComplete n × (n.name ≡ p.name) × (n.arch ≡ p.arch)
unfolding validate_nevra named
named-IsComplete p r {n} h = ground arith

-- An accepted package gives a complete identity with its name and its architecture.
pub parse_package-IsComplete :
    (p : Package) {n : Nevra}
    → parse_package (some p) ≡ ok n
    → IsComplete n × (n.name ≡ p.name) × (n.arch ≡ p.arch)
unfolding parse_package named
parse_package-IsComplete p {n} h = named-IsComplete p (parse_evr p.version) (ground arith)
