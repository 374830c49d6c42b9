-- ===== src/Catalog/Mapping.antt =====
-- catalog/repository_mapping.go: the mapping of repositories to CPE names, and its restriction to one
-- RHEL release; and `SelectMappedRepositories` of catalog/target.go.
pub mod Selection
mod Tests
use cvetool.Prelude.{
  leb, if◌then◌else◌, Error, errorf, Result, ok, err, ◌>>=◌, ◌>>◌, wrap, ◌+◌, ◌-◌, Bool, true,
  false, not, ◌&&◌, ◌||◌, Option, none, some, List, [], ◌∷◌, ◌++◌,
}
use cvetool.Text.{
  Str, codes, str_eq, sort_strings, unseen, split, cut, has_prefix, contains_sub, trim_prefix,
  replace_all, trim_space, trim, Dict, lookup, insert,
}

-- `RepositoryMapping`; a fault of cpe.Unbind is the parameter `unbind`.
pub record RepositoryMapping : Type 0 where
  pub data_of : Dict (List Str)
  pub repo_relative_urls : Dict (List Str)
  pub source : Str

-- `Lookup`: the CPEs of a repository, and whether it is there.
unfoldable pub lookup_cpes : RepositoryMapping → Str → Option (List Str)
lookup_cpes m id = lookup m.data_of id

-- The value of a map at a key that may be missing.
unfoldable pub get_or_nil : Option (List Str) → List Str
get_or_nil none = []
get_or_nil (some xs) = xs

-- cpe.Unbind of the claircore library: the names that it accepts.
module _ (unbind : Str → Result (Unit {0})) where
  unfoldable pub validate_cpes : Str → List Str → Result (Unit {0})
  validate_cpes id [] = ok tt
  validate_cpes id (c ∷ cs) = do
    wrap "repository %q has invalid CPE %q" (id ∷ c ∷ []) (unbind c)
    validate_cpes id cs

  unfoldable pub validate_row : Str → Option (List Str) → Result (Unit {0})
  validate_row id none = err (errorf "repository %q is absent from mapping" (id ∷ []))
  validate_row id (some []) = err (errorf "repository %q has no CPEs" (id ∷ []))
  validate_row id (some (c ∷ cs)) = validate_cpes id (c ∷ cs)

  -- `Validate`
  unfoldable pub validate : RepositoryMapping → Str → Result (Unit {0})
  validate m id = validate_row id (lookup_cpes m id)

all_ascii_digits_from : Str → Bool
all_ascii_digits_from [] = true
all_ascii_digits_from (c ∷ s) = leb b'0' c && leb c b'9' && all_ascii_digits_from s

-- `allASCIIDigits` of catalog/target.go
unfoldable pub all_ascii_digits : Str → Bool
unfolding all_ascii_digits_from
all_ascii_digits [] = false
all_ascii_digits (c ∷ s) = all_ascii_digits_from (c ∷ s)

unfoldable pub release_parts : List Str → Str
release_parts (major ∷ minor ∷ rest) =
    if all_ascii_digits major && all_ascii_digits minor then major ++ (b'.' ∷ minor) else []
release_parts _ = []

-- `rhelCPEVersion`: "major.minor" of a release, or the empty text.
unfoldable pub rhel_cpe_version : Str → Str
rhel_cpe_version release = release_parts (split (trim_space release) b'.')

unfoldable pub minor_url_parts : List Str → Bool
minor_url_parts (top ∷ kind ∷ product ∷ version ∷ rest) =
    if not (str_eq top (codes "content")) || str_eq kind (codes "dist")
    then false
    else let major = trim_prefix product (codes "rhel") in
      all_ascii_digits major
      && str_eq (rhel_cpe_version version) version
      && str_eq (cut version b'.').0 major
minor_url_parts _ = false

-- `hasRHELMinorRepositoryURL`
unfoldable pub has_rhel_minor_repository_url : List Str → Bool
has_rhel_minor_repository_url [] = false
has_rhel_minor_repository_url (url ∷ urls) =
    minor_url_parts (split (trim url b'/') b'/') || has_rhel_minor_repository_url urls

-- `isRHELEUSRepositoryID`
unfoldable pub is_rhel_eus_repository_id : Str → Bool
is_rhel_eus_repository_id id =
    let (major, rest, found) = cut (trim_prefix id (codes "rhel-")) b'-' in
    has_prefix id (codes "rhel-")
    && found
    && all_ascii_digits major
    && not (contains_sub rest (codes "-extended-eus-"))
    && contains_sub rest (codes "-eus-")

unfoldable pub some_key_has_prefix : Dict (List Str) → Str → Bool
some_key_has_prefix [] prefix = false
some_key_has_prefix ((id, cpes) ∷ m) prefix = has_prefix id prefix || some_key_has_prefix m prefix

-- `requiresRHELReleaseSpecificMapping`
unfoldable pub requires_rhel_release_specific_mapping : RepositoryMapping → Str → Bool
requires_rhel_release_specific_mapping m id =
    is_rhel_eus_repository_id id
    || has_rhel_minor_repository_url (get_or_nil (lookup m.repo_relative_urls id))
    || some_key_has_prefix m.data_of (id ++ codes "__")

-- The row of a repository for one release.
unfoldable pub version_specific_id : Str → Str → Str
version_specific_id id version = id ++ (codes "__" ++ replace_all version b'.' (codes "_DOT_"))

-- The row for the release and the architecture, and the row for the release if that is missing.
unfoldable pub version_specific_row : RepositoryMapping → Str → Str → Str → Option (List Str)
version_specific_row m id version architecture =
    let row = lookup_cpes m (version_specific_id id version) in
    elim architecture [
      | [] ↦ row
      | c ∷ s ↦ elim (lookup_cpes m (version_specific_id id version ++ (codes "__" ++ (c ∷ s)))) [
        | some cpes ↦ some cpes
        | none ↦ row
      ]
    ]

unfoldable pub missing_release : Str → Str → Error
missing_release id [] =
    errorf "target RHEL release is required to select a CPE for repository %q" (id ∷ [])
missing_release id (c ∷ s) =
    errorf
      "target RHEL release %q must include a numeric major.minor version to select a CPE for repository %q"
      ((c ∷ s) ∷ id ∷ [])

unfoldable pub specific_cpes : RepositoryMapping → Str → Str → Str → Str → Result (List Str)
specific_cpes m id [] release architecture = err (missing_release id release)
specific_cpes m id (c ∷ s) release architecture =
    elim (version_specific_row m id (c ∷ s) architecture) [
      | some cpes ↦ ok cpes
      | none ↦ err (
          errorf "repository %q has no version-specific CPE mapping for target release %q"
            (id ∷ (c ∷ s) ∷ []))
    ]

-- `cpesForRHELRelease`
unfoldable pub cpes_for_rhel_release :
    RepositoryMapping → Str → List Str → Str → Str → Result (List Str)
cpes_for_rhel_release m id cpes release_version architecture =
    let release = trim_space release_version in
    if requires_rhel_release_specific_mapping m id
    then specific_cpes m id (rhel_cpe_version release) release architecture
    else ok cpes

unfoldable pub filter_rows :
    RepositoryMapping → Str → Str → List Str → Dict (List Str) → Result (Dict (List Str))
filter_rows m release architecture [] rows = ok rows
filter_rows m release architecture (id ∷ ids) rows = elim (lookup_cpes m id) [
  | none ↦ filter_rows m release architecture ids rows
  | some cpes ↦ do
    selected ← cpes_for_rhel_release m id cpes release architecture
    filter_rows m release architecture ids (insert rows id selected)
]

-- `forRHELRelease`
unfoldable pub for_rhel_release :
    RepositoryMapping → List Str → Str → Str → Result RepositoryMapping
for_rhel_release m ids release architecture = do
  rows ← filter_rows m release architecture ids []
  ok (record { data_of = rows; repo_relative_urls = []; source = m.source })

pub record RepositorySelection : Type 0 where
  pub mapped : List Str
  pub skipped : List Str

-- The loop of `SelectMappedRepositories` over the sorted identifiers without repetitions. The
-- selection comes back beside an error too.
module _ (unbind : Str → Result (Unit {0})) (m : RepositoryMapping) where
  select_from : List Str → RepositorySelection → RepositorySelection × Result (Unit {0})
  select_from [] s = (s, ok tt)
  select_from (id ∷ ids) s =
      let skip = select_from ids (record s { skipped = s.skipped ++ (id ∷ []) }) in
      let keep = select_from ids (record s { mapped = s.mapped ++ (id ∷ []) }) in
      elim (lookup_cpes m id) [
        | none ↦ skip
        | some cpes ↦ elim (validate unbind m id) [ ok u ↦ keep | err e ↦ (s, err e) ]
      ]

  nothing_mapped : List Str → Result (Unit {0}) → Result (Unit {0})
  nothing_mapped mapped (err e) = err e
  nothing_mapped [] (ok u) = err (errorf "no enabled repositories have a CPE mapping" [])
  nothing_mapped (id ∷ ids) (ok u) = ok tt

  pub select_mapped_repositories : List Str → RepositorySelection × Result (Unit {0})
  select_mapped_repositories enabled =
      let (s, r) =
        select_from (unseen [] (sort_strings enabled)) (record { mapped = []; skipped = [] }) in
      (s, nothing_mapped s.mapped r)
