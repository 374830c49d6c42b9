-- ===== src/Catalog/OsRelease.antt =====
-- The parsers of etc/os-release: `parseOSRelease` and `ResolveTargetInfo` of catalog/target.go, and
-- `targetHasRHELID` of cmd/cvetool/scan_catalog.go.
pub mod Agreement
pub mod Tests
use cvetool.Prelude.{
  ◌==◌, if◌then◌else◌, errorf, wrapf, Result, ok, err, ◌>>=◌, ◌>>◌, fail_if, wrap, ℕ, ◌-◌, Bool,
  not, ◌&&◌, ◌||◌, Option, none, some, List, [], ◌∷◌,
}
use cvetool.Text.{
  Str, codes, str_eq, cut, has_prefix, trim_space, scan_lines, too_long, Dict, lookup, insert,
}
use cvetool.Catalog.Nevra.{is_empty}
use cvetool.Catalog.Mapping.{all_ascii_digits}
use cvetool.Catalog.Target.Architecture.{ArchitectureSet, resolve_target_architecture}

pub is_quote : ℕ → Bool
is_quote c = (c == b'"') || (c == b'\'')

-- `value[len(value)-1]` and `value[:len(value)-1]` of a text with a first code point.
pub last_of : ℕ → Str → ℕ
last_of c [] = c
last_of c (d ∷ s) = last_of d s

pub without_last : ℕ → Str → Str
without_last c [] = []
without_last c (d ∷ s) = c ∷ without_last d s

unquote : Str → Result Str
unquote [] = ok []
unquote (c ∷ []) = if is_quote c then err (errorf "unmatched quote" []) else ok (c ∷ [])
unquote (c ∷ d ∷ s) =
    if is_quote c
    then (if last_of d s == c then ok (without_last d s) else err (errorf "unmatched quote" []))
    else if is_quote (last_of d s)
    then err (errorf "unmatched quote" [])
    else ok (c ∷ d ∷ s)

-- `parseOSReleaseValue`
pub parse_os_release_value : Str → Result Str
parse_os_release_value value = unquote (trim_space value)

-- The body of the loop of `parseOSRelease`.
pub parse_line : Str → Dict Str → Result (Dict Str)
parse_line text values =
    let line = trim_space text in
    let (before, after, found) = cut line b'=' in
    let key = trim_space before in
    if is_empty line || has_prefix line (codes "#")
    then ok values
    else if not found
    then ok values
    else if not (str_eq key (codes "ID")) && not (str_eq key (codes "VERSION_ID"))
    then ok values
    else (wrap "parse target os-release %s" (key ∷ []) (parse_os_release_value after) >>= λ value.
        ok (insert values key value))

pub parse_lines : List Str → Dict Str → Result (Dict Str)
parse_lines [] values = ok values
parse_lines (l ∷ ls) values = parse_line l values >>= parse_lines ls

-- `parseOSRelease`
pub parse_os_release : Str → Result (Dict Str)
parse_os_release contents =
    let (lines, long) = scan_lines contents in
    parse_lines lines [] >>= λ values.
    fail_if long (wrapf "read target os-release" [] too_long) >>= λ u. ok values

-- The value of a missing key is the empty text.
abbrev pub get_or_empty : Option Str → Str
get_or_empty none = []
get_or_empty (some s) = s

pub record TargetInfo : Type 0 where
  pub rhel_version : Str
  pub release_version : Str
  pub architecture : Str
  pub architectures : List Str

abbrev pub first_nonempty : Str → Str → Str
first_nonempty [] t = t
first_nonempty (c ∷ s) t = c ∷ s

-- `ResolveTargetInfo`
pub resolve_target_info : Str → Str → ArchitectureSet → Result TargetInfo
resolve_target_info os_release release_version architectures = do
  values ← parse_os_release os_release
  let id = get_or_empty (lookup values (codes "ID"))
  fail_if (not (str_eq id (codes "rhel")))
      (errorf "target operating system ID %q is not rhel" (id ∷ []))
  let version_id = get_or_empty (lookup values (codes "VERSION_ID"))
  let major = (cut version_id b'.').0
  fail_if (is_empty major || not (all_ascii_digits major))
      (errorf "invalid target RHEL VERSION_ID %q" (version_id ∷ []))
  let release = first_nonempty (trim_space release_version) version_id
  fail_if (is_empty release) (errorf "target release version is empty" [])
  resolved ← resolve_target_architecture architectures.packages
  fail_if (not (str_eq architectures.primary resolved.primary)) (
      errorf "target primary architecture %q does not match resolved architecture %q"
        (architectures.primary ∷ resolved.primary ∷ []))
  ok (record {
    rhel_version = major;
    release_version = release;
    architecture = resolved.primary;
    architectures = resolved.packages;
  })

-- The quotes of a value in `targetHasRHELID`, which has its own code for them.
unquote_id : Str → Result Str
unquote_id [] = ok []
unquote_id (c ∷ s) =
    if is_quote c
    then (if is_empty s || not (last_of c s == c)
        then err (errorf "parse target os-release ID: unmatched quote" [])
        else ok (elim s [ [] ↦ [] | d ∷ t ↦ without_last d t ]))
    else if is_quote (last_of c s)
    then err (errorf "parse target os-release ID: unmatched quote" [])
    else ok (c ∷ s)

-- The body of the loop of `targetHasRHELID`.
pub id_line : Str → Str → Result Str
id_line text id =
    let line = trim_space text in
    let (before, after, found) = cut line b'=' in
    if is_empty line || has_prefix line (codes "#")
    then ok id
    else if not found || not (str_eq (trim_space before) (codes "ID"))
    then ok id
    else unquote_id (trim_space after)

pub id_lines : List Str → Str → Result Str
id_lines [] id = ok id
id_lines (l ∷ ls) id = id_line l id >>= id_lines ls

-- `targetHasRHELID`
pub target_has_rhel_id : Str → Result Bool
target_has_rhel_id contents =
    let (lines, long) = scan_lines contents in
    id_lines lines [] >>= λ id.
    fail_if long (wrapf "read target os-release" [] too_long) >>= λ u. ok (str_eq id (codes "rhel"))
