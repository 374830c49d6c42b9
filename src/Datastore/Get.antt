-- ===== src/Datastore/Get.antt =====
-- datastore/sqlite/query_builder.go, and `Get` of get.go: the vulnerabilities that match the
-- packages of an index. Parameters are the function `version_in` that SQLite calls (it does not
-- fail here), base64, and what time.Parse says of a date.
pub mod Constraints
pub mod Query
pub mod Results
mod Tests
use cvetool.Prelude.{
  ◌==◌, if◌then◌else◌, errorf, Result, err, ok, ◌>>=◌, ◌>>◌, ℕ, ◌+◌, Bool, true, false, not, ◌&&◌,
  ◌||◌, Option, none, some, List, [], ◌∷◌, ◌++◌,
}
use cvetool.Text.{Str, str_eq, contains, Dict, lookup, insert}
use cvetool.Datastore.Tables.{
  DistributionInfo, RepositoryInfo, VulnRow, vulnerability_kind, Database, is_latest, value_of,
}

-- The fields of a claircore.Package that the query reads; its source is never nil.
pub record IndexedPackage : Type 0 where
  pub id : Str
  pub name : Str
  pub kind : Str
  pub module_name : Str
  pub source_name : Str
  pub source_kind : Str
  pub normalized_kind : Str
  pub normalized_version : Str

pub record IndexRecord : Type 0 where
  pub pkg : IndexedPackage
  pub dist : DistributionInfo
  pub repo : RepositoryInfo

-- driver.MatchConstraint; `other` is a constraint that the switch does not name.
pub data MatchConstraint : Type 0 where
  package_module distribution_did distribution_name distribution_version_id : MatchConstraint
  distribution_version distribution_version_code_name distribution_pretty_name : MatchConstraint
  distribution_cpe distribution_arch repository_name repository_key : MatchConstraint
  has_fixed_in_version : MatchConstraint
  other : ℕ → MatchConstraint

abbrev pub code_of : MatchConstraint → ℕ
code_of package_module = 0
code_of distribution_did = 1
code_of distribution_name = 2
code_of distribution_version_id = 3
code_of distribution_version = 4
code_of distribution_version_code_name = 5
code_of distribution_pretty_name = 6
code_of distribution_cpe = 7
code_of distribution_arch = 8
code_of repository_name = 9
code_of repository_key = 10
code_of has_fixed_in_version = 11
code_of (other n) = n + 12

-- The condition of a case of the `switch`.
pub condition : MatchConstraint → IndexRecord → Option (VulnRow → Bool)
condition package_module r = some (λ v. str_eq v.pkg.module_name r.pkg.module_name)
condition distribution_did r = some (λ v. str_eq v.dist.did r.dist.did)
condition distribution_name r = some (λ v. str_eq v.dist.name r.dist.name)
condition distribution_version_id r = some (λ v. str_eq v.dist.version_id r.dist.version_id)
condition distribution_version r = some (λ v. str_eq v.dist.version r.dist.version)
condition distribution_version_code_name r =
    some (λ v. str_eq v.dist.version_code_name r.dist.version_code_name)
condition distribution_pretty_name r = some (λ v. str_eq v.dist.pretty_name r.dist.pretty_name)
condition distribution_cpe r = some (λ v. str_eq v.dist.cpe r.dist.cpe)
condition distribution_arch r = some (λ v. str_eq v.dist.arch r.dist.arch)
condition repository_name r = some (λ v. str_eq v.repo.name r.repo.name)
condition repository_key r = some (λ v. str_eq v.repo.key r.repo.key)
condition has_fixed_in_version r = some (λ v. not (str_eq v.fixed_in_version []))
condition (other n) r = none

pub record GetOpts : Type 0 where
  pub matchers : List MatchConstraint
  pub version_filtering : Bool

pub seen_code : List ℕ → ℕ → Bool
seen_code [] c = false
seen_code (x ∷ xs) c = x == c || seen_code xs c

-- The loop over the matchers; the result is the conjunction of the conditions that it appends.
pub matcher_loop : List ℕ → List MatchConstraint → IndexRecord → Result (VulnRow → Bool)
unfolding condition seen_code
matcher_loop seen [] r = ok (λ v. true)
matcher_loop seen (m ∷ ms) r =
    let skip = matcher_loop seen ms r in
    let add = elim (condition m r) as (λ o. Result (VulnRow → Bool)) [
      | none ↦ err (errorf "was provided unknown matcher: %v" [])
      | some ex ↦ matcher_loop (code_of m ∷ seen) ms r >>= λ rest. ok (λ v. ex v && rest v)
    ] in
    if seen_code seen (code_of m) then skip else add

-- The first condition: the package, or its source if that has a name.
pub package_query : IndexedPackage → VulnRow → Bool
package_query p v =
    (str_eq v.pkg.name p.name && str_eq v.pkg.kind p.kind)
    || (not (str_eq p.source_name [])
        && (str_eq v.pkg.name p.source_name && str_eq v.pkg.kind p.source_kind))

abbrev pub has_kind : Option Str → Str → Bool
has_kind none kind = false
has_kind (some k) kind = str_eq k kind

module _ (version_in : Str → Str → Bool) where
  pub version_query : Bool → IndexedPackage → VulnRow → Bool
  version_query false p v = true
  version_query true p v =
      has_kind v.version_kind p.normalized_kind
      && version_in p.normalized_version v.vulnerable_range

  -- `buildGetQuery`: the conditions on a row of `vuln`.
  pub build_get_query : IndexRecord → GetOpts → Result (VulnRow → Bool)
  unfolding matcher_loop package_query version_query
  build_get_query r opts =
      if str_eq r.pkg.name []
      then err (errorf "IndexRecord must provide a Package.Name" [])
      else (matcher_loop [] opts.matchers r >>= λ matchers. ok (λ v.
          package_query r.pkg v && (matchers v && version_query opts.version_filtering r.pkg v)))

-- The columns that the code reads apart: the ID is that of the hash, the others are `row`'s.
pub record Found : Type 0 where
  pub id : Str
  pub name : Str
  pub description : Str
  pub row : VulnRow

module _ (base64 : Str → Str) where
  -- The row that joins a vulnerability, its texts and a pair of `uo_vuln`.
  pub joined_row : Database → VulnRow → ℕ × ℕ → Option Found
  unfolding value_of is_latest
  joined_row d v (uo, k) =
      if (k == v.id) && is_latest d uo vulnerability_kind
      then elim (value_of d.metadata v.name_id) as (λ o. Option Found) [
        | none ↦ none
        | some name ↦ elim (value_of d.metadata v.description_id) as (λ o. Option Found) [
          | none ↦ none
          | some text ↦
              some (record { id = base64 v.hash; name = name; description = text; row = v })
        ]
      ]
      else none

  pub join_pairs : Database → VulnRow → List (ℕ × ℕ) → List Found
  unfolding joined_row
  join_pairs d v [] = []
  join_pairs d v (p ∷ ps) =
      elim (joined_row d v p) as (λ o. List Found) [ none ↦ [] | some f ↦ f ∷ [] ]
      ++ join_pairs d v ps

  -- The rows of the query, in the order of the tables.
  pub query_rows : Database → (VulnRow → Bool) → List VulnRow → List Found
  unfolding join_pairs
  query_rows d test [] = []
  query_rows d test (v ∷ vs) =
      (if test v then join_pairs d v d.uo_vuln else []) ++ query_rows d test vs

-- `results` and `vulnSet`
pub record GetState : Type 0 where
  pub results : Dict (List Found)
  pub vuln_set : Dict (List Str)

abbrev pub or_empty : {A : Type 0} → Option (List A) → List A
or_empty none = []
or_empty (some xs) = xs

-- The end of the loop over the rows.
pub add_found : Str → Found → GetState → GetState
unfolding lookup insert contains
add_found rid f s =
    let ids = or_empty (lookup s.vuln_set rid) in
    if contains ids f.id then s else record {
      results = insert s.results rid (or_empty (lookup s.results rid) ++ (f ∷ []));
      vuln_set = insert s.vuln_set rid (f.id ∷ ids);
    }

module _ (date_error : Str → Option Str) where
  pub row_loop : Str → List Found → GetState → Result GetState
  unfolding add_found
  row_loop rid [] s = ok s
  row_loop rid (f ∷ fs) s = elim (date_error f.row.issued) as (λ o. Result GetState) [
    | some e ↦ err (errorf "failed parse issued date: %v" (e ∷ []))
    | none ↦ row_loop rid fs (add_found rid f s)
  ]

module _ (version_in : Str → Str → Bool) (base64 : Str → Str) (date_error : Str → Option Str) where
  -- The rows for a record: none, if there is no query for it.
  pub record_rows : Database → GetOpts → IndexRecord → List Found
  unfolding build_get_query query_rows
  record_rows d opts r = elim (build_get_query version_in r opts) as (λ q. List Found) [
    | err e ↦ []
    | ok test ↦ query_rows base64 d test d.vulns
  ]

  pub record_loop : Database → GetOpts → List IndexRecord → GetState → Result GetState
  unfolding record_rows row_loop
  record_loop d opts [] s = ok s
  record_loop d opts (r ∷ rs) s =
      row_loop date_error r.pkg.id (record_rows d opts r) s >>= record_loop d opts rs

  -- `Get`
  pub get : Database → List IndexRecord → GetOpts → Result (Dict (List Found))
  unfolding record_loop
  get d records opts =
      record_loop d opts records (record { results = []; vuln_set = [] }) >>= λ s. ok s.results
