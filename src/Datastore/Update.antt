-- ===== src/Datastore/Update.antt =====
-- datastore/sqlite/update_vulnerabilities.go: a new update operation, the vulnerabilities that it
-- stores, and those that a delta update carries over. MD5 is a parameter.
pub mod Carried
pub mod Stored
pub mod Associations
mod Tests
use cvetool.Prelude.{
  ◌==◌, if◌then◌else◌, is_some, wrapf, external, Result, err, ok, ◌>>=◌, ◌>>◌, ℕ, suc, ◌+◌, ◌&&◌,
  Option, none, some, List, [], ◌∷◌, ◌++◌,
}
use cvetool.Text.{Str, codes, str_eq, Dict, remove}
use cvetool.Datastore.Ranges.{rangefmt}
use cvetool.Datastore.Tables.{
  PackageInfo, DistributionInfo, RepositoryInfo, RangeText, Vulnerability, VulnRow, MetadataRow,
  UpdateKind, vulnerability_kind, Database, next_id, associate, is_latest, value_of,
}

-- A text of a list of parts, one after the other: what the calls of `WriteString` leave.
abbrev concat : List Str → Str
concat [] = []
concat (x ∷ xs) = x ++ concat xs

package_parts : Option PackageInfo → List Str
package_parts none = []
package_parts (some p) = p.name ∷ p.version ∷ p.module_name ∷ p.arch ∷ p.kind ∷ []

distribution_parts : Option DistributionInfo → List Str
distribution_parts none = []
distribution_parts (some d) =
    d.did ∷ d.name ∷ d.version ∷ d.version_code_name ∷ d.version_id ∷ d.arch ∷ d.cpe ∷ d.pretty_name
    ∷ []

repository_parts : Option RepositoryInfo → List Str
repository_parts none = []
repository_parts (some r) = r.name ∷ r.key ∷ r.uri ∷ []

range_parts : RangeText → Option Str → List Str
range_parts r none = []
range_parts r (some k) = k ∷ r.lower ∷ r.upper ∷ []

-- `&claircore.Distribution{}` and `&claircore.Repository{}` for a nil pointer
abbrev dist_or_empty : Option DistributionInfo → DistributionInfo
dist_or_empty none = record {
  did = [];
  name = [];
  version = [];
  version_code_name = [];
  version_id = [];
  arch = [];
  cpe = [];
  pretty_name = [];
}
dist_or_empty (some d) = d

abbrev repo_or_empty : Option RepositoryInfo → RepositoryInfo
repo_or_empty none = record { name = []; key = []; uri = [] }
repo_or_empty (some r) = r

-- `SELECT id FROM vuln WHERE hash = …`
pub id_of_hash : List VulnRow → Str → Option ℕ
id_of_hash [] h = none
id_of_hash (r ∷ rs) h = if str_eq r.hash h then some r.id else id_of_hash rs h

-- `INSERT INTO vuln … ON CONFLICT (hash_kind, hash) DO NOTHING`
pub insert_vuln : VulnRow → List VulnRow → List VulnRow
unfolding id_of_hash
insert_vuln row rows = if is_some (id_of_hash rows row.hash) then rows else rows ++ (row ∷ [])

-- `SELECT id FROM metadata WHERE kind = … AND hash = …`
pub id_of_metadata : List MetadataRow → Str → Str → Option ℕ
id_of_metadata [] kind h = none
id_of_metadata (m ∷ ms) kind h =
    if str_eq m.kind kind && str_eq m.hash h then some m.id else id_of_metadata ms kind h

-- The statement `assoc`; a NULL identifier breaks the constraint of its column.
pub assoc : ℕ → Str → Database → Result Database
unfolding id_of_hash associate
assoc uo h d = elim (id_of_hash d.vulns h) [
  | none ↦ err (wrapf "failed to assoc vulnerability" [] (external 0))
  | some id ↦ ok (record d { uo_vuln = associate uo id d.uo_vuln })
]

module _ (md5 : Str → Str) where
  -- `md5Vuln`
  pub md5_vuln : Vulnerability → Str
  unfolding package_parts distribution_parts repository_parts range_parts
  md5_vuln v = md5 (
      concat (v.name ∷ v.description ∷ v.issued_string ∷ v.links ∷ v.severity ∷ [])
      ++ (concat (package_parts v.pkg)
          ++ (concat (distribution_parts v.dist)
              ++ (concat (repository_parts v.repo)
                  ++ (v.arch_operation
                      ++ (v.fixed_in_version
                          ++ concat (range_parts (rangefmt v.range) (rangefmt v.range).kind)))))))

  -- `getMetadata`: the identifier, and the table after it.
  pub get_metadata : Str → Str → List MetadataRow → ℕ × List MetadataRow
  unfolding id_of_metadata
  get_metadata kind val ms = elim (id_of_metadata ms kind (md5 val)) [
    | some id ↦ (id, ms)
    | none ↦ (
      next_id (λ m. m.id) ms,
      ms ++ (record { id = next_id (λ m. m.id) ms; kind = kind; hash = md5 val; value = val } ∷ []),
    )
  ]

  -- The row that the statement `insert` gives the table.
  unfoldable pub vuln_row : ℕ → Vulnerability → PackageInfo → ℕ → ℕ → VulnRow
  unfolding md5_vuln
  vuln_row id v pkg desc_id name_id = record {
    id = id;
    hash = md5_vuln v;
    updater = v.updater;
    name_id = name_id;
    description_id = desc_id;
    issued = v.issued_rfc3339;
    links = v.links;
    severity = v.severity;
    normalized_severity = v.normalized_severity;
    pkg = pkg;
    dist = dist_or_empty v.dist;
    repo = repo_or_empty v.repo;
    fixed_in_version = v.fixed_in_version;
    arch_operation = v.arch_operation;
    version_kind = (rangefmt v.range).kind;
    vulnerable_range = (rangefmt v.range).lower ++ (codes "__" ++ (rangefmt v.range).upper);
  }

  -- The end of the callback, for a vulnerability whose package has a name.
  pub store_package : ℕ → Vulnerability → Option PackageInfo → ℕ → ℕ → Database → Result Database
  unfolding vuln_row insert_vuln assoc
  store_package uo v none desc_id name_id d = ok d
  store_package uo v (some pkg) desc_id name_id d =
      if str_eq pkg.name []
      then ok d
      else assoc uo (md5_vuln v) (record d {
        vulns = insert_vuln (vuln_row (next_id (λ r. r.id) d.vulns) v pkg desc_id name_id) d.vulns;
      })

  -- The callback of the second iteration, on a vulnerability.
  pub insert_item : ℕ → Vulnerability → Database → Result Database
  unfolding get_metadata store_package
  insert_item uo v d =
      if v.invert
      then ok d
      else let (desc_id, with_description) =
          get_metadata (codes "description") v.description d.metadata in
        let (name_id, with_name) = get_metadata (codes "name") v.name with_description in
        store_package uo v v.pkg desc_id name_id (record d { metadata = with_name })

  -- The second iteration: it ends at the first error.
  pub insert_items : ℕ → List (Result Vulnerability) → Database → Result Database
  unfolding insert_item
  insert_items uo [] d = ok d
  insert_items uo (err e ∷ items) d = err (wrapf "iterating on vulnerabilities" [] e)
  insert_items uo (ok v ∷ items) d = insert_item uo v d >>= insert_items uo items

-- `oldVulns[name] = append(oldVulns[name], ID)`
unfoldable pub append_at : Dict (List ℕ) → Str → ℕ → Dict (List ℕ)
append_at [] k v = (k, v ∷ []) ∷ []
append_at ((j, vs) ∷ m) k v =
    if str_eq j k then (j, vs ++ (v ∷ [])) ∷ m else (j, vs) ∷ append_at m k v

-- The columns name_id and updater of a vulnerability.
pub name_of_vuln : List VulnRow → List MetadataRow → Str → ℕ → Option Str
unfolding value_of
name_of_vuln [] ms updater id = none
name_of_vuln (r ∷ rs) ms updater id =
    if r.id == id && str_eq r.updater updater
    then value_of ms r.name_id
    else name_of_vuln rs ms updater id

-- A row of `uo_vuln` in the query `selectExisting`, and the body of the loop over its rows.
pub add_existing : Database → Str → ℕ → ℕ → Dict (List ℕ) → Dict (List ℕ)
unfolding is_latest name_of_vuln append_at
add_existing d updater uo id m =
    if is_latest d uo vulnerability_kind
    then elim (name_of_vuln d.vulns d.metadata updater id) as (λ n. Dict (List ℕ)) [
      | none ↦ m
      | some name ↦ append_at m name id
    ]
    else m

pub old_vulns : Database → Str → List (ℕ × ℕ) → Dict (List ℕ) → Dict (List ℕ)
unfolding add_existing
old_vulns d updater [] m = m
old_vulns d updater ((uo, id) ∷ pairs) m =
    old_vulns d updater pairs (add_existing d updater uo id m)

-- The names of the new batch. The iterator of a delta update, the only one that is read twice, is
-- made of a slice and has no errors.
abbrev pub batch_names : List (Result Vulnerability) → List Str
batch_names [] = []
batch_names (err e ∷ items) = batch_names items
batch_names (ok v ∷ items) = v.name ∷ batch_names items

pub delete_all : Dict (List ℕ) → List Str → Dict (List ℕ)
delete_all m [] = m
delete_all m (k ∷ ks) = delete_all (remove m k) ks

-- `for _, vs := range oldVulns { for _, vID := range vs { … } }`
pub associate_ids : ℕ → List ℕ → List (ℕ × ℕ) → List (ℕ × ℕ)
unfolding associate
associate_ids uo [] ps = ps
associate_ids uo (id ∷ ids) ps = associate_ids uo ids (associate uo id ps)

pub associate_old : ℕ → Dict (List ℕ) → List (ℕ × ℕ) → List (ℕ × ℕ)
unfolding associate_ids
associate_old uo [] ps = ps
associate_old uo ((name, ids) ∷ m) ps = associate_old uo m (associate_ids uo ids ps)

-- The old vulnerabilities that keep their place: none, if the update is not a delta.
pub carried : Database → Str → List (Result Vulnerability) → Option (List Str) → Dict (List ℕ)
unfolding old_vulns delete_all
carried d updater items none = []
carried d updater items (some deleted) =
    delete_all (delete_all (old_vulns d updater d.uo_vuln []) (batch_names items)) deleted

-- The statement `create`: the database with the operation, whose identifier is `operation_seq`.
pub create : Str → Str → Str → UpdateKind → ℕ → Database → Database
create updater fingerprint ref kind date d =
    let id = suc d.operation_seq in
    record d {
      operations =
          d.operations
          ++ (record {
            id = id;
            ref = ref;
            updater = updater;
            fingerprint = fingerprint;
            kind = kind;
            date = date;
          }
              ∷ []);
      operation_seq = id;
    }

-- The end of the transaction: the deferred Rollback after an error, and else Commit.
pub finish : Database → Str → Result Database → Database × Result Str
finish d ref (err e) = (d, err e)
finish d ref (ok d') = (d', ok ref)

module _ (md5 : Str → Str) where
  -- `updateVulnerabilities`, with the value of `uuid.New` and the time.
  pub update_vulnerabilities :
      Str
      → Str
      → Str
      → ℕ
      → List (Result Vulnerability)
      → Option (List Str)
      → Database
      → Database × Result Str
  unfolding carried create associate_old insert_items finish
  update_vulnerabilities updater fingerprint ref date items deleted d =
      let old = carried d updater items deleted in
      let created = create updater fingerprint ref vulnerability_kind date d in
      let uo = created.operation_seq in
      let with_old = record created { uo_vuln = associate_old uo old created.uo_vuln } in
      finish d ref (insert_items md5 uo items with_old)
