-- ===== src/Datastore/Tables.antt =====
-- The tables of datastore/sqlite/migrations, each as the list of its rows in the order of their
-- insertion, and the values of claircore that are stored in them. SQLite is not part of the
-- repository: a statement is a function on the tables, and a statement that fails is not modelled.
use cvetool.Prelude.{
  ltb, ◌==◌, if◌then◌else◌, ℕ, suc, Bool, true, false, not, ◌&&◌, ◌||◌, Option, none, some, List,
  [], ◌∷◌, ◌++◌,
}
use cvetool.Text.{Str, str_eq, ℤ}

pub record PackageInfo : Type 0 where
  pub name : Str
  pub version : Str
  pub module_name : Str
  pub arch : Str
  pub kind : Str

pub record DistributionInfo : Type 0 where
  pub did : Str
  pub name : Str
  pub version : Str
  pub version_code_name : Str
  pub version_id : Str
  pub arch : Str
  pub cpe : Str
  pub pretty_name : Str

pub record RepositoryInfo : Type 0 where
  pub name : Str
  pub key : Str
  pub uri : Str

-- claircore.Version, with ten numbers, and claircore.Range
pub record Bound : Type 0 where
  pub kind : Str
  pub v : List ℤ

pub record Range : Type 0 where
  pub lower : Bound
  pub upper : Bound

-- What `rangefmt` returns: the kind of both bounds, if it is the same, and the bounds as texts.
pub record RangeText : Type 0 where
  pub kind : Option Str
  pub lower : Str
  pub upper : Str

-- claircore.Vulnerability. The two texts of its date are those of `String` and of the RFC 3339
-- format, and `range` is none for a nil pointer.
pub record Vulnerability : Type 0 where
  pub name : Str
  pub description : Str
  pub issued_string : Str
  pub issued_rfc3339 : Str
  pub links : Str
  pub severity : Str
  pub normalized_severity : Str
  pub pkg : Option PackageInfo
  pub dist : Option DistributionInfo
  pub repo : Option RepositoryInfo
  pub arch_operation : Str
  pub fixed_in_version : Str
  pub range : Option Range
  pub updater : Str
  pub invert : Bool

-- `vuln`; every hash is of the kind "md5".
pub record VulnRow : Type 0 where
  pub id : ℕ
  pub hash : Str
  pub updater : Str
  pub name_id : ℕ
  pub description_id : ℕ
  pub issued : Str
  pub links : Str
  pub severity : Str
  pub normalized_severity : Str
  pub pkg : PackageInfo
  pub dist : DistributionInfo
  pub repo : RepositoryInfo
  pub fixed_in_version : Str
  pub arch_operation : Str
  pub version_kind : Option Str
  pub vulnerable_range : Str

-- `metadata`
pub record MetadataRow : Type 0 where
  pub id : ℕ
  pub kind : Str
  pub hash : Str
  pub value : Str

pub data UpdateKind : Type 0 where
  vulnerability_kind enrichment_kind : UpdateKind

unfoldable pub same_kind : UpdateKind → UpdateKind → Bool
same_kind vulnerability_kind vulnerability_kind = true
same_kind enrichment_kind enrichment_kind = true
same_kind _ _ = false

-- `update_operation`
pub record Operation : Type 0 where
  pub id : ℕ
  pub ref : Str
  pub updater : Str
  pub fingerprint : Str
  pub kind : UpdateKind
  pub date : ℕ

-- `enrichment`
pub record EnrichmentRow : Type 0 where
  pub id : ℕ
  pub hash : Str
  pub updater : Str
  pub tags : Str
  pub payload : Str

-- `operation_seq` is the largest identifier that AUTOINCREMENT has given out.
pub record Database : Type 0 where
  pub operations : List Operation
  pub operation_seq : ℕ
  pub vulns : List VulnRow
  pub metadata : List MetadataRow
  pub uo_vuln : List (ℕ × ℕ)
  pub enrichments : List EnrichmentRow
  pub uo_enrich : List (ℕ × ℕ)

abbrev pub max : ℕ → ℕ → ℕ
max a b = if ltb a b then b else a

-- The identifier of the next row of a table with an INTEGER PRIMARY KEY.
module _ {A : Type 0} (id : A → ℕ) where
  unfoldable pub next_id : List A → ℕ
  next_id [] = 1
  next_id (r ∷ rs) = max (suc (id r)) (next_id rs)

pub contains_pair : List (ℕ × ℕ) → ℕ → ℕ → Bool
contains_pair [] a b = false
contains_pair ((x, y) ∷ ps) a b = ((x == a) && (y == b)) || contains_pair ps a b

-- `INSERT INTO … VALUES (a, b) ON CONFLICT DO NOTHING` for a table whose key is the pair
unfoldable pub associate : ℕ → ℕ → List (ℕ × ℕ) → List (ℕ × ℕ)
unfolding contains_pair
associate a b ps = if contains_pair ps a b then ps else ps ++ ((a, b) ∷ [])

-- The operation of the updater with the largest identifier; `latest_update_operations` has its
-- kind.
unfoldable pub latest_of : List Operation → Str → Option Operation
latest_of [] updater = none
latest_of (o ∷ os) updater =
    let rest = latest_of os updater in
    if not (str_eq o.updater updater) then rest else elim rest as (λ r. Option Operation) [
      | none ↦ some o
      | some p ↦ some (if ltb o.id p.id then p else o)
    ]

abbrev pub is_operation : Option Operation → ℕ → UpdateKind → Bool
is_operation none uo kind = false
is_operation (some o) uo kind = (o.id == uo) && same_kind o.kind kind

pub any_latest : List Operation → List Operation → ℕ → UpdateKind → Bool
unfolding latest_of same_kind
any_latest all [] uo kind = false
any_latest all (o ∷ os) uo kind =
    is_operation (latest_of all o.updater) uo kind || any_latest all os uo kind

-- A row of `latest_update_operations` has the identifier and the kind.
unfoldable pub is_latest : Database → ℕ → UpdateKind → Bool
unfolding any_latest
is_latest d uo kind = any_latest d.operations d.operations uo kind

-- `SELECT value FROM metadata WHERE id = …`
unfoldable pub value_of : List MetadataRow → ℕ → Option Str
value_of [] id = none
value_of (m ∷ ms) id = if m.id == id then some m.value else value_of ms id
