-- ===== src/Datastore/Get/Tests.antt =====
-- A query with a repeated constraint, and a run of Get for a package that is indexed twice.
use cvetool.Prelude.{
  ℕ, All, In, Distinct, All_In, ok, ◌≡◌, refl, ◌≢◌, ◌↔◌, Bool, true, false, Option, none, List, [],
  ◌∷◌, map,
}
use cvetool.Text.{Str, codes, str_eq, Dict}
use cvetool.Datastore.Tables.{DistributionInfo, VulnRow, vulnerability_kind, Database}
use cvetool.Datastore.Get.{
  record_rows, IndexRecord, MatchConstraint, package_module, other, GetOpts, build_get_query, Found,
  get,
}
use cvetool.Datastore.Get.Constraints.{Meets}
use cvetool.Datastore.Get.Query.{IsOfPackage, VersionFits, build_get_query_lem}
use cvetool.Datastore.Get.Results.{ids_of, DatesAreRead, get_lem}

abbrev version_in : Str → Str → Bool
version_in version range = true

abbrev base64 : Str → Str
base64 s = s

abbrev date_error : Str → Option Str
date_error s = none

abbrev no_dist : DistributionInfo
no_dist = record {
  did = [];
  name = [];
  version = [];
  version_code_name = [];
  version_id = [];
  arch = [];
  cpe = [];
  pretty_name = [];
}

abbrev indexed : IndexRecord
indexed = record {
  pkg = record {
    id = codes "p";
    name = codes "bash";
    kind = codes "binary";
    module_name = [];
    source_name = [];
    source_kind = [];
    normalized_kind = [];
    normalized_version = [];
  };
  dist = no_dist;
  repo = record { name = []; key = []; uri = [] };
}

abbrev opts : GetOpts
opts = record { matchers = package_module ∷ package_module ∷ []; version_filtering = false }

abbrev vulnerable : VulnRow
vulnerable = record {
  id = 1;
  hash = codes "h";
  updater = codes "u";
  name_id = 1;
  description_id = 1;
  issued = [];
  links = [];
  severity = [];
  normalized_severity = [];
  pkg = record {
    name = codes "bash";
    version = [];
    module_name = [];
    arch = [];
    kind = codes "binary";
  };
  dist = no_dist;
  repo = record { name = []; key = []; uri = [] };
  fixed_in_version = [];
  arch_operation = [];
  version_kind = none;
  vulnerable_range = [];
}

abbrev d : Database
d = record {
  operations =
      record {
        id = 1;
        ref = [];
        updater = codes "u";
        fingerprint = [];
        kind = vulnerability_kind;
        date = 1;
      }
      ∷ [];
  operation_seq = 1;
  vulns = vulnerable ∷ [];
  metadata = record { id = 1; kind = codes "name"; hash = []; value = codes "CVE" } ∷ [];
  uo_vuln = (1, 1) ∷ [];
  enrichments = [];
  uo_enrich = [];
}

abbrev records : List IndexRecord
records = indexed ∷ indexed ∷ []

matchers_known : All (λ m. (n : ℕ) → m ≢ other n) opts.matchers
matchers_known = ((λ n e. cc (e)), ((λ n e. cc (e)), tt))

build_get_query_lem_example :
    (w : VulnRow → Bool) × (build_get_query version_in indexed opts ≡ ok w)
    × ((v : VulnRow)
        → (w v ≡ true) ↔ (
            IsOfPackage indexed.pkg v
            × ((m : MatchConstraint) → In m opts.matchers → Meets indexed v m)
            × (opts.version_filtering ≡ true → VersionFits version_in indexed.pkg v)))
build_get_query_lem_example =
    build_get_query_lem version_in indexed opts (λ e. cc (e))
      (λ m i. All_In (λ z. (n : ℕ) → z ≢ other n) opts.matchers m matchers_known i)

all_read : (fs : List Found) → DatesAreRead version_in base64 date_error fs
all_read [] = tt
all_read (f ∷ fs) = (refl, all_read fs)

-- The vulnerability is there once.
get_run :
    get version_in base64 date_error d records opts
    ≡ ok (
        (
          codes "p",
          record { id = codes "h"; name = codes "CVE"; description = codes "CVE"; row = vulnerable }
              ∷ [],
        )
        ∷ [])
unfolding get str_eq
get_run = refl

get_lem_example :
    (results : Dict (List Found)) × (get version_in base64 date_error d records opts ≡ ok results)
    × ((rid : Str) → Distinct (ids_of results rid))
    × ((rid a : Str)
        → In a (ids_of results rid) ↔ (
            (r : IndexRecord) × In r records
            × (r.pkg.id ≡ rid)
            × In a (map (λ f. f.id) (record_rows version_in base64 date_error d opts r))))
get_lem_example = get_lem version_in base64 date_error d opts records (
  all_read (record_rows version_in base64 date_error d opts indexed),
  (all_read (record_rows version_in base64 date_error d opts indexed), tt),
)
