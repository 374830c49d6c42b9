-- ===== src/Datastore/Versions/Tests.antt =====
-- Runs of the versions and the instances of their theorems.
use cvetool.Prelude.{
  if◌then◌else◌, external, err, ok, ◌≡◌, refl, false, none, some, List, [], ◌∷◌, arith,
}
use cvetool.Text.{ℤ}
use cvetool.Text.{
  Str, codes, str_eq, str_le, split, join, trim_left_func, trim_right_func, one_of, trim_any, pos,
  negsuc, format_int, parse_int32,
}
use cvetool.Datastore.Tables.{Range, Vulnerability, PackageInfo}
use cvetool.Datastore.Update.{vuln_row}
use cvetool.Datastore.Versions.{
  string_of, panics, from_string, zero_version, text, lift, VersionLibrary, version_in,
}
use cvetool.Datastore.Versions.Queried.{asked, version_in-vuln_row}

too_many_parts : from_string zero_version (codes "{1,2,3,4,5,6,7,8,9,10,11}") ≡ panics
unfolding from_string split trim_any trim_left_func trim_right_func one_of parse_int32
too_many_parts = refl

dotted : string_of zero_version ≡ codes "0.0.0.0.0.0.0.0.0.0"
unfolding string_of format_int join
dotted = refl

-- A library whose versions are texts and whose check is an order of texts.
abbrev library : VersionLibrary
library = record {
  Version = Str;
  Constraints = Str;
  new_version = λ s. if str_eq s [] then err (external 1) else ok s;
  new_constraint = λ s. ok s;
  check = λ c v. str_le c v;
}

abbrev upper_bound : List ℤ
upper_bound =
    pos 3
    ∷ pos 6
    ∷ pos 2147483647
    ∷ negsuc 2147483647
    ∷ pos 0
    ∷ pos 0
    ∷ pos 0
    ∷ pos 0
    ∷ pos 0
    ∷ pos 0
    ∷ []

abbrev range : Range
range = record {
  lower = record { kind = codes "rpm"; v = zero_version };
  upper = record { kind = codes "rpm"; v = upper_bound };
}

abbrev pkg : PackageInfo
pkg = record {
  name = codes "bash";
  version = [];
  module_name = [];
  arch = [];
  kind = codes "binary";
}

abbrev ranged : Vulnerability
ranged = record {
  name = codes "A";
  description = [];
  issued_string = [];
  issued_rfc3339 = [];
  links = [];
  severity = [];
  normalized_severity = [];
  pkg = some pkg;
  dist = none;
  repo = none;
  arch_operation = [];
  fixed_in_version = [];
  range = some range;
  updater = codes "rhel";
  invert = false;
}

version_in-vuln_row_example :
    version_in library
      (text (codes "1.2") ∷ text (vuln_row (λ s. s) 4 ranged pkg 1 2).vulnerable_range ∷ [])
    ≡ lift "could not create version: %v"
        (asked library (some range))
        (library.new_version (codes "1.2"))
version_in-vuln_row_example =
    version_in-vuln_row library (λ s. s) 4 ranged pkg 1 2 (codes "1.2")
      ((refl, omega arith), (refl, omega arith))
