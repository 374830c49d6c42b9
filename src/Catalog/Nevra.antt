-- ===== src/Catalog/Nevra.antt =====
-- catalog/nevra.go: package identities, from a package of an index report and from a row of DNF output.
pub mod RoundTrip
pub mod Key
mod Tests
use cvetool.Prelude.{
  if◌then◌else◌, errorf, Result, ok, err, ◌>>=◌, ◌>>◌, fail_if, ◌-◌, Bool, true, false, ◌||◌,
  Option, none, some, List, [], ◌∷◌,
}
use cvetool.Text.{Str, codes, split, join, cut, cut_last}

pub record Nevra : Type 0 where
  pub name : Str
  pub epoch : Str
  pub version : Str
  pub release : Str
  pub arch : Str

-- The fields of claircore.Package that the code reads.
pub record Package : Type 0 where
  pub name : Str
  pub version : Str
  pub arch : Str

unfoldable pub is_empty : Str → Bool
is_empty [] = true
is_empty (c ∷ s) = false

unfoldable pub validate_nevra : Nevra → Result (Unit {0})
unfolding is_empty
validate_nevra n = do
  fail_if (is_empty n.name || is_empty n.version || is_empty n.release || is_empty n.arch)
      (errorf "incomplete NEVRA" [])
  fail_if (is_empty n.epoch) (errorf "empty NEVRA epoch" [])
  ok tt

-- The epoch and the version of the text before the last dash.
unfoldable pub split_epoch : Str → Str → Result (Str × Str)
unfolding cut is_empty
split_epoch evr text =
    let (before, after, found) = cut text b':' in
    if found
    then (if is_empty before || is_empty after
        then err (errorf "invalid package EVR %q" (evr ∷ []))
        else ok (before, after))
    else ok (codes "0", text)

-- The parts at the last dash, which is neither first nor last.
split_release : Str → Result (Str × Str)
unfolding cut_last is_empty
split_release evr = elim (cut_last evr b'-') [
  | none ↦ err (errorf "invalid package EVR %q" (evr ∷ []))
  | some (before, after) ↦
      if is_empty before || is_empty after
      then err (errorf "invalid package EVR %q" (evr ∷ []))
      else ok (before, after)
]

-- The name and the architecture of the result are empty.
parse_evr : Str → Result Nevra
parse_evr evr = do
  fail_if (is_empty evr) (errorf "empty package version" [])
  parts ← split_release evr
  versioned ← split_epoch evr parts.0
  ok (record {
    name = [];
    epoch = versioned.0;
    version = versioned.1;
    release = parts.1;
    arch = [];
  })

-- `none` is a nil package.
pub parse_package : Option Package → Result Nevra
parse_package none = err (errorf "nil package" [])
parse_package (some pkg) = do
  fail_if (is_empty pkg.name) (errorf "empty package name" [])
  fail_if (is_empty pkg.arch) (errorf "empty package architecture" [])
  nevra ← parse_evr pkg.version
  let named = record nevra { name = pkg.name; arch = pkg.arch }
  validate_nevra named
  ok named

from_fields : List Str → Result Nevra
from_fields (name ∷ epoch ∷ version ∷ release ∷ arch ∷ []) = ok (record {
  name = name;
  epoch = if is_empty epoch then codes "0" else epoch;
  version = version;
  release = release;
  arch = arch;
})
from_fields _ = err (errorf "invalid DNF row: expected 5 tab-separated fields" [])

unfoldable pub parse_dnf_row : Str → Result Nevra
unfolding from_fields split validate_nevra is_empty
parse_dnf_row row = do nevra ← from_fields (split row b'\t'); validate_nevra nevra; ok nevra

abbrev pub columns : Nevra → List Str
columns n = n.name ∷ n.epoch ∷ n.version ∷ n.release ∷ n.arch ∷ []

unfoldable pub key : Nevra → Str
unfolding join
key n = join (columns n) (codes "|")
