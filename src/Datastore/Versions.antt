-- ===== src/Datastore/Versions.antt =====
-- The versions of datastore/sqlite/matcher_store.go: `intVersion`, and the function `version_in` that
-- the queries call. The version library is a parameter.
pub mod Stored
pub mod Queried
mod Tests
use cvetool.Prelude.{
  ltb, errorf, wrapf, Result, err, ok, ◌>>◌, ℕ, zero, suc, ◌+◌, ◌<◌, String, Bool, true, false, not,
  List, [], ◌∷◌, ◌++◌, map,
}
use cvetool.Text.{ℤ, Str, codes, split, split_double, join, trim_any, pos, format_int, parse_int32}

-- `intVersion`: ten numbers in the range of int32. `String`
pub string_of : List ℤ → Str
string_of v = join (map format_int v) (codes ".")

-- What a Go function returns, or its panic.
pub data Outcome {ℓ} (A : Type ℓ) : Type ℓ where
  panics : Outcome A
  returns : Result A → Outcome A

-- The assignment to `v[i]`, where `i` is below the length.
pub set : List ℤ → ℕ → ℤ → List ℤ
set [] i z = []
set (x ∷ xs) zero z = z ∷ xs
set (x ∷ xs) (suc i) z = x ∷ set xs i z

abbrev pub parts : ℕ
parts = 10

-- The loop of `FromString`: the assignment to an element that the array does not have panics.
pub from_parts : ℕ → List Str → List ℤ → Outcome (List ℤ)
unfolding set
from_parts i [] v = returns (ok v)
from_parts i (s ∷ ss) v = elim (parse_int32 s) as (λ r. Outcome (List ℤ)) [
  | err e ↦ returns (err e)
  | ok p ↦ elim (ltb i parts) [ true ↦ from_parts (suc i) ss (set v i p) | false ↦ panics ]
]

-- `FromString`; what the array has after an error is read by no one.
pub from_string : List ℤ → Str → Outcome (List ℤ)
unfolding from_parts
from_string v str = from_parts 0 (split (trim_any str (codes "{}")) b',') v

-- `var lower, upper intVersion`
abbrev pub zero_version : List ℤ
zero_version = pos 0 ∷ pos 0 ∷ pos 0 ∷ pos 0 ∷ pos 0 ∷ pos 0 ∷ pos 0 ∷ pos 0 ∷ pos 0 ∷ pos 0 ∷ []

-- A value of the database driver: a string, or another.
pub data Value : Type 0 where
  text : Str → Value
  other : Value

infixl 5 ◌>>>◌
abbrev pub ◌>>>◌ {ℓ κ} : {A : Type ℓ} {B : Type κ} → Outcome A → (Result A → Outcome B) → Outcome B
panics >>> rest = panics
returns r >>> rest = rest r

abbrev pub lift {ℓ κ} : {A : Type ℓ} {B : Type κ} → String → (A → Outcome B) → Result A → Outcome B
lift format rest (err e) = returns (err (wrapf format [] e))
lift format rest (ok a) = rest a

-- github.com/hashicorp/go-version: NewVersion, NewConstraint and Check of the constraints.
pub record VersionLibrary : Type 1 where
  pub Version : Type 0
  pub Constraints : Type 0
  pub new_version : Str → Result Version
  pub new_constraint : Str → Result Constraints
  pub check : Constraints → Version → Bool

module _ (library : VersionLibrary) where
  open library use {Version, new_version, new_constraint, check}

  -- The end of `_sqliteVersionIn`, with both bounds.
  pub compare_in : Version → List ℤ → List ℤ → Outcome Bool
  unfolding string_of
  compare_in ver lower upper =
      lift "could not compare versions: %v" (λ constraints. returns (ok (check constraints ver)))
        (new_constraint (codes ">=" ++ (string_of lower ++ (codes ", < " ++ string_of upper))))

  -- The part of `_sqliteVersionIn` on the pieces of the range.
  pub read_bounds : Str → Version → List Str → Outcome Bool
  unfolding from_string compare_in
  read_bounds range ver (l ∷ u ∷ []) =
      from_string zero_version l
      >>> lift "could not create lower version: %v" (λ lower.
        from_string zero_version u
        >>> lift "could not create upper version: %v" (λ upper. compare_in ver lower upper))
  read_bounds range ver _ = returns (err (errorf "invalid version range %s" (range ∷ [])))

  -- `_sqliteVersionIn`
  pub version_in : List Value → Outcome Bool
  unfolding read_bounds
  version_in (text pkg ∷ text range ∷ []) =
      lift "could not create version: %v" (λ ver. read_bounds range ver (split_double range b'_'))
        (new_version pkg)
  version_in (text pkg ∷ other ∷ []) =
      returns (err (errorf "could not convert vulnerable range arg to string" []))
  version_in (other ∷ range ∷ []) =
      returns (err (errorf "could not convert package version arg to string" []))
  version_in _ = returns (err (errorf "version_in must be passed 2 args" []))
