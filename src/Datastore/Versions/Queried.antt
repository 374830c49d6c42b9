-- ===== src/Datastore/Versions/Queried.antt =====
-- The range that the store writes into a row, as `version_in` reads it in a query.
use mathlib.Core.Path.{subst}
use cvetool.Prelude.{
  ◌==◌, if◌then◌else◌, Bool-cases, length, All, All-append, All-mono, wrapf, Result, err, ok, ℕ,
  String, ◌≡◌, refl, sym, ap, ◌∙◌, inl, inr, Bool, false, Option, none, some, List, [], ◌∷◌, ◌++◌,
  map, append-nil, append_assoc, arith,
}
use cvetool.Text.{ℤ}
use cvetool.Text.{
  Str, codes, str_eq, split, split_double, join, trim_left_func, trim_right_func, one_of, trim_any,
  IsInt32, format_int, syntax_error, parse_int32,
}
use cvetool.Text.Split.Laws.{Lacks, split_double-append, split_double-Lacks}
use cvetool.Datastore.Tables.{PackageInfo, Range, Vulnerability}
use cvetool.Datastore.Ranges.{numbers, braced, rangefmt}
use cvetool.Datastore.Update.{vuln_row}
use cvetool.Datastore.Versions.{
  string_of, Outcome, returns, parts, from_parts, from_string, zero_version, text, lift,
  VersionLibrary, compare_in, read_bounds, version_in,
}
use cvetool.Datastore.Versions.Stored.{
  IsInner, body-IsInner, split-body, trim_braces, overwritten, from_parts-format,
}

-- Ten numbers in the range of int32.
abbrev pub IsIntVersion : List ℤ → Type 0
IsIntVersion v = (length v ≡ parts) × All IsInt32 v

abbrev pub IsRange : Option Range → Type 0
IsRange none = Unit
IsRange (some r) = IsIntVersion r.lower.v × IsIntVersion r.upper.v

overwritten_all : (ps zs : List ℤ) → length ps ≡ length zs → overwritten ps zs ≡ ps
overwritten_all [] [] h = refl
overwritten_all [] (z ∷ zs) h = absurd (omega arith)
overwritten_all (p ∷ ps) [] h = absurd (omega arith)
overwritten_all (p ∷ ps) (z ∷ zs) h = ap (λ r. p ∷ r) (overwritten_all ps zs (omega arith))

body : List ℤ → Str
body [] = []
body (z ∷ zs) = format_int z ++ numbers zs

braced-body :
    (z : ℤ) (zs : List ℤ) → braced (z ∷ zs) ≡ b'{' ∷ ((format_int z ++ numbers zs) ++ codes "}")
braced-body z zs = ap (λ r. b'{' ∷ r) (sym (append_assoc (format_int z) (numbers zs) (codes "}")))

trimmed_split :
    (z : ℤ) (zs : List ℤ)
    → split (trim_any (braced (z ∷ zs)) (codes "{}")) b',' ≡ map format_int (z ∷ zs)
trimmed_split z zs =
    ap (λ s. split (trim_any s (codes "{}")) b',') (braced-body z zs)
    ∙ ap (λ s. split s b',') (trim_braces (format_int z ++ numbers zs) (body-IsInner z zs))
    ∙ split-body z zs

-- The text that `rangefmt` makes of a bound is read back by `FromString`.
pub from_string-braced :
    (v : List ℤ) → IsIntVersion v → from_string zero_version (braced v) ≡ returns (ok v)
unfolding from_string
from_string-braced [] (n, h) = absurd (omega arith)
from_string-braced (z ∷ zs) (n, h) =
    ap (λ ss. from_parts 0 ss zero_version) (trimmed_split z zs)
    ∙ from_parts-format [] (z ∷ zs) zero_version (omega (arith, n)) refl h
    ∙ ap (λ v. returns (ok v)) (overwritten_all (z ∷ zs) zero_version n)

from_string-empty : from_string zero_version (codes "{}") ≡ returns (err (syntax_error []))
unfolding from_string from_parts split trim_any trim_left_func trim_right_func one_of parse_int32
from_string-empty = refl

plain_of_IsInner : (s : Str) → All IsInner s → Lacks b'_' s
plain_of_IsInner s h = All-mono IsInner (λ c. (c == b'_') ≡ false) s (λ c d. ground arith) h

braced-Lacks : (v : List ℤ) → Lacks b'_' (braced v)
braced-Lacks [] = (refl, (refl, tt))
braced-Lacks (z ∷ zs) = subst (Lacks b'_') (sym (braced-body z zs)) (
  refl,
  All-append (λ c. (c == b'_') ≡ false) (format_int z ++ numbers zs) (codes "}")
      (plain_of_IsInner (format_int z ++ numbers zs) (body-IsInner z zs)) (refl, tt),
)

split_range :
    (l u : List ℤ)
    → split_double (braced l ++ (codes "__" ++ braced u)) b'_' ≡ braced l ∷ braced u ∷ []
split_range l u =
    split_double-append (braced l) (braced u) b'_' (braced-Lacks l)
    ∙ ap (λ r. braced l ∷ r) (split_double-Lacks (braced u) b'_' (braced-Lacks u))

-- The numbers of a version, with a dot before each but the first.
abbrev pub dot_before : List ℤ → Str
dot_before [] = []
dot_before (z ∷ zs) = b'.' ∷ (format_int z ++ dot_before zs)

abbrev pub dotted : List ℤ → Str
dotted [] = []
dotted (z ∷ zs) = format_int z ++ dot_before zs

string_of-dotted : (v : List ℤ) → string_of v ≡ dotted v
unfolding string_of join
string_of-dotted [] = refl
string_of-dotted (z ∷ []) = sym (append-nil (format_int z))
string_of-dotted (z ∷ y ∷ zs) = ap (λ s. format_int z ++ (b'.' ∷ s)) (string_of-dotted (y ∷ zs))

lift_ext {ℓ κ} :
    {A : Type ℓ} {B : Type κ} (format : String) (f g : A → Outcome B) (r : Result A)
    → ((a : A) → f a ≡ g a)
    → lift format f r ≡ lift format g r
lift_ext format f g (err e) h = refl
lift_ext format f g (ok a) h = h a

module _ (library : VersionLibrary) where
  open library use {Version, Constraints, new_version, new_constraint, check}

  -- What the version library answers on the constraint ">=lower, < upper" of dotted numbers.
  abbrev pub answer_between : List ℤ → List ℤ → Version → Outcome Bool
  answer_between lower upper ver =
      elim (new_constraint (codes ">=" ++ (dotted lower ++ (codes ", < " ++ dotted upper)))) [
        | err e ↦ returns (err (wrapf "could not compare versions: %v" [] e))
        | ok constraint ↦ returns (ok (check constraint ver))
      ]

  -- What a query asks of a range: the version library on the constraint of both bounds; a range that
  -- is missing, or whose bounds are of two kinds, has no bounds that could be read.
  abbrev pub asked : Option Range → Version → Outcome Bool
  asked none ver = returns (err (wrapf "could not create lower version: %v" [] (syntax_error [])))
  asked (some r) ver =
      if str_eq r.lower.kind r.upper.kind
      then answer_between r.lower.v r.upper.v ver
      else returns (err (wrapf "could not create lower version: %v" [] (syntax_error [])))

  compare_in-between :
      (ver : Version) (l u : List ℤ) → compare_in library ver l u ≡ answer_between l u ver
  unfolding compare_in
  compare_in-between ver l u =
      rw (string_of-dotted l, string_of-dotted u) (answered (new_constraint _))
    where
      answered :
          (r : Result Constraints)
          → lift "could not compare versions: %v" (λ c. returns (ok (check c ver))) r
            ≡ elim r as (λ z. Outcome Bool) [
              | err e ↦ returns (err (wrapf "could not compare versions: %v" [] e))
              | ok c ↦ returns (ok (check c ver))
            ]
      answered (err e) = refl
      answered (ok c) = refl

  read_bounds-braced :
      (range : Str) (ver : Version) (l u : List ℤ)
      → IsIntVersion l
      → IsIntVersion u
      → read_bounds library range ver (braced l ∷ braced u ∷ []) ≡ answer_between l u ver
  unfolding read_bounds
  read_bounds-braced range ver l u hl hu =
      rw (from_string-braced l hl) (rw (from_string-braced u hu) (compare_in-between ver l u))

  read_bounds-empty :
      (range : Str) (ver : Version)
      → read_bounds library range ver (codes "{}" ∷ codes "{}" ∷ [])
        ≡ returns (err (wrapf "could not create lower version: %v" [] (syntax_error [])))
  unfolding read_bounds
  read_bounds-empty range ver = rw from_string-empty

  stored_text : Option Range → Str
  unfolding rangefmt
  stored_text r = (rangefmt r).lower ++ (codes "__" ++ (rangefmt r).upper)

  read_bounds-stored :
      (r : Option Range) (ver : Version)
      → IsRange r
      → read_bounds library (stored_text r) ver (split_double (stored_text r) b'_') ≡ asked r ver
  unfolding stored_text
  read_bounds-stored none ver h =
      ap (read_bounds library (codes "{}__{}") ver) (split_range [] [])
      ∙ read_bounds-empty (codes "{}__{}") ver
  read_bounds-stored (some r) ver (hl, hu) = elim (Bool-cases (str_eq r.lower.kind r.upper.kind)) [
    | inl e ↦ rw e (
        ap (read_bounds library (braced r.lower.v ++ (codes "__" ++ braced r.upper.v)) ver)
          (split_range r.lower.v r.upper.v)
        ∙ read_bounds-braced (braced r.lower.v ++ (codes "__" ++ braced r.upper.v)) ver r.lower.v
            r.upper.v hl hu)
    | inr e ↦ rw e (
        ap (read_bounds library (codes "{}__{}") ver) (split_range [] [])
        ∙ read_bounds-empty (codes "{}__{}") ver)
  ]

  -- The text of a range in the row of a vulnerability is read by `version_in` as it was meant: the
  -- call never panics, and for any package version it answers what the version library answers on
  -- the constraint ">=lower, < upper" of the numbers of the range; it is an error where there is no
  -- range, or its bounds are of two kinds.
  pub version_in-vuln_row :
      (md5 : Str → Str) (id : ℕ) (v : Vulnerability) (p : PackageInfo) (desc_id name_id : ℕ)
      (pkg : Str)
      → IsRange v.range
      → version_in library
          (text pkg ∷ text (vuln_row md5 id v p desc_id name_id).vulnerable_range ∷ [])
        ≡ lift "could not create version: %v" (asked v.range) (new_version pkg)
  unfolding version_in vuln_row rangefmt stored_text
  version_in-vuln_row md5 id v p desc_id name_id pkg h =
      lift_ext "could not create version: %v"
        (λ ver.
          read_bounds library (stored_text v.range) ver (split_double (stored_text v.range) b'_'))
        (asked v.range) (new_version pkg) (λ ver. read_bounds-stored v.range ver h)
