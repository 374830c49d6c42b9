-- ===== src/Datastore/Get/Query.antt =====
-- buildGetQuery: which rows of `vuln` a query accepts.
use mathlib.Core.Path.{subst}
use cvetool.Prelude.{
  ◌==◌, if◌then◌else◌, ==_iff, Bool-cases, Option-cases, In, ok, ℕ, ◌-◌, ◌≡◌, refl, sym, ap, ◌∙◌,
  ◌≢◌, ◌↔◌, ◌⊎◌, inl, inr, Bool, true, false, ◌&&◌, Option, none, some, List, [], ◌∷◌, arith,
}
use cvetool.Text.{Str, str_eq, str_eq_iff}
use cvetool.Datastore.Tables.{VulnRow}
use cvetool.Datastore.Get.{
  IndexedPackage, IndexRecord, MatchConstraint, package_module, distribution_did, distribution_name,
  distribution_version_id, distribution_version, distribution_version_code_name,
  distribution_pretty_name, distribution_cpe, distribution_arch, repository_name, repository_key,
  has_fixed_in_version, other, code_of, condition, GetOpts, seen_code, matcher_loop, package_query,
  has_kind, version_query, build_get_query,
}
use cvetool.Datastore.Get.Constraints.{Meets, condition-Meets, condition-ne-none}

decode : ℕ → MatchConstraint
decode n =
    if n == 0
    then package_module
    else if n == 1
    then distribution_did
    else if n == 2
    then distribution_name
    else if n == 3
    then distribution_version_id
    else if n == 4
    then distribution_version
    else if n == 5
    then distribution_version_code_name
    else if n == 6
    then distribution_pretty_name
    else if n == 7
    then distribution_cpe
    else if n == 8
    then distribution_arch
    else if n == 9
    then repository_name
    else if n == 10
    then repository_key
    else if n == 11
    then has_fixed_in_version
    else other (n - 12)

decode-code_of : (m : MatchConstraint) → decode (code_of m) ≡ m
unfolding decode
decode-code_of (other n) = ground arith
decode-code_of package_module = refl
decode-code_of distribution_did = refl
decode-code_of distribution_name = refl
decode-code_of distribution_version_id = refl
decode-code_of distribution_version = refl
decode-code_of distribution_version_code_name = refl
decode-code_of distribution_pretty_name = refl
decode-code_of distribution_cpe = refl
decode-code_of distribution_arch = refl
decode-code_of repository_name = refl
decode-code_of repository_key = refl
decode-code_of has_fixed_in_version = refl

code_of_injective : (m n : MatchConstraint) → code_of m ≡ code_of n → m ≡ n
code_of_injective m n e = sym (decode-code_of m) ∙ ap decode e ∙ decode-code_of n

-- The row is of the package, or of its source if that has a name.
abbrev pub IsOfPackage : IndexedPackage → VulnRow → Type 0
IsOfPackage p v =
    ((v.pkg.name ≡ p.name) × (v.pkg.kind ≡ p.kind))
    ⊎ ((p.source_name ≢ []) × (v.pkg.name ≡ p.source_name) × (v.pkg.kind ≡ p.source_kind))

and_iff : (a b : Bool) → ((a && b) ≡ true) ↔ ((a ≡ true) × (b ≡ true))
and_iff true b = (λ h. (refl, h), λ h. h.1)
and_iff false b = (λ h. cc (h), λ h. h.0)

module _ (r : IndexRecord) where
  -- What the loop makes: each constraint was seen before, or its condition holds.
  abbrev LoopSpec : List ℕ → List MatchConstraint → VulnRow → Type 0
  LoopSpec seen ms v =
      (m : MatchConstraint) → In m ms → (seen_code seen (code_of m) ≡ true) ⊎ Meets r v m

  add_spec :
      (seen : List ℕ) (m : MatchConstraint) (ms : List MatchConstraint) (ex : VulnRow → Bool)
      (v : VulnRow)
      → seen_code seen (code_of m) ≡ false
      → condition m r ≡ some ex
      → ((ex v ≡ true) × LoopSpec (code_of m ∷ seen) ms v) ↔ LoopSpec seen (m ∷ ms) v
  unfolding seen_code
  add_spec seen m ms ex v new e = (
    λ h n i. elim i [
      | inl q ↦ inr (subst (Meets r v) q ((condition-Meets r v m ex e).0 h.0))
      | inr j ↦ elim (Bool-cases (code_of m == code_of n)) [
        | inl q ↦ inr (
            subst (Meets r v) (code_of_injective m n ((==_iff (code_of m) (code_of n)).0 q))
              ((condition-Meets r v m ex e).0 h.0))
        | inr q ↦ elim (h.1 n j) [ inl s ↦ inl (rw q at s) | inr t ↦ inr t ]
      ]
    ],
    λ h. (
      elim (h m (inl refl)) [ inl s ↦ cc (s, new) | inr t ↦ (condition-Meets r v m ex e).1 t ],
      λ n j. elim (h n (inr j)) [ inl s ↦ inl (ground arith) | inr t ↦ inr t ],
    ),
  )

  matcher_loop_lem :
      (seen : List ℕ) (ms : List MatchConstraint)
      → ((m : MatchConstraint) → In m ms → condition m r ≢ none)
      → (w : VulnRow → Bool) × (matcher_loop seen ms r ≡ ok w)
        × ((v : VulnRow) → (w v ≡ true) ↔ LoopSpec seen ms v)
  unfolding matcher_loop
  matcher_loop_lem seen [] known = (λ v. true, refl, λ v. (λ h m i. absurd i, λ h. refl))
  matcher_loop_lem seen (m ∷ ms) known = elim (Bool-cases (seen_code seen (code_of m))) [
    | inl old ↦
        let (w, e, f) = matcher_loop_lem seen ms (λ n i. known n (inr i)) in
        (
          w,
          rw old e,
          λ v. (
            λ h n i. elim i [
              | inl q ↦ inl (subst (λ z. seen_code seen (code_of z) ≡ true) q old)
              | inr j ↦ (f v).0 h n j
            ],
            λ h. (f v).1 (λ n j. h n (inr j)),
          ),
        )
    | inr new ↦
        let (w, e, f) = matcher_loop_lem (code_of m ∷ seen) ms (λ n i. known n (inr i)) in
        elim (Option-cases (condition m r)) [
          | inl unknown ↦ absurd (known m (inl refl) unknown)
          | inr (ex, c) ↦ (
            λ v. ex v && w v,
            rw (new, c, e),
            λ v. (
              λ h.
                  let (a, b) = (and_iff (ex v) (w v)).0 h in
                  (add_spec seen m ms ex v new c).0 (a, (f v).0 b),
              λ h.
                  let (a, b) = (add_spec seen m ms ex v new c).1 h in
                  (and_iff (ex v) (w v)).1 (a, (f v).1 b),
            ),
          )
        ]
  ]

unseen_nil : {P : Type 0} (m : MatchConstraint) → seen_code [] (code_of m) ≡ true → P
unfolding seen_code
unseen_nil m h = cc (h)

package_query_iff :
    (p : IndexedPackage) (v : VulnRow) → (package_query p v ≡ true) ↔ IsOfPackage p v
unfolding package_query
package_query_iff p v = (
  λ h. ground (
    arith,
    str_eq_iff v.pkg.name p.name,
    str_eq_iff v.pkg.kind p.kind,
    str_eq_iff p.source_name [],
    str_eq_iff v.pkg.name p.source_name,
    str_eq_iff v.pkg.kind p.source_kind,
  ),
  λ h. ground (
    arith,
    str_eq_iff v.pkg.name p.name,
    str_eq_iff v.pkg.kind p.kind,
    str_eq_iff p.source_name [],
    str_eq_iff v.pkg.name p.source_name,
    str_eq_iff v.pkg.kind p.source_kind,
  ),
)

-- The version of the package lies in the range of the row, which has the package's kind of
-- versions.
abbrev pub VersionFits : (Str → Str → Bool) → IndexedPackage → VulnRow → Type 0
VersionFits version_in p v =
    (v.version_kind ≡ some p.normalized_kind)
    × (version_in p.normalized_version v.vulnerable_range ≡ true)

version_query_iff :
    (version_in : Str → Str → Bool) (filtering : Bool) (p : IndexedPackage) (v : VulnRow)
    → (version_query version_in filtering p v ≡ true)
      ↔ (filtering ≡ true → VersionFits version_in p v)
unfolding version_query
version_query_iff version_in false p v = (λ h e. cc (e), λ h. refl)
version_query_iff version_in true p v =
    let both =
      and_iff (has_kind v.version_kind p.normalized_kind)
        (version_in p.normalized_version v.vulnerable_range) in
    (
      λ h e. ((kind_iff v.version_kind p.normalized_kind).0 (both.0 h).0, (both.0 h).1),
      λ h. both.1 ((kind_iff v.version_kind p.normalized_kind).1 (h refl).0, (h refl).1),
    )
  where
    kind_iff : (o : Option Str) (k : Str) → (has_kind o k ≡ true) ↔ (o ≡ some k)
    kind_iff none k = (λ h. cc (h), λ e. cc (e))
    kind_iff (some j) k = (λ h. ap some ((str_eq_iff j k).0 h), λ e. (str_eq_iff j k).1 (cc (e)))

-- For a package with a name and constraints that the `switch` names there is a query. It accepts
-- exactly the rows of the package or of its named source that agree with the record in the column of
-- every constraint, however often one is repeated (has_fixed_in_version asks for a fixed version
-- that is not empty), and, if versions are filtered, whose range has the version.
pub build_get_query_lem :
    (version_in : Str → Str → Bool) (r : IndexRecord) (opts : GetOpts)
    → r.pkg.name ≢ []
    → ((m : MatchConstraint) → In m opts.matchers → (n : ℕ) → m ≢ other n)
    → (w : VulnRow → Bool) × (build_get_query version_in r opts ≡ ok w)
      × ((v : VulnRow)
          → (w v ≡ true) ↔ (
              IsOfPackage r.pkg v
              × ((m : MatchConstraint) → In m opts.matchers → Meets r v m)
              × (opts.version_filtering ≡ true → VersionFits version_in r.pkg v)))
unfolding build_get_query
build_get_query_lem version_in r opts named known =
    let (w, e, f) =
      matcher_loop_lem r [] opts.matchers (λ m i. condition-ne-none r m (known m i)) in
    let fits = version_query version_in opts.version_filtering r.pkg in
    elim (Bool-cases (str_eq r.pkg.name [])) [
      | inl n ↦ absurd (named ((str_eq_iff r.pkg.name []).0 n))
      | inr n ↦ (
        λ v. package_query r.pkg v && (w v && fits v),
        rw (n, e),
        λ v. (
          λ h.
              let (a, bc) = (and_iff (package_query r.pkg v) (w v && fits v)).0 h in
              let (b, c) = (and_iff (w v) (fits v)).0 bc in
              (
                (package_query_iff r.pkg v).0 a,
                λ m i. elim ((f v).0 b m i) [ inl s ↦ unseen_nil m s | inr t ↦ t ],
                (version_query_iff version_in opts.version_filtering r.pkg v).0 c,
              ),
          λ h.
              let (a, b, c) = h in
              (and_iff (package_query r.pkg v) (w v && fits v)).1 (
                (package_query_iff r.pkg v).1 a,
                (and_iff (w v) (fits v)).1 (
                  (f v).1 (λ m i. inr (b m i)),
                  (version_query_iff version_in opts.version_filtering r.pkg v).1 c,
                ),
              ),
        ),
      )
    ]
