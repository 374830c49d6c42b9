-- ===== src/Catalog/OsRelease/Agreement.antt =====
-- The two parsers of os-release agree on the identifier.
use cvetool.Prelude.{
  if◌then◌else◌, Bool-cases, wrapf, ok, ◌>>=◌, fail_if, wrap, >>=-eq-ok, Result-cases,
  fail_if-eq-ok, ok_injective, unnegated, ◌≡◌, refl, sym, ap, ◌∙◌, ◌≢◌, inl, inr, true, false, not,
  ◌||◌, List, [], ◌∷◌, arith,
}
use cvetool.Text.{
  Str, codes, str_eq, str_eq_iff, cut, has_prefix, trim_space, scan_lines, too_long, Dict, lookup,
  insert, lookup-insert,
}
use cvetool.Catalog.OsRelease.{
  last_of, without_last, unquote, parse_os_release_value, parse_line, parse_lines, parse_os_release,
  get_or_empty, TargetInfo, first_nonempty, resolve_target_info, unquote_id, id_line, id_lines,
  target_has_rhel_id,
}
use cvetool.Catalog.Nevra.{is_empty}
use cvetool.Catalog.Mapping.{all_ascii_digits}
use cvetool.Catalog.Target.Architecture.{ArchitectureSet, resolve_target_architecture}
use cvetool.Catalog.Target.Architecture.{ArchitectureSet, resolve_target_architecture}

not_empty : (s : Str) → is_empty s ≡ false → s ≢ []
unfolding is_empty
not_empty [] h = cc h
not_empty (c ∷ s) h = cc

same_set :
    (x : ArchitectureSet) (primary : Str) (packages : List Str)
    → primary ≡ x.primary
    → x.packages ≡ packages
    → x ≡ record { primary = primary; packages = packages }
same_set x primary packages e f = rw (e, sym f) refl

id_of : Dict Str → Str
id_of values = get_or_empty (lookup values (codes "ID"))

unquote_id-unquote : (s t : Str) → unquote s ≡ ok t → unquote_id s ≡ ok t
unfolding unquote unquote_id is_empty last_of without_last
unquote_id-unquote [] t h = h
unquote_id-unquote (c ∷ []) t h = ground arith
unquote_id-unquote (c ∷ d ∷ s) t h = ground arith

id_of-insert :
    (m : Dict Str) (key v : Str)
    → id_of (insert m key v) ≡ (if str_eq key (codes "ID") then v else id_of m)
unfolding id_of
id_of-insert m key v = rw lookup-insert (ground arith)

assigned-id :
    (m w : Dict Str) (key after : Str)
    → (wrap "parse target os-release %s" (key ∷ []) (parse_os_release_value after) >>= λ value.
        ok (insert m key value))
      ≡ ok w
    → (if str_eq key (codes "ID") then unquote_id (trim_space after) else ok (id_of m))
      ≡ ok (id_of w)
unfolding id_of parse_os_release_value
assigned-id m w key after h = elim (Result-cases (unquote (trim_space after))) [
  | inl (v, e) ↦ elim (Bool-cases (str_eq key (codes "ID"))) [
    | inl k ↦
        rw (k, unquote_id-unquote (trim_space after) v e)
          (cc (rw e at h, rw k at (id_of-insert m key v)))
    | inr k ↦ rw k (cc (rw e at h, rw k at (id_of-insert m key v)))
  ]
  | inr (x, e) ↦ cc (rw e at h)
]

id_line-parse_line :
    (l : Str) (m w : Dict Str) → parse_line l m ≡ ok w → id_line l (id_of m) ≡ ok (id_of w)
unfolding id_line parse_line
id_line-parse_line l m w h =
    let line = trim_space l in
    elim (Bool-cases (is_empty line || has_prefix line (codes "#"))) [
      | inl e ↦ rw e (cc (rw e at h))
      | inr e ↦ ground (arith, assigned-id m w (trim_space (cut line b'=').0) (cut line b'=').1)
    ]

id_lines-parse_lines :
    (ls : List Str) (m w : Dict Str)
    → parse_lines ls m ≡ ok w
    → id_lines ls (id_of m) ≡ ok (id_of w)
unfolding id_lines parse_lines
id_lines-parse_lines [] m w h = cc h
id_lines-parse_lines (l ∷ ls) m w h =
    let (v, e, k) = >>=-eq-ok (parse_line l m) (parse_lines ls) h in
    rw (id_line-parse_line l m v e) (id_lines-parse_lines ls v w k)

-- Where `parseOSRelease` reads a file, `targetHasRHELID` reads it too, and answers whether the
-- value of ID (the empty text if there is none) is "rhel".
pub target_has_rhel_id-parse_os_release :
    (contents : Str) (values : Dict Str)
    → parse_os_release contents ≡ ok values
    → target_has_rhel_id contents
      ≡ ok (str_eq (get_or_empty (lookup values (codes "ID"))) (codes "rhel"))
unfolding target_has_rhel_id parse_os_release id_of id_lines str_eq scan_lines lookup
target_has_rhel_id-parse_os_release contents values h =
    let (v, e, k) = >>=-eq-ok (parse_lines (scan_lines contents).0 []) _ h in
    let (u, f, g) =
      >>=-eq-ok (fail_if (scan_lines contents).1 (wrapf "read target os-release" [] too_long)) _
        k in
    rw (id_lines-parse_lines (scan_lines contents).0 [] v e, f) (cc g)

-- The description that `ResolveTargetInfo` returns is of a file that `targetHasRHELID` accepts, so
-- that the second reading of the file finds the system that the first one found. Its major release
-- is digits, and its architectures are the resolved ones with the given primary one.
pub resolve_target_info-IsRhel :
    (contents release : Str) (a : ArchitectureSet) (info : TargetInfo)
    → resolve_target_info contents release a ≡ ok info
    → (target_has_rhel_id contents ≡ ok true)
      × (all_ascii_digits info.rhel_version ≡ true)
      × (info.release_version ≢ [])
      × (resolve_target_architecture a.packages
          ≡ ok (record { primary = a.primary; packages = info.architectures }))
      × (info.architecture ≡ a.primary)
unfolding resolve_target_info
resolve_target_info-IsRhel contents release a info h =
    let (values, e, k) = >>=-eq-ok (parse_os_release contents) _ h in
    let id = get_or_empty (lookup values (codes "ID")) in
    let version_id = get_or_empty (lookup values (codes "VERSION_ID")) in
    let major = (cut version_id b'.').0 in
    let (rhel, k) = fail_if-eq-ok (not (str_eq id (codes "rhel"))) _ _ k in
    let (digits, k) = fail_if-eq-ok (is_empty major || not (all_ascii_digits major)) _ _ k in
    let (nonempty, k) =
      fail_if-eq-ok (is_empty (first_nonempty (trim_space release) version_id)) _ _ k in
    let (resolved, r, k) = >>=-eq-ok (resolve_target_architecture a.packages) _ k in
    let (primary, k) = fail_if-eq-ok (not (str_eq a.primary resolved.primary)) _ _ k in
    let p = ok_injective k in
    let q = (str_eq_iff a.primary resolved.primary).0 (unnegated _ primary) in
    (
      rw (target_has_rhel_id-parse_os_release contents values e) (ap ok (unnegated _ rhel)),
      sym (ap (λ i. all_ascii_digits i.rhel_version) p) ∙ ground (arith, digits),
      λ z. not_empty _ nonempty (ap (λ i. i.release_version) p ∙ z),
      r ∙ ap ok (same_set resolved a.primary info.architectures q (ap (λ i. i.architectures) p)),
      sym (ap (λ i. i.architecture) p) ∙ sym q,
    )
