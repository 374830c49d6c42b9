-- ===== src/Catalog/DnfOutput/Rows.antt =====
-- What the readers of DNF's output return.
use mathlib.Core.Path.{subst}
use cvetool.Prelude.{
  true, Bool-cases, Distinct, Distinct-snoc, ok, >>=-eq-ok, fail_if-eq-ok, ok_injective, ◌≡◌, inl,
  inr, false, not, List, [], ◌∷◌,
}
use cvetool.Text.{
  Str, codes, contains, not_In_of_contains, has_prefix, trim_space, fields, to_lower, scan_lines,
}
use cvetool.Catalog.Nevra.{is_empty}
use cvetool.Catalog.DnfOutput.{
  Repolist, is_header, list_repository, read_repolist_line, read_repolist,
  parse_enabled_repositories,
}

list_repository-Distinct :
    (line : Str) (fs : List Str) (r s : Repolist)
    → list_repository line fs r ≡ ok s
    → Distinct r.repositories
    → Distinct s.repositories
unfolding list_repository
list_repository-Distinct line [] r s h d = cc h
list_repository-Distinct line (a ∷ []) r s h d = cc h
list_repository-Distinct line (a ∷ b ∷ fs) r s h d = elim (Bool-cases (contains r.repositories a)) [
  | inl e ↦ subst (λ t. Distinct t.repositories) (ok_injective (rw e at h)) d
  | inr e ↦
      subst (λ t. Distinct t.repositories) (ok_injective (rw e at h))
        (Distinct-snoc a r.repositories (not_In_of_contains r.repositories a e) d)
]

read_repolist_line-Distinct :
    (r s : Repolist) (text : Str)
    → read_repolist_line r text ≡ ok s
    → Distinct r.repositories
    → Distinct s.repositories
unfolding read_repolist_line
read_repolist_line-Distinct r s text h d =
    let line = trim_space text in
    elim (Bool-cases (is_empty line)) [
      | inl e ↦ subst (λ t. Distinct t.repositories) (ok_injective (rw e at h)) d
      | inr e ↦ elim (Bool-cases (is_header (fields line))) [
        | inl f ↦ subst (λ t. Distinct t.repositories) (ok_injective (rw (e, f) at h)) d
        | inr f ↦ elim (Bool-cases r.header_seen) [
          | inl g ↦ elim (Bool-cases (has_prefix (to_lower line) (codes "repolist:"))) [
            | inl p ↦ subst (λ t. Distinct t.repositories) (ok_injective (rw (e, f, g, p) at h)) d
            | inr p ↦
                list_repository-Distinct line (fields line) (record r { header_seen = true }) s
                  (rw (e, f, g, p) at h) d
          ]
          | inr g ↦ cc (rw (e, f, g) at h)
        ]
      ]
    ]

read_repolist-Distinct :
    (r s : Repolist) (ls : List Str)
    → read_repolist r ls ≡ ok s
    → Distinct r.repositories
    → Distinct s.repositories
unfolding read_repolist
read_repolist-Distinct r s [] h d = subst (λ t. Distinct t.repositories) (ok_injective h) d
read_repolist-Distinct r s (l ∷ ls) h d =
    let (q, e, k) = >>=-eq-ok (read_repolist_line r l) _ h in
    read_repolist-Distinct q s ls k (read_repolist_line-Distinct r q l e d)

-- The enabled repositories that are read from DNF's output have no repetitions.
pub parse_enabled_repositories-Distinct :
    (output : Str) (ids : List Str) → parse_enabled_repositories output ≡ ok ids → Distinct ids
unfolding parse_enabled_repositories
parse_enabled_repositories-Distinct output ids h =
    let start : Repolist = record { header_seen = false; repositories = [] } in
    let lines = (scan_lines output).0 in
    let (r, e, k) = >>=-eq-ok (read_repolist start lines) _ h in
    let (a, k) = fail_if-eq-ok (scan_lines output).1 _ _ k in
    let (b, k) = fail_if-eq-ok (not r.header_seen) _ _ k in
    subst Distinct (ok_injective k) (read_repolist-Distinct start r lines e tt)
