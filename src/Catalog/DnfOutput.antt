-- ===== src/Catalog/DnfOutput.antt =====
-- The readers of DNF's output in catalog/dnf.go.
pub mod Rows
mod Tests
use cvetool.Prelude.{
  if◌then◌else◌, errorf, wrapf, Result, ok, err, ◌>>=◌, ◌>>◌, fail_if, wrap, ◌+◌, Bool, true, false,
  not, ◌&&◌, List, [], ◌∷◌, ◌++◌,
}
use cvetool.Text.{
  Str, codes, str_le, sort_by, contains, has_prefix, trim_space, fields, to_lower, equal_fold,
  scan_lines, too_long, Dict, insert,
}
use cvetool.Catalog.Nevra.{Nevra, parse_dnf_row, key, is_empty}

-- The rows by their keys, as `unique` holds them: a later row takes the place of an earlier one.
unfoldable pub collect_rows : Str → List Str → Dict Nevra → Result (Dict Nevra)
collect_rows id [] rows = ok rows
collect_rows id (l ∷ ls) rows =
    (if is_empty (trim_space l)
      then ok rows
      else (wrap "repository %q" (id ∷ []) (parse_dnf_row l) >>= λ n. ok (insert rows (key n) n)))
    >>= collect_rows id ls

unfoldable pub key_le : Nevra → Nevra → Bool
key_le m n = str_le (key m) (key n)

unfoldable pub values : Dict Nevra → List Nevra
values [] = []
values ((k, n) ∷ rows) = n ∷ values rows

-- `queryDNF` on the output of the command
unfoldable pub read_rows : Str → Str → Result (List Nevra)
read_rows id output =
    let (lines, long) = scan_lines output in
    collect_rows id lines [] >>= λ rows. fail_if long too_long >> ok (sort_by key_le (values rows))

-- The variables of the loop of `parseEnabledRepositories`.
pub record Repolist : Type 0 where
  pub header_seen : Bool
  pub repositories : List Str

unfoldable is_header : List Str → Bool
is_header (a ∷ b ∷ rest) = equal_fold a (codes "repo") && equal_fold b (codes "id")
is_header _ = false

list_repository : Str → List Str → Repolist → Result Repolist
list_repository line (a ∷ b ∷ rest) r = ok (
    if contains r.repositories a then r else record r { repositories = r.repositories ++ (a ∷ []) })
list_repository line _ r = err (errorf "invalid DNF repository row %q" (line ∷ []))

read_repolist_line : Repolist → Str → Result Repolist
read_repolist_line r text =
    let line = trim_space text in
    if is_empty line
    then ok r
    else if is_header (fields line)
    then ok (record r { header_seen = true })
    else if not r.header_seen
    then err (errorf "invalid DNF repolist output before repository header: %q" (line ∷ []))
    else if has_prefix (to_lower line) (codes "repolist:")
    then ok r
    else list_repository line (fields line) r

read_repolist : Repolist → List Str → Result Repolist
read_repolist r [] = ok r
read_repolist r (l ∷ ls) = read_repolist_line r l >>= λ s. read_repolist s ls

-- `parseEnabledRepositories`
pub parse_enabled_repositories : Str → Result (List Str)
parse_enabled_repositories output =
    let (lines, long) = scan_lines output in
    read_repolist (record { header_seen = false; repositories = [] }) lines >>= λ r.
    fail_if long (wrapf "read DNF repolist output" [] too_long)
    >> (fail_if (not r.header_seen)
          (errorf "invalid DNF repolist output: repository header missing" [])
        >> ok r.repositories)
