-- ===== src/Catalog/DnfOutput/Tests.antt =====
-- A run on the output of a repository list.
use cvetool.Prelude.{ok, ◌≡◌, refl, [], ◌∷◌}
use cvetool.Text.{Str, codes}
use cvetool.Catalog.DnfOutput.{parse_enabled_repositories}

abbrev one_repository : Str
one_repository = codes "repo id name\nbaseos Base\nbaseos Base\n"

one_repository_parsed : parse_enabled_repositories one_repository ≡ ok (codes "baseos" ∷ [])
unfolding parse_enabled_repositories cvetool.Catalog.DnfOutput.read_repolist cvetool.Text.scan_lines
    cvetool.Catalog.DnfOutput.read_repolist_line cvetool.Catalog.Nevra.is_empty
    cvetool.Text.trim_space cvetool.Catalog.DnfOutput.is_header cvetool.Text.fields
    cvetool.Text.equal_fold cvetool.Text.str_eq cvetool.Text.has_prefix cvetool.Text.to_lower
    cvetool.Catalog.DnfOutput.list_repository cvetool.Text.contains
one_repository_parsed = refl
