-- ===== src/Catalog/Target/RepoDirs/Tests.antt =====
-- Runs with a root directory.
use cvetool.Prelude.{ok, err, ◌≡◌, refl}
use cvetool.Text.{codes}
use cvetool.Catalog.Target.RepoDirs.{escapes, normalize_target_repo_dir}
use cvetool.Catalog.Target.RepoDirs.Contained.{IsBelow, normalize_target_repo_dir-IsBelow}

normalized :
    normalize_target_repo_dir (codes "/r") (codes " /etc/d ") ≡ ok (codes "/r/etc/d", codes "etc/d")
unfolding normalize_target_repo_dir cvetool.Catalog.Nevra.is_empty cvetool.Text.trim_space
    cvetool.Text.is_abs cvetool.Catalog.Target.RepoDirs.already_below
    cvetool.Catalog.Target.RepoDirs.if_within cvetool.Text.rel cvetool.Text.clean
    cvetool.Text.str_eq cvetool.Catalog.Target.RepoDirs.is_within_root cvetool.Text.has_prefix
    cvetool.Catalog.Target.RepoDirs.normalize_relative cvetool.Text.trim_left cvetool.Text.join_path
normalized = refl

escaped : normalize_target_repo_dir (codes "/r") (codes "../x") ≡ err (escapes (codes "../x"))
unfolding normalize_target_repo_dir cvetool.Catalog.Nevra.is_empty cvetool.Text.trim_space
    cvetool.Text.is_abs cvetool.Catalog.Target.RepoDirs.normalize_relative
    cvetool.Catalog.Target.RepoDirs.is_within_root cvetool.Text.str_eq cvetool.Text.clean
    cvetool.Text.join cvetool.Text.has_prefix
escaped = refl

normalize_target_repo_dir-IsBelow_example : IsBelow (codes "/r") (codes "/r/etc/d", codes "etc/d")
normalize_target_repo_dir-IsBelow_example =
    normalize_target_repo_dir-IsBelow (codes "/r") (codes " /etc/d ")
      (codes "/r/etc/d", codes "etc/d") normalized
