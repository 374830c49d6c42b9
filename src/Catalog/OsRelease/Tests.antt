-- ===== src/Catalog/OsRelease/Tests.antt =====
-- Runs on a short os-release.
use cvetool.Catalog.Nevra.{is_empty, validate_nevra}
use cvetool.Prelude.{ok, ◌≡◌, refl, ◌≢◌, true, [], ◌∷◌}
use cvetool.Catalog.Mapping.{all_ascii_digits}
use cvetool.Catalog.Target.Architecture.Tests.{mixed_32_bit, native_set, native_resolved}
use cvetool.Catalog.Target.Architecture.{ArchitectureSet, resolve_target_architecture}
use cvetool.Text.{
  Str, codes, str_eq, str_le, str_lt, str_eq_iff, str_eq_refl, str_le_refl, str_le_total,
  str_le_trans, str_le_antisym, insert_by, sort_by, Le, TotalOrder, str_le-TotalOrder, In-insert_by,
  In_insert_by, insert_by-Sorted, sort_by-Sorted, sort_by-eq_self, Sorted-ext, In-sort_by,
  In_sort_by, insert_by-Distinct, sort_by-Distinct, length-sort_by, sort_strings, contains,
  contains_In, In_contains, not_In_of_contains, unseen, In-unseen, In_unseen, unseen-Distinct,
  unseen-Sorted, split, join, cut, cut_last, has_prefix, has_suffix, contains_sub, trim_prefix,
  replace_all, is_space, trim_left_func, drop_if_last, trim_right_func, trim_space, trim_left, trim,
  contains_any, fields, to_lower, equal_fold, scan_lines, too_long, Dict, lookup, insert, remove,
  lookup-insert, lookup-insert_self, lookup-remove, is_abs, push_element, elements_from, elements,
  clean, join_path, after_common, rel,
}
use cvetool.Catalog.OsRelease.{
  is_quote, last_of, without_last, unquote, parse_os_release_value, parse_line, parse_lines,
  parse_os_release, get_or_empty, TargetInfo, first_nonempty, resolve_target_info, unquote_id,
  id_line, id_lines, target_has_rhel_id,
}
use cvetool.Catalog.OsRelease.Agreement.{
  target_has_rhel_id-parse_os_release, resolve_target_info-IsRhel,
}

abbrev pub rhel_9 : Str
rhel_9 = codes "ID=\"rhel\"\nVERSION_ID=9.4\n"

abbrev rhel_9_values : Dict Str
rhel_9_values = (codes "ID", codes "rhel") ∷ (codes "VERSION_ID", codes "9.4") ∷ []

rhel_9_parsed : parse_os_release rhel_9 ≡ ok rhel_9_values
unfolding parse_os_release cvetool.Catalog.OsRelease.parse_lines cvetool.Text.scan_lines
    cvetool.Catalog.OsRelease.parse_line cvetool.Catalog.Nevra.is_empty cvetool.Text.trim_space
    cvetool.Text.has_prefix cvetool.Text.cut str_eq cvetool.Catalog.OsRelease.parse_os_release_value
    cvetool.Catalog.OsRelease.unquote cvetool.Catalog.OsRelease.is_quote
    cvetool.Catalog.OsRelease.last_of cvetool.Text.insert cvetool.Catalog.OsRelease.without_last
rhel_9_parsed = refl

target_has_rhel_id-parse_os_release_example :
    target_has_rhel_id rhel_9
    ≡ ok (str_eq (get_or_empty (lookup rhel_9_values (codes "ID"))) (codes "rhel"))
target_has_rhel_id-parse_os_release_example =
    target_has_rhel_id-parse_os_release rhel_9 rhel_9_values rhel_9_parsed

abbrev mixed_set : ArchitectureSet
mixed_set = record {
  primary = codes "x86_64";
  packages = codes " i686" ∷ codes "noarch" ∷ codes "x86_64" ∷ codes "i686" ∷ [];
}

abbrev rhel_9_info : TargetInfo
rhel_9_info = record {
  rhel_version = codes "9";
  release_version = codes "9.4";
  architecture = codes "x86_64";
  architectures = codes "i686" ∷ codes "noarch" ∷ codes "x86_64" ∷ [];
}

rhel_9_resolved : resolve_target_info rhel_9 [] mixed_set ≡ ok rhel_9_info
unfolding str_eq cut has_prefix trim_space scan_lines lookup insert is_quote last_of without_last
    unquote parse_os_release_value parse_line parse_lines parse_os_release resolve_target_info
    validate_nevra all_ascii_digits
rhel_9_resolved = rw mixed_32_bit refl

resolve_target_info-IsRhel_example :
    (target_has_rhel_id rhel_9 ≡ ok true)
    × (all_ascii_digits (codes "9") ≡ true)
    × (codes "9.4" ≢ [])
    × (resolve_target_architecture mixed_set.packages
        ≡ ok (record { primary = codes "x86_64"; packages = rhel_9_info.architectures }))
    × (codes "x86_64" ≡ codes "x86_64")
resolve_target_info-IsRhel_example =
    resolve_target_info-IsRhel rhel_9 [] mixed_set rhel_9_info rhel_9_resolved

abbrev pub native_info : TargetInfo
native_info = record {
  rhel_version = codes "9";
  release_version = codes "9.4";
  architecture = codes "x86_64";
  architectures = codes "noarch" ∷ codes "x86_64" ∷ [];
}

pub native_described : resolve_target_info rhel_9 [] native_set ≡ ok native_info
unfolding str_eq cut has_prefix trim_space scan_lines lookup insert is_quote last_of without_last
    unquote parse_os_release_value parse_line parse_lines parse_os_release resolve_target_info
    validate_nevra all_ascii_digits
native_described = rw native_resolved refl

pub native_described_again : resolve_target_info rhel_9 (codes "9.4") native_set ≡ ok native_info
unfolding str_eq cut has_prefix trim_space scan_lines lookup insert is_quote last_of without_last
    unquote parse_os_release_value parse_line parse_lines parse_os_release resolve_target_info
    validate_nevra all_ascii_digits
native_described_again = rw native_resolved refl

pub native_is_rhel : target_has_rhel_id rhel_9 ≡ ok true
native_is_rhel = (resolve_target_info-IsRhel rhel_9 [] native_set native_info native_described).0
