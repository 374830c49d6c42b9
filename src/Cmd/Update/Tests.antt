-- ===== src/Cmd/Update/Tests.antt =====
-- Runs on a database with three operations.
use Prim.Native.Nat.{◌*◌}
use cvetool.Prelude.{
  ltb, leb, ◌==◌, if◌then◌else◌, ==_iff, ==_refl, Bool-cases, Option-cases, is_some, length,
  length-append, All, In, Distinct, Sorted, In-append_left, In-append_right, In-append, All_In,
  All-append, All-mono, All-from_members, Distinct-snoc, filter_by, In-filter_by, All-filter_by,
  filter_by-Sorted, filter_by-Distinct, In-middle, Distinct-middle, In-map, In_map, Error, errorf,
  wrapf, joined, external, Result, err, ok, wrap, fail_if, ◌>>=◌, ◌>>◌, >>=-eq-ok, Result-cases,
  fail_if-eq-ok, wrap-eq-ok, ok_injective, unnegated, ℕ, zero, suc, ◌+◌, ◌-◌, ◌*◌, ◌≤◌, ◌<◌, String,
  ◌≡◌, refl, sym, ap, ◌∙◌, ◌≢◌, ◌↔◌, ◌⊎◌, inl, inr, Bool, true, false, not, ◌&&◌, ◌||◌, Option,
  none, some, List, [], ◌∷◌, ◌++◌, map, reverse, append-nil, append_assoc, arith,
}
use cvetool.Text.{ℤ}
use cvetool.Text.{
  Str, codes, str_eq, str_le, str_lt, str_eq_iff, str_eq_refl, str_le_refl, str_le_total,
  str_le_trans, str_le_antisym, insert_by, sort_by, Le, TotalOrder, str_le-TotalOrder, In-insert_by,
  In_insert_by, sort_by-Sorted_of, insert_by-Sorted, sort_by-Sorted, sort_by-eq_self, Sorted-ext,
  In-sort_by, In_sort_by, insert_by-Distinct, sort_by-Distinct, length-sort_by, sort_strings,
  contains, contains_In, In_contains, not_In_of_contains, unseen, In-unseen, In_unseen,
  unseen-Distinct, unseen-Sorted, split, split_double, join, cut, cut_last, has_prefix, has_suffix,
  contains_sub, trim_prefix, replace_all, is_space, trim_left_func, drop_if_last, trim_right_func,
  trim_space, trim_left, trim, one_of, trim_any, contains_any, fields, to_lower, equal_fold,
  scan_lines, too_long, Dict, lookup, insert, remove, lookup-insert, lookup-insert_self,
  lookup-remove, is_abs, push_element, elements_from, elements, clean, join_path, after_common, rel,
  pos, negsuc, IsInt32, format_int, syntax_error, range_error, parse_int32,
}
use cvetool.Datastore.Tables.{
  PackageInfo, DistributionInfo, RepositoryInfo, Bound, Range, RangeText, Vulnerability, VulnRow,
  MetadataRow, UpdateKind, vulnerability_kind, enrichment_kind, same_kind, Operation, EnrichmentRow,
  Database, max, next_id, contains_pair, associate, latest_of, is_operation, any_latest, is_latest,
  value_of,
}
use cvetool.Datastore.Operations.{has_kind, get_update_operations}
use cvetool.Datastore.Operations.Tests.{three_operations}
use cvetool.Cmd.Update.{Calls}
use cvetool.Cmd.Update.{
  old_database_threshold, format_database_age_threshold, fetches, vacuums, Calls, update,
}
use cvetool.Cmd.Update.Age.{IsMonotone, IsUpdate, refusal, update_refuses}

abbrev calls : Calls
calls = record {
  home = ok (codes "/root");
  exists = λ p. true;
  dir = λ p. p;
  mkdir_all = λ p. ok tt;
  new_store = λ p. ok three_operations;
  now = 2592200;
  new_libvuln = ok tt;
  fetch_updates = ok tt;
  vacuum = ok tt;
  duration_string = λ d. [];
}

threshold_text : format_database_age_threshold (λ d. []) old_database_threshold ≡ codes "30 days"
unfolding format_database_age_threshold format_int
threshold_text = refl

recent_update : update calls (codes "/db") false ≡ (fetches ∷ vacuums ∷ [], ok tt)
unfolding update get_update_operations cvetool.Text.sort_by cvetool.Prelude.filter_by
    cvetool.Text.contains cvetool.Text.unseen cvetool.Text.str_eq cvetool.Datastore.Tables.same_kind
    cvetool.Text.insert cvetool.Text.lookup
recent_update = refl

abbrev last_operation : Operation
last_operation = record {
  id = 3;
  ref = [];
  updater = codes "rhel";
  fingerprint = [];
  kind = vulnerability_kind;
  date = 300;
}

-- The dates of the three operations are a hundred times their identifiers.
scaled_date : (a : Operation) → In a three_operations.operations → a.date ≡ a.id * 100
scaled_date a (inl e) = omega (arith, ap (λ z. z.id) e, ap (λ z. z.date) e)
scaled_date a (inr (inl e)) = omega (arith, ap (λ z. z.id) e, ap (λ z. z.date) e)
scaled_date a (inr (inr (inl e))) = omega (arith, ap (λ z. z.id) e, ap (λ z. z.date) e)
scaled_date a (inr (inr (inr i))) = absurd i

three-IsMonotone : IsMonotone three_operations
three-IsMonotone a b i j h = omega (arith, h, scaled_date a i, scaled_date b j)

update_refuses_example :
    (((p : Operation) × IsUpdate three_operations p × (2592200 ≤ p.date + old_database_threshold))
      → update calls (codes "/db") false ≡ update calls (codes "/db") true)
    × (((p : Operation) → IsUpdate three_operations p → p.date + old_database_threshold < 2592200)
        → update calls (codes "/db") false ≡ ([], err (refusal calls b'/' (codes "db"))))
unfolding has_kind same_kind
update_refuses_example =
    update_refuses calls b'/' (codes "db") three_operations last_operation refl three-IsMonotone
      (inr (inr (inl refl)), refl) (omega arith)
