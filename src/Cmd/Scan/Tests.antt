-- ===== src/Cmd/Scan/Tests.antt =====
-- Runs of a scan of a file system, with a prepared catalog and with the flag `db-url`.
use cvetool.Prelude.{In, Result, ok, ℕ, suc, ◌≡◌, refl, ◌⊎◌, true, not, none, some, [], ◌∷◌}
use cvetool.Text.{ℤ}
use cvetool.Text.{Str, codes, str_eq, pos}
use cvetool.Catalog.Nevra.{is_empty}
use cvetool.Catalog.Json.{empty_catalog}
use cvetool.Catalog.Enrich.{enrich_index_report, enrich_packages}
use cvetool.Cmd.ScanCatalog.Release.{IsDue}
use cvetool.Cmd.ScanCatalog.{
  unlinks, ScanCatalog, Effect, closes_reader, runs_cleanup, removes, removes_all, Answers, wrapped,
  reader_errors, path_errors, join_errors, close, close_scan_catalog, configure_scanner,
  validate_catalog_metadata, catalog_advice,
}
use cvetool.Cmd.ScanCatalog.Prepare.{Prepared, reader}
use cvetool.Cmd.Scan.Steps.{Found, Calls}
use cvetool.Cmd.Scan.Steps.{
  Flags, complete, quay, opens_arena, opens_store, opens_libvuln, releases, opens_libindex, indexes,
  matches, writes, closes_libindex, closes_arena, Found, Calls,
}
use cvetool.Cmd.Scan.{
  get_manifest, open_database, arena_open, scan_with_status, fails, exits, succeeds, exit_of,
}
use cvetool.Cmd.Scan.Resources.{scan_with_status_closes}
use cvetool.Cmd.Scan.Outcomes.{IsReported, exit_of-scan_with_status}

abbrev parse_all : Str → Result Str
parse_all c = ok c

abbrev same_text : Str → Str
same_text s = s

abbrev found : Found Str
found = record {
  distributions = [];
  report = record { packages = []; environments = []; repositories = [] };
}

abbrev calls : Calls Str
calls = record {
  setenv = ok tt;
  new_client = ok tt;
  remote_manifest = ok tt;
  local_manifest = ok tt;
  filesystem_manifest = ok tt;
  download = ok tt;
  home = ok (codes "/root");
  exists = λ p. not (str_eq p []);
  new_store = ok tt;
  new_libvuln = ok tt;
  new_libindex = λ config. ok tt;
  default_config = record { repo2cpe_mapping_file = []; repo2cpe_mapping_url = codes "u" };
  index = complete found;
  match_vulnerabilities = λ f. ok 2;
  new_writer = λ f. ok tt;
  write = λ f n. ok tt;
  close_libindex = none;
  close_arena = none;
}

abbrev flags : Flags
flags = record {
  root_path = codes "/t";
  image_ref = [];
  image_path = [];
  db_path = codes "/db";
  db_url = [];
  catalog_path = [];
  format = codes "quay";
  return_code = pos 3;
}

abbrev answers : Answers
answers = record { close_reader = none; remove = λ p. none; remove_all = λ p. none }

abbrev catalog : ScanCatalog
catalog = record {
  reader = true;
  mapping_cleanup = some (unlinks (codes "/tmp/m"));
  mapping_path = codes "/tmp/m";
  temp_dir = codes "/tmp/x";
}

abbrev preparation : Prepared
preparation = record {
  state = record {
    prepared = catalog;
    contents = empty_catalog;
    acquired = reader ∷ [];
    removed = [];
  };
  effects = [];
  result = ok catalog;
}

end_events :
    (scan_with_status parse_all same_text calls answers flags (ok (some preparation))).0.events
    ≡ opens_arena
      ∷ opens_store
      ∷ opens_libvuln
      ∷ opens_libindex
      ∷ indexes
      ∷ matches
      ∷ writes quay
      ∷ releases closes_reader
      ∷ releases (runs_cleanup (unlinks (codes "/tmp/m")))
      ∷ releases (removes (codes "/tmp/m"))
      ∷ releases (removes_all (codes "/tmp/x"))
      ∷ closes_libindex
      ∷ closes_arena
      ∷ []
unfolding scan_with_status cvetool.Catalog.Nevra.is_empty str_eq configure_scanner join_errors close
    reader_errors path_errors wrapped close_scan_catalog validate_catalog_metadata
    enrich_index_report enrich_packages cvetool.Cmd.Scan.Steps.format_of
end_events = refl

end_status :
    exit_of (scan_with_status parse_all same_text calls answers flags (ok none)) ≡ exits (pos 3)
unfolding scan_with_status exit_of cvetool.Catalog.Nevra.is_empty str_eq join_errors
    close_scan_catalog catalog_advice cvetool.Cmd.Scan.Steps.format_of
end_status = refl

manifest_found : get_manifest parse_all same_text calls flags ≡ ok tt
unfolding get_manifest cvetool.Catalog.Nevra.is_empty
manifest_found = refl

scan_with_status_closes_example :
    let events =
      (scan_with_status parse_all same_text calls answers flags (ok (some preparation))).0.events in
    In closes_arena events
    × (In opens_libindex events → In closes_libindex events)
    × ((p : Prepared) (c : ScanCatalog) (e : Effect)
        → (open_database parse_all same_text calls flags
            (arena_open parse_all same_text calls answers)).1
          ≡ ok tt
        → ok (some preparation) ≡ ok (some p)
        → p.result ≡ ok c
        → IsDue c e
        → In (releases e) events)
scan_with_status_closes_example =
    scan_with_status_closes parse_all same_text calls answers flags (ok (some preparation))
      manifest_found

exit_of-scan_with_status_example :
    let end = scan_with_status parse_all same_text calls answers flags (ok none) in
    ((code : ℤ)
      → exit_of end ≡ exits code
      → (code ≡ pos 3) × (n : ℕ) × IsReported parse_all same_text calls flags end.0 (suc n))
    × (exit_of end ≡ succeeds
        → (n : ℕ) × IsReported parse_all same_text calls flags end.0 n
          × ((n ≡ 0) ⊎ (pos 3 ≡ pos 0)))
exit_of-scan_with_status_example =
    exit_of-scan_with_status parse_all same_text calls flags answers (ok none)
