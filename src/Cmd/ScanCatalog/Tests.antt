-- ===== src/Cmd/ScanCatalog/Tests.antt =====
-- Runs on a prepared catalog.
use cvetool.Prelude.{Error, external, Result, err, ok, ◌≡◌, true, none, some, []}
use cvetool.Text.{codes}
use cvetool.Cmd.ScanCatalog.{unlinks, ScanCatalog, Answers, close_scan_catalog, Distribution}
use cvetool.Cmd.ScanCatalog.Release.{Reports, Fails, close_scan_catalog_keeps}

abbrev failing : Answers
failing = record { close_reader = some (external 1); remove = λ p. none; remove_all = λ p. none }

abbrev prepared : ScanCatalog
prepared = record {
  reader = true;
  mapping_cleanup = some (unlinks (codes "/tmp/m"));
  mapping_path = codes "/tmp/m";
  temp_dir = codes "/tmp/d";
}

abbrev accepted : Result (Unit {0})
accepted = ok tt

close_scan_catalog_keeps_example :
    let result = (close_scan_catalog failing accepted (some prepared)).1 in
    ((f : Error) → accepted ≡ err f → Reports result f)
    × ((e : Error) → Fails failing prepared e → Reports result e)
    × (result ≡ ok tt → accepted ≡ ok tt)
close_scan_catalog_keeps_example = close_scan_catalog_keeps failing accepted prepared

abbrev rhel_9 : Distribution
rhel_9 = record { did = codes "rhel"; version_id = codes "9"; version = []; arch = [] }
