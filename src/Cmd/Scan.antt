-- ===== src/Cmd/Scan.antt =====
-- cmd/cvetool/scan.go: the course of a scan, with its deferred functions, its report and the status
-- of the process. The calls of other packages are a parameter.
pub mod Steps
pub mod Tracked
pub mod Resources
pub mod Outcomes
mod Tests
use mathlib.Core.Option
use cvetool.Prelude.{
  if◌then◌else◌, is_some, Error, errorf, Result, err, ok, wrap, fail_if, ◌>>=◌, ◌>>◌, ℕ, zero, ◌+◌,
  ◌-◌, false, not, Option, none, some, [], ◌∷◌, ◌++◌, map,
}
use cvetool.Text.{ℤ}
use cvetool.Text.{Str, codes, pos}
use cvetool.Catalog.Nevra.{is_empty}
use cvetool.Catalog.Json.{Catalog, lookup_matches}
use cvetool.Cmd.ScanCatalog.{
  Answers, join_errors, close_scan_catalog, RepositoryScannerConfig, validate_catalog_metadata,
}
use cvetool.Cmd.ScanCatalog.Prepare.{Prepared, Environment, ScanCatalogOptions, prepare_for_source}
use cvetool.Cmd.Scan.Steps.{M, Found, Calls, State, Format}
use cvetool.Cmd.Scan.Steps.{
  Flags, Format, sarif, plain, quay, clair, format_of, opens_arena, opens_store, opens_libvuln,
  releases, indexes, matches, writes, Found, Calls, State, bind, lift, emit, default_db_path,
  masked, wrapping, opened_libindex, after_index, configuration, finish_report, Opened, acquired,
  closing_events, close_errors, join_result,
}
use cvetool.Catalog.Enrich.{enrich_index_report}

-- The parameters of `Calls` are of the enrichment: parsed CPE names, cpe.Unbind and a digest.
module _ {Wfn : Type 0} (unbind : Str → Result Wfn) (sha256_hex : Str → Str)
    (calls : Calls Wfn) where
  -- The first `switch`: the manifest, and the arena of its layers.
  pub get_manifest : Flags → Result (Unit {0})
  get_manifest flags =
      if not (is_empty flags.image_ref)
      then (masked (errorf "error setting DOCKER_CONFIG env var" []) calls.setenv
          >> (wrap "error creating registry client: %v" [] calls.new_client
              >> wrap "error getting image information: %v" [] calls.remote_manifest))
      else if not (is_empty flags.image_path)
      then wrap "error getting image information: %v" [] calls.local_manifest
      else if not (is_empty flags.root_path)
      then wrap "error getting filesystem information: %v" [] calls.filesystem_manifest
      else err (
          errorf
            "no --image-path ($IMAGE_PATH), --image-ref ($IMAGE_REF) or --root-path ($ROOT_PATH) set"
            [])

  -- The second `switch`: a database that is downloaded leaves the path as it was.
  pub choose_db_path : Flags → Result Str
  unfolding default_db_path
  choose_db_path flags =
      if not (is_empty flags.db_path)
      then ok flags.db_path
      else if not (is_empty flags.db_url)
      then (wrap "could not download database: %v" [] calls.download >> ok flags.db_path)
      else default_db_path calls.home

  -- The path of the database, which has to be there.
  pub database_path : Flags → Result Str
  unfolding choose_db_path
  database_path flags = do
    path ← choose_db_path flags
    fail_if (not (calls.exists path)) (errorf "unable to get database path" [])
    ok path

  -- From the path of the database to the matcher: the store and Libvuln are opened, and nothing in
  -- the function closes them.
  pub open_database : Flags → M (Unit {0})
  unfolding database_path
  open_database flags = bind (lift (database_path flags)) λ path.
      bind (lift (wrap "error creating sqlite backend: %v" [] calls.new_store)) λ u.
        bind (emit (opens_store ∷ [])) λ v.
          bind (lift (wrap "error creating Libvuln: %v" [] calls.new_libvuln))
            λ w. emit (opens_libvuln ∷ [])

  -- The part of `scanWithCatalogValidation` before its callback.
  pub validate_and_enrich : Option Catalog → Found Wfn → Result (Found Wfn)
  validate_and_enrich none found = ok found
  validate_and_enrich (some c) found = do
    validate_catalog_metadata c.metadata found.distributions
    let (report, diagnostics, result) =
        enrich_index_report unbind sha256_hex (some found.report)
          (some (λ pkg. ok (lookup_matches c pkg)))
    wrap "error enriching index report from catalog: %v" [] result
    ok (elim report [ none ↦ found | some r ↦ record found { report = r } ])

  -- `scanWithCatalogValidation`, with the callback that matches vulnerabilities
  scan_with_catalog_validation : Option Catalog → Found Wfn → M ℕ
  unfolding validate_and_enrich
  scan_with_catalog_validation reader found =
      bind (lift (validate_and_enrich reader found))
        λ enriched. bind (emit (matches ∷ [])) λ u. lift (calls.match_vulnerabilities enriched)

  -- The `switch` on the format: the JSON of two formats is printed after it was made.
  write_report : Format → ℕ → M (Unit {0})
  write_report clair n =
      bind (lift (wrap "could not marshal vulnerability report: %v" [] (calls.write clair n)))
        λ u. emit (writes clair ∷ [])
  write_report quay n =
      bind (lift (wrap "error creating quay format report: %v" [] (calls.new_writer quay))) λ u.
        bind (lift (wrap "could not marshal quay report: %v" [] (calls.write quay n)))
          λ v. emit (writes quay ∷ [])
  write_report sarif n =
      bind (lift (wrap "error creating sarif report writer: %v" [] (calls.new_writer sarif))) λ u.
        bind (emit (writes sarif ∷ []))
          λ v. lift (wrap "error writing sarif report: %v" [] (calls.write sarif n))
  write_report plain n =
      bind (lift (wrap "error creating plain report writer: %v" [] (calls.new_writer plain))) λ u.
        bind (emit (writes plain ∷ []))
          λ v. lift (wrap "error writing plain report: %v" [] (calls.write plain n))

  -- From the index report to the end of the function's body.
  report_found : Flags → Option Opened → Found Wfn → M (Unit {0})
  unfolding scan_with_catalog_validation write_report finish_report
  report_found flags catalog found =
      bind
        (wrapping "error creating vulnerability report: %v"
          (scan_with_catalog_validation (Option.map (λ o. o.1) catalog) found))
        λ n.
          bind (write_report (format_of flags.format) n)
            λ u. finish_report flags (is_some catalog) n

  -- From `li.Index` to the end of the function's body.
  scan_indexed : Flags → Option Opened → M (Unit {0})
  unfolding after_index report_found
  scan_indexed flags catalog =
      bind (emit (indexes ∷ []))
        λ u. bind (lift (after_index calls.index)) (report_found flags catalog)

  -- From the catalog to the end of the function's body.
  scan_configured :
      Flags → Option Opened → (RepositoryScannerConfig → RepositoryScannerConfig) → M (Unit {0})
  unfolding opened_libindex scan_indexed
  scan_configured flags catalog change =
      bind
        (opened_libindex (
          wrap "error creating Libindex: %v" [] (calls.new_libindex (change calls.default_config))))
        λ u. scan_indexed flags catalog

  pub scan_layers : Flags → Option Opened → M (Unit {0})
  unfolding configuration scan_configured
  scan_layers flags catalog =
      bind (lift (configuration (Option.map (λ o. o.0) catalog))) (scan_configured flags catalog)

  module _ (answers : Answers) where
    -- The deferred `closeScanCatalog`
    released : Option Opened → State × Result (Unit {0}) → State × Result (Unit {0})
    released catalog (s, r) =
        let (effects, result) = close_scan_catalog answers r (Option.map (λ o. o.0) catalog) in
        (record s { events = s.events ++ map releases effects }, result)

    scan_prepared : Flags → Option Opened → M (Unit {0})
    unfolding scan_layers released
    scan_prepared flags catalog s = released catalog (scan_layers flags catalog s)

    -- The function's body, after the manifest: `prepared` is the answer of
    -- `prepareScanCatalogForSource`.
    scan_body : Flags → Result (Option Prepared) → M (Unit {0})
    unfolding open_database acquired scan_prepared
    scan_body flags prepared =
        bind (open_database flags) λ u. bind (acquired prepared) (scan_prepared flags)

    -- The deferred `closeScanResources`
    closed : State × Result (Unit {0}) → State × Result (Unit {0})
    unfolding close_errors join_result
    closed (s, r) = (
      record s { events = s.events ++ closing_events s.libindex },
      join_result r (join_errors (close_errors s.libindex calls.close_libindex calls.close_arena)),
    )

    abbrev pub start : State
    start = record { events = []; libindex = false; exit_code = pos 0 }

    -- The arena is made with the manifest.
    abbrev pub arena_open : State
    arena_open = record start { events = opens_arena ∷ [] }

    -- `scanWithStatus`
    scan_manifest : Flags → Result (Option Prepared) → Result (Unit {0}) → State × Result (Unit {0})
    unfolding scan_body closed
    scan_manifest flags prepared (err e) = (start, err e)
    scan_manifest flags prepared (ok u) = closed (scan_body flags prepared arena_open)

    pub scan_with_status : Flags → Result (Option Prepared) → State × Result (Unit {0})
    unfolding get_manifest scan_manifest
    scan_with_status flags prepared = scan_manifest flags prepared (get_manifest flags)

-- How the process ends: an error of the command, a status, or nothing of both.
pub data Exit : Type 0 where
  fails : Error → Exit
  exits : ℤ → Exit
  succeeds : Exit

-- `scan`
pub exit_of : State × Result (Unit {0}) → Exit
exit_of (s, err e) = fails e
exit_of (s, ok u) = elim s.exit_code [ pos zero ↦ succeeds | code ↦ exits code ]

-- The options of the catalog, and `scan` with the catalog that `prepareScanCatalogForSource` prepares.
pub catalog_options : Flags → ScanCatalogOptions
catalog_options flags = record {
  explicit_path = flags.catalog_path;
  target_root = flags.root_path;
  target_info = record {
    rhel_version = [];
    release_version = [];
    architecture = [];
    architectures = [];
  };
  dnf = record {
    path = codes "dnf";
    install_root = [];
    scratch_dir = [];
    release_version = [];
    architecture = [];
    repo_dirs = [];
    architectures = [];
    legacy_host_query = false;
  };
}

module _ {Wfn : Type 0} (unbind : Str → Result Wfn) (sha256_hex : Str → Str)
    (calls : Calls Wfn) where
  pub scan : Environment → Answers → Flags → Exit
  unfolding catalog_options exit_of scan_with_status
  scan env answers flags = exit_of (
      scan_with_status unbind sha256_hex calls answers flags
        (prepare_for_source env answers (catalog_options flags) flags.image_path flags.image_ref))
