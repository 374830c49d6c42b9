-- ===== src/Cmd/Scan/Tracked.antt =====
-- The field `libindex` of the state of a scan says whether the indexer was opened.
use mathlib.Core.Option
use cvetool.Prelude.{
  is_some, In, In-append, Result, err, ok, wrap, ℕ, String, ◌≡◌, refl, ◌≢◌, inl, inr, Bool, true,
  false, Option, none, some, List, [], ◌∷◌, ◌++◌, map,
}
use cvetool.Text.{Str}
use cvetool.Catalog.Json.{Catalog}
use cvetool.Cmd.ScanCatalog.{Effect, catalog_advice}
use cvetool.Cmd.ScanCatalog.Prepare.{Prepared}
use cvetool.Cmd.Scan.Steps.{M, Found, Calls, State, Event, Format}
use cvetool.Cmd.Scan.Steps.{
  Flags, Format, sarif, plain, quay, clair, format_of, Event, opens_store, opens_libvuln, releases,
  opens_libindex, indexes, matches, writes, Found, Calls, State, after, bind, lift, emit, wrapping,
  opened_libindex, after_index, configuration, advice_events, finish_report, Opened, acquired,
}
use cvetool.Cmd.Scan.{
  database_path, open_database, validate_and_enrich, scan_with_catalog_validation, write_report,
  report_found, scan_indexed, scan_configured, scan_layers,
}

abbrev pub Tracks : State → Type 0
Tracks s = In opens_libindex s.events → s.libindex ≡ true

abbrev pub Keeps : {A : Type 0} → M A → Type 0
Keeps m = (s : State) → Tracks s → Tracks (m s).0

module _ {A B : Type 0} where
  pub after-Tracks :
      (rest : A → M B) (p : State × Result A)
      → Tracks p.0
      → ((a : A) → Keeps (rest a))
      → Tracks (after rest p).0
  after-Tracks rest (s, err e) h k = h
  after-Tracks rest (s, ok a) h k = k a s h

  pub bind-Keeps :
      (m : M A) (rest : A → M B) → Keeps m → ((a : A) → Keeps (rest a)) → Keeps (bind m rest)
  bind-Keeps m rest hm hr s h = after-Tracks rest (m s) (hm s h) hr

pub lift-Keeps : {A : Type 0} (r : Result A) → Keeps (lift r)
lift-Keeps r s h = h

wrapping-Keeps : {A : Type 0} (format : String) (m : M A) → Keeps m → Keeps (wrapping format m)
wrapping-Keeps format m h = h

-- More events, none of which opens libindex.
pub more_events :
    (s : State) (es : List Event)
    → Tracks s
    → ¬ In opens_libindex es
    → In opens_libindex (s.events ++ es)
    → s.libindex ≡ true
more_events s es h none_opens i = elim (In-append opens_libindex s.events es i) [
  | inl j ↦ h j
  | inr j ↦ absurd (none_opens j)
]

emit-Keeps : (es : List Event) → ¬ In opens_libindex es → Keeps (emit es)
emit-Keeps es n s h = more_events s es h n

opened_libindex-Keeps : (r : Result (Unit {0})) → Keeps (opened_libindex r)
unfolding opened_libindex
opened_libindex-Keeps (err e) s h = h
opened_libindex-Keeps (ok u) s h = λ i. refl

pub released_events : (es : List Effect) → ¬ In opens_libindex (map releases es)
released_events [] i = i
released_events (e ∷ es) (inl q) = cc q
released_events (e ∷ es) (inr i) = released_events es i

pub acquired-Keeps : (r : Result (Option Prepared)) → Keeps (acquired r)
unfolding acquired
acquired-Keeps (err e) s h = h
acquired-Keeps (ok none) s h = h
acquired-Keeps (ok (some p)) s h =
    more_events s (map releases p.effects) h (released_events p.effects)

no_advice : (text : Str) → ¬ In opens_libindex (advice_events text)
no_advice [] i = i
no_advice (c ∷ text) (inl q) = cc q
no_advice (c ∷ text) (inr i) = i

finish_report-Keeps : (flags : Flags) (b : Bool) (n : ℕ) → Keeps (finish_report flags b n)
unfolding finish_report
finish_report-Keeps flags true n s h = more_events s [] h (λ i. i)
finish_report-Keeps flags false n s h =
    more_events s (advice_events (catalog_advice n flags.catalog_path)) h
      (no_advice (catalog_advice n flags.catalog_path))

other_event : (e : Event) → e ≢ opens_libindex → ¬ In opens_libindex (e ∷ [])
other_event e n (inl q) = n q
other_event e n (inr i) = i

module _ {Wfn : Type 0} (unbind : Str → Result Wfn) (sha256_hex : Str → Str)
    (calls : Calls Wfn) where
  written-Keeps :
      (format : Format) (opened : Result (Unit {0})) (result : Result (Unit {0}))
      → Keeps (bind (lift opened) λ u. bind (emit (writes format ∷ [])) λ v. lift result)
  written-Keeps format opened result =
      bind-Keeps (lift opened) (λ u. bind (emit (writes format ∷ [])) (λ v. lift result))
        (lift-Keeps opened)
        λ u.
          bind-Keeps (emit (writes format ∷ [])) (λ v. lift result)
            (emit-Keeps (writes format ∷ []) (other_event (writes format) (λ q. cc q)))
            λ v. lift-Keeps result

  printed-Keeps :
      (format : Format) (made : Result (Unit {0}))
      → Keeps (bind (lift made) λ u. emit (writes format ∷ []))
  printed-Keeps format made =
      bind-Keeps (lift made) (λ u. emit (writes format ∷ [])) (lift-Keeps made)
        λ u. emit-Keeps (writes format ∷ []) (other_event (writes format) (λ q. cc q))

  pub open_database-Keeps : (flags : Flags) → Keeps (open_database unbind sha256_hex calls flags)
  unfolding open_database
  open_database-Keeps flags =
      let store = wrap "error creating sqlite backend: %v" [] calls.new_store in
      let libvuln = wrap "error creating Libvuln: %v" [] calls.new_libvuln in
      bind-Keeps (lift (database_path unbind sha256_hex calls flags))
        (λ path. bind (lift store) λ u.
          bind (emit (opens_store ∷ [])) λ v. bind (lift libvuln) λ w. emit (opens_libvuln ∷ []))
        (lift-Keeps (database_path unbind sha256_hex calls flags))
        λ path.
          bind-Keeps (lift store)
            (λ u.
              bind (emit (opens_store ∷ []))
                λ v. bind (lift libvuln) λ w. emit (opens_libvuln ∷ []))
            (lift-Keeps store)
            λ u.
              bind-Keeps (emit (opens_store ∷ []))
                (λ v. bind (lift libvuln) λ w. emit (opens_libvuln ∷ []))
                (emit-Keeps (opens_store ∷ []) (other_event opens_store (λ q. cc q)))
                λ v.
                  bind-Keeps (lift libvuln) (λ w. emit (opens_libvuln ∷ [])) (lift-Keeps libvuln)
                    λ w. emit-Keeps (opens_libvuln ∷ []) (other_event opens_libvuln (λ q. cc q))

  write_report-Keeps :
      (format : Format) (n : ℕ) → Keeps (write_report unbind sha256_hex calls format n)
  unfolding write_report
  write_report-Keeps clair n = printed-Keeps clair _
  write_report-Keeps quay n =
      let new = wrap "error creating quay format report: %v" [] (calls.new_writer quay) in
      let made = wrap "could not marshal quay report: %v" [] (calls.write quay n) in
      bind-Keeps (lift new) (λ u. bind (lift made) λ v. emit (writes quay ∷ [])) (lift-Keeps new)
        λ u. printed-Keeps quay made
  write_report-Keeps sarif n = written-Keeps sarif _ _
  write_report-Keeps plain n = written-Keeps plain _ _

  validation-Keeps :
      (reader : Option Catalog) (found : Found Wfn)
      → Keeps (scan_with_catalog_validation unbind sha256_hex calls reader found)
  unfolding scan_with_catalog_validation
  validation-Keeps reader found =
      bind-Keeps (lift (validate_and_enrich unbind sha256_hex calls reader found))
        (λ enriched. bind (emit (matches ∷ [])) λ u. lift (calls.match_vulnerabilities enriched))
        (lift-Keeps (validate_and_enrich unbind sha256_hex calls reader found))
        λ enriched.
          bind-Keeps (emit (matches ∷ [])) (λ u. lift (calls.match_vulnerabilities enriched))
            (emit-Keeps (matches ∷ []) (other_event matches (λ q. cc q)))
            λ u. lift-Keeps (calls.match_vulnerabilities enriched)

  report_found-Keeps :
      (flags : Flags) (catalog : Option Opened) (found : Found Wfn)
      → Keeps (report_found unbind sha256_hex calls flags catalog found)
  unfolding report_found
  report_found-Keeps flags catalog found =
      let validated =
        scan_with_catalog_validation unbind sha256_hex calls (Option.map (λ o. o.1) catalog)
          found in
      bind-Keeps (wrapping "error creating vulnerability report: %v" validated)
        (λ n.
          bind (write_report unbind sha256_hex calls (format_of flags.format) n)
            λ u. finish_report flags (is_some catalog) n)
        (wrapping-Keeps "error creating vulnerability report: %v" validated
          (validation-Keeps (Option.map (λ o. o.1) catalog) found))
        λ n.
          bind-Keeps (write_report unbind sha256_hex calls (format_of flags.format) n)
            (λ u. finish_report flags (is_some catalog) n)
            (write_report-Keeps (format_of flags.format) n)
            λ u. finish_report-Keeps flags (is_some catalog) n

  scan_indexed-Keeps :
      (flags : Flags) (catalog : Option Opened)
      → Keeps (scan_indexed unbind sha256_hex calls flags catalog)
  unfolding scan_indexed
  scan_indexed-Keeps flags catalog =
      bind-Keeps (emit (indexes ∷ []))
        (λ v.
          bind (lift (after_index calls.index))
            (report_found unbind sha256_hex calls flags catalog))
        (emit-Keeps (indexes ∷ []) (other_event indexes (λ q. cc q)))
        λ v.
          bind-Keeps (lift (after_index calls.index))
            (report_found unbind sha256_hex calls flags catalog)
            (lift-Keeps (after_index calls.index)) (report_found-Keeps flags catalog)

  pub scan_layers-Keeps :
      (flags : Flags) (catalog : Option Opened)
      → Keeps (scan_layers unbind sha256_hex calls flags catalog)
  unfolding scan_layers scan_configured
  scan_layers-Keeps flags catalog =
      bind-Keeps (lift (configuration (Option.map (λ o. o.0) catalog)))
        (scan_configured unbind sha256_hex calls flags catalog)
        (lift-Keeps (configuration (Option.map (λ o. o.0) catalog)))
        λ change.
          let new =
            wrap "error creating Libindex: %v" []
              (calls.new_libindex (change calls.default_config)) in
          bind-Keeps (opened_libindex new) (λ u. scan_indexed unbind sha256_hex calls flags catalog)
            (opened_libindex-Keeps new) λ u. scan_indexed-Keeps flags catalog
