-- ===== src/Cmd/Scan/Outcomes.antt =====
-- What the end of a scan says: the status of the process, and the error of a download.
use mathlib.Core.Option
use mathlib.Core.Path.{subst}
use cvetool.Prelude.{
  is_some, In, In-append_left, In-append_right, wrapf, joined, Result, err, ok, wrap, ◌>>=◌,
  ok_injective, ℕ, zero, suc, ◌≡◌, refl, sym, ap, ◌∙◌, ◌≢◌, ◌⊎◌, inl, inr, Bool, true, Option, none,
  some, List, [], ◌∷◌, ◌++◌, map,
}
use cvetool.Text.{ℤ}
use cvetool.Text.{Str, pos, negsuc}
use cvetool.Cmd.ScanCatalog.{ScanCatalog, Answers, join_errors, close, close_scan_catalog}
use cvetool.Cmd.ScanCatalog.Prepare.{Prepared}
use cvetool.Cmd.Scan.Steps.{M, Found, Calls, State, Event, Format}
use cvetool.Cmd.Scan.Steps.{
  Flags, Format, sarif, plain, quay, clair, format_of, Event, opens_store, opens_libvuln, releases,
  opens_libindex, indexes, matches, writes, Found, Calls, State, after, bind, lift, emit, wrapping,
  opened_libindex, after_index, configuration, status_of, finish_report, Opened, acquired,
  closing_events, close_errors, join_result,
}
use cvetool.Cmd.Scan.{
  get_manifest, database_path, open_database, validate_and_enrich, scan_with_catalog_validation,
  write_report, report_found, scan_indexed, scan_configured, scan_layers, released, scan_prepared,
  scan_body, closed, arena_open, scan_manifest, scan_with_status, Exit, exits, succeeds, exit_of,
}

-- Where a part ends without an error, the state and the value are as stated.
abbrev Ensures : {A : Type 0} → (State → A → Type 0) → State × Result A → Type 0
Ensures Q (s, err e) = Unit
Ensures Q (s, ok a) = Q s a

lift_rule :
    {A B : Type 0} (Q : State → B → Type 0) (r : Result A) (rest : A → M B) (s : State)
    → ((a : A) → r ≡ ok a → Ensures Q (rest a s))
    → Ensures Q (bind (lift r) rest s)
lift_rule Q (err e) rest s k = tt
lift_rule Q (ok a) rest s k = k a refl

ensured :
    {A : Type 0} (Q : State → A → Type 0) (p : State × Result A) (a : A)
    → Ensures Q p
    → p.1 ≡ ok a
    → Q p.0 a
ensured Q (s, err e) a h q = cc q
ensured Q (s, ok b) a h q = subst (Q s) (ok_injective q) h

module _ {Wfn : Type 0} (unbind : Str → Result Wfn) (sha256_hex : Str → Str) (calls : Calls Wfn)
    (flags : Flags) where
  -- The matcher found `n` vulnerabilities in an index report, a report was written in the format of
  -- the flags, and the status is set if there are any.
  abbrev pub IsReported : State → ℕ → Type 0
  IsReported s n =
      (found : Found Wfn) × (calls.match_vulnerabilities found ≡ ok n)
      × In (writes (format_of flags.format)) s.events
      × (s.exit_code ≡ status_of n flags.return_code (pos 0))

  abbrev IsEnded : State → Unit {0} → Type 0
  IsEnded s u = (n : ℕ) × IsReported s n

  -- Later events change nothing of it.
  IsEnded-append :
      (s : State) (es : List Event)
      → IsEnded s tt
      → IsEnded (record s { events = s.events ++ es }) tt
  IsEnded-append s es (n, (found, e, i, c)) =
      (n, (found, e, In-append_left (writes (format_of flags.format)) s.events es i, c))

  finish_rule :
      (b : Bool) (n : ℕ) (found : Found Wfn) (s : State)
      → calls.match_vulnerabilities found ≡ ok n
      → In (writes (format_of flags.format)) s.events
      → s.exit_code ≡ pos 0
      → Ensures IsEnded (finish_report flags b n s)
  unfolding finish_report
  finish_rule b n found s e i c = (
    n,
    (
      found,
      e,
      In-append_left (writes (format_of flags.format)) s.events _ i,
      ap (status_of n flags.return_code) c,
    ),
  )

  last_event : (e : Event) (es : List Event) → In e (es ++ (e ∷ []))
  last_event e es = In-append_right e es (e ∷ []) (inl refl)

  written_rule :
      (format : Format) (rest : Unit {0} → M (Unit {0})) (s : State)
      (opened result : Result (Unit {0}))
      → ((u : Unit {0})
          → Ensures IsEnded (rest u (record s { events = s.events ++ (writes format ∷ []) })))
      → Ensures IsEnded
          (bind (bind (lift opened) λ u. bind (emit (writes format ∷ [])) λ v. lift result) rest s)
  written_rule format rest s (err e) result k = tt
  written_rule format rest s (ok u) (err e) k = tt
  written_rule format rest s (ok u) (ok v) k = k v

  printed_rule :
      (format : Format) (rest : Unit {0} → M (Unit {0})) (s : State)
      (opened made : Result (Unit {0}))
      → ((u : Unit {0})
          → Ensures IsEnded (rest u (record s { events = s.events ++ (writes format ∷ []) })))
      → Ensures IsEnded
          (bind (bind (lift opened) λ u. bind (lift made) λ v. emit (writes format ∷ [])) rest s)
  printed_rule format rest s (err e) made k = tt
  printed_rule format rest s (ok u) (err e) k = tt
  printed_rule format rest s (ok u) (ok v) k = k tt

  write_rule :
      (format : Format) (n : ℕ) (rest : Unit {0} → M (Unit {0})) (s : State)
      → ((u : Unit {0})
          → Ensures IsEnded (rest u (record s { events = s.events ++ (writes format ∷ []) })))
      → Ensures IsEnded (bind (write_report unbind sha256_hex calls format n) rest s)
  unfolding write_report
  write_rule clair n rest s k =
      printed_rule clair rest s (ok tt)
        (wrap "could not marshal vulnerability report: %v" [] (calls.write clair n)) k
  write_rule quay n rest s k =
      printed_rule quay rest s
        (wrap "error creating quay format report: %v" [] (calls.new_writer quay))
        (wrap "could not marshal quay report: %v" [] (calls.write quay n)) k
  write_rule sarif n rest s k =
      written_rule sarif rest s
        (wrap "error creating sarif report writer: %v" [] (calls.new_writer sarif))
        (wrap "error writing sarif report: %v" [] (calls.write sarif n)) k
  write_rule plain n rest s k =
      written_rule plain rest s
        (wrap "error creating plain report writer: %v" [] (calls.new_writer plain))
        (wrap "error writing plain report: %v" [] (calls.write plain n)) k

  validated_rule :
      (r : Result (Found Wfn)) (rest : ℕ → M (Unit {0})) (s : State)
      → ((found : Found Wfn) (n : ℕ)
          → calls.match_vulnerabilities found ≡ ok n
          → Ensures IsEnded (rest n (record s { events = s.events ++ (matches ∷ []) })))
      → Ensures IsEnded (
          bind
            (wrapping "error creating vulnerability report: %v" (
              bind
                (lift r)
                λ found. bind (emit (matches ∷ [])) λ u. lift (calls.match_vulnerabilities found)))
            rest
            s)
  validated_rule (err e) rest s k = tt
  validated_rule (ok found) rest s k = matched (calls.match_vulnerabilities found) (k found)
    where
      matched :
          (m : Result ℕ)
          → ((n : ℕ)
              → m ≡ ok n
              → Ensures IsEnded (rest n (record s { events = s.events ++ (matches ∷ []) })))
          → Ensures IsEnded (
              after rest (
                record s { events = s.events ++ (matches ∷ []) },
                wrap "error creating vulnerability report: %v" [] m,
              ))
      matched (err e) k = tt
      matched (ok n) k = k n refl

  report_rule :
      (catalog : Option Opened) (found : Found Wfn) (s : State)
      → s.exit_code ≡ pos 0
      → Ensures IsEnded (report_found unbind sha256_hex calls flags catalog found s)
  unfolding report_found scan_with_catalog_validation
  report_rule catalog found s c =
      validated_rule
        (validate_and_enrich unbind sha256_hex calls (Option.map (λ o. o.1) catalog) found)
        (λ n.
          bind (write_report unbind sha256_hex calls (format_of flags.format) n)
            λ u. finish_report flags (is_some catalog) n)
        s
        λ enriched n e.
          write_rule (format_of flags.format) n (λ u. finish_report flags (is_some catalog) n)
            (record s { events = s.events ++ (matches ∷ []) })
            λ u.
              finish_rule (is_some catalog) n enriched
                (record s {
                  events = (s.events ++ (matches ∷ [])) ++ (writes (format_of flags.format) ∷ []);
                })
                e (last_event (writes (format_of flags.format)) (s.events ++ (matches ∷ []))) c

  indexed_rule :
      (catalog : Option Opened) (s : State)
      → s.exit_code ≡ pos 0
      → Ensures IsEnded (scan_indexed unbind sha256_hex calls flags catalog s)
  unfolding scan_indexed
  indexed_rule catalog s c =
      lift_rule IsEnded (after_index calls.index)
        (report_found unbind sha256_hex calls flags catalog)
        (record s { events = s.events ++ (indexes ∷ []) })
        λ found e. report_rule catalog found (record s { events = s.events ++ (indexes ∷ []) }) c

  opened_rule :
      (r : Result (Unit {0})) (catalog : Option Opened) (s : State)
      → s.exit_code ≡ pos 0
      → Ensures IsEnded
          (bind (opened_libindex r) (λ u. scan_indexed unbind sha256_hex calls flags catalog) s)
  unfolding opened_libindex
  opened_rule (err e) catalog s c = tt
  opened_rule (ok u) catalog s c =
      indexed_rule catalog
        (record s { libindex = true; events = s.events ++ (opens_libindex ∷ []) }) c

  layers_rule :
      (catalog : Option Opened) (s : State)
      → s.exit_code ≡ pos 0
      → Ensures IsEnded (scan_layers unbind sha256_hex calls flags catalog s)
  unfolding scan_layers scan_configured
  layers_rule catalog s c =
      lift_rule IsEnded (configuration (Option.map (λ o. o.0) catalog))
        (scan_configured unbind sha256_hex calls flags catalog) s
        λ change e.
          opened_rule
            (wrap "error creating Libindex: %v" []
              (calls.new_libindex (change calls.default_config)))
            catalog s c

  module _ (answers : Answers) where
    released_rule :
        (catalog : Option Opened) (p : State × Result (Unit {0}))
        → Ensures IsEnded p
        → Ensures IsEnded (released unbind sha256_hex calls answers catalog p)
    unfolding released close_scan_catalog
    released_rule none (s, err e) h = tt
    released_rule none (s, ok u) h = IsEnded-append s [] h
    released_rule (some (prepared, c)) (s, err e) h =
        failed (record s { events = s.events ++ map releases (close answers prepared).1 })
          (close answers prepared).2
      where
        failed :
            (t : State) (r : Result (Unit {0}))
            → Ensures IsEnded (
              t,
              elim r as (λ z. Result (Unit {0})) [
                | ok u ↦ err e
                | err f ↦ err (joined e (wrapf "error closing scan catalog" [] f))
              ],
            )
        failed t (ok u) = tt
        failed t (err f) = tt
    released_rule (some (prepared, c)) (s, ok u) h =
        passed (record s { events = s.events ++ map releases (close answers prepared).1 })
          (close answers prepared).2 (IsEnded-append s (map releases (close answers prepared).1) h)
      where
        passed :
            (t : State) (r : Result (Unit {0}))
            → IsEnded t tt
            → Ensures IsEnded (
              t,
              elim r as (λ z. Result (Unit {0})) [
                | ok u ↦ ok tt
                | err f ↦ err (wrapf "error closing scan catalog" [] f)
              ],
            )
        passed t (ok u) h = h
        passed t (err f) h = tt

    acquired_rule :
        (prepared : Result (Option Prepared)) (s : State)
        → s.exit_code ≡ pos 0
        → Ensures IsEnded
            (bind (acquired prepared) (scan_prepared unbind sha256_hex calls answers flags) s)
    unfolding acquired scan_prepared
    acquired_rule (err e) s c = tt
    acquired_rule (ok none) s c =
        released_rule none (scan_layers unbind sha256_hex calls flags none s) (layers_rule none s c)
    acquired_rule (ok (some p)) s c =
        from_result (record s { events = s.events ++ map releases p.effects }) p.result c
      where
        from_result :
            (t : State) (r : Result ScanCatalog)
            → t.exit_code ≡ pos 0
            → Ensures IsEnded (
                after (scan_prepared unbind sha256_hex calls answers flags) (
                  t,
                  wrap "error preparing scan catalog" [] r >>= λ prepared.
                      ok (some (prepared, p.state.contents)),
                ))
        from_result t (err e) c = tt
        from_result t (ok prepared) c =
            released_rule (some (prepared, p.state.contents))
              (scan_layers unbind sha256_hex calls flags (some (prepared, p.state.contents)) t)
              (layers_rule (some (prepared, p.state.contents)) t c)

    opening_rule :
        (rest : Unit {0} → M (Unit {0})) (s : State) (path : Result Str)
        (store libvuln : Result (Unit {0}))
        → ((es : List Event) → Ensures IsEnded (rest tt (record s { events = es })))
        → Ensures IsEnded (
            bind
              (bind (lift path) λ p. bind (lift store) λ u.
                bind
                  (emit (opens_store ∷ []))
                  λ v. bind (lift libvuln) λ w. emit (opens_libvuln ∷ []))
              rest
              s)
    opening_rule rest s (err e) store libvuln k = tt
    opening_rule rest s (ok p) (err e) libvuln k = tt
    opening_rule rest s (ok p) (ok u) (err e) k = tt
    opening_rule rest s (ok p) (ok u) (ok w) k =
        k ((s.events ++ (opens_store ∷ [])) ++ (opens_libvuln ∷ []))

    body_rule :
        (prepared : Result (Option Prepared)) (s : State)
        → s.exit_code ≡ pos 0
        → Ensures IsEnded (scan_body unbind sha256_hex calls answers flags prepared s)
    unfolding scan_body open_database
    body_rule prepared s c =
        opening_rule
          (λ u. bind (acquired prepared) (scan_prepared unbind sha256_hex calls answers flags)) s
          (database_path unbind sha256_hex calls flags)
          (wrap "error creating sqlite backend: %v" [] calls.new_store)
          (wrap "error creating Libvuln: %v" [] calls.new_libvuln)
          λ es. acquired_rule prepared (record s { events = es }) c

    closed_rule :
        (p : State × Result (Unit {0}))
        → Ensures IsEnded p
        → Ensures IsEnded (closed unbind sha256_hex calls answers p)
    unfolding closed join_result
    closed_rule (s, r) h =
        joined_rule r (join_errors (close_errors s.libindex calls.close_libindex calls.close_arena))
          h
      where
        joined_rule :
            (r q : Result (Unit {0}))
            → Ensures IsEnded (s, r)
            → Ensures IsEnded
                (record s { events = s.events ++ closing_events s.libindex }, join_result r q)
        joined_rule (err e) (ok u) h = tt
        joined_rule (err e) (err f) h = tt
        joined_rule (ok u) (ok v) h = IsEnded-append s (closing_events s.libindex) h
        joined_rule (ok u) (err f) h = tt

    status_rule :
        (prepared : Result (Option Prepared)) (manifest : Result (Unit {0}))
        → Ensures IsEnded (scan_manifest unbind sha256_hex calls answers flags prepared manifest)
    unfolding scan_manifest
    status_rule prepared (err e) = tt
    status_rule prepared (ok u) =
        closed_rule _ (body_rule prepared (arena_open unbind sha256_hex calls answers) refl)

    code_cases :
        (s : State) (code : ℤ)
        → s.exit_code ≡ code
        → code ≢ pos 0
        → IsEnded s tt
        → (code ≡ flags.return_code) × (n : ℕ) × IsReported s (suc n)
    code_cases s code q z (zero, (found, e, i, c)) = absurd (z (sym q ∙ c))
    code_cases s code q z (suc n, (found, e, i, c)) = (sym q ∙ c, n, (found, e, i, c))

    zero_cases :
        (s : State)
        → s.exit_code ≡ pos 0
        → IsEnded s tt
        → (n : ℕ) × IsReported s n × ((n ≡ 0) ⊎ (flags.return_code ≡ pos 0))
    zero_cases s q (zero, r) = (0, r, inl refl)
    zero_cases s q (suc n, (found, e, i, c)) = (suc n, (found, e, i, c), inr (sym c ∙ q))

    abbrev exit_code_of : ℤ → Exit
    exit_code_of z = elim z [ pos zero ↦ succeeds | code ↦ exits code ]

    exits_code : (z code : ℤ) → exit_code_of z ≡ exits code → (z ≡ code) × (code ≢ pos 0)
    exits_code (pos zero) code h = cc h
    exits_code (pos (suc n)) code h = (cc h, λ q. cc (h, q))
    exits_code (negsuc n) code h = (cc h, λ q. cc (h, q))

    succeeds_zero : (z : ℤ) → exit_code_of z ≡ succeeds → z ≡ pos 0
    succeeds_zero (pos zero) h = refl
    succeeds_zero (pos (suc n)) h = cc h
    succeeds_zero (negsuc n) h = cc h

    by_end :
        (end : State × Result (Unit {0}))
        → Ensures IsEnded end
        → ((code : ℤ)
            → exit_of end ≡ exits code
            → (code ≡ flags.return_code) × (n : ℕ) × IsReported end.0 (suc n))
          × (exit_of end ≡ succeeds
              → (n : ℕ) × IsReported end.0 n × ((n ≡ 0) ⊎ (flags.return_code ≡ pos 0)))
    unfolding exit_of
    by_end (s, err e) h = (λ code q. cc q, λ q. cc q)
    by_end (s, ok u) h = (
      λ code q. let (a, b) = exits_code s.exit_code code q in code_cases s code a b h,
      λ q. zero_cases s (succeeds_zero s.exit_code q) h,
    )

    -- Where a scan ends without an error, the process exits with the status of the flags exactly
    -- where the matcher found vulnerabilities (an ordinary end, if that status is 0), and a report in
    -- the chosen format was written.
    pub exit_of-scan_with_status :
        (prepared : Result (Option Prepared))
        → let end = scan_with_status unbind sha256_hex calls answers flags prepared in
          ((code : ℤ)
            → exit_of end ≡ exits code
            → (code ≡ flags.return_code) × (n : ℕ) × IsReported end.0 (suc n))
          × (exit_of end ≡ succeeds
              → (n : ℕ) × IsReported end.0 n × ((n ≡ 0) ⊎ (flags.return_code ≡ pos 0)))
    unfolding scan_with_status
    exit_of-scan_with_status prepared =
        by_end
          (scan_manifest unbind sha256_hex calls answers flags prepared
            (get_manifest unbind sha256_hex calls flags))
          (status_rule prepared (get_manifest unbind sha256_hex calls flags))
