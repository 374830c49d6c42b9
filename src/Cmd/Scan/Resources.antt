-- ===== src/Cmd/Scan/Resources.antt =====
-- What a scan opens is closed at its end, also after an error.
use mathlib.Core.Option
use mathlib.Core.Path.{subst}
use cvetool.Prelude.{
  In, In-append_left, In-append_right, In-append, In-map, Result, err, ok, ok_injective, ◌≡◌, refl,
  sym, ap, inl, inr, Bool, true, false, Option, some, ◌++◌, map,
}
use cvetool.Text.{Str}
use cvetool.Catalog.Json.{Catalog}
use cvetool.Cmd.ScanCatalog.{ScanCatalog, Effect, Answers, close, close_scan_catalog}
use cvetool.Cmd.ScanCatalog.Prepare.{Prepared}
use cvetool.Cmd.Scan.Steps.{M, Calls, State}
use cvetool.Cmd.Scan.Steps.{
  Flags, releases, opens_libindex, closes_libindex, closes_arena, Calls, State, after, bind, Opened,
  acquired, closing_events,
}
use cvetool.Cmd.Scan.{
  get_manifest, open_database, scan_layers, released, scan_prepared, scan_body, closed, arena_open,
  scan_manifest, scan_with_status,
}
use cvetool.Cmd.ScanCatalog.Release.{close_scan_catalog_iff, IsDue, In-close}
use cvetool.Cmd.Scan.Tracked.{
  Tracks, Keeps, bind-Keeps, more_events, released_events, acquired-Keeps, open_database-Keeps,
  scan_layers-Keeps,
}

module _ {Wfn : Type 0} (unbind : Str → Result Wfn) (sha256_hex : Str → Str)
    (calls : Calls Wfn) where
  module _ (answers : Answers) where
    released-Tracks :
        (catalog : Option Opened) (p : State × Result (Unit {0}))
        → Tracks p.0
        → Tracks (released unbind sha256_hex calls answers catalog p).0
    unfolding released
    released-Tracks catalog (s, r) h =
        let (effects, result) = close_scan_catalog answers r (Option.map (λ o. o.0) catalog) in
        more_events s (map releases effects) h (released_events effects)

    scan_body-Keeps :
        (flags : Flags) (prepared : Result (Option Prepared))
        → Keeps (scan_body unbind sha256_hex calls answers flags prepared)
    unfolding scan_body scan_prepared
    scan_body-Keeps flags prepared =
        bind-Keeps (open_database unbind sha256_hex calls flags)
          (λ u. bind (acquired prepared) (scan_prepared unbind sha256_hex calls answers flags))
          (open_database-Keeps unbind sha256_hex calls flags)
          λ u.
            bind-Keeps (acquired prepared) (scan_prepared unbind sha256_hex calls answers flags)
              (acquired-Keeps prepared)
              λ catalog s h.
                released-Tracks catalog (scan_layers unbind sha256_hex calls flags catalog s)
                  (scan_layers-Keeps unbind sha256_hex calls flags catalog s h)

    -- The effects of the deferred `Close` of a catalog are among the events.
    released_effects :
        (prepared : ScanCatalog) (c : Catalog) (p : State × Result (Unit {0})) (e : Effect)
        → In e (close answers prepared).1
        → In (releases e) (released unbind sha256_hex calls answers (some (prepared, c)) p).0.events
    unfolding released
    released_effects prepared c (s, r) e i =
        In-append_right (releases e) s.events
          (map releases (close_scan_catalog answers r (some prepared)).0)
          (In-map releases e (close_scan_catalog answers r (some prepared)).0
            (subst (In e) (sym (close_scan_catalog_iff answers r prepared).1) i))

    closed_events :
        (p : State × Result (Unit {0}))
        → (closed unbind sha256_hex calls answers p).0.events
          ≡ p.0.events ++ closing_events p.0.libindex
    unfolding closed
    closed_events (s, r) = refl

    closes_arena_last : (b : Bool) → In closes_arena (closing_events b)
    closes_arena_last true = inr (inl refl)
    closes_arena_last false = inl refl

    closes_open_libindex : (b : Bool) → b ≡ true → In closes_libindex (closing_events b)
    closes_open_libindex true h = inl refl
    closes_open_libindex false h = cc h

    opens_among :
        (s : State)
        → In opens_libindex (s.events ++ closing_events s.libindex)
        → In opens_libindex s.events
    opens_among s i = elim (In-append opens_libindex s.events (closing_events s.libindex) i) [
      | inl j ↦ j
      | inr j ↦ absurd (not_closing s.libindex j)
    ]
      where
        not_closing : (b : Bool) → ¬ In opens_libindex (closing_events b)
        not_closing true (inl q) = cc q
        not_closing true (inr (inl q)) = cc q
        not_closing true (inr (inr j)) = j
        not_closing false (inl q) = cc q
        not_closing false (inr j) = j

    after_ok :
        {A B : Type 0} {a : A} (rest : A → M B) (p : State × Result A)
        → p.1 ≡ ok a
        → after rest p ≡ rest a p.0
    after_ok rest (s, err e) q = cc q
    after_ok rest (s, ok b) q = ap (λ a. rest a s) (ok_injective q)

    prepared_body :
        (flags : Flags) (p : Prepared) (c : ScanCatalog) (e : Effect) (s : State)
        → (open_database unbind sha256_hex calls flags s).1 ≡ ok tt
        → p.result ≡ ok c
        → In e (close answers c).1
        → In (releases e) (scan_body unbind sha256_hex calls answers flags (ok (some p)) s).0.events
    unfolding scan_body scan_prepared acquired
    prepared_body flags p c e s opened result i =
        let database = open_database unbind sha256_hex calls flags s in
        subst (λ z. In (releases e) z.0.events)
          (sym (
            after_ok
              (λ u.
                bind (acquired (ok (some p))) (scan_prepared unbind sha256_hex calls answers flags))
              database opened))
          (rw result (
            released_effects c p.state.contents
              (scan_layers unbind sha256_hex calls flags (some (c, p.state.contents))
                (record database.0 { events = database.0.events ++ map releases p.effects }))
              e i))

    -- A scan that obtained its manifest closes, whatever the calls answer and wherever it ends, the
    -- arena, the indexer if it was created, and, if the database was opened and a catalog was
    -- prepared, what the catalog holds: its reader is closed, its cleanup is run, and its mapping file
    -- and its directory are removed. Nothing is said of the matcher store and of Libvuln, which a scan
    -- opens and has no code to close.
    pub scan_with_status_closes :
        (flags : Flags) (prepared : Result (Option Prepared))
        → get_manifest unbind sha256_hex calls flags ≡ ok tt
        → let events = (scan_with_status unbind sha256_hex calls answers flags prepared).0.events in
          In closes_arena events
          × (In opens_libindex events → In closes_libindex events)
          × ((p : Prepared) (c : ScanCatalog) (e : Effect)
              → (open_database unbind sha256_hex calls flags
                  (arena_open unbind sha256_hex calls answers)).1
                ≡ ok tt
              → prepared ≡ ok (some p)
              → p.result ≡ ok c
              → IsDue c e
              → In (releases e) events)
    unfolding scan_with_status scan_manifest
    scan_with_status_closes flags prepared manifest =
        let first = arena_open unbind sha256_hex calls answers in
        let body = scan_body unbind sha256_hex calls answers flags prepared first in
        rw manifest (
          rw (closed_events body) (
            In-append_right closes_arena body.0.events (closing_events body.0.libindex)
                (closes_arena_last body.0.libindex),
            λ i. In-append_right closes_libindex body.0.events (closing_events body.0.libindex) (
                closes_open_libindex body.0.libindex (
                  scan_body-Keeps flags prepared first
                    (λ j. elim j [ inl q ↦ cc q | inr k ↦ absurd k ]) (opens_among body.0 i))),
            λ p c e opened q result i.
                In-append_left (releases e) body.0.events (closing_events body.0.libindex) (
                  subst
                    (λ r.
                      In (releases e)
                        (scan_body unbind sha256_hex calls answers flags r first).0.events)
                    (sym q)
                    (prepared_body flags p c e first opened result (In-close answers c e i))),
          ))
