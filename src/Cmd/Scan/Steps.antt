-- ===== src/Cmd/Scan/Steps.antt =====
-- The flags of a scan, the answers of what it calls, and its steps that call nothing else.
use cvetool.Prelude.{
  if◌then◌else◌, Error, errorf, wrapf, joined, Result, err, ok, wrap, ◌>>=◌, ℕ, zero, suc, String,
  Bool, true, false, Option, none, some, List, [], ◌∷◌, ◌++◌, map,
}
use cvetool.Text.{ℤ}
use cvetool.Text.{Str, codes, str_eq, join_path}
use cvetool.Catalog.Json.{Catalog}
use cvetool.Catalog.Enrich.{IndexReport}
use cvetool.Cmd.ScanCatalog.{
  ScanCatalog, Effect, RepositoryScannerConfig, configure_scanner, Distribution, catalog_advice,
}
use cvetool.Cmd.ScanCatalog.Prepare.{Prepared}

-- The flags of the command.
pub record Flags : Type 0 where
  pub root_path : Str
  pub image_ref : Str
  pub image_path : Str
  pub db_path : Str
  pub db_url : Str
  pub catalog_path : Str
  pub format : Str
  pub return_code : ℤ

-- How `li.Index` ends: with a report, of which two kinds of errors leave what was found, or not.
pub data Indexed (A : Type 0) : Type 0 where
  complete : A → Indexed A
  inaccessible : A → Error → Indexed A
  invalid_layer : Error → Indexed A
  broken : Error → Indexed A

pub data Format : Type 0 where
  sarif plain quay clair : Format

unfoldable pub format_of : Str → Format
format_of s =
    if str_eq s (codes "sarif")
    then sarif
    else if str_eq s (codes "plain")
    then plain
    else if str_eq s (codes "quay")
    then quay
    else clair

-- The outer effects of a scan, in their order.
pub data Event : Type 0 where
  opens_arena : Event
  opens_store : Event
  opens_libvuln : Event
  releases : Effect → Event
  opens_libindex : Event
  indexes : Event
  matches : Event
  writes : Format → Event
  advises : Str → Event
  closes_libindex : Event
  closes_arena : Event

-- claircore.IndexReport: its distributions, and what the enrichment changes.
pub record Found (Wfn : Type 0) : Type 0 where
  pub distributions : List (Option Distribution)
  pub report : IndexReport Wfn

-- The answers of the calls. A report of vulnerabilities is represented by their number.
pub record Calls (Wfn : Type 0) : Type 0 where
  pub setenv : Result (Unit {0})
  pub new_client : Result (Unit {0})
  pub remote_manifest : Result (Unit {0})
  pub local_manifest : Result (Unit {0})
  pub filesystem_manifest : Result (Unit {0})
  pub download : Result (Unit {0})
  pub home : Result Str
  pub exists : Str → Bool
  pub new_store : Result (Unit {0})
  pub new_libvuln : Result (Unit {0})
  pub new_libindex : RepositoryScannerConfig → Result (Unit {0})
  pub default_config : RepositoryScannerConfig
  pub index : Indexed (Found Wfn)
  pub match_vulnerabilities : Found Wfn → Result ℕ
  pub new_writer : Format → Result (Unit {0})
  pub write : Format → ℕ → Result (Unit {0})
  pub close_libindex : Option Error
  pub close_arena : Option Error

-- The variables that the deferred functions and the caller read: whether `li` is set, and the status.
pub record State : Type 0 where
  pub events : List Event
  pub libindex : Bool
  pub exit_code : ℤ

abbrev pub M : Type 0 → Type 0
M A = State → State × Result A

abbrev pub after : {A B : Type 0} → (A → M B) → State × Result A → State × Result B
after rest (s, err e) = (s, err e)
after rest (s, ok a) = rest a s

abbrev pub bind : {A B : Type 0} → M A → (A → M B) → M B
bind m rest s = after rest (m s)

abbrev pub lift : {A : Type 0} → Result A → M A
lift r s = (s, r)

abbrev pub emit : List Event → M (Unit {0})
emit es s = (record s { events = s.events ++ es }, ok tt)

-- `getDefaultDBPath`
unfoldable pub default_db_path : Result Str → Result Str
default_db_path (err e) = err (errorf "home folder not set, DB path must be specified" [])
default_db_path (ok []) = err (errorf "home folder not set, DB path must be specified" [])
default_db_path (ok (c ∷ home)) = ok (
    join_path
      (join_path (join_path (join_path (c ∷ home) (codes ".local")) (codes "share"))
        (codes "cvetool"))
      (codes "matcher.db"))

-- An error with a text of its own.
abbrev pub masked : Error → Result (Unit {0}) → Result (Unit {0})
masked e (err f) = err e
masked e (ok u) = ok u

-- A part whose error is wrapped.
abbrev pub wrapping : {A : Type 0} → String → M A → M A
wrapping format m s = let (t, r) = m s in (t, wrap format [] r)

unfoldable pub opened_libindex : Result (Unit {0}) → M (Unit {0})
opened_libindex (err e) s = (s, err e)
opened_libindex (ok u) s =
    (record s { libindex = true; events = s.events ++ (opens_libindex ∷ []) }, ok tt)

-- The `switch` on the error of `li.Index`
unfoldable pub after_index : {A : Type 0} → Indexed A → Result A
after_index (complete found) = ok found
after_index (inaccessible found e) = ok found
after_index (invalid_layer e) =
    err (wrapf "error creating index report due to invalid layer: %v" [] e)
after_index (broken e) = err (wrapf "error creating index report: %v" [] e)

unfoldable pub configuration :
    Option ScanCatalog → Result (RepositoryScannerConfig → RepositoryScannerConfig)
configuration none = ok (λ config. config)
configuration (some s) = wrap "error configuring scan catalog" [] (configure_scanner (some s))

-- The end of a scan: the advice, if there is no catalog, and the status, if there are
-- vulnerabilities.
abbrev pub advice_events : Str → List Event
advice_events [] = []
advice_events (c ∷ text) = advises (c ∷ text) ∷ []

abbrev pub status_of : ℕ → ℤ → ℤ → ℤ
status_of zero code old = old
status_of (suc n) code old = code

unfoldable pub finish_report : Flags → Bool → ℕ → M (Unit {0})
finish_report flags has_catalog n s = (
  record s {
    events =
        s.events
        ++ (if has_catalog then [] else advice_events (catalog_advice n flags.catalog_path));
    exit_code = status_of n flags.return_code s.exit_code;
  },
  ok tt,
)

-- A catalog with the contents of its reader.
abbrev pub Opened : Type 0
Opened = ScanCatalog × Catalog

unfoldable pub acquired : Result (Option Prepared) → M (Option Opened)
acquired (err e) s = (s, err (wrapf "error preparing scan catalog" [] e))
acquired (ok none) s = (s, ok none)
acquired (ok (some p)) s = (
  record s { events = s.events ++ map releases p.effects },
  wrap "error preparing scan catalog" [] p.result >>= λ prepared.
      ok (some (prepared, p.state.contents)),
)

-- `closeScanResources`
abbrev pub closing_events : Bool → List Event
closing_events true = closes_libindex ∷ closes_arena ∷ []
closing_events false = closes_arena ∷ []

unfoldable pub close_errors : Bool → Option Error → Option Error → List Error
close_errors true (some e) (some f) = e ∷ f ∷ []
close_errors true (some e) none = e ∷ []
close_errors _ _ (some f) = f ∷ []
close_errors _ _ none = []

-- `errors.Join(err, closeErr)`
unfoldable pub join_result : Result (Unit {0}) → Result (Unit {0}) → Result (Unit {0})
join_result scan (ok u) = scan
join_result (ok u) (err f) = err f
join_result (err e) (err f) = err (joined e f)
