-- ===== src/Cmd/ScanCatalog/Release.antt =====
-- The release of the resources of a prepared catalog.
use mathlib.Core.Path.{subst}
use cvetool.Prelude.{
  In, In-append_left, In-append_right, Error, errorf, wrapf, joined, external, Result, err, ok,
  String, ◌≡◌, refl, sym, ap, ◌∙◌, ◌≢◌, ◌↔◌, ◌⊎◌, inl, inr, Bool, true, false, not, Option, none,
  some, List, [], ◌∷◌,
}
use cvetool.Text.{Str, remove}
use cvetool.Catalog.Nevra.{is_empty}
use cvetool.Cmd.ScanCatalog.{
  Cleanup, ScanCatalog, Effect, closes_reader, runs_cleanup, removes, removes_all, if_some,
  cleanup_effects, Answers, wrapped, reader_errors, path_errors, join_errors, close,
  close_scan_catalog,
}

-- After `Close` a second call has no effects and no error, whatever the first one answered.
pub close-close :
    (answers again : Answers) (s : ScanCatalog)
    → ((close again (close answers s).0).1 ≡ []) × ((close again (close answers s).0).2 ≡ ok tt)
unfolding close is_empty join_errors reader_errors path_errors
close-close answers again s = (refl, refl)

closed_iff :
    (scan result : Result (Unit {0}))
    → (elim result as (λ z. Result (Unit {0})) [
      | ok u ↦ scan
      | err e ↦ elim scan as (λ z. Result (Unit {0})) [
        | ok u ↦ err (wrapf "error closing scan catalog" [] e)
        | err f ↦ err (joined f (wrapf "error closing scan catalog" [] e))
      ]
    ]
        ≡ ok tt)
      ↔ (scan ≡ ok tt) × (result ≡ ok tt)
closed_iff scan (ok u) = (λ h. (h, refl), λ (h, k). h)
closed_iff (ok u) (err e) = (λ h. cc h, λ (h, k). cc k)
closed_iff (err f) (err e) = (λ h. cc h, λ (h, k). cc k)

-- The release succeeds exactly where the scan succeeded and `Close` has no error; its effects are
-- those of `Close`.
pub close_scan_catalog_iff :
    (answers : Answers) (scan : Result (Unit {0})) (s : ScanCatalog)
    → (((close_scan_catalog answers scan (some s)).1 ≡ ok tt)
        ↔ (scan ≡ ok tt) × ((close answers s).2 ≡ ok tt))
      × ((close_scan_catalog answers scan (some s)).0 ≡ (close answers s).1)
unfolding close_scan_catalog
close_scan_catalog_iff answers scan s = (closed_iff scan (close answers s).2, refl)

-- The error is the other one, or in its chain, where `errors.Is` finds it.
unfoldable pub Wraps : Error → Error → Type 0
Wraps e (errorf format args) = e ≡ errorf format args
Wraps e (wrapf format args f) = (e ≡ wrapf format args f) ⊎ Wraps e f
Wraps e (joined f g) = (e ≡ joined f g) ⊎ (Wraps e f ⊎ Wraps e g)
Wraps e (external n) = e ≡ external n

Wraps-self : (e : Error) → Wraps e e
unfolding Wraps
Wraps-self (errorf format args) = refl
Wraps-self (wrapf format args f) = inl refl
Wraps-self (joined f g) = inl refl
Wraps-self (external n) = refl

-- The result is an error that wraps the given one.
abbrev pub Reports : Result (Unit {0}) → Error → Type 0
Reports r e = (f : Error) × (r ≡ err f) × Wraps e f

join_errors-Reports :
    (es : List Error) (e f : Error) → In e es → Wraps f e → Reports (join_errors es) f
unfolding join_errors Wraps
join_errors-Reports [] e f i w = absurd i
join_errors-Reports (x ∷ es) e f (inl q) w =
    first (join_errors es) (subst (λ z. Wraps f z) (sym q) w)
  where
    first :
        (r : Result (Unit {0}))
        → Wraps f x
        → Reports (elim r as (λ z. Result (Unit {0})) [ ok u ↦ err x | err g ↦ err (joined x g) ]) f
    first (ok u) w = (x, refl, w)
    first (err g) w = (joined x g, refl, inr (inl w))
join_errors-Reports (x ∷ es) e f (inr i) w =
    let (g, q, v) = join_errors-Reports es e f i w in rw q (joined x g, refl, inr (inr v))

-- What is held and cannot be released: the reader, the file of the mapping, the directory.
abbrev pub Fails : Answers → ScanCatalog → Error → Type 0
Fails answers s e =
    ((s.reader ≡ true) × (answers.close_reader ≡ some e))
    ⊎ (((s.mapping_path ≢ []) × (answers.remove s.mapping_path ≡ some e))
        ⊎ ((s.temp_dir ≢ []) × (answers.remove_all s.temp_dir ≡ some e)))

path_errors-In :
    (format : String) (path : Str) (remove : Str → Option Error) (e : Error)
    → path ≢ []
    → remove path ≡ some e
    → In (wrapf format [] e) (path_errors format path remove)
unfolding path_errors wrapped
path_errors-In format [] remove e n h = absurd (n refl)
path_errors-In format (c ∷ path) remove e n h = rw h (inl refl)

close-Reports :
    (answers : Answers) (s : ScanCatalog) (e : Error)
    → Fails answers s e
    → Reports (close answers s).2 e
unfolding close Wraps reader_errors
close-Reports answers s e (inl (held, q)) =
    join_errors-Reports _ e e
      (In-append_left e (reader_errors s.reader answers.close_reader) _ (of_reader held q))
      (Wraps-self e)
  where
    of_reader :
        s.reader ≡ true
        → answers.close_reader ≡ some e
        → In e (reader_errors s.reader answers.close_reader)
    of_reader held q = rw (held, q) (inl refl)
close-Reports answers s e (inr (inl (n, q))) =
    let mapping : String = "remove temporary catalog mapping" in
    join_errors-Reports _ (wrapf mapping [] e) e
      (In-append_right (wrapf mapping [] e) (reader_errors s.reader answers.close_reader) _ (
        In-append_left (wrapf mapping [] e) (path_errors mapping s.mapping_path answers.remove) _
          (path_errors-In mapping s.mapping_path answers.remove e n q)))
      (inr (Wraps-self e))
close-Reports answers s e (inr (inr (n, q))) =
    let mapping : String = "remove temporary catalog mapping" in
    let directory : String = "remove scan catalog directory" in
    join_errors-Reports _ (wrapf directory [] e) e
      (In-append_right (wrapf directory [] e) (reader_errors s.reader answers.close_reader) _ (
        In-append_right (wrapf directory [] e) (path_errors mapping s.mapping_path answers.remove) _
          (path_errors-In directory s.temp_dir answers.remove_all e n q)))
      (inr (Wraps-self e))

-- What the caller of a scan gets of a scan's result and that of `Close`.
abbrev with_close : Result (Unit {0}) → Result (Unit {0}) → Result (Unit {0})
with_close scan result = elim result [
  | ok u ↦ scan
  | err e ↦ elim scan [
    | ok u ↦ err (wrapf "error closing scan catalog" [] e)
    | err f ↦ err (joined f (wrapf "error closing scan catalog" [] e))
  ]
]

scan_kept :
    (f : Error) (scan result : Result (Unit {0}))
    → scan ≡ err f
    → Reports (with_close scan result) f
unfolding Wraps
scan_kept f (ok u) result q = cc q
scan_kept f (err g) (ok u) q = (g, refl, subst (Wraps f) (cc q) (Wraps-self f))
scan_kept f (err g) (err e) q = (_, refl, inr (inl (subst (Wraps f) (cc q) (Wraps-self f))))

close_kept :
    (e : Error) (scan result : Result (Unit {0}))
    → Reports result e
    → Reports (with_close scan result) e
unfolding Wraps
close_kept e (ok u) (ok v) (g, q, w) = cc q
close_kept e (err f) (ok v) (g, q, w) = cc q
close_kept e (ok u) (err h) (g, q, w) = (_, refl, inr (subst (Wraps e) (cc q) w))
close_kept e (err f) (err h) (g, q, w) = (_, refl, inr (inr (inr (subst (Wraps e) (cc q) w))))

-- The release loses no error: where the scan failed, the result is an error that wraps the scan's,
-- and where the reader does not close, or the mapping file or the directory that the catalog holds
-- is not removed, the result is an error that wraps that one. It is a success only where the scan
-- succeeded.
pub close_scan_catalog_keeps :
    (answers : Answers) (scan : Result (Unit {0})) (s : ScanCatalog)
    → let result = (close_scan_catalog answers scan (some s)).1 in
      ((f : Error) → scan ≡ err f → Reports result f)
      × ((e : Error) → Fails answers s e → Reports result e)
      × (result ≡ ok tt → scan ≡ ok tt)
unfolding close_scan_catalog
close_scan_catalog_keeps answers scan s = (
  λ f q. scan_kept f scan (close answers s).2 q,
  λ e h. close_kept e scan (close answers s).2 (close-Reports answers s e h),
  λ h. ((closed_iff scan (close answers s).2).0 h).0,
)

-- What has to be released of what a catalog holds: the reader is closed, the cleanup is run, the
-- mapping file and the directory are removed.
abbrev pub IsDue : ScanCatalog → Effect → Type 0
IsDue s closes_reader = s.reader ≡ true
IsDue s (runs_cleanup c) = s.mapping_cleanup ≡ some c
IsDue s (removes path) = (s.mapping_path ≡ path) × (is_empty path ≡ false)
IsDue s (removes_all path) = (s.temp_dir ≡ path) × (is_empty path ≡ false)

In-if_some : (b : Bool) (e : Effect) → b ≡ true → In e (if_some b e)
In-if_some true e h = inl refl
In-if_some false e h = cc h

In-cleanup_effects :
    (o : Option Cleanup) (c : Cleanup) → o ≡ some c → In (runs_cleanup c) (cleanup_effects o)
In-cleanup_effects none c h = cc h
In-cleanup_effects (some d) c h = inl (cc h)

-- All of it is among the effects of `Close`.
pub In-close :
    (answers : Answers) (s : ScanCatalog) (e : Effect) → IsDue s e → In e (close answers s).1
unfolding close
In-close answers s closes_reader h = In-append_left closes_reader _ _ (In-if_some _ closes_reader h)
In-close answers s (runs_cleanup c) h =
    In-append_right (runs_cleanup c) (if_some s.reader closes_reader) _
      (In-append_left (runs_cleanup c) _ _ (In-cleanup_effects s.mapping_cleanup c h))
In-close answers s (removes path) (p, n) =
    In-append_right (removes path) (if_some s.reader closes_reader) _ (
      In-append_right (removes path) (cleanup_effects s.mapping_cleanup) _ (
        In-append_left (removes path)
          (if_some (not (is_empty s.mapping_path)) (removes s.mapping_path)) _
          (subst
            (λ z. In (removes z) (if_some (not (is_empty s.mapping_path)) (removes s.mapping_path)))
            p (In-if_some _ (removes s.mapping_path) (ap not (ap is_empty p ∙ n))))))
In-close answers s (removes_all path) (p, n) =
    In-append_right (removes_all path) (if_some s.reader closes_reader) _ (
      In-append_right (removes_all path) (cleanup_effects s.mapping_cleanup) _ (
        In-append_right (removes_all path)
          (if_some (not (is_empty s.mapping_path)) (removes s.mapping_path)) _
          (subst
            (λ z. In (removes_all z) (if_some (not (is_empty s.temp_dir)) (removes_all s.temp_dir)))
            p (In-if_some _ (removes_all s.temp_dir) (ap not (ap is_empty p ∙ n))))))
