-- ===== src/Cmd/ScanCatalog/Prepare/Accounted.antt =====
-- A preparation leaks nothing: an error comes with the release of all that was acquired.
use cvetool.Prelude.{In, Error, joined, Result, err, ok, ◌≡◌, refl, ◌⊎◌, inl, inr, List, []}
use cvetool.Text.{Str}
use cvetool.Catalog.Target.Roots.{absolute}
use cvetool.Cmd.ScanCatalog.{
  unlinks, ScanCatalog, Effect, closes_reader, runs_cleanup, removes_all, Answers, close,
}
use cvetool.Cmd.ScanCatalog.Release.{In-close}
use cvetool.Cmd.ScanCatalog.Prepare.{Resource}
use cvetool.Cmd.ScanCatalog.Prepare.{
  ScanCatalogOptions, Environment, Resource, reader, directory, mapping, Preparation, start,
  prepare_body, finished, prepare_scan_catalog,
}
use cvetool.Cmd.ScanCatalog.Prepare.Owned.{IsHeld, IsOwned, HasAbsolute, prepare_body-IsOwned}

-- Among the effects of `Close` is the release of the resource: of a mapping file the call of the
-- cleanup that removes this file, unless it was removed before.
abbrev pub IsReleased : Environment → Preparation → List Effect → Resource → Type 0
IsReleased env s effects reader = In closes_reader effects
IsReleased env s effects (directory dir) =
    (path : Str) × (absolute env.system dir ≡ ok path) × In (removes_all path) effects
IsReleased env s effects (mapping path) =
    In (runs_cleanup (unlinks path)) effects ⊎ In path s.removed

-- An error comes after `Close` has released everything that was acquired. A result has all that was
-- acquired in its fields, and nothing was released.
abbrev pub IsAccounted : Environment → Preparation → List Effect → Result ScanCatalog → Type 0
IsAccounted env s effects (err e) = (r : Resource) → In r s.acquired → IsReleased env s effects r
IsAccounted env s effects (ok prepared) = (prepared ≡ s.prepared) × (effects ≡ []) × IsOwned env s

module _ (env : Environment) (answers : Answers) where
  held-IsReleased :
      (s : Preparation) (r : Resource)
      → IsHeld env s r
      → IsReleased env s (close answers s.prepared).1 r
  held-IsReleased s reader h = In-close answers s.prepared closes_reader h
  held-IsReleased s (directory dir) (e, n) = (
    s.prepared.temp_dir,
    e,
    In-close answers s.prepared (removes_all s.prepared.temp_dir) (refl, n),
  )
  held-IsReleased s (mapping path) (inl (e, p)) =
      inl (In-close answers s.prepared (runs_cleanup (unlinks path)) e)
  held-IsReleased s (mapping path) (inr i) = inr i

  joined-IsAccounted :
      (s : Preparation) (e : Error) (r : Result (Unit {0}))
      → IsOwned env s
      → IsAccounted env s
          (close answers s.prepared).1
          (elim r as (λ z. Result ScanCatalog) [ ok u ↦ err e | err f ↦ err (joined e f) ])
  joined-IsAccounted s e (ok u) h = λ r i. held-IsReleased s r (h r i)
  joined-IsAccounted s e (err f) h = λ r i. held-IsReleased s r (h r i)

  finished-IsAccounted :
      (p : Preparation × Result (Unit {0}))
      → IsOwned env p.0
      → IsAccounted env
          (finished answers p).state
          (finished answers p).effects
          (finished answers p).result
  unfolding finished
  finished-IsAccounted (s, ok u) h = (refl, refl, h)
  finished-IsAccounted (s, err e) h = joined-IsAccounted s e (close answers s.prepared).2 h

  -- Whatever the calls answer, `prepareScanCatalog` leaks nothing: after an error, `Close` has closed
  -- the reader and removed the directory and the mapping file that were acquired until then; a result
  -- has them in its fields, where a later `Close` finds them. The condition is that the directory of
  -- os.MkdirTemp has an absolute path that is not empty.
  pub prepare_scan_catalog-IsAccounted :
      (options : ScanCatalogOptions)
      → HasAbsolute env
      → let p = prepare_scan_catalog env answers options in
        IsAccounted env p.state p.effects p.result
  unfolding prepare_scan_catalog
  prepare_scan_catalog-IsAccounted options abs =
      finished-IsAccounted (prepare_body env options start) (prepare_body-IsOwned env options abs)
