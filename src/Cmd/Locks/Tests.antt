-- ===== src/Cmd/Locks/Tests.antt =====
-- Runs with one key.
use cvetool.Prelude.{◌≡◌, refl, some, [], ◌∷◌}
use cvetool.Text.{codes}
use cvetool.Cmd.Locks.{LockSource, new_local_lock_source, releases, lock, cancel}
use cvetool.Cmd.Locks.Exclusion.{
  System, locks, Reach, here, next, IsExclusive, start, Reach-IsExclusive, double_cancel,
}

abbrev held_once : LockSource
held_once = record { held = codes "k" ∷ [] }

abbrev one_holder : System
one_holder = record { holders = (1, codes "k") ∷ []; source = held_once }

one_lock : Reach start one_holder
unfolding lock cvetool.Text.contains
one_lock = next here (locks 1 (codes "k") held_once refl refl)

Reach-IsExclusive_example : IsExclusive one_holder
Reach-IsExclusive_example = Reach-IsExclusive one_lock

double_cancel_example :
    (t : LockSource) × (lock (codes "k") (cancel (releases (codes "k")) held_once)
      ≡ some (releases (codes "k"), t))
unfolding lock cvetool.Text.contains cancel cvetool.Cmd.Locks.remove_key cvetool.Prelude.filter_by
    cvetool.Text.str_eq
double_cancel_example =
    double_cancel (codes "k") new_local_lock_source held_once held_once (releases (codes "k"))
      (releases (codes "k")) refl refl
