-- ===== src/Cmd/Locks.antt =====
-- cmd/cvetool/tmp_locallock.go: locks named by keys. Every method holds the mutex for its whole body,
-- so a run is a sequence of calls; `Lock` waits until its key is free, so it steps in that state only.
pub mod Exclusion
mod Tests
use cvetool.Prelude.{
  if◌then◌else◌, filter_by, Bool, true, false, not, Option, none, some, List, [], ◌∷◌,
}
use cvetool.Text.{Str, str_eq, contains}

-- `localLockSource`: the keys of the map `m`
pub record LockSource : Type 0 where
  pub held : List Str

-- `delete(s.m, key)`
pub remove_key : List Str → Str → List Str
remove_key held key = filter_by (λ k. not (str_eq k key)) held

-- `NewLocalLockSource`
abbrev pub new_local_lock_source : LockSource
new_local_lock_source = record { held = [] }

-- The cancel function that a call returns: one that releases the key, or the plain one of the context.
pub data CancelFunc : Type 0 where
  releases : Str → CancelFunc
  only_context : CancelFunc

-- The rest of `Lock` after its wait; `none` while the key is held.
pub lock : Str → LockSource → Option (CancelFunc × LockSource)
lock key s =
    if contains s.held key then none else some (releases key, record { held = key ∷ s.held })

-- `TryLock`; the first result is whether the returned context is live.
pub try_lock : Str → LockSource → Bool × CancelFunc × LockSource
try_lock key s =
    if contains s.held key
    then (false, only_context, s)
    else (true, releases key, record { held = key ∷ s.held })

-- A call of a cancel function.
pub cancel : CancelFunc → LockSource → LockSource
cancel (releases key) s = record { held = remove_key s.held key }
cancel only_context s = s

-- `peek`
pub peek : Str → LockSource → Bool
peek key s = contains s.held key
