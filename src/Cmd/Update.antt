-- ===== src/Cmd/Update.antt =====
-- cmd/cvetool/update.go: when an old database is updated, and what the command does then.
pub mod Age
mod Tests
use Prim.Native.Nat.{◌/◌, ◌%◌}
use cvetool.Prelude.{
  ltb, ◌==◌, if◌then◌else◌, errorf, wrapf, Result, err, ok, wrap, fail_if, ◌>>=◌, ◌>>◌, ℕ, ◌+◌, ◌-◌,
  Bool, not, ◌&&◌, some, List, [], ◌∷◌, ◌++◌,
}
use cvetool.Text.{Str, codes, Dict, pos, format_int}
use cvetool.Datastore.Tables.{vulnerability_kind, Database, max}
use cvetool.Datastore.Operations.{UpdateOperation, get_update_operations}
use cvetool.Cmd.Scan.Steps.{default_db_path}

-- Durations in seconds.
abbrev pub hour : ℕ
hour = 3600

abbrev pub day : ℕ
day = 86400

abbrev pub old_database_threshold : ℕ
old_database_threshold = 2592000

-- `formatDatabaseAgeThreshold` for a whole number of seconds; `duration_string` is the method
-- `String` of time.Duration.
pub format_database_age_threshold : (ℕ → Str) → ℕ → Str
format_database_age_threshold duration_string d =
    if d == 0
    then codes "0"
    else if d % day == 0
    then (if d / day == 1 then codes "1 day" else format_int (pos (d / day)) ++ codes " days")
    else if d % hour == 0
    then (if d / hour == 1 then codes "1 hour" else format_int (pos (d / hour)) ++ codes " hours")
    else duration_string d

-- The loop over the operations of each updater, whose first one is the newest; a zero time is 0.
pub last_update : Dict (List UpdateOperation) → ℕ → ℕ
last_update [] last = last
last_update ((updater, []) ∷ ops) last = last_update ops last
last_update ((updater, o ∷ os) ∷ ops) last = last_update ops (max last o.date)

-- The refusal, after the message on the last update.
pub check_age : Bool → ℕ → ℕ → Str → (ℕ → Str) → Result (Unit {0})
unfolding format_database_age_threshold
check_age allow now last path duration_string =
    fail_if (not (last == 0) && (ltb old_database_threshold (now - last) && not allow)) (
      errorf
        "Database more than %s old, refusing to update. Delete the database at %s and run this command again."
        (format_database_age_threshold duration_string old_database_threshold ∷ path ∷ []))

-- The effects: directories that are made, the updates that claircore fetches, the vacuum.
pub data Event : Type 0 where
  makes_directory : Str → Event
  fetches : Event
  vacuums : Event

-- The answers of the calls. `dir` is filepath.Dir, `operations` what GetUpdateOperations answers on
-- the database with the path.
pub record Calls : Type 0 where
  pub home : Result Str
  pub exists : Str → Bool
  pub dir : Str → Str
  pub mkdir_all : Str → Result (Unit {0})
  pub new_store : Str → Result Database
  pub now : ℕ
  pub new_libvuln : Result (Unit {0})
  pub fetch_updates : Result (Unit {0})
  pub vacuum : Result (Unit {0})
  pub duration_string : ℕ → Str

-- The path of the database, with the directory that is made for it.
default_path : Calls → Str → List Event × Result Str
default_path calls path = if calls.exists path then ([], ok path) else (
  makes_directory (calls.dir path) ∷ [],
  wrap "unable to create database path, %s" [] (calls.mkdir_all (calls.dir path)) >>= λ u. ok path,
)

database_path : Calls → Str → List Event × Result Str
unfolding default_path
database_path calls (c ∷ path) = ([], ok (c ∷ path))
database_path calls [] = elim (default_db_path calls.home) as (λ r. List Event × Result Str) [
  | err e ↦ ([], err e)
  | ok path ↦ default_path calls path
]

-- The end of the command: what is fetched is stored, and then the database is vacuumed.
vacuumed : Calls → List Event × Result (Unit {0})
vacuumed calls = (vacuums ∷ [], wrap "error vacuum database : %v" [] calls.vacuum)

fetched : Calls → Result (Unit {0}) → List Event × Result (Unit {0})
unfolding vacuumed
fetched calls (err e) = (fetches ∷ [], err (wrapf "error updating vulnerabilities: %v" [] e))
fetched calls (ok u) = let (events, r) = vacuumed calls in (fetches ∷ events, r)

opened : Calls → Result (Unit {0}) → List Event × Result (Unit {0})
unfolding fetched
opened calls (err e) = ([], err (wrapf "error creating Libvuln: %v" [] e))
opened calls (ok u) = fetched calls calls.fetch_updates

checked : Calls → Result (Unit {0}) → List Event × Result (Unit {0})
unfolding opened
checked calls (err e) = ([], err e)
checked calls (ok u) = opened calls calls.new_libvuln

stored : Calls → Bool → Str → Result Database → List Event × Result (Unit {0})
unfolding checked check_age last_update
stored calls allow path (err e) = ([], err (wrapf "error creating sqlite backend: %v" [] e))
stored calls allow path (ok d) = checked calls (
    check_age allow calls.now (last_update (get_update_operations (some vulnerability_kind) [] d) 0)
      path calls.duration_string)

located : Calls → Bool → List Event × Result Str → List Event × Result (Unit {0})
unfolding stored
located calls allow (events, err e) = (events, err e)
located calls allow (events, ok path) =
    let (more, r) = stored calls allow path (calls.new_store path) in (events ++ more, r)

-- `update`, with the flags `db-path` and `allow-updating-old-database`
pub update : Calls → Str → Bool → List Event × Result (Unit {0})
unfolding located database_path
update calls path allow = located calls allow (database_path calls path)
