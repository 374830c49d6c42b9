-- ===== src/Datastore/Status.antt =====
-- datastore/sqlite/updater.go: the table `updater_status`. The operator LIKE is a parameter.
pub mod History
mod Tests
use cvetool.Prelude.{
  if◌then◌else◌, ℕ, ◌+◌, Bool, true, false, Option, none, some, List, [], ◌∷◌, ◌++◌,
}
use cvetool.Text.{Str, codes, str_eq}

-- `updater_status`; a column that was never set is NULL.
pub record StatusRow : Type 0 where
  pub updater_name : Str
  pub last_attempt : ℕ
  pub last_success : Option ℕ
  pub last_run_succeeded : Bool
  pub last_attempt_fingerprint : Str
  pub last_error : Option Str

-- The arguments of RecordUpdaterStatus: the text of the error, if there is one.
pub record Attempt : Type 0 where
  pub updater_name : Str
  pub update_time : ℕ
  pub fingerprint : Str
  pub updater_error : Option Str

-- The row that either statement inserts.
pub inserted : Attempt → Option Str → StatusRow
inserted a none = record {
  updater_name = a.updater_name;
  last_attempt = a.update_time;
  last_success = some a.update_time;
  last_run_succeeded = true;
  last_attempt_fingerprint = a.fingerprint;
  last_error = none;
}
inserted a (some e) = record {
  updater_name = a.updater_name;
  last_attempt = a.update_time;
  last_success = none;
  last_run_succeeded = false;
  last_attempt_fingerprint = a.fingerprint;
  last_error = some e;
}

-- `DO UPDATE SET …` of either statement
pub updated : Attempt → Option Str → StatusRow → StatusRow
updated a none r = record r {
  last_attempt = a.update_time;
  last_success = some a.update_time;
  last_run_succeeded = true;
  last_attempt_fingerprint = a.fingerprint;
}
updated a (some e) r = record r {
  last_attempt = a.update_time;
  last_run_succeeded = false;
  last_attempt_fingerprint = a.fingerprint;
  last_error = some e;
}

-- `RecordUpdaterStatus`
pub record_updater_status : Attempt → List StatusRow → List StatusRow
unfolding inserted updated
record_updater_status a [] = inserted a a.updater_error ∷ []
record_updater_status a (r ∷ rs) =
    let rest = record_updater_status a rs in
    if str_eq r.updater_name a.updater_name then updated a a.updater_error r ∷ rs else r ∷ rest

module _ (like : Str → Str → Bool) where
  -- `RecordUpdaterSetStatus`
  unfoldable pub record_updater_set_status : Str → ℕ → List StatusRow → List StatusRow
  record_updater_set_status updater_set update_time [] = []
  record_updater_set_status updater_set update_time (r ∷ rs) =
      (if like r.updater_name (updater_set ++ codes "%")
        then record r {
          last_attempt = update_time;
          last_success = some update_time;
          last_run_succeeded = true;
        }
        else r)
      ∷ record_updater_set_status updater_set update_time rs
