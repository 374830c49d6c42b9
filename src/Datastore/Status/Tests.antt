-- ===== src/Datastore/Status/Tests.antt =====
-- Three attempts of two updaters.
use cvetool.Prelude.{◌≡◌, refl, true, Option, none, some, List, [], ◌∷◌, String, ℕ}
use cvetool.Text.{str_eq, Str, codes}
use cvetool.Datastore.Status.{record_updater_set_status, Attempt, record_updater_status}
use cvetool.Datastore.Status.History.{status_of, after_attempts, summary, status_of-after_attempts}

abbrev attempt : String → ℕ → Option Str → Attempt
attempt name time error = record {
  updater_name = codes name;
  update_time = time;
  fingerprint = codes "f";
  updater_error = error;
}

-- The last one first.
abbrev history : List Attempt
history =
    attempt "rhel" 3 none ∷ attempt "osv" 2 none ∷ attempt "rhel" 1 (some (codes "timeout")) ∷ []

-- The error of the first attempt is still there.
status_run :
    status_of (after_attempts history) (codes "rhel")
    ≡ some (record {
      updater_name = codes "rhel";
      last_attempt = 3;
      last_success = some 3;
      last_run_succeeded = true;
      last_attempt_fingerprint = codes "f";
      last_error = some (codes "timeout");
    })
unfolding record_updater_status cvetool.Text.str_eq
status_run = refl

status_of-after_attempts_example :
    status_of (after_attempts history) (codes "rhel") ≡ summary history (codes "rhel")
status_of-after_attempts_example = status_of-after_attempts history (codes "rhel")

-- A success of a set of updaters, for a LIKE that compares the whole texts.
set_run :
    record_updater_set_status str_eq
      (codes "os")
      5
      (record_updater_status (attempt "os%" 2 (some [])) [])
    ≡ record {
      updater_name = codes "os%";
      last_attempt = 5;
      last_success = some 5;
      last_run_succeeded = true;
      last_attempt_fingerprint = codes "f";
      last_error = some [];
    }
      ∷ []
unfolding record_updater_set_status record_updater_status cvetool.Text.str_eq
set_run = refl
