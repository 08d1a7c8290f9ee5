-- ===== src/Reporters/Test/Json.antt =====
-- reporter/test/reporter.go: the JSON of a snapshot, as the object that is encoded, and the
-- conversion of a reporter of unknown type.
use health.Base.{Bool, false, none, Option, refl, some, String, string_eq, true, ℕ, [], ◌∷◌, ◌≡◌}
use health.Base.Assoc.{Assoc, insert_all, lookup}
use health.Check.{CheckResult}
use health.Reporters.Test.{new_test_reporter, Report, TestReporter}

-- A member of the object.
data Member : Type 0 where
  flag : Bool → Member
  count : ℕ → Member
  checks : Assoc String CheckResult → Member

-- `MarshalJSON`: the members in the order of the fields of `alias`. The loop copies the map.
unfoldable marshal_json : Report → Assoc String Member
marshal_json r =
    ("isRunning", flag r.is_running)
    ∷ ("numRunningStateChanges", count r.num_running_state_changes)
    ∷ ("isLive", flag r.is_live)
    ∷ ("numLivenessStateChanges", count r.num_liveness_state_changes)
    ∷ ("numLivenessSetTrue", count r.num_liveness_set_true)
    ∷ ("numLivenessSetFalse", count r.num_liveness_set_false)
    ∷ ("isReady", flag r.is_ready)
    ∷ ("numReadinessStateChanges", count r.num_readiness_state_changes)
    ∷ ("numReadinessSetTrue", count r.num_readiness_set_true)
    ∷ ("numReadinessSetFalse", count r.num_readiness_set_false)
    ∷ ("isStartup", flag r.is_startup)
    ∷ ("numStartupStateChanges", count r.num_startup_state_changes)
    ∷ ("numStartupSetTrue", count r.num_startup_set_true)
    ∷ ("numStartupSetFalse", count r.num_startup_set_false)
    ∷ ("numHealthCheckUpdates", count r.num_health_check_updates)
    ∷ ("healthChecks", checks (insert_all r.health_checks []))
    ∷ []

-- The type assertion of `FromReporter` gives the reporter, if it is one of this package.
unfoldable from_reporter : Option TestReporter → TestReporter × Bool
from_reporter none = (new_test_reporter, false)
from_reporter (some reporter) = (reporter, true)

read_flag : Option Member → Bool
read_flag (some (flag b)) = b
read_flag _ = false

read_count : Option Member → ℕ
read_count (some (count n)) = n
read_count _ = 0

read_checks : Option Member → Assoc String CheckResult
read_checks (some (checks l)) = l
read_checks _ = []

-- The snapshot that an object shows to a reader who looks up each member by its name.
read_report : Assoc String Member → Report
read_report o = record {
  is_running = read_flag (lookup "isRunning" o);
  num_running_state_changes = read_count (lookup "numRunningStateChanges" o);
  is_live = read_flag (lookup "isLive" o);
  num_liveness_state_changes = read_count (lookup "numLivenessStateChanges" o);
  num_liveness_set_true = read_count (lookup "numLivenessSetTrue" o);
  num_liveness_set_false = read_count (lookup "numLivenessSetFalse" o);
  is_ready = read_flag (lookup "isReady" o);
  num_readiness_state_changes = read_count (lookup "numReadinessStateChanges" o);
  num_readiness_set_true = read_count (lookup "numReadinessSetTrue" o);
  num_readiness_set_false = read_count (lookup "numReadinessSetFalse" o);
  is_startup = read_flag (lookup "isStartup" o);
  num_startup_state_changes = read_count (lookup "numStartupStateChanges" o);
  num_startup_set_true = read_count (lookup "numStartupSetTrue" o);
  num_startup_set_false = read_count (lookup "numStartupSetFalse" o);
  num_health_check_updates = read_count (lookup "numHealthCheckUpdates" o);
  health_checks = read_checks (lookup "healthChecks" o);
}

-- No member is left out or shadowed by another: the object gives back the snapshot, with the copy
-- of the results.
read_report-marshal_json :
    (r : Report)
    → read_report (marshal_json r) ≡ record r { health_checks = insert_all r.health_checks [] }
unfolding marshal_json lookup read_report read_flag read_count read_checks
read_report-marshal_json r = refl
