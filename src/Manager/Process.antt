-- ===== src/Manager/Process.antt =====
-- `processHealthCheck`: one report from a checker is stored, counted and relayed.
pub mod Correct
use health.Base.{
  Bool, false, if◌then◌else◌, is_some, none, Option, some, String, string_eq, true, [], ◌&&◌, ◌==◌,
  ◌∷◌,
}
use health.SyncMap.{made, set, size}
use health.Check.{CheckResult, Status, unhealthy}
use health.Reporter.{ReporterOps}
use health.Manager.State.{Context, Manager, Tally}
use health.Manager.Flags.{notify}

-- The switch on the status.
unfoldable pub classify : Status → Bool → Bool → Tally
classify unhealthy affects_liveness affects_readiness =
    if affects_liveness
    then record { cancel_live = true; cancel_ready = true }
    else if affects_readiness
    then record { cancel_live = false; cancel_ready = true }
    else record { cancel_live = false; cancel_ready = false }
classify _ affects_liveness affects_readiness = record { cancel_live = false; cancel_ready = false }

module _ {R : Type 0} where
  -- The deferred function: it runs after the body.
  unfoldable pub record_tally : String → Tally → Manager R → Manager R
  record_tally name r m =
      let m' = record m { check_results = set name r m.check_results } in
      if m'.all_checks_ran == 0 && size m'.check_results == size m'.checkers
      then record m' { all_checks_ran = 1 }
      else m'

module _ {R : Type 0} (ops : ReporterOps R) where
  -- The body past the two guards.
  unfoldable pub process_result : CheckResult → Manager R → Manager R
  unfolding record_tally classify
  process_result hc m =
      let r = classify hc.status hc.affects_liveness hc.affects_readiness in
      let update = made ((hc.name, hc) ∷ []) in
      let m' = record m { reporters = notify (ops.update_health_checks update) m.reporters } in
      record_tally hc.name r m'

  process_when_open : Context → CheckResult → Manager R → Manager R
  unfolding process_result
  process_when_open ctx hc m = if is_some ctx then m else process_result hc m

  -- A nil result and a context that is done are dropped.
  unfoldable pub process_health_check : Context → Option CheckResult → Manager R → Manager R
  unfolding process_when_open
  process_health_check ctx none m = m
  process_health_check ctx (some hc) m = process_when_open ctx hc m
