-- ===== src/Manager/Fitness.antt =====
-- `evaluateFitness` and its parts: the stored results decide startup, liveness and readiness.
pub mod Aggregate
pub mod Correct
pub mod Startup
pub mod Gate
use health.Base.{
  Bool, false, if◌then◌else◌, none, not, Option, some, String, string_eq, true, ◌&&◌, ◌==◌, ◌||◌,
}
use health.SyncMap.{each, get, Map}
use health.Reporter.{ReporterOps}
use health.Manager.State.{is_live, is_ready, Manager, running, Tally, Wrapper}
use health.Manager.Flags.{set_live, set_ready, set_startup}

-- `!ok || r.cancelLive || r.cancelReady`.
abbrev pub blocks_startup : Option Tally → Bool
blocks_startup none = true
blocks_startup (some r) = r.cancel_live || r.cancel_ready

-- The callback over the checkers, whose captured variable is `startupPassed`.
abbrev pub startup_visit : Map String Tally → String → Wrapper → Bool → Bool × Bool
startup_visit results name w passed =
    if not w.opts.affects_startup
    then (passed, true)
    else if blocks_startup (get name results)
    then (false, false)
    else (passed, true)

-- The callback over the results, whose captured variables are `live` and `ready`.
abbrev pub aggregate_visit : String → Tally → Bool × Bool → (Bool × Bool) × Bool
aggregate_visit _ value s = ((s.0 && not value.cancel_live, s.1 && not value.cancel_ready), true)

module _ {R : Type 0} where
  unfoldable pub startup_passed : Manager R → Bool
  startup_passed m = each (startup_visit m.check_results) m.checkers true

  unfoldable pub aggregate_results : Manager R → Bool × Bool
  aggregate_results m = each aggregate_visit m.check_results (true, true)

module _ {R : Type 0} (ops : ReporterOps R) where
  unfoldable pub evaluate_startup : Manager R → Manager R × Bool
  evaluate_startup m =
      if not (m.startup_done == 0)
      then (m, true)
      else if not (startup_passed m)
      then (m, false)
      else ((set_startup ops true (record m { startup_done = 1 })).0, true)

  unfoldable pub apply_liveness_change : Bool → Manager R → Manager R
  apply_liveness_change actually_live m =
      if (if is_live m then actually_live else not actually_live)
      then m
      else (set_live ops actually_live m).0

  unfoldable pub apply_readiness_change : Bool → Bool → Manager R → Manager R
  apply_readiness_change reported_readiness actually_ready m =
      if (if reported_readiness then actually_ready else not actually_ready)
      then m
      else (set_ready ops actually_ready m).0

  -- The block behind the compare-and-swap of `initialReady`, which runs once. It returns the value
  -- of `reportedReadiness` too.
  unfoldable pub first_ready : Bool → Manager R → Manager R × Bool
  first_ready actually_ready m =
      if actually_ready && m.initial_ready == 0
      then ((set_ready ops true (record m { initial_ready = 1 })).0, true)
      else (m, is_ready m)

  -- The part after the startup gate.
  unfoldable pub apply_fitness : Manager R → Manager R
  apply_fitness m =
      let (actually_live, actually_ready) = aggregate_results m in
      let (m1, reported_readiness) = first_ready actually_ready m in
      let m2 = apply_liveness_change actually_live m1 in
      apply_readiness_change reported_readiness (actually_ready && actually_live) m2

  unfoldable pub evaluate_fitness : Manager R → Manager R
  evaluate_fitness m =
      if not (running m)
      then m
      else if m.all_checks_ran == 0
      then m
      else let (m1, complete) = evaluate_startup m in if complete then apply_fitness m1 else m1
