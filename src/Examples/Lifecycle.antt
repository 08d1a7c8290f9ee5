-- ===== src/Examples/Lifecycle.antt =====
-- Registration, `Run` and `Stop` at concrete inputs.
use health.Manager.Lifecycle.{
  add_check, add_reporter, blocked, failed, run_finish, run_start, started, stop,
}
use health.Reporter.{ReporterOps}
use health.Errors.{end, Error, is, wrapped}
use health.Manager.State.{is_ready, Manager, new_manager, running}
use health.SyncMap.{each_object, each_object_entry, get, size, with_entries, zero_map}
use health.Reporters.Test.{new_test_reporter, run, test_ops, TestReporter}
use health.Manager.Fitness.Correct.{HasFlags}
use health.Base.Assoc.{lookup}
use health.Base.{
  arith, false, inl, is_some, List, none, refl, some, String, string_eq, true, [], ◌↔◌, ◌∷◌, ◌≡◌,
}
use health.Examples.Data.{idle, reported, result_of, steady, stopped, unread}
use health.Manager.Fitness.Aggregate.{NoneCancels}
use health.Manager.Lifecycle.Stopping.{
  is_harmless, stop-error, stop_lem, stopping, told_and_stopped,
}
use health.Check.{unhealthy}
use health.Manager.Lifecycle.Restart.{added_check-not_awaited, added_reporter-untold}
use health.Manager.Lifecycle.Running.{run_start-started, RunsChecks}
use health.Manager.Lifecycle.Failing.{run_start-blocks, run_start-invalid}
use health.Manager.Fitness.{evaluate_fitness}
use health.Manager.Flags.{notify, set_ready}
use health.Manager.Workers.{Worker}
use health.Manager.Invariant.{entries_of}

stop_lem_example :
    let m = (stop test_ops none reported).0 in
    (running m ≡ false)
    × (is_ready m ≡ false)
    × (m.live_ptr ≡ 1)
    × (m.startup_ptr ≡ 0)
    × ((name : String)
        → get name m.reporters
          ≡ mathlib.Core.Option.map
              (told_and_stopped test_ops reported)
              (get name reported.reporters))
stop_lem_example = stop_lem test_ops none reported refl

-- A reporter that cannot be stopped.
abbrev stubborn_ops : ReporterOps TestReporter
stubborn_ops = record test_ops { stop = λ r. (r, some (wrapped "busy" end)) }

stop-error_example :
    (((stop stubborn_ops none reported).1 ≡ none) ↔ (
      (name : String) (r : TestReporter)
      → get name (stopping stubborn_ops reported).reporters ≡ some r
      → is_harmless (stubborn_ops.stop r).1 ≡ true))
    × ((e : Error) → (stop stubborn_ops none reported).1 ≡ some e → is e "health" ≡ true)
unfolding set_ready notify each_object each_object_entry with_entries lookup
stop-error_example = stop-error stubborn_ops none reported refl (refl, tt)

run_start-invalid_example :
    (e : Error) × (m' : Manager TestReporter) × (run_start test_ops none new_manager ≡ failed m' e)
    × (is e "health" ≡ true)
    × (m'.err_chan ≡ some (record { capacity = 1; queue = e ∷ [] }))
    × (running m' ≡ false)
    × (m'.checkers ≡ zero_map)
    × (m'.reporters ≡ zero_map)
unfolding size
run_start-invalid_example = run_start-invalid test_ops none new_manager refl refl (inl refl)

abbrev unread_manager : Manager TestReporter
unread_manager = record new_manager {
  err_chan = some (record { capacity = 1; queue = unread ∷ [] });
}

run_start-blocks_example :
    (e : Error) × (m' : Manager TestReporter) × (run_start test_ops none unread_manager
      ≡ blocked m' e)
    × (running m' ≡ true)
unfolding size
run_start-blocks_example =
    run_start-blocks test_ops none unread_manager (record { capacity = 1; queue = unread ∷ [] })
      refl refl (omega arith) refl

idle_starts :
    (name : String) (r : TestReporter)
    → get name idle.reporters ≡ some r
    → (test_ops.run r).1 ≡ none
unfolding run
idle_starts name r h = refl

run_start-started_example :
    (m' : Manager TestReporter) × (ws : List Worker) × (run_start test_ops none idle
      ≡ started m' ws)
    × (running m' ≡ true)
    × RunsChecks (entries_of idle.checkers) ws
    × ((name : String)
        → get name m'.reporters
          ≡ mathlib.Core.Option.map (λ r. (test_ops.run r).0) (get name idle.reporters))
unfolding size lookup
run_start-started_example =
    run_start-started test_ops idle refl (λ e. absurd (omega (arith, e)))
      (λ e. absurd (omega (arith, e))) idle_starts (refl, tt)

stopped_starts : (r : TestReporter) → (test_ops.run r).1 ≡ none
unfolding run
stopped_starts r = refl

added_reporter-untold_example :
    (n : Manager TestReporter) × (ws : List Worker) × (run_start test_ops none
        (add_reporter "new" new_test_reporter stopped).0
      ≡ started n ws)
    × (get "new" (run_finish test_ops n).reporters ≡ some (run new_test_reporter).0)
unfolding size lookup
added_reporter-untold_example =
    added_reporter-untold test_ops "new" new_test_reporter stopped refl
      (λ e. absurd (omega (arith, e))) stopped_starts (refl, tt) refl refl

stopped-HasFlags : HasFlags stopped
stopped-HasFlags = record {
  running_flag = omega arith;
  live_flag = omega arith;
  ready_flag = omega arith;
  startup_flag = omega arith;
  ran_flag = omega arith;
  initial_flag = omega arith;
  done_flag = omega arith;
}

stopped_keeps_live : NoneCancels (λ r. r.cancel_live) stopped.check_results
unfolding get lookup
stopped_keeps_live name r h = ground arith

stopped_keeps_ready : NoneCancels (λ r. r.cancel_ready) stopped.check_results
unfolding get lookup
stopped_keeps_ready name r h = ground arith

added_check-not_awaited_example :
    (n : Manager TestReporter) × (ws : List Worker) × (run_start test_ops none
        (add_check "x" (steady (result_of "x" unhealthy)) [] stopped).0
      ≡ started n ws)
    × (is_some (get "x" n.checkers) ≡ true)
    × (get "x" (evaluate_fitness test_ops n).check_results ≡ none)
    × (is_ready (evaluate_fitness test_ops n) ≡ true)
unfolding size get lookup
added_check-not_awaited_example =
    added_check-not_awaited test_ops "x" (steady (result_of "x" unhealthy)) [] stopped
      stopped-HasFlags (refl, tt) refl refl refl stopped_keeps_live stopped_keeps_ready refl
      (λ e. absurd (omega (arith, e))) stopped_starts (refl, tt)
