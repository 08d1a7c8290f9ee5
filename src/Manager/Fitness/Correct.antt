-- ===== src/Manager/Fitness/Correct.antt =====
-- `evaluateFitness` sets the flags that the stored results call for.
use health.Base.{arith, false, string_eq, true, ◌&&◌, ◌↔◌, ◌∙◌, ◌≡◌, ◌≤◌, ◌⊎◌}
use health.Reporter.{ReporterOps}
use health.Manager.State.{is_live, is_ready, Manager, running}
use health.Manager.Flags.{flag, set_live, set_ready, set_startup}
use health.Manager.Fitness.{
  aggregate_results, apply_fitness, apply_liveness_change, apply_readiness_change, evaluate_fitness,
  evaluate_startup, first_ready, startup_passed,
}
use health.SyncMap.Laws.{IsMap}
use health.Manager.Fitness.Aggregate.{aggregate_live_iff, aggregate_ready_iff, NoneCancels}

-- The seven words hold 0 or 1.
pub record HasFlags {R : Type 0} (m : Manager R) : Type 0 where
  pub running_flag : m.running_ptr ≤ 1
  pub live_flag : m.live_ptr ≤ 1
  pub ready_flag : m.ready_ptr ≤ 1
  pub startup_flag : m.startup_ptr ≤ 1
  pub ran_flag : m.all_checks_ran ≤ 1
  pub initial_flag : m.initial_ready ≤ 1
  pub done_flag : m.startup_done ≤ 1

module _ {R : Type 0} (ops : ReporterOps R) where
  -- Past the gates, the two words are the aggregates.
  apply_fitness-flags :
      (m : Manager R)
      → HasFlags m
      → m.all_checks_ran ≡ 1
      → m.startup_done ≡ 1
      → ((apply_fitness ops m).live_ptr ≡ flag (aggregate_results m).0)
        × ((apply_fitness ops m).ready_ptr
            ≡ flag ((aggregate_results m).1 && (aggregate_results m).0))
  unfolding apply_fitness first_ready apply_liveness_change apply_readiness_change set_live
      set_ready is_live is_ready
  apply_fitness-flags m f ran done = ground arith

  -- The startup step touches nothing that the aggregates read.
  pub evaluate_startup_frame :
      (m : Manager R)
      → HasFlags m
      → ((evaluate_startup ops m).0.check_results ≡ m.check_results)
        × ((evaluate_startup ops m).0.all_checks_ran ≡ m.all_checks_ran)
        × HasFlags (evaluate_startup ops m).0
        × ((evaluate_startup ops m).1 ≡ true → (evaluate_startup ops m).0.startup_done ≡ 1)
  unfolding evaluate_startup set_startup
  evaluate_startup_frame m f = ground arith

  aggregate_results_frame :
      (m m' : Manager R)
      → m'.check_results ≡ m.check_results
      → aggregate_results m' ≡ aggregate_results m
  unfolding aggregate_results
  aggregate_results_frame m m' e = cc

  pub evaluate_fitness-flags :
      (m : Manager R)
      → HasFlags m
      → running m ≡ true
      → m.all_checks_ran ≡ 1
      → (evaluate_startup ops m).1 ≡ true
      → ((evaluate_fitness ops m).live_ptr ≡ flag (aggregate_results m).0)
        × ((evaluate_fitness ops m).ready_ptr
            ≡ flag ((aggregate_results m).1 && (aggregate_results m).0))
  unfolding evaluate_fitness
  evaluate_fitness-flags m f run ran complete =
      let m1 = (evaluate_startup ops m).0 in
      let (same, still, f1, done) = evaluate_startup_frame m f in
      ground (
        arith,
        apply_fitness-flags m1 f1 (still ∙ ran) (done complete),
        aggregate_results_frame m m1 same,
      )

  -- With words that are 0 or 1 and one result for each name, once every check has reported and the
  -- startup step says that startup is complete, an evaluation by a running manager makes
  -- the service live exactly when no stored result cancels liveness, and ready exactly when none
  -- cancels liveness or readiness.
  pub evaluate_fitness_correct :
      (m : Manager R)
      → HasFlags m
      → IsMap m.check_results
      → running m ≡ true
      → m.all_checks_ran ≡ 1
      → (evaluate_startup ops m).1 ≡ true
      → ((is_live (evaluate_fitness ops m) ≡ true)
          ↔ NoneCancels (λ r. r.cancel_live) m.check_results)
        × ((is_ready (evaluate_fitness ops m) ≡ true) ↔ (
            NoneCancels (λ r. r.cancel_live) m.check_results
            × NoneCancels (λ r. r.cancel_ready) m.check_results))
  unfolding is_live is_ready
  evaluate_fitness_correct m f d run ran complete =
      let (live, ready) = evaluate_fitness-flags m f run ran complete in
      let (live→, →live) = aggregate_live_iff m d in
      let (ready→, →ready) = aggregate_ready_iff m d in
      (
        (λ h. live→ (ground arith), λ h. let c = →live h in ground arith),
        (
          λ h. (live→ (ground arith), ready→ (ground arith)),
          λ h. let c = →live h.0 in let c' = →ready h.1 in ground arith,
        ),
      )

  -- A stopped manager, one that waits for a first report, and one whose startup checks have not
  -- passed, leave everything as it was.
  pub evaluate_fitness-gated :
      (m : Manager R)
      → (running m ≡ false)
        ⊎ (m.all_checks_ran ≡ 0)
        ⊎ ((m.startup_done ≡ 0) × (startup_passed m ≡ false))
      → evaluate_fitness ops m ≡ m
  unfolding evaluate_fitness evaluate_startup
  evaluate_fitness-gated m h = ground arith
