-- ===== src/System/Verdict.antt =====
-- `evaluateFitness` gives the verdict of the promised service, and a report handled is a report
-- heard.
use health.Base.{arith, Bool-cases, inl, inr, refl, string_eq, true, ap, ◌&&◌, ◌||◌, ◌↔◌, ◌≡◌, ◌∙◌}
use health.Manager.State.{Manager, running}
use health.Manager.Flags.{flag, set_live, set_ready}
use health.Manager.Fitness.{
  aggregate_results, apply_fitness, apply_liveness_change, apply_readiness_change, evaluate_fitness,
  evaluate_startup, first_ready,
}
use health.Manager.Fitness.Gate.{evaluate_startup-AllPass}
use health.Manager.Fitness.Startup.{startup_passed_iff}
use health.Manager.Fitness.Correct.{
  evaluate_fitness-flags, evaluate_fitness-gated, evaluate_startup_frame, HasFlags,
}
use health.Manager.Invariant.{entries_of, evaluate_fitness-maps, IsWf}
use health.System.Mirror.{aggregate_live_eq, aggregate_ready_eq, startup_passes-AllPass, Mirrors}
use health.System.Unharmed.{evaluate_fitness-running}
use health.Reporter.{ReporterOps}
use health.Service.{judge, none_downs_live, none_downs_ready, Service, startup_passes}
use health.Service.Laws.{none_downs_live-of_ready}

module _ {R : Type 0} (ops : ReporterOps R) where
  apply_fitness-done : (m : Manager R) → (apply_fitness ops m).startup_done ≡ m.startup_done
  unfolding apply_fitness first_ready apply_liveness_change apply_readiness_change set_live
      set_ready
  apply_fitness-done m = ground arith

  evaluate_startup-done :
      (m : Manager R)
      → HasFlags m
      → (evaluate_startup ops m).1 ≡ true
      → (evaluate_startup ops m).0.startup_done ≡ 1
  evaluate_startup-done m f e = (evaluate_startup_frame ops m f).3 e

  evaluate_fitness-done :
      (m : Manager R)
      → HasFlags m
      → running m ≡ true
      → m.all_checks_ran ≡ 1
      → (evaluate_startup ops m).1 ≡ true
      → (evaluate_fitness ops m).startup_done ≡ 1
  unfolding evaluate_fitness
  evaluate_fitness-done m f run ran open_gate =
      ground (arith, apply_fitness-done (evaluate_startup ops m).0, evaluate_startup-done m f)

  module _ (m : Manager R) (s : Service) (wf : IsWf m) (mirror : Mirrors m s) where
    gate_iff :
        ((evaluate_startup ops m).1 ≡ true)
        ↔ ((s.started || startup_passes (entries_of m.checkers) s.latest) ≡ true)
    gate_iff =
        let (f, g) = evaluate_startup-AllPass ops m wf.checkers_map in
        let (p, q) = startup_passes-AllPass m s wf mirror in
        (
          λ h. elim (f h) [
            | inl done ↦ ground (arith, mirror.same_started)
            | inr pass ↦ let e = q pass in ground arith
          ],
          λ h. elim (Bool-cases s.started) [
            | inl old ↦ g (inl (ground (arith, mirror.same_started)))
            | inr new ↦ g (inr (p (ground arith)))
          ],
        )

    judged-Mirrors :
        evaluate_fitness ops m ≡ m
        → judge (entries_of m.checkers) s ≡ s
        → Mirrors (evaluate_fitness ops m) (judge (entries_of m.checkers) s)
    judged-Mirrors e e' = rw (e, e') mirror

    verdict :
        running m ≡ true
        → m.all_checks_ran ≡ 1
        → (s.started || startup_passes (entries_of m.checkers) s.latest) ≡ true
        → Mirrors (evaluate_fitness ops m) (record s {
          started = true;
          live = none_downs_live (entries_of m.checkers) s.latest;
          ready = none_downs_ready (entries_of m.checkers) s.latest;
        })
    verdict run ran passed =
        let open_gate = gate_iff.1 passed in
        let (live, ready) = evaluate_fitness-flags ops m wf.flags run ran open_gate in
        let same = evaluate_fitness-maps ops m in
        record {
          same_on = evaluate_fitness-running ops m ∙ mirror.same_on;
          same_complete = same.same_ran ∙ mirror.same_complete;
          same_started = evaluate_fitness-done m wf.flags run ran open_gate;
          same_live = live ∙ ap flag (aggregate_live_eq m s wf mirror);
          same_ready = ready ∙ ap flag (both ∙ aggregate_ready_eq m s wf mirror);
          stored = λ name. rw same.same_results (mirror.stored name);
        }
      where
        both : ((aggregate_results m).1 && (aggregate_results m).0) ≡ (aggregate_results m).1
        both = ground (
          arith,
          aggregate_live_eq m s wf mirror,
          aggregate_ready_eq m s wf mirror,
          none_downs_live-of_ready (entries_of m.checkers) s.latest,
        )

    -- An evaluation is a verdict.
    pub evaluate_fitness-judge : Mirrors (evaluate_fitness ops m) (judge (entries_of m.checkers) s)
    unfolding judge running
    evaluate_fitness-judge = elim (Bool-cases (s.on && s.complete)) [
      | inr waits ↦
          judged-Mirrors
            (evaluate_fitness-gated ops m (elim (Bool-cases s.on) [
              | inl on ↦ inr (inl (ground (arith, mirror.same_complete)))
              | inr off ↦ inl (ground (arith, mirror.same_on))
            ]))
            (rw waits refl)
      | inl ran ↦ elim (Bool-cases (s.started || startup_passes (entries_of m.checkers) s.latest)) [
        | inr pending ↦
            judged-Mirrors
              (evaluate_fitness-gated ops m (
                inr (
                  inr (
                    ground (arith, mirror.same_started),
                    ground (
                      arith,
                      (startup_passed_iff m wf.checkers_map).0,
                      (startup_passes-AllPass m s wf mirror).1,
                    ),
                  ))))
              (rw (ran, pending) refl)
        | inl passed ↦
            rw (ran, passed)
              (verdict (ground (arith, mirror.same_on)) (ground (arith, mirror.same_complete))
                passed)
      ]
    ]
