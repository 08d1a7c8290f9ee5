-- ===== src/Examples/Manager.antt =====
-- The manager's handlers at concrete inputs.
use health.Reporters.Test.{run, shows, test_laws, test_ops, TestReporter}
use health.Manager.Fitness.Correct.{evaluate_fitness_correct, HasFlags}
use health.Manager.State.{is_live, is_ready, running, Wrapper, Manager}
use health.Manager.Fitness.{evaluate_fitness, evaluate_startup, startup_passed}
use health.Base.Assoc.{lookup}
use health.SyncMap.{each, each_entry, get, size}
use health.Check.{CheckResult, healthy, unhealthy}
use health.Examples.Data.{reported, result_of, waiting, idle}
use health.Manager.Invariant.{entries_of, IsWf}
use health.Manager.Process.{process_result}
use health.Base.{
  arith, eq_iff, false, inl, inr, refl, some, String, string_eq, true, ◌↔◌, ◌≡◌, ◌≢◌, ◌⊎◌, ◌∷◌, [],
  List, Bool,
}
use health.Base.Assoc.Count.{KeysWithin}
use health.Manager.Fitness.Startup.{Passes}
use health.Manager.Fitness.Gate.{IsCleared, evaluate_startup_iff, unhealthy_startup-Passes}
use health.Manager.Process.Correct.{process_result-ran_iff}
use health.Manager.Fitness.Aggregate.{NoneCancels}
use health.Manager.Flags.Race.{
  play, turn, late, advance, asked, stopping, play-gate, over, ready_after_stop,
}
use health.Manager.Workers.{run_check, safe_check, apply_check_options}
use health.System.{System, Reach, configured}
use health.Base.Int.{pos}
use health.System.Unharmed.{IsUnharmed, AllGood, handle_all}
use health.System.Progress.{Covers, IsServing, handle_all-ready}
use health.System.Rounds.{AllWell}
use health.System.Serving.{Reach-IsServing}

reported-HasFlags : HasFlags reported
reported-HasFlags = record {
  running_flag = omega arith;
  live_flag = omega arith;
  ready_flag = omega arith;
  startup_flag = omega arith;
  ran_flag = omega arith;
  initial_flag = omega arith;
  done_flag = omega arith;
}

evaluate_fitness_correct_example :
    ((is_live (evaluate_fitness test_ops reported) ≡ true)
      ↔ NoneCancels (λ r. r.cancel_live) reported.check_results)
    × ((is_ready (evaluate_fitness test_ops reported) ≡ true) ↔ (
        NoneCancels (λ r. r.cancel_live) reported.check_results
        × NoneCancels (λ r. r.cancel_ready) reported.check_results))
unfolding running evaluate_startup startup_passed each each_entry get lookup
evaluate_fitness_correct_example =
    evaluate_fitness_correct test_ops reported reported-HasFlags (refl, tt) refl refl refl

waiting-IsWf : IsWf waiting
unfolding lookup
waiting-IsWf = record {
  flags = record {
    running_flag = omega arith;
    live_flag = omega arith;
    ready_flag = omega arith;
    startup_flag = omega arith;
    ran_flag = omega arith;
    initial_flag = omega arith;
    done_flag = omega arith;
  };
  checkers_map = (refl, tt);
  results_map = tt;
  known = λ k p. absurd (cc);
  reported = λ e. absurd (omega arith);
  ready_gate = λ e. absurd (omega arith);
  startup_shown = refl;
}

process_result-ran_iff_example :
    let hc = result_of "db" healthy in
    ((process_result test_ops hc waiting).all_checks_ran ≡ 1)
    ↔ KeysWithin
        (entries_of waiting.checkers)
        (entries_of (process_result test_ops hc waiting).check_results)
unfolding lookup
process_result-ran_iff_example =
    process_result-ran_iff test_ops (result_of "db" healthy) waiting refl waiting-IsWf refl

evaluate_startup_iff_example : ((evaluate_startup test_ops reported).1 ≡ true) ↔ (
    (reported.startup_done ≢ 0)
    ⊎ ((name : String) (w : Wrapper)
        → get name reported.checkers ≡ some w
        → w.opts.affects_startup ≡ true
        → IsCleared (get name reported.check_results)))
unfolding lookup
evaluate_startup_iff_example = evaluate_startup_iff test_ops reported (refl, tt)

-- A startup check without other impacts, which fails.
abbrev failing : CheckResult
failing = record (result_of "db" unhealthy) { affects_readiness = false }

other_name :
    (name : String) (w : Wrapper)
    → name ≢ "db"
    → get name waiting.checkers ≡ some w
    → Passes waiting.check_results name w
unfolding get lookup
other_name name w ne h = absurd (ne (ground (arith, eq_iff "db" name)))

unhealthy_startup-Passes_example :
    (evaluate_startup test_ops (process_result test_ops failing waiting)).1 ≡ true
unfolding lookup
unhealthy_startup-Passes_example =
    unhealthy_startup-Passes test_ops failing waiting (refl, tt) refl refl refl refl other_name

waiting-IsUnharmed : IsUnharmed waiting
unfolding get lookup
waiting-IsUnharmed = record {
  wf = waiting-IsWf;
  on = refl;
  keeps_live = λ name r p. absurd (cc);
  keeps_ready = λ name r p. absurd (cc);
}

waiting-AllGood : AllGood waiting.checkers (result_of "db" healthy ∷ [])
unfolding get lookup
waiting-AllGood = (record { registered = refl; well = refl }, tt)

waiting-Covers : Covers test_ops (result_of "db" healthy ∷ []) waiting
unfolding get lookup
waiting-Covers name reg = inr (inl (ground (arith, eq_iff "db" name)))

handle_all-ready_example : IsServing (handle_all test_ops (result_of "db" healthy ∷ []) waiting)
handle_all-ready_example =
    handle_all-ready test_ops (result_of "db" healthy) [] waiting waiting-IsUnharmed waiting-AllGood
      waiting-Covers

-- A manager whose check has reported and whose startup is complete, before it is ready.
abbrev almost : Manager TestReporter
almost = record reported { startup_done = 1; startup_ptr = 1 }

-- The first goroutine sets the word.
abbrev part : List Bool
part = true ∷ true ∷ true ∷ []

play-gate_example :
    ((play test_ops part
        (record { left = asked true; right = stopping; manager = almost })).manager.all_checks_ran
      ≢ 0)
    × ((play test_ops part
          (record { left = asked true; right = stopping; manager = almost })).manager.startup_done
        ≢ 0)
unfolding play turn advance
play-gate_example =
    play-gate test_ops (asked true) stopping almost part tt tt (λ z. absurd (z refl))
      (λ z. absurd (omega (arith, z)))

ready_after_stop_example :
    ((play test_ops late (record { left = asked true; right = stopping; manager = almost })).left
      ≡ over)
    × ((play test_ops late (record { left = asked true; right = stopping; manager = almost })).right
        ≡ over)
    × ((play test_ops late
          (record { left = asked true; right = stopping; manager = almost })).manager.running_ptr
        ≡ 0)
    × ((play test_ops late
          (record { left = asked true; right = stopping; manager = almost })).manager.ready_ptr
        ≡ 0)
    × ((name : String) (r : TestReporter)
        → get name
            (play test_ops late
              (record { left = asked true; right = stopping; manager = almost })).manager.reporters
          ≡ some r
        → (shows r).ready ≡ true)
ready_after_stop_example = ready_after_stop test_laws almost refl refl refl refl

idle-IsWf : IsWf idle
unfolding lookup
idle-IsWf = record {
  flags = record {
    running_flag = omega arith;
    live_flag = omega arith;
    ready_flag = omega arith;
    startup_flag = omega arith;
    ran_flag = omega arith;
    initial_flag = omega arith;
    done_flag = omega arith;
  };
  checkers_map = (refl, tt);
  results_map = tt;
  known = λ k p. absurd (cc);
  reported = λ e. absurd (omega arith);
  ready_gate = λ e. absurd (omega arith);
  startup_shown = refl;
}

idle-AllWell : AllWell (entries_of idle.checkers)
unfolding run_check safe_check apply_check_options
idle-AllWell =
    (record { at = pos 5; result = result_of "db" healthy; gives = refl; well = refl }, tt)

Reach-IsServing_example :
    (s : System TestReporter) × Reach test_ops (configured idle) s × IsServing s.manager
unfolding get lookup size run
Reach-IsServing_example =
    Reach-IsServing test_ops idle idle-IsWf (λ name r p. absurd (cc)) (λ name r p. absurd (cc)) refl
      refl (λ e. absurd (omega (arith, e))) (λ e. absurd (omega (arith, e))) (λ name r p. refl)
      (refl, tt) idle-AllWell
