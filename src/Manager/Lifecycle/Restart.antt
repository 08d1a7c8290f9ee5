-- ===== src/Manager/Lifecycle/Restart.antt =====
-- What a manager that is stopped and run again carries over.
use health.Base.Assoc.{Assoc, insert}
use health.Manager.Invariant.{entries_of}
use health.Manager.Workers.{Worker}
use health.Manager.Lifecycle.Running.{get-launched, launched, run_start-launched, workers_of}
use health.Base.{
  ap, ◌∙◌, length, ◌≢◌, [], ◌∷◌, arith, eq_iff, false, is_some, List, none, refl, some, String,
  string_eq, true, ◌≡◌,
}
use health.Manager.State.{is_live, is_ready, Manager, running, Wrapper}
use health.Reporter.{ReporterOps}
use health.Manager.Lifecycle.{
  dispatch_reporters, init_internals, run_start, started, add_check, add_reporter, apply_options,
  default_frequency, init_startup_state, run_finish,
}
use health.Manager.Flags.{set_live, set_startup}
use health.Options.{AddCheckOption, Checker, no_options}
use health.SyncMap.{get, Map, set, size}
use health.Manager.Fitness.Correct.{evaluate_fitness_correct, HasFlags}
use health.SyncMap.Laws.{get-set, IsMap, set-IsMap}
use health.Manager.Fitness.Aggregate.{NoneCancels}
use health.Manager.Fitness.{evaluate_fitness, evaluate_startup}
use health.Manager.Invariant.{evaluate_fitness-maps}

insert_ne : {V : Type 0} (k : String) (v : V) (l : Assoc String V) → length (insert k v l) ≢ 0
unfolding insert
insert_ne k v [] = λ e. omega (arith, e)
insert_ne k v (x ∷ l) = λ e. ground arith

set_ne : {V : Type 0} (k : String) (v : V) (m : Map String V) → size (set k v m) ≢ 0
unfolding size set
set_ne k v m = insert_ne k v (entries_of m)

module _ {R : Type 0} where
  add_reporter-idle :
      (name : String) (r : R) (m : Manager R)
      → running m ≡ false
      → (add_reporter name r m).0 ≡ record m { reporters = set name r m.reporters }
  unfolding add_reporter
  add_reporter-idle name r m off = rw off

  add_check-idle :
      (name : String) (checker : Checker) (opts : List AddCheckOption) (m : Manager R)
      → running m ≡ false
      → (add_check name checker opts m).0 ≡ record m {
        checkers =
            set name
              (record {
                opts = default_frequency (apply_options opts no_options);
                checker = checker;
              })
              m.checkers;
      }
  unfolding add_check
  add_check-idle name checker opts m off = rw off

module _ {R : Type 0} (ops : ReporterOps R) where
  run_finish-reporters :
      (m : Manager R)
      → m.live_ptr ≡ 1
      → m.startup_ptr ≡ 1
      → (run_finish ops m).reporters ≡ m.reporters
  unfolding run_finish init_startup_state set_live set_startup
  run_finish-reporters m live startup = ground arith

  -- A reporter that is added while the manager is stopped, after it has been live and started, is
  -- run by the next `Run` and told nothing by it, neither liveness nor startup, since the words have
  -- not changed. The manager has a check, reporters that start without an error, each under one
  -- name, and a context that is not done.
  pub added_reporter-untold :
      (name : String) (r : R) (m : Manager R)
      → m.running_ptr ≡ 0
      → size m.checkers ≢ 0
      → ((q : R) → (ops.run q).1 ≡ none)
      → IsMap m.reporters
      → m.live_ptr ≡ 1
      → m.startup_ptr ≡ 1
      → (n : Manager R) × (ws : List Worker) × (run_start ops none (add_reporter name r m).0
          ≡ started n ws)
        × (get name (run_finish ops n).reporters ≡ some (ops.run r).0)
  unfolding dispatch_reporters init_internals
  added_reporter-untold name r m off cs quiet d live startup =
      let m1 = record m { reporters = set name r m.reporters } in
      let same =
        run_start-launched ops m1 off cs (set_ne name r m.reporters) (λ k q p. quiet q)
          (set-IsMap name r m.reporters d) in
      let found : get name m1.reporters ≡ some r =
        ground (arith, get-set name name r m.reporters, eq_iff name name) in
      rw (add_reporter-idle name r m (unfold running in ground arith)) (
        launched ops m1,
        workers_of (entries_of m1.checkers),
        same,
        rw (run_finish-reporters (launched ops m1) live startup) (
            get-launched ops m1 name (λ k q p. quiet q) (set-IsMap name r m.reporters d)
            ∙ ap (mathlib.Core.Option.map (λ q. (ops.run q).0)) found),
      )

  -- The last lines of `Run` set liveness to true whatever the results say that the reading
  -- goroutine has stored by then.
  pub run_finish-is_live : (m : Manager R) → is_live (run_finish ops m) ≡ true
  unfolding run_finish set_live is_live
  run_finish-is_live m = ground arith

  -- A check that is added while the manager is stopped, after all earlier checks had reported, is
  -- not waited for: `Run` starts the manager again, and if startup was complete and no stored result
  -- cancels a flag, the next evaluation makes it ready with no report from the new check. The words
  -- are 0 or 1, each name has one result and one reporter, the new check has no result, there is a
  -- reporter, the reporters start without an error, and the context is not done.
  pub added_check-not_awaited :
      (name : String) (checker : Checker) (opts : List AddCheckOption) (m : Manager R)
      → HasFlags m
      → IsMap m.check_results
      → m.running_ptr ≡ 0
      → m.all_checks_ran ≡ 1
      → m.startup_done ≡ 1
      → NoneCancels (λ r. r.cancel_live) m.check_results
      → NoneCancels (λ r. r.cancel_ready) m.check_results
      → get name m.check_results ≡ none
      → size m.reporters ≢ 0
      → ((q : R) → (ops.run q).1 ≡ none)
      → IsMap m.reporters
      → (n : Manager R) × (ws : List Worker) × (run_start ops none (add_check name checker opts m).0
          ≡ started n ws)
        × (is_some (get name n.checkers) ≡ true)
        × (get name (evaluate_fitness ops n).check_results ≡ none)
        × (is_ready (evaluate_fitness ops n) ≡ true)
  unfolding dispatch_reporters init_internals
  added_check-not_awaited name checker opts m f d off ran done live ready new rs quiet rd =
      let w : Wrapper = record {
        opts = default_frequency (apply_options opts no_options);
        checker = checker;
      } in
      let m1 = record m { checkers = set name w m.checkers } in
      let n = launched ops m1 in
      rw (add_check-idle name checker opts m (unfold running in ground arith)) (
        n,
        workers_of (entries_of m1.checkers),
        run_start-launched ops m1 off (set_ne name w m.checkers) rs (λ k q p. quiet q) rd,
        ground (arith, get-set name name w m.checkers, eq_iff name name),
        rw (evaluate_fitness-maps ops n).same_results new,
        (evaluate_fitness_correct ops n (ground (arith, f)) d (unfold running in refl) ran
              (unfold evaluate_startup in ground arith)).1.1
            (live, ready),
      )
