-- ===== src/Examples/System.antt =====
-- An application with one check and one reporter: it runs, the check reports, and it is ready.
use health.Base.{
  All, arith, inr, is_some, List, none, Option, refl, some, String, string_eq, true, [], ◌∷◌, ◌≡◌,
  ◌≤◌, ◌+◌, ◌++◌, ◌≢◌,
}
use health.Manager.State.{Manager, new_manager, running, Wrapper}
use health.Manager.Workers.{apply_check_options, kind_of, one_time, run_check, safe_check, Worker}
use health.Reporters.Test.{boop, new_test_reporter, run, shows, test_laws, test_ops, TestReporter}
use health.System.Setup.{
  of_check, of_reporter, register, register_all, registered_manager, Registration, StartsDown,
}
use health.Options.{check_once, has_flag, no_options, with_readiness_impact, with_startup_impact}
use health.SyncMap.{
  each, each_entry, each_object, each_object_entry, get, made, set, size, with_entries,
}
use health.Manager.Lifecycle.{
  add_check, add_reporter, apply_options, default_frequency, dispatch_health_checks,
  dispatch_reporters, init_internals, make_if_nil, run_start, start_visit, started,
  validate_and_start,
}
use health.Examples.Data.{result_of, steady}
use health.Check.{CheckResult, healthy}
use health.Base.Assoc.{insert, lookup}
use health.Channel.{Chan, make_chan, receive, send}
use health.System.{configured, handle, here, next, Reach, Step, System}
use health.Manager.Flags.Sync.{flags_of}
use health.System.Readiness.{Reach-InSync}
use health.System.Refinement.{Reach-Moves}
use health.System.Mirror.{Mirrors}
use health.System.Handlers.{IsMade}
use health.Service.{new_service, Service}
use health.Service.Laws.{Moves}
use health.Manager.Invariant.{entries_of}
use health.Base.Int.{pos}
use health.System.Restart.{stop-keeps_goroutines}
use health.Manager.Lifecycle.Running.{workers_of}
use health.System.Bounds.{Fits, Reach-bounds}

abbrev registrations : List (Registration TestReporter)
registrations =
    of_check "db" (steady (result_of "db" healthy))
      (with_readiness_impact ∷ with_startup_impact ∷ [])
    ∷ of_reporter "test" new_test_reporter
    ∷ []

registrations-StartsDown : All (StartsDown shows) registrations
registrations-StartsDown = (tt, (refl, tt))

abbrev wrapper : Wrapper
wrapper = record {
  opts = record no_options {
    frequency = check_once;
    affects_readiness = true;
    affects_startup = true;
  };
  checker = steady (result_of "db" healthy);
}

abbrev db_worker : Worker
db_worker = record { name = "db"; wrapper = wrapper; kind = one_time }

abbrev test_running : TestReporter
test_running = record new_test_reporter { running = 1; running_toggles = 1 }

abbrev m0 : Manager TestReporter
m0 = registered_manager registrations

abbrev m1 : Manager TestReporter
m1 = record new_manager {
  checkers = record { items = made (("db", wrapper) ∷ []) };
  reporters = record { items = made (("test", test_running) ∷ []) };
  running_ptr = 1;
  check_funnel = some (record { capacity = 1; queue = [] });
  err_chan = some (record { capacity = 1; queue = [] });
}

starts : run_start test_ops none m0 ≡ started m1 (db_worker ∷ [])
unfolding register_all register add_check add_reporter apply_options default_frequency
    with_readiness_impact with_startup_impact running get set insert lookup run_start
    validate_and_start init_internals make_if_nil make_chan size dispatch_reporters start_visit
    each_object each_object_entry with_entries dispatch_health_checks each each_entry kind_of
    has_flag run boop
starts = refl

abbrev report_of_db : CheckResult
report_of_db = record (result_of "db" healthy) { group = ""; component_type = "" }

abbrev empty_funnel : Chan (Option CheckResult)
empty_funnel = record { capacity = 1; queue = [] }

abbrev full_funnel : Chan (Option CheckResult)
full_funnel = record { capacity = 1; queue = some report_of_db ∷ [] }

abbrev s1 : System TestReporter
s1 = record { manager = m1; workers = db_worker ∷ []; ctx = none; loops = 1; finishing = 1 }

abbrev s2 : System TestReporter
s2 = record {
  manager = record m1 { check_funnel = some full_funnel };
  workers = [];
  ctx = none;
  loops = 1;
  finishing = 1;
}

abbrev s3 : System TestReporter
s3 = record s2 { manager = handle test_ops none (some report_of_db) m1 }

step1 : Step test_ops (configured m0) s1
step1 = Step.run m1 (db_worker ∷ []) starts

step2 : Step test_ops s1 s2
unfolding run_check safe_check apply_check_options send
step2 =
    Step.report [] db_worker [] [] (pos 5) report_of_db empty_funnel full_funnel refl
      (inr (refl, refl)) refl refl refl

step3 : Step test_ops s2 s3
unfolding receive
step3 = Step.receive_report (some report_of_db) full_funnel empty_funnel (omega arith) refl refl

ready_run : Reach test_ops (configured m0) s3
ready_run = next (next (next here step1) step2) step3

Reach-bounds_example :
    Fits (size m0.checkers) s3.manager.check_funnel
    × (size s3.manager.check_results ≤ size m0.checkers)
    × ((name : String)
        → is_some (get name s3.manager.check_results) ≡ true
        → is_some (get name m0.checkers) ≡ true)
Reach-bounds_example = Reach-bounds test_laws registrations s3 registrations-StartsDown ready_run

Reach-InSync_example : shows test_running ≡ flags_of s1.manager
unfolding get lookup
Reach-InSync_example =
    Reach-InSync test_laws registrations s1 registrations-StartsDown (next here step1) "test"
      test_running refl

Reach-Moves_example :
    (a : Service) × Moves (entries_of m0.checkers) (IsMade m0.checkers) new_service a
    × Mirrors s3.manager a
Reach-Moves_example = Reach-Moves test_laws registrations s3 registrations-StartsDown ready_run

m0_sizes : (size m0.checkers ≢ 0) × (size m0.reporters ≢ 0)
unfolding register_all register add_check add_reporter apply_options default_frequency running set
    insert size
m0_sizes = (λ z. omega arith, λ z. omega arith)

stop-keeps_goroutines_example :
    (t : System TestReporter) × Reach test_ops (configured m0) t
    × (running t.manager ≡ true)
    × (t.ctx ≡ none)
    × (t.workers
        ≡ workers_of (entries_of m0.checkers) ++ (workers_of (entries_of m0.checkers) ++ []))
    × (t.loops ≡ 0 + 2)
unfolding register_all register add_check add_reporter running run boop set insert get lookup
stop-keeps_goroutines_example =
    stop-keeps_goroutines test_ops (configured m0) none refl refl m0_sizes.0 m0_sizes.1 (λ r. refl)
      (refl, tt)
