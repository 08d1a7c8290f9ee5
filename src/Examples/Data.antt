-- ===== src/Examples/Data.antt =====
-- A database check, a cache check, two reporters, and managers in the states that the runs start
-- in.
use health.Base.{false, none, some, String, true, [], ◌∷◌}
use health.Base.Int.{pos}
use health.SyncMap.{made, nil}
use health.Check.{CheckResult, healthy, Status}
use health.Options.{AddCheckOptions, check_once, Checker, no_options, returned}
use health.Errors.{end, Error, wrapped}
use health.Manager.State.{Manager, new_manager, Tally, Wrapper}
use health.Reporters.Test.{new_test_reporter, TestReporter}
use health.Reporters.Http.State.{TimeText}

abbrev pub result_of : String → Status → CheckResult
result_of name s = record {
  name = name;
  status = s;
  affects_liveness = false;
  affects_readiness = true;
  affects_startup = true;
  group = "storage";
  component_type = "datastore";
  depends_on = [];
  error = none;
  error_since = pos 0;
  duration = pos 12;
  metadata = nil;
  timestamp = pos 100;
}

abbrev pub steady : CheckResult → Checker
steady hc now = returned (some hc)

abbrev pub db_options : AddCheckOptions
db_options = record no_options {
  frequency = check_once;
  affects_readiness = true;
  affects_startup = true;
  group = "storage";
  component_type = "datastore";
}

abbrev pub db : Wrapper
db = record { opts = db_options; checker = steady (result_of "db" healthy) }

abbrev pub cancels_nothing : Tally
cancels_nothing = record { cancel_live = false; cancel_ready = false }

abbrev pub cancels_ready : Tally
cancels_ready = record { cancel_live = false; cancel_ready = true }

-- One check and one reporter, before `Run`.
abbrev pub idle : Manager TestReporter
idle = record new_manager {
  checkers = record { items = made (("db", db) ∷ []) };
  reporters = record { items = made (("test", new_test_reporter) ∷ []) };
}

-- The same manager while it runs and waits for its first report.
abbrev pub waiting : Manager TestReporter
waiting = record idle {
  running_ptr = 1;
  live_ptr = 1;
  check_funnel = some (record { capacity = 1; queue = [] });
  err_chan = some (record { capacity = 1; queue = [] });
}

-- The same manager after a report that came out well, before it is evaluated.
abbrev pub reported : Manager TestReporter
reported = record waiting {
  all_checks_ran = 1;
  check_results = record { items = made (("db", cancels_nothing) ∷ []) };
}

-- A manager that was ready and was stopped.
abbrev pub stopped : Manager TestReporter
stopped = record reported { running_ptr = 0; startup_ptr = 1; startup_done = 1; initial_ready = 1 }

abbrev pub unread : Error
unread = wrapped "health.manager.std: there are no checkers specified for this manager" end

-- How a test prints times.
abbrev pub plain_text : TimeText
plain_text = record { rfc3339 = λ t. "then"; duration_text = λ d. "a while" }
