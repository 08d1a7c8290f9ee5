-- ===== src/Manager/Workers.antt =====
-- The goroutines that run the checkers: what each sends, and how a panic or a nil result is met.
use health.Base.{Bool, false, if◌then◌else◌, none, Option, some, String, true, ◌≡◌, arith}
use health.Base.Int.{pos, ℤ}
use health.SyncMap.{nil}
use health.Check.{CheckResult, unhealthy}
use health.Options.{AddCheckOptions, check_at_interval, has_flag, Outcome, panicked, returned}
use health.Errors.{concat, end, wrapped}
use health.Manager.State.{Wrapper}

-- The result that stands for a panic: every other field has its zero value.
unfoldable pub panic_result : String → String → ℤ → CheckResult
panic_result name r now = record {
  name = name;
  status = unhealthy;
  affects_liveness = false;
  affects_readiness = false;
  affects_startup = false;
  group = "";
  component_type = "";
  depends_on = health.Base.[];
  error = some (wrapped (concat "checker panicked: " r) end);
  error_since = pos 0;
  duration = pos 0;
  metadata = nil;
  timestamp = now;
}

recover_check : String → ℤ → Outcome → Option CheckResult
unfolding panic_result
recover_check name now (returned hc) = hc
recover_check name now (panicked r) = some (panic_result name r now)

-- `safeCheck`, at the instant of the call.
unfoldable pub safe_check : String → Wrapper → ℤ → Option CheckResult
unfolding recover_check
safe_check name w now = recover_check name now (w.checker now)

unfoldable pub apply_check_options : CheckResult → String → AddCheckOptions → CheckResult
apply_check_options hc name opts = record hc {
  name = name;
  affects_liveness = opts.affects_liveness;
  affects_readiness = opts.affects_readiness;
  affects_startup = opts.affects_startup;
  group = opts.group;
  component_type = opts.component_type;
  depends_on = opts.depends_on;
}

-- One check and what is sent to the funnel, if anything: the common part of both goroutines.
report_of : String → Wrapper → Option CheckResult → Option CheckResult
report_of name w none = none
report_of name w (some hc) = some (apply_check_options hc name w.opts)

unfoldable pub run_check : String → Wrapper → ℤ → Option CheckResult
unfolding report_of safe_check apply_check_options
run_check name w now = report_of name w (safe_check name w now)

-- A report carries the name of its check.
pub name-run_check :
    (name : String) (w : Wrapper) (now : ℤ) (hc : CheckResult)
    → run_check name w now ≡ some hc
    → hc.name ≡ name
unfolding run_check
name-run_check name w now hc e = ground arith

-- A report carries the impacts that its check was registered with.
pub impacts-run_check :
    (name : String) (w : Wrapper) (now : ℤ) (hc : CheckResult)
    → run_check name w now ≡ some hc
    → (hc.affects_liveness ≡ w.opts.affects_liveness)
      × (hc.affects_readiness ≡ w.opts.affects_readiness)
unfolding run_check
impacts-run_check name w now hc e = ground arith

-- The two kinds of goroutine.
pub data Kind : Type 0 where
  one_time : Kind
  at_interval : Kind

pub record Worker : Type 0 where
  pub name : String
  pub wrapper : Wrapper
  pub kind : Kind

-- The choice in the loop of `dispatchHealthChecks`.
unfoldable pub kind_of : AddCheckOptions → Kind
kind_of opts = if has_flag opts.frequency check_at_interval then at_interval else one_time
