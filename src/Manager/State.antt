-- ===== src/Manager/State.antt =====
-- The types of manager.go. A manager is generic in `R`, the state of a reporter behind its
-- interface. Log lines are left out.
use health.Base.{Bool, none, Option, String, ℕ, ◌==◌}
use health.SyncMap.{Map, zero_map}
use health.Check.{CheckResult}
use health.Options.{AddCheckOptions, Checker}
use health.Channel.{Chan}
use health.Errors.{Error}

pub record Wrapper : Type 0 where
  pub opts : AddCheckOptions
  pub checker : Checker

-- `result`: what the last report of a check cancels.
pub record Tally : Type 0 where
  pub cancel_live : Bool
  pub cancel_ready : Bool

pub record Manager (R : Type 0) : Type 0 where
  pub reporters : Map String R
  pub checkers : Map String Wrapper
  pub check_results : Map String Tally
  pub check_funnel : Option (Chan (Option CheckResult))
  pub err_chan : Option (Chan Error)
  pub running_ptr : ℕ
  pub live_ptr : ℕ
  pub ready_ptr : ℕ
  pub startup_ptr : ℕ
  pub all_checks_ran : ℕ
  pub initial_ready : ℕ
  pub startup_done : ℕ

-- `Manager{}`.
abbrev pub new_manager : {R : Type 0} → Manager R
new_manager = record {
  reporters = zero_map;
  checkers = zero_map;
  check_results = zero_map;
  check_funnel = none;
  err_chan = none;
  running_ptr = 0;
  live_ptr = 0;
  ready_ptr = 0;
  startup_ptr = 0;
  all_checks_ran = 0;
  initial_ready = 0;
  startup_done = 0;
}

-- A context: `none` until it is done, then the error of `ctx.Err()`.
abbrev pub Context : Type 0
Context = Option Error

module _ {R : Type 0} where
  unfoldable pub is_live : Manager R → Bool
  is_live m = m.live_ptr == 1

  unfoldable pub is_ready : Manager R → Bool
  is_ready m = m.ready_ptr == 1

  unfoldable pub running : Manager R → Bool
  running m = m.running_ptr == 1
