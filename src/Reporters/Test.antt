-- ===== src/Reporters/Test.antt =====
-- reporter/test/reporter.go: the reporter that counts what it is told. The counters are uint32.
pub mod Json
use health.Base.{
  arith, Bool, false, none, Option, refl, String, string_eq, true, ℕ, [], ◌%◌, ◌+◌, ◌==◌, ◌≡◌,
}
use health.Reporter.{Flags, IsReporter, ReporterOps}
use health.SyncMap.{entries, GoMap, made, nil}
use health.Errors.{Error}
use health.Base.Assoc.{Assoc, insert_all}
use health.Check.{CheckResult}

pub record TestReporter : Type 0 where
  pub running : ℕ
  pub running_toggles : ℕ
  pub live : ℕ
  pub live_toggles : ℕ
  pub ready : ℕ
  pub ready_toggles : ℕ
  pub startup : ℕ
  pub startup_toggles : ℕ
  pub hc_updates : ℕ
  pub live_up : ℕ
  pub live_down : ℕ
  pub ready_up : ℕ
  pub ready_down : ℕ
  pub startup_up : ℕ
  pub startup_down : ℕ
  pub hc : GoMap String CheckResult

-- The zero value, `&Reporter{}`.
abbrev pub new_test_reporter : TestReporter
new_test_reporter = record {
  running = 0;
  running_toggles = 0;
  live = 0;
  live_toggles = 0;
  ready = 0;
  ready_toggles = 0;
  startup = 0;
  startup_toggles = 0;
  hc_updates = 0;
  live_up = 0;
  live_down = 0;
  ready_up = 0;
  ready_down = 0;
  startup_up = 0;
  startup_down = 0;
  hc = nil;
}

-- `atomic.AddUint32(p, 1)`.
abbrev pub add_one : ℕ → ℕ
add_one n = (n + 1) % 4294967296

-- `boop`: the new flag, and the counters of the calls with true and with false.
unfoldable pub boop : Bool → ℕ → ℕ → ℕ × ℕ × ℕ
boop true up down = (1, add_one up, down)
boop false up down = (0, up, add_one down)

unfoldable pub run : TestReporter → TestReporter × Option Error
unfolding boop
run t =
    let (running', _, _) = boop true 0 0 in
    (record t { running = running'; running_toggles = add_one t.running_toggles }, none)

unfoldable pub stop : TestReporter → TestReporter × Option Error
unfolding boop
stop t =
    let (running', _, _) = boop false 0 0 in
    (record t { running = running'; running_toggles = add_one t.running_toggles }, none)

unfoldable pub set_liveness : Bool → TestReporter → TestReporter
unfolding boop
set_liveness b t =
    let (live', up, down) = boop b t.live_up t.live_down in
    record t { live = live'; live_up = up; live_down = down; live_toggles = add_one t.live_toggles }

unfoldable pub set_readiness : Bool → TestReporter → TestReporter
unfolding boop
set_readiness b t =
    let (ready', up, down) = boop b t.ready_up t.ready_down in
    record t {
      ready = ready';
      ready_up = up;
      ready_down = down;
      ready_toggles = add_one t.ready_toggles;
    }

unfoldable pub set_startup : Bool → TestReporter → TestReporter
unfolding boop
set_startup b t =
    let (startup', up, down) = boop b t.startup_up t.startup_down in
    record t {
      startup = startup';
      startup_up = up;
      startup_down = down;
      startup_toggles = add_one t.startup_toggles;
    }

unfoldable pub update_health_checks : GoMap String CheckResult → TestReporter → TestReporter
update_health_checks m t = record t {
  hc = made (insert_all (entries m) (entries t.hc));
  hc_updates = add_one t.hc_updates;
}

-- `Report`: a snapshot for the tests.
pub record Report : Type 0 where
  pub is_running : Bool
  pub num_running_state_changes : ℕ
  pub is_live : Bool
  pub num_liveness_state_changes : ℕ
  pub num_liveness_set_true : ℕ
  pub num_liveness_set_false : ℕ
  pub is_ready : Bool
  pub num_readiness_state_changes : ℕ
  pub num_readiness_set_true : ℕ
  pub num_readiness_set_false : ℕ
  pub is_startup : Bool
  pub num_startup_state_changes : ℕ
  pub num_startup_set_true : ℕ
  pub num_startup_set_false : ℕ
  pub num_health_check_updates : ℕ
  pub health_checks : Assoc String CheckResult

unfoldable pub report : TestReporter → Report
report t = record {
  is_running = t.running == 1;
  num_running_state_changes = t.running_toggles;
  is_live = t.live == 1;
  num_liveness_state_changes = t.live_toggles;
  num_liveness_set_true = t.live_up;
  num_liveness_set_false = t.live_down;
  is_ready = t.ready == 1;
  num_readiness_state_changes = t.ready_toggles;
  num_readiness_set_true = t.ready_up;
  num_readiness_set_false = t.ready_down;
  is_startup = t.startup == 1;
  num_startup_state_changes = t.startup_toggles;
  num_startup_set_true = t.startup_up;
  num_startup_set_false = t.startup_down;
  num_health_check_updates = t.hc_updates;
  health_checks = insert_all (entries t.hc) [];
}

abbrev pub test_ops : ReporterOps TestReporter
test_ops = record {
  run = run;
  stop = stop;
  set_liveness = set_liveness;
  set_readiness = set_readiness;
  set_startup = set_startup;
  update_health_checks = update_health_checks;
}

-- The flags that a snapshot shows.
abbrev pub shows : TestReporter → Flags
shows t = record { live = t.live == 1; ready = t.ready == 1; startup = t.startup == 1 }

-- The reporter keeps the promises of the interface.
pub test_laws : IsReporter test_ops shows
unfolding run stop set_liveness set_readiness set_startup update_health_checks
test_laws = record {
  shows-set_liveness = λ b r. ground arith;
  shows-set_readiness = λ b r. ground arith;
  shows-set_startup = λ b r. ground arith;
  shows-update_health_checks = λ m r. refl;
  shows-run = λ r. refl;
  shows-stop = λ r. refl;
}

-- Every call that sets a flag is counted once as such and once by its value, up to the wrap-around.
record CountsAgree (t : TestReporter) : Type 0 where
  pub live_counts : t.live_toggles % 4294967296 ≡ (t.live_up + t.live_down) % 4294967296
  pub ready_counts : t.ready_toggles % 4294967296 ≡ (t.ready_up + t.ready_down) % 4294967296
  pub startup_counts : t.startup_toggles % 4294967296 ≡ (t.startup_up + t.startup_down) % 4294967296

-- The counts agree after every call of the interface on a reporter where they agreed.
calls-CountsAgree :
    (b : Bool) (m : GoMap String CheckResult) (t : TestReporter)
    → CountsAgree t
    → CountsAgree (set_liveness b t)
      × CountsAgree (set_readiness b t)
      × CountsAgree (set_startup b t)
      × CountsAgree (update_health_checks m t)
      × CountsAgree (run t).0
      × CountsAgree (stop t).0
unfolding run stop set_liveness set_readiness set_startup update_health_checks
calls-CountsAgree b m t h =
    (ground arith, ground arith, ground arith, ground arith, ground arith, ground arith)
