-- ===== src/Reporter.antt =====
-- health.go: the `Reporter` interface, as operations on the state of one reporter, and what the
-- manager relies on: the three flags that a reporter shows are those that it was told last.
use health.Base.{Bool, Option, String, ◌≡◌}
use health.SyncMap.{GoMap}
use health.Check.{CheckResult}
use health.Errors.{Error}

pub record ReporterOps (R : Type 0) : Type 0 where
  pub run : R → R × Option Error
  pub stop : R → R × Option Error
  pub set_liveness : Bool → R → R
  pub set_readiness : Bool → R → R
  pub set_startup : Bool → R → R
  pub update_health_checks : GoMap String CheckResult → R → R

pub record Flags : Type 0 where
  pub live : Bool
  pub ready : Bool
  pub startup : Bool

-- The laws, for the flags that `shows` reads off a reporter.
pub record IsReporter {R : Type 0} (ops : ReporterOps R) (shows : R → Flags) : Type 0 where
  pub shows-set_liveness :
      (b : Bool) (r : R) → shows (ops.set_liveness b r) ≡ record (shows r) { live = b }
  pub shows-set_readiness :
      (b : Bool) (r : R) → shows (ops.set_readiness b r) ≡ record (shows r) { ready = b }
  pub shows-set_startup :
      (b : Bool) (r : R) → shows (ops.set_startup b r) ≡ record (shows r) { startup = b }
  pub shows-update_health_checks :
      (m : GoMap String CheckResult) (r : R) → shows (ops.update_health_checks m r) ≡ shows r
  pub shows-run : (r : R) → shows (ops.run r).0 ≡ shows r
  pub shows-stop : (r : R) → shows (ops.stop r).0 ≡ shows r
