-- ===== src/Reporters/Prometheus.antt =====
-- reporter/prometheus/reporter.go. The client library is outside: its instruments and its registry
-- are parameters. `of_int` is the conversion of an integer to a float64.
pub mod Series
use health.Base.{
  ℕ, String, Option, List, some, ◌==◌, ◌∷◌, ◌/◌, [], Bool, if◌then◌else◌, none, ◌++◌, string_eq,
}
use health.Check.{CheckResult, status_text}
use health.Base.Int.{ℤ, pos, negsuc, lt_int}
use health.Reporter.{Flags, ReporterOps}
use health.SyncMap.{GoMap, nil, entries, made}
use health.Reporters.Metrics.{Attributes, GaugeOps, CounterOps, gauge_up, status_value}
use health.Errors.{Error}
use health.Base.Assoc.{Assoc, insert_all}

pub record PrometheusReporter (Reg G C : Type 0) : Type 0 where
  pub running : ℕ
  pub live : ℕ
  pub ready : ℕ
  pub startup : ℕ
  pub hcs : GoMap String CheckResult
  pub registry : Reg
  pub check_gauge : G
  pub check_dur : G
  pub check_count : C
  pub live_gauge : G
  pub ready_gauge : G
  pub start_gauge : G

-- What `NewReporter` asks of the library. `register` gives `none` where `MustRegister` panics.
pub record Library (Reg G C : Type 0) : Type 0 where
  pub new_registry : Reg
  pub new_gauge_vec : String → String → List String → G
  pub new_counter_vec : String → String → List String → C
  pub register : List String → Reg → Option Reg

module _ {Reg G C : Type 0} where
  with_registry : Library Reg G C → String → Option Reg → Option (PrometheusReporter Reg G C)
  with_registry lib ns none = none
  with_registry lib ns (some reg) =
      let labels : List String = "check" ∷ "group" ∷ "component_type" ∷ [] in
      some (record {
        running = 0;
        live = 0;
        ready = 0;
        startup = 0;
        hcs = nil;
        registry = reg;
        check_gauge = lib.new_gauge_vec ns "health_check_status" labels;
        check_dur = lib.new_gauge_vec ns "health_check_duration_milliseconds" labels;
        check_count =
            lib.new_counter_vec ns "health_check_executions_total" (labels ++ "status" ∷ []);
        live_gauge = lib.new_gauge_vec ns "health_liveness" [];
        ready_gauge = lib.new_gauge_vec ns "health_readiness" [];
        start_gauge = lib.new_gauge_vec ns "health_startup" [];
      })

  -- `NewReporter` for a configured registry, if any, and a namespace.
  unfoldable pub new_reporter :
      Library Reg G C → Option Reg → String → Option (PrometheusReporter Reg G C)
  unfolding with_registry
  new_reporter lib configured ns =
      let reg : Reg = elim configured [ none ↦ lib.new_registry | some r ↦ r ] in
      with_registry lib ns (
        lib.register
          ("health_check_status" ∷ "health_check_duration_milliseconds"
            ∷ "health_check_executions_total" ∷ "health_liveness" ∷ "health_readiness"
            ∷ "health_startup" ∷ [])
          reg)

unfoldable pub labels_of : CheckResult → Attributes
labels_of hc = ("check", hc.name) ∷ ("group", hc.group) ∷ ("component_type", hc.component_type) ∷ []

unfoldable pub status_labels_of : CheckResult → Attributes
status_labels_of hc =
    ("check", hc.name)
    ∷ ("group", hc.group)
    ∷ ("component_type", hc.component_type)
    ∷ ("status", status_text hc.status)
    ∷ []

-- `d.Milliseconds()` of a positive duration.
unfoldable pub milliseconds : ℤ → ℤ
milliseconds (pos n) = pos (n / 1000000)
milliseconds (negsuc n) = pos 0

module _ {F Reg G C : Type 0} (of_int : ℤ → F) (gauge : GaugeOps F G) (counter : CounterOps C) where
  unfoldable pub run : PrometheusReporter Reg G C → PrometheusReporter Reg G C × Option Error
  run r = (record r { running = 1 }, none)

  unfoldable pub stop : PrometheusReporter Reg G C → PrometheusReporter Reg G C × Option Error
  stop r = (record r { running = 0 }, none)

  unfoldable pub set_liveness : Bool → PrometheusReporter Reg G C → PrometheusReporter Reg G C
  set_liveness b r =
      let v : ℕ = if b then 1 else 0 in
      record r { live = v; live_gauge = gauge.set [] (of_int (pos v)) r.live_gauge }

  unfoldable pub set_readiness : Bool → PrometheusReporter Reg G C → PrometheusReporter Reg G C
  set_readiness b r =
      let v : ℕ = if b then 1 else 0 in
      record r { ready = v; ready_gauge = gauge.set [] (of_int (pos v)) r.ready_gauge }

  unfoldable pub set_startup : Bool → PrometheusReporter Reg G C → PrometheusReporter Reg G C
  set_startup b r =
      let v : ℕ = if b then 1 else 0 in
      record r { startup = v; start_gauge = gauge.set [] (of_int (pos v)) r.start_gauge }

  -- The body of the second loop.
  unfoldable pub record_check :
      CheckResult → PrometheusReporter Reg G C → PrometheusReporter Reg G C
  record_check hc r = record r {
    check_gauge = gauge.set (labels_of hc) (of_int (status_value hc.status)) r.check_gauge;
    check_dur =
        if lt_int (pos 0) hc.duration
        then gauge.set (labels_of hc) (of_int (milliseconds hc.duration)) r.check_dur
        else r.check_dur;
    check_count = counter.inc (status_labels_of hc) r.check_count;
  }

  unfoldable pub record_checks :
      Assoc String CheckResult → PrometheusReporter Reg G C → PrometheusReporter Reg G C
  unfolding record_check
  record_checks [] r = r
  record_checks ((k, hc) ∷ l) r = record_checks l (record_check hc r)

  unfoldable pub update_health_checks :
      GoMap String CheckResult → PrometheusReporter Reg G C → PrometheusReporter Reg G C
  unfolding record_checks
  update_health_checks m r =
      if r.running == 0
      then r
      else record_checks (entries m)
          (record r { hcs = made (insert_all (entries m) (entries r.hcs)) })

  abbrev pub prometheus_ops : ReporterOps (PrometheusReporter Reg G C)
  prometheus_ops = record {
    run = run;
    stop = stop;
    set_liveness = set_liveness;
    set_readiness = set_readiness;
    set_startup = set_startup;
    update_health_checks = update_health_checks;
  }

-- The flags that the three gauges show, with a test whether a value is 1.
abbrev pub shows :
    {F Reg G C : Type 0} → GaugeOps F G → (F → Bool) → PrometheusReporter Reg G C → Flags
shows gauge is_one r = record {
  live = gauge_up gauge is_one r.live_gauge;
  ready = gauge_up gauge is_one r.ready_gauge;
  startup = gauge_up gauge is_one r.start_gauge;
}
