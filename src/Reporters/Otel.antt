-- ===== src/Reporters/Otel.antt =====
-- reporter/otel/reporter.go. The OpenTelemetry API is outside: its instruments and its meter are
-- parameters. `float` converts an integer to a float64 and `div` divides two float64.
pub mod Series
use health.Base.{
  ℕ, String, Option, ◌⊎◌, ◌==◌, inl, inr, if◌then◌else◌, ◌∷◌, ◌++◌, some, ◌=?◌, [], none, Bool,
  string_eq,
}
use health.Errors.{Error, sentinel}
use health.Check.{CheckResult, degraded, healthy, Status, status_text}
use health.Base.Int.{ℤ, eq_int, pos, lt_int}
use health.Reporters.Metrics.{GaugeOps, Attributes, HistogramOps, CounterOps, gauge_up}
use health.Reporter.{Flags, ReporterOps}
use health.SyncMap.{GoMap, nil, entries, made}
use health.Base.Assoc.{Assoc, insert_all}

-- The value of the gauge of a check.
unfoldable pub status_to_int64 : Status → ℤ
status_to_int64 healthy = pos 2
status_to_int64 degraded = pos 1
status_to_int64 _ = pos 0

pub record OtelReporter (G H C : Type 0) : Type 0 where
  pub running : ℕ
  pub live : ℕ
  pub ready : ℕ
  pub startup : ℕ
  pub hcs : GoMap String CheckResult
  pub check_gauge : G
  pub check_hist : H
  pub check_count : C
  pub live_gauge : G
  pub ready_gauge : G
  pub start_gauge : G

-- A meter: each instrument by its name, or an error.
pub record Meter (G H C : Type 0) : Type 0 where
  pub int64_gauge : String → Error ⊎ G
  pub float64_histogram : String → Error ⊎ H
  pub int64_counter : String → Error ⊎ C

infixl 5 ◌>>=◌
abbrev ◌>>=◌ : {A B : Type 0} → Error ⊎ A → (A → Error ⊎ B) → Error ⊎ B
inl e >>= f = inl e
inr a >>= f = f a

abbrev pub no_meter_provider : Error
no_meter_provider = sentinel "health.reporter.otel: MeterProvider is required"

module _ {G H C : Type 0} where
  with_meter : Meter G H C → Error ⊎ OtelReporter G H C
  with_meter meter = do
    check_gauge ← meter.int64_gauge "health.check.status"
    check_hist ← meter.float64_histogram "health.check.duration"
    check_count ← meter.int64_counter "health.check.executions"
    live_gauge ← meter.int64_gauge "health.liveness"
    ready_gauge ← meter.int64_gauge "health.readiness"
    start_gauge ← meter.int64_gauge "health.startup"
    inr (record {
      running = 0;
      live = 0;
      ready = 0;
      startup = 0;
      hcs = nil;
      check_gauge = check_gauge;
      check_hist = check_hist;
      check_count = check_count;
      live_gauge = live_gauge;
      ready_gauge = ready_gauge;
      start_gauge = start_gauge;
    })

  -- `NewReporter`: the meter is that of the provider, if there is one.
  unfoldable pub new_reporter : Option (Meter G H C) → Error ⊎ OtelReporter G H C
  unfolding with_meter
  new_reporter none = inl no_meter_provider
  new_reporter (some meter) = with_meter meter

-- `if text != "" { attrs = append(attrs, …) }`.
unfoldable pub append_attribute : String → String → Attributes → Attributes
append_attribute key text attrs = if text =? "" then attrs else attrs ++ (key, text) ∷ []

unfoldable pub attributes_of : CheckResult → Attributes
unfolding append_attribute
attributes_of hc =
    append_attribute "component_type" hc.component_type
      (append_attribute "group" hc.group (("check", hc.name) ∷ []))

unfoldable pub status_attributes_of : CheckResult → Attributes
unfolding attributes_of
status_attributes_of hc = attributes_of hc ++ ("status", status_text hc.status) ∷ []

-- The float64 operations that the reporter uses.
pub record Floats (F : Type 0) : Type 0 where
  pub float : ℤ → F
  pub div : F → F → F

module _ {F G H C : Type 0} (fl : Floats F) (gauge : GaugeOps ℤ G) (hist : HistogramOps F H)
    (counter : CounterOps C) where
  unfoldable pub run : OtelReporter G H C → OtelReporter G H C × Option Error
  run r = (record r { running = 1 }, none)

  unfoldable pub stop : OtelReporter G H C → OtelReporter G H C × Option Error
  stop r = (record r { running = 0 }, none)

  unfoldable pub set_liveness : Bool → OtelReporter G H C → OtelReporter G H C
  set_liveness b r =
      let v : ℕ = if b then 1 else 0 in
      record r { live = v; live_gauge = gauge.set [] (pos v) r.live_gauge }

  unfoldable pub set_readiness : Bool → OtelReporter G H C → OtelReporter G H C
  set_readiness b r =
      let v : ℕ = if b then 1 else 0 in
      record r { ready = v; ready_gauge = gauge.set [] (pos v) r.ready_gauge }

  unfoldable pub set_startup : Bool → OtelReporter G H C → OtelReporter G H C
  set_startup b r =
      let v : ℕ = if b then 1 else 0 in
      record r { startup = v; start_gauge = gauge.set [] (pos v) r.start_gauge }

  unfoldable pub record_check_metrics : CheckResult → OtelReporter G H C → OtelReporter G H C
  record_check_metrics hc r = record r {
    check_gauge = gauge.set (attributes_of hc) (status_to_int64 hc.status) r.check_gauge;
    check_hist =
        if lt_int (pos 0) hc.duration
        then hist.observe (attributes_of hc)
            (fl.div (fl.float hc.duration) (fl.float (pos 1000000))) r.check_hist
        else r.check_hist;
    check_count = counter.inc (status_attributes_of hc) r.check_count;
  }

  -- The second loop.
  unfoldable pub record_all : Assoc String CheckResult → OtelReporter G H C → OtelReporter G H C
  unfolding record_check_metrics
  record_all [] r = r
  record_all ((k, hc) ∷ l) r = record_all l (record_check_metrics hc r)

  unfoldable pub update_health_checks :
      GoMap String CheckResult → OtelReporter G H C → OtelReporter G H C
  unfolding record_all
  update_health_checks m r =
      if r.running == 0
      then r
      else record_all (entries m) (record r { hcs = made (insert_all (entries m) (entries r.hcs)) })

  abbrev pub otel_ops : ReporterOps (OtelReporter G H C)
  otel_ops = record {
    run = run;
    stop = stop;
    set_liveness = set_liveness;
    set_readiness = set_readiness;
    set_startup = set_startup;
    update_health_checks = update_health_checks;
  }

-- The flags that the three gauges show.
abbrev pub shows : {G H C : Type 0} → GaugeOps ℤ G → OtelReporter G H C → Flags
shows gauge r = record {
  live = gauge_up gauge (eq_int (pos 1)) r.live_gauge;
  ready = gauge_up gauge (eq_int (pos 1)) r.ready_gauge;
  startup = gauge_up gauge (eq_int (pos 1)) r.start_gauge;
}
