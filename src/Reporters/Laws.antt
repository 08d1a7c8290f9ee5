-- ===== src/Reporters/Laws.antt =====
-- What the manager relies on, for the six reporters of the repository at once.
use health.Base.{Bool, false, if◌then◌else◌, Option, true, ◌&&◌, ◌≡◌, string_eq}
use health.Base.Int.{pos, ℤ}
use health.Errors.{Error}
use health.Reporter.{IsReporter}
use health.Reporters.Metrics.{CounterOps, GaugeOps, HistogramOps, IsGauge}
use health.Reporters.Test.{test_laws, test_ops}
use health.Reporters.Stdout.{stdout_laws, stdout_ops}
use health.Reporters.Grpc.{
  check, check-overall, grpc_laws, grpc_ops, GrpcReporter, not_serving, serving,
}
use health.Reporters.Http.State.{http_laws, http_ops, TimeText}
use health.Reporters.Prometheus.{prometheus_ops}
use health.Reporters.Prometheus.Series.{prometheus_laws}
use health.Reporters.Otel.{Floats, otel_ops}
use health.Reporters.Otel.Series.{otel_laws}

-- Each reporter shows the flags that it was told last, and neither an update, nor a run, nor a stop
-- changes them, whatever a listener and a shutdown do: the test reporter in its words, standard
-- output in what it prints, HTTP in what it answers by, and Prometheus and OpenTelemetry in their
-- gauges, of which a flag is set if it reads 1, with gauges that hold what was set last and a float
-- for which 0 and 1 are told apart. The gRPC reporter keeps the three flags, and its answer for the
-- whole service is that it serves exactly while the flags of liveness and readiness are set.
pub reporters_laws :
    {F Reg G GI H C : Type 0} (tt' : TimeText) (listen shutdown : Option Error) (of_int : ℤ → F)
    (is_one : F → Bool) (fl : Floats F) (gauge : GaugeOps F G) (gauge_int : GaugeOps ℤ GI)
    (hist : HistogramOps F H) (counter : CounterOps C)
    → IsGauge gauge
    → IsGauge gauge_int
    → is_one (of_int (pos 1)) ≡ true
    → is_one (of_int (pos 0)) ≡ false
    → IsReporter test_ops health.Reporters.Test.shows
      × IsReporter stdout_ops health.Reporters.Stdout.shows
      × IsReporter (http_ops tt' listen shutdown) health.Reporters.Http.State.shows
      × IsReporter
          (prometheus_ops {Reg = Reg} of_int gauge counter)
          (health.Reporters.Prometheus.shows gauge is_one)
      × IsReporter (otel_ops fl gauge_int hist counter) (health.Reporters.Otel.shows gauge_int)
      × IsReporter (grpc_ops listen) health.Reporters.Grpc.shows
      × ((r : GrpcReporter)
          → check "" r ≡ (
              if (health.Reporters.Grpc.shows r).live && (health.Reporters.Grpc.shows r).ready
              then serving
              else not_serving))
reporters_laws tt' listen shutdown of_int is_one fl gauge gauge_int hist counter law law_int one
      zero =
    (
      test_laws,
      stdout_laws,
      http_laws tt' listen shutdown,
      prometheus_laws of_int gauge counter is_one law one zero,
      otel_laws fl gauge_int hist counter law_int,
      grpc_laws listen,
      check-overall,
    )
