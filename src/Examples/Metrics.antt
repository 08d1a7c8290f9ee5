-- ===== src/Examples/Metrics.antt =====
-- The metrics reporters over a library whose instruments are lists of what was recorded.
use health.Reporters.Metrics.{
  Attributes, attributes_eq, CounterOps, GaugeOps, HistogramOps, IsCounter, IsGauge, IsHistogram,
  last_value, level_of, occurrences,
}
use health.Reporters.Prometheus.{PrometheusReporter, status_labels_of, labels_of, prometheus_ops}
use health.Reporters.Prometheus.Series.{counted_as, series_of, relay_all-series, relay_all}
use health.Reporters.Otel.{
  status_to_int64, Floats, OtelReporter, status_attributes_of, attributes_of, otel_ops,
}
use health.Reporters.Otel.Series.{relayed, relayed_series, measured}
use health.Reporters.Laws.{reporters_laws}
use health.Reporters.Http.State.{TimeText, http_ops}
use health.Examples.Data.{result_of, plain_text}
use health.Base.Int.{eq_int, pos, ℤ}
use health.Base.{
  string_eq, ◌&&◌, List, ◌∷◌, arith, refl, ◌≡◌, if◌then◌else◌, Option, [], map, ◌=?◌, none, some,
  ◌+◌, length,
}
use health.Reporter.{IsReporter}
use health.SyncMap.{nil}
use health.Check.{CheckResult, unhealthy, healthy}
use health.Reporters.Test.{test_ops}
use health.Reporters.Stdout.{stdout_ops}
use health.Reporters.Grpc.{check, grpc_ops, GrpcReporter, not_serving, serving}

abbrev Records : Type 0
Records = List (Attributes × ℤ)

abbrev values : Attributes → Records → List ℤ
values j [] = []
values j ((k, v) ∷ l) = if k =? j then v ∷ values j l else values j l

abbrev first : List ℤ → Option ℤ
first [] = none
first (v ∷ l) = some v

abbrev gauge : GaugeOps ℤ Records
gauge = record { set = λ k v l. (k, v) ∷ l; read = λ j l. first (values j l) }

abbrev histogram : HistogramOps ℤ Records
histogram = record { observe = λ k v l. (k, v) ∷ l; observed = λ j l. values j l }

abbrev counter : CounterOps (List Attributes)
counter = record { inc = λ k l. k ∷ l; count = λ j l. occurrences j l }

gauge-IsGauge : IsGauge gauge
gauge-IsGauge = record { read-set = λ k j v g. ground arith }

counter-IsCounter : IsCounter counter
counter-IsCounter = record { count-inc = λ k j c. refl }

histogram-IsHistogram : IsHistogram histogram
histogram-IsHistogram = record { observed-observe = λ k j v h. refl }

abbrev prometheus : PrometheusReporter Unit Records (List Attributes)
prometheus = record {
  running = 1;
  live = 0;
  ready = 0;
  startup = 0;
  hcs = nil;
  registry = tt;
  check_gauge = [];
  check_dur = [];
  check_count = [];
  live_gauge = [];
  ready_gauge = [];
  start_gauge = [];
}

abbrev otel : OtelReporter Records Records (List Attributes)
otel = record {
  running = 1;
  live = 0;
  ready = 0;
  startup = 0;
  hcs = nil;
  check_gauge = [];
  check_hist = [];
  check_count = [];
  live_gauge = [];
  ready_gauge = [];
  start_gauge = [];
}

abbrev whole : Floats ℤ
whole = record { float = λ n. n; div = λ a b. a }

-- Two reports of one check.
abbrev reports : List CheckResult
reports = result_of "db" unhealthy ∷ result_of "db" healthy ∷ []

abbrev db_labels : Attributes
db_labels = ("check", "db") ∷ ("group", "storage") ∷ ("component_type", "datastore") ∷ []

-- What the first report is counted as.
abbrev db_unhealthy : Attributes
db_unhealthy =
    ("check", "db")
    ∷ ("group", "storage")
    ∷ ("component_type", "datastore")
    ∷ ("status", "unhealthy")
    ∷ []

relay_all-series_example :
    (counter.count db_unhealthy (relay_all (λ n. n) gauge counter reports prometheus).check_count
      ≡ occurrences db_unhealthy (map counted_as reports) + 0)
    × (gauge.read db_labels (relay_all (λ n. n) gauge counter reports prometheus).check_gauge
        ≡ last_value db_labels series_of (λ hc. level_of hc.status) reports none)
relay_all-series_example =
    relay_all-series (λ n. n) gauge counter gauge-IsGauge counter-IsCounter reports prometheus
      db_unhealthy db_labels refl

relayed_series_example :
    (counter.count db_unhealthy (relayed whole gauge histogram counter reports otel).check_count
      ≡ occurrences db_unhealthy (map health.Reporters.Otel.Series.counted_as reports) + 0)
    × (length (
          histogram.observed db_labels
            (relayed whole gauge histogram counter reports otel).check_hist)
        ≡ measured db_labels reports + 0)
    × (gauge.read db_labels (relayed whole gauge histogram counter reports otel).check_gauge
        ≡ last_value db_labels health.Reporters.Otel.Series.series_of
            (λ hc. level_of hc.status)
            reports
            none)
relayed_series_example =
    relayed_series whole gauge histogram counter gauge-IsGauge histogram-IsHistogram
      counter-IsCounter reports otel db_unhealthy db_labels refl

reporters_laws_example :
    IsReporter test_ops health.Reporters.Test.shows
    × IsReporter stdout_ops health.Reporters.Stdout.shows
    × IsReporter (http_ops plain_text none none) health.Reporters.Http.State.shows
    × IsReporter
        (prometheus_ops {Reg = Unit} (λ n. n) gauge counter)
        (health.Reporters.Prometheus.shows gauge (eq_int (pos 1)))
    × IsReporter (otel_ops whole gauge histogram counter) (health.Reporters.Otel.shows gauge)
    × IsReporter (grpc_ops none) health.Reporters.Grpc.shows
    × ((r : GrpcReporter)
        → check "" r ≡ (
            if (health.Reporters.Grpc.shows r).live && (health.Reporters.Grpc.shows r).ready
            then serving
            else not_serving))
reporters_laws_example =
    reporters_laws plain_text none none (λ n. n) (eq_int (pos 1)) whole gauge gauge histogram
      counter gauge-IsGauge gauge-IsGauge refl refl
