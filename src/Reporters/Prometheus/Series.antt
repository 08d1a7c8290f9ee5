-- ===== src/Reporters/Prometheus/Series.antt =====
-- What a scrape of the registry sees after the calls of the interface.
use health.Reporters.Prometheus.{
  PrometheusReporter, prometheus_ops, shows, record_checks, record_check, update_health_checks, run,
  stop, set_liveness, set_readiness, set_startup, labels_of, status_labels_of,
}
use health.Base.Int.{pos, ℤ}
use health.Reporters.Metrics.{
  gauge_up-set, level_of, status_value-level_of, GaugeOps, CounterOps, IsGauge, IsCounter,
  Attributes, status_value, occurrences, last_value,
}
use health.Base.Assoc.{Assoc, insert_all}
use health.Reporter.{IsReporter}
use health.Base.{
  Bool, true, false, ◌++◌, List, String, arith, ◌∷◌, ◌≡◌, [], refl, map, string_eq, ◌+◌, ap, ◌∙◌,
}
use health.Check.{CheckResult, status_text}
use health.SyncMap.{entries, made}

-- The labels of a report, and those of the counter.
abbrev pub series_of : CheckResult → Attributes
series_of hc = ("check", hc.name) ∷ ("group", hc.group) ∷ ("component_type", hc.component_type) ∷ []

abbrev pub counted_as : CheckResult → Attributes
counted_as hc = series_of hc ++ ("status", status_text hc.status) ∷ []

module _ {F Reg G C : Type 0} (of_int : ℤ → F) (gauge : GaugeOps F G) (counter : CounterOps C) where
  record_checks-shows :
      (is_one : F → Bool) (l : Assoc String CheckResult) (r : PrometheusReporter Reg G C)
      → shows gauge is_one (record_checks of_int gauge counter l r) ≡ shows gauge is_one r
  unfolding record_checks
  record_checks-shows is_one [] r = refl
  record_checks-shows is_one ((k, hc) ∷ l) r =
      record_checks-shows is_one l (record_check of_int gauge counter hc r)

  -- The reporter keeps the promises of the interface in its gauges, which hold what was set last.
  pub prometheus_laws :
      (is_one : F → Bool)
      → IsGauge gauge
      → is_one (of_int (pos 1)) ≡ true
      → is_one (of_int (pos 0)) ≡ false
      → IsReporter (prometheus_ops {Reg = Reg} of_int gauge counter) (shows gauge is_one)
  unfolding run stop set_liveness set_readiness set_startup update_health_checks
  prometheus_laws is_one law one zero = record {
    shows-set_liveness =
        λ b r. rw (gauge_up-set gauge is_one of_int law one zero b r.live_gauge) refl;
    shows-set_readiness =
        λ b r. rw (gauge_up-set gauge is_one of_int law one zero b r.ready_gauge) refl;
    shows-set_startup =
        λ b r. rw (gauge_up-set gauge is_one of_int law one zero b r.start_gauge) refl;
    shows-update_health_checks = λ m r. ground (
      arith,
      record_checks-shows is_one (entries m)
          (record r { hcs = made (insert_all (entries m) (entries r.hcs)) }),
    );
    shows-run = λ r. refl;
    shows-stop = λ r. refl;
  }

  -- The updates that a manager sends for a list of reports.
  abbrev pub relay_all : List CheckResult → PrometheusReporter Reg G C → PrometheusReporter Reg G C
  relay_all [] r = r
  relay_all (hc ∷ hcs) r =
      relay_all hcs (update_health_checks of_int gauge counter (made ((hc.name, hc) ∷ [])) r)

  update_running :
      (hc : CheckResult) (r : PrometheusReporter Reg G C)
      → r.running ≡ 1
      → (update_health_checks of_int gauge counter (made ((hc.name, hc) ∷ [])) r).running ≡ 1
  unfolding update_health_checks
  update_running hc r on = ground arith

  update_series_raw :
      (hc : CheckResult) (r : PrometheusReporter Reg G C)
      → r.running ≡ 1
      → let r' = update_health_checks of_int gauge counter (made ((hc.name, hc) ∷ [])) r in
        (r'.check_count ≡ counter.inc (status_labels_of hc) r.check_count)
        × (r'.check_gauge
            ≡ gauge.set (labels_of hc) (of_int (status_value hc.status)) r.check_gauge)
  unfolding update_health_checks
  update_series_raw hc r on = ground arith

  update_series :
      (hc : CheckResult) (r : PrometheusReporter Reg G C)
      → r.running ≡ 1
      → let r' = update_health_checks of_int gauge counter (made ((hc.name, hc) ∷ [])) r in
        (r'.check_count ≡ counter.inc (counted_as hc) r.check_count)
        × (r'.check_gauge ≡ gauge.set (series_of hc) (of_int (level_of hc.status)) r.check_gauge)
  unfolding labels_of status_labels_of
  update_series hc r on =
      let (counts, gauges) = update_series_raw hc r on in
      (
        counts,
        gauges
            ∙ ap (λ v. gauge.set (series_of hc) (of_int v) r.check_gauge)
                (status_value-level_of hc.status),
      )

  -- Of a reporter that runs, after the updates for any list of reports, the counter of each set of
  -- labels has grown by the number of reports whose name, group, component type and status they
  -- are, and the status gauge of each set of labels shows the last report whose name, group and
  -- component type they are: 2, 1 or 0 for healthy, degraded or anything else. The library's counters count, and its gauges hold what was set last.
  pub relay_all-series :
      IsGauge gauge
      → IsCounter counter
      → (hcs : List CheckResult) (r : PrometheusReporter Reg G C) (j k : Attributes) → r.running ≡ 1
      → (counter.count j (relay_all hcs r).check_count
          ≡ occurrences j (map counted_as hcs) + counter.count j r.check_count)
        × (gauge.read k (relay_all hcs r).check_gauge
            ≡ last_value k series_of
                (λ hc. of_int (level_of hc.status))
                hcs
                (gauge.read k r.check_gauge))
  relay_all-series g c [] r j k on = (omega arith, refl)
  relay_all-series g c (hc ∷ hcs) r j k on =
      let r' = update_health_checks of_int gauge counter (made ((hc.name, hc) ∷ [])) r in
      let (counts, gauges) = update_series hc r on in
      let (f, h) = relay_all-series g c hcs r' j k (update_running hc r on) in
      (
        omega (arith, f, ap (counter.count j) counts, c.count-inc (counted_as hc) j r.check_count),
        h
            ∙ ap (last_value k series_of (λ x. of_int (level_of x.status)) hcs) (
                ap (gauge.read k) gauges
                ∙ g.read-set (series_of hc) k (of_int (level_of hc.status)) r.check_gauge),
      )
