-- ===== src/Reporters/Otel/Series.antt =====
-- What the metrics of the OpenTelemetry reporter show after the calls of the interface.
use health.Reporters.Metrics.{attributes_eq}
use health.Reporters.Otel.{
  append_attribute, OtelReporter, otel_ops, shows, record_all, record_check_metrics,
  update_health_checks, run, stop, set_liveness, set_readiness, set_startup, attributes_of,
  status_attributes_of, status_to_int64, Floats,
}
use health.Reporters.Metrics.{
  gauge_up-set, level_of, GaugeOps, HistogramOps, CounterOps, Attributes, IsHistogram, IsGauge,
  IsCounter, occurrences, last_value,
}
use health.Base.Int.{eq_int, ℤ, lt_int, pos}
use health.Base.Assoc.{Assoc, insert_all}
use health.Reporter.{IsReporter}
use health.Base.{
  ◌++◌, List, String, arith, ◌∷◌, ◌≡◌, ℕ, [], if◌then◌else◌, length, refl, ◌=?◌, map, ◌&&◌, ◌+◌,
  string_eq, ap, ◌∙◌,
}
use health.Check.{CheckResult, Status, healthy, degraded, status_text}
use health.SyncMap.{entries, made}

-- An attribute, unless its text is empty.
abbrev optional : String → String → Attributes
optional key text = if text =? "" then [] else (key, text) ∷ []

-- The attributes of a report, and those of the counter.
abbrev pub series_of : CheckResult → Attributes
series_of hc =
    ("check", hc.name) ∷ (optional "group" hc.group ++ optional "component_type" hc.component_type)

abbrev pub counted_as : CheckResult → Attributes
counted_as hc = series_of hc ++ ("status", status_text hc.status) ∷ []

attributes_of_lem : (hc : CheckResult) → attributes_of hc ≡ series_of hc
unfolding attributes_of append_attribute
attributes_of_lem hc = ground arith

-- The value of the gauge: 2 for healthy, 1 for degraded and 0 for all else.
status_to_int64-level_of : (s : Status) → status_to_int64 s ≡ level_of s
unfolding status_to_int64
status_to_int64-level_of healthy = refl
status_to_int64-level_of degraded = refl
status_to_int64-level_of _ = refl

-- How many durations a report adds to the histogram.
abbrev pub measured : Attributes → List CheckResult → ℕ
measured j [] = 0
measured j (hc ∷ hcs) =
    (if series_of hc =? j && lt_int (pos 0) hc.duration then 1 else 0) + measured j hcs

module _ {F G H C : Type 0} (fl : Floats F) (gauge : GaugeOps ℤ G) (hist : HistogramOps F H)
    (counter : CounterOps C) where
  record_all-shows :
      (l : Assoc String CheckResult) (r : OtelReporter G H C)
      → shows gauge (record_all fl gauge hist counter l r) ≡ shows gauge r
  unfolding record_all
  record_all-shows [] r = refl
  record_all-shows ((k, hc) ∷ l) r =
      record_all-shows l (record_check_metrics fl gauge hist counter hc r)

  -- The reporter keeps the promises of the interface in its gauges, which hold what was set last.
  pub otel_laws : IsGauge gauge → IsReporter (otel_ops fl gauge hist counter) (shows gauge)
  unfolding run stop set_liveness set_readiness set_startup update_health_checks
  otel_laws law = record {
    shows-set_liveness =
        λ b r. rw (gauge_up-set gauge (eq_int (pos 1)) (λ n. n) law refl refl b r.live_gauge) refl;
    shows-set_readiness =
        λ b r. rw (gauge_up-set gauge (eq_int (pos 1)) (λ n. n) law refl refl b r.ready_gauge) refl;
    shows-set_startup =
        λ b r. rw (gauge_up-set gauge (eq_int (pos 1)) (λ n. n) law refl refl b r.start_gauge) refl;
    shows-update_health_checks = λ m r. ground (
      arith,
      record_all-shows (entries m)
          (record r { hcs = made (insert_all (entries m) (entries r.hcs)) }),
    );
    shows-run = λ r. refl;
    shows-stop = λ r. refl;
  }

  -- The updates that a manager sends for a list of reports.
  abbrev pub relayed : List CheckResult → OtelReporter G H C → OtelReporter G H C
  relayed [] r = r
  relayed (hc ∷ hcs) r =
      relayed hcs (update_health_checks fl gauge hist counter (made ((hc.name, hc) ∷ [])) r)

  update_running :
      (hc : CheckResult) (r : OtelReporter G H C)
      → r.running ≡ 1
      → (update_health_checks fl gauge hist counter (made ((hc.name, hc) ∷ [])) r).running ≡ 1
  unfolding update_health_checks
  update_running hc r on = ground arith

  update_series_raw :
      (hc : CheckResult) (r : OtelReporter G H C)
      → r.running ≡ 1
      → let r' = update_health_checks fl gauge hist counter (made ((hc.name, hc) ∷ [])) r in
        (r'.check_count ≡ counter.inc (status_attributes_of hc) r.check_count)
        × (r'.check_gauge ≡ gauge.set (attributes_of hc) (status_to_int64 hc.status) r.check_gauge)
  unfolding update_health_checks
  update_series_raw hc r on = ground arith

  update_series :
      (hc : CheckResult) (r : OtelReporter G H C)
      → r.running ≡ 1
      → let r' = update_health_checks fl gauge hist counter (made ((hc.name, hc) ∷ [])) r in
        (r'.check_count ≡ counter.inc (counted_as hc) r.check_count)
        × (r'.check_gauge ≡ gauge.set (series_of hc) (level_of hc.status) r.check_gauge)
  unfolding status_attributes_of
  update_series hc r on =
      let (counts, gauges) = update_series_raw hc r on in
      let same = attributes_of_lem hc in
      (
        counts
            ∙ ap (λ a. counter.inc (a ++ ("status", status_text hc.status) ∷ []) r.check_count)
                same,
        gauges
            ∙ ap (λ a. gauge.set a (status_to_int64 hc.status) r.check_gauge) same
            ∙ ap (λ v. gauge.set (series_of hc) v r.check_gauge)
                (status_to_int64-level_of hc.status),
      )

  update-observed_raw :
      IsHistogram hist
      → (hc : CheckResult) (r : OtelReporter G H C) (j : Attributes) → r.running ≡ 1
      → length (
          hist.observed j
            (update_health_checks fl gauge hist counter (made ((hc.name, hc) ∷ [])) r).check_hist)
        ≡ (if attributes_of hc =? j && lt_int (pos 0) hc.duration then 1 else 0)
          + length (hist.observed j r.check_hist)
  unfolding update_health_checks
  update-observed_raw law hc r j on = ground (
    arith,
    law.observed-observe (attributes_of hc) j
        (fl.div (fl.float hc.duration) (fl.float (pos 1000000))) r.check_hist,
  )

  update-observed :
      IsHistogram hist
      → (hc : CheckResult) (r : OtelReporter G H C) (j : Attributes) → r.running ≡ 1
      → length (
          hist.observed j
            (update_health_checks fl gauge hist counter (made ((hc.name, hc) ∷ [])) r).check_hist)
        ≡ (if series_of hc =? j && lt_int (pos 0) hc.duration then 1 else 0)
          + length (hist.observed j r.check_hist)
  update-observed law hc r j on =
      update-observed_raw law hc r j on
      ∙ ap
          (λ a.
            (if a =? j && lt_int (pos 0) hc.duration then 1 else 0)
            + length (hist.observed j r.check_hist))
          (attributes_of_lem hc)

  -- Of a reporter that runs, after the updates for any list of reports, the counter of each set of
  -- attributes has grown by the number of reports whose name, group, component type and status they
  -- are; and for each set, the histogram has grown by the number of reports that took time and whose
  -- name, group and component type they are, and the status gauge shows the last of these reports:
  -- 2, 1 or 0 for healthy, degraded or anything else. An empty group or component type is no attribute. The library's instruments keep what is recorded.
  pub relayed_series :
      IsGauge gauge
      → IsHistogram hist
      → IsCounter counter
      → (hcs : List CheckResult) (r : OtelReporter G H C) (j k : Attributes) → r.running ≡ 1
      → (counter.count j (relayed hcs r).check_count
          ≡ occurrences j (map counted_as hcs) + counter.count j r.check_count)
        × (length (hist.observed k (relayed hcs r).check_hist)
            ≡ measured k hcs + length (hist.observed k r.check_hist))
        × (gauge.read k (relayed hcs r).check_gauge
            ≡ last_value k series_of (λ hc. level_of hc.status) hcs (gauge.read k r.check_gauge))
  relayed_series g hs c [] r j k on = (omega arith, omega arith, refl)
  relayed_series g hs c (hc ∷ hcs) r j k on =
      let r' = update_health_checks fl gauge hist counter (made ((hc.name, hc) ∷ [])) r in
      let (counts, gauges) = update_series hc r on in
      let (f, o, h) = relayed_series g hs c hcs r' j k (update_running hc r on) in
      (
        omega (arith, f, ap (counter.count j) counts, c.count-inc (counted_as hc) j r.check_count),
        omega (arith, o, update-observed hs hc r k on),
        h
            ∙ ap (last_value k series_of (λ x. level_of x.status) hcs) (
                ap (gauge.read k) gauges
                ∙ g.read-set (series_of hc) k (level_of hc.status) r.check_gauge),
      )
