-- ===== src/System/Serving.antt =====
-- An application whose checks come out well can get from `Run` to readiness: a schedule of its
-- goroutines, in which each check reports once.
use mathlib.Core.List.{append-nil}
use health.System.{configured, here, next, Reach, Step, System}
use health.Manager.Workers.{name-run_check}
use health.Manager.Lifecycle.Running.{launched, run_start-launched, workers_of}
use health.Manager.Invariant.{entries_of, IsWf}
use health.Manager.Fitness.Aggregate.{NoneCancels}
use health.Manager.State.{Manager, Wrapper}
use health.Channel.{make_chan}
use health.Reporter.{ReporterOps}
use health.SyncMap.{get, size, Map}
use health.Base.{
  String, some, none, ◌≡◌, is_some, [], ◌∷◌, ◌++◌, ◌∙◌, arith, true, refl, Bool-cases, eq_iff, inr,
  ◌=?◌, string_eq, inl, length, ◌≢◌,
}
use health.Base.Assoc.{Assoc, lookup}
use health.Manager.Lifecycle.{dispatch_reporters, init_internals, make_if_nil}
use health.SyncMap.Laws.{IsMap}
use health.System.Unharmed.{IsUnharmed, HasReport, AllGood, handle_all}
use health.System.Rounds.{empty_funnel, IsWell, AllWell, reports_of, all_report}
use health.System.Progress.{IsServing, Covers, handle_all-ready}

module _ {R : Type 0} (ops : ReporterOps R) where
  launched-IsUnharmed :
      (m : Manager R)
      → IsWf m
      → NoneCancels (λ r. r.cancel_live) m.check_results
      → NoneCancels (λ r. r.cancel_ready) m.check_results
      → IsUnharmed (launched ops m)
  unfolding dispatch_reporters init_internals
  launched-IsUnharmed m w live ready = record {
    wf = record {
      flags = ground (arith, w.flags);
      checkers_map = w.checkers_map;
      results_map = w.results_map;
      known = w.known;
      reported = w.reported;
      ready_gate = w.ready_gate;
      startup_shown = w.startup_shown;
    };
    on = refl;
    keeps_live = live;
    keeps_ready = ready;
  }

  launched-funnel :
      (m : Manager R)
      → m.check_funnel ≡ none
      → (launched ops m).check_funnel ≡ some (empty_funnel (size m.checkers))
  unfolding dispatch_reporters init_internals make_if_nil make_chan
  launched-funnel m e = rw e refl

  launched-checkers : (m : Manager R) → (launched ops m).checkers ≡ m.checkers
  unfolding dispatch_reporters init_internals
  launched-checkers m = refl

  report_named : (k : String) (w : Wrapper) (h : IsWell k w) → h.result.name ≡ k
  report_named k w h = name-run_check k w h.at h.result h.gives

  -- A key of the list is the name of one of its reports.
  HasReport-reports_of :
      (l : Assoc String Wrapper) (h : AllWell l) (name : String)
      → is_some (lookup name l) ≡ true
      → HasReport name (reports_of l h)
  unfolding lookup
  HasReport-reports_of [] h name p = absurd (cc)
  HasReport-reports_of ((k, w) ∷ l) (h, hs) name p = elim (Bool-cases (k =? name)) [
    | inl same ↦ inl (report_named k w h ∙ (eq_iff k name).0 same)
    | inr other ↦ inr (HasReport-reports_of l hs name (ground arith))
  ]

  AllGood-reports_of :
      (checkers : Map String Wrapper) (l : Assoc String Wrapper) (h : AllWell l)
      → ((name : String) → is_some (lookup name l) ≡ true → is_some (get name checkers) ≡ true)
      → AllGood checkers (reports_of l h)
  unfolding lookup
  AllGood-reports_of checkers [] h k = tt
  AllGood-reports_of checkers ((key, w) ∷ l) (h, hs) k = (
    record {
      registered = rw (report_named key w h) (k key (ground (arith, eq_iff key key)));
      well = h.well;
    },
    AllGood-reports_of checkers l hs (λ name p. k name (ground arith)),
  )

  served_all :
      (m : Manager R) (l : Assoc String Wrapper) (h : AllWell l)
      → length l ≢ 0
      → IsUnharmed m
      → AllGood m.checkers (reports_of l h)
      → Covers ops (reports_of l h) m
      → IsServing (handle_all ops (reports_of l h) m)
  served_all m [] h ne u g c = absurd (ne refl)
  served_all m ((k, w) ∷ l) (h, hs) ne u g c =
      handle_all-ready ops h.result (reports_of l hs) m u g c

  -- `Run` and a schedule in which each check reports once lead to the manager that has handled the
  -- reports in the order of the checks.
  pub Reach-handle_all :
      (m : Manager R) (h : AllWell (entries_of m.checkers))
      → m.running_ptr ≡ 0
      → m.check_funnel ≡ none
      → size m.checkers ≢ 0
      → size m.reporters ≢ 0
      → ((name : String) (r : R) → get name m.reporters ≡ some r → (ops.run r).1 ≡ none)
      → IsMap m.reporters
      → (s : System R) × Reach ops (configured m) s
        × (s.manager ≡ handle_all ops (reports_of (entries_of m.checkers) h) (launched ops m))
  unfolding get size
  Reach-handle_all m h off fresh cs rs quiet d =
      let l = entries_of m.checkers in
      let n = launched ops m in
      let s1 : System R = record {
        manager = n;
        workers = workers_of l ++ [];
        ctx = none;
        loops = 1;
        finishing = 1;
      } in
      let started' : Step ops (configured m) s1 = Step.run n (workers_of l) (
        run_start-launched ops m off (unfold size in cs) (unfold size in rs) (unfold get in quiet)
          d) in
      all_report ops (length l) (configured m) s1 [] l h (omega (arith, cs))
        (record { undone = refl; reads = omega arith; empty = launched-funnel m fresh })
        (append-nil (workers_of l)) (next here started')

  -- The manager that has handled the reports of all checks is live, ready and started.
  pub handled_IsServing :
      (m : Manager R) (h : AllWell (entries_of m.checkers))
      → IsWf m
      → NoneCancels (λ r. r.cancel_live) m.check_results
      → NoneCancels (λ r. r.cancel_ready) m.check_results
      → size m.checkers ≢ 0
      → IsServing (handle_all ops (reports_of (entries_of m.checkers) h) (launched ops m))
  unfolding size get dispatch_reporters init_internals
  handled_IsServing m h w live ready cs =
      let l = entries_of m.checkers in
      let n = launched ops m in
      served_all n l h cs (launched-IsUnharmed m w live ready)
        (AllGood-reports_of n.checkers l h (λ name p. p))
        (λ name p. inr (HasReport-reports_of l h name p))

  -- From every well-formed manager that does not run and has no funnel yet, whose stored results,
  -- if any, cancel nothing, with a check and a reporter at hand, each reporter under one name and
  -- starting without an error, and checks each of which gives, at some instant, a result that is
  -- not unhealthy: `Run` and some order of steps of the goroutines that it starts lead to a state
  -- in which the service is live, ready and started.
  pub Reach-IsServing :
      (m : Manager R)
      → IsWf m
      → NoneCancels (λ r. r.cancel_live) m.check_results
      → NoneCancels (λ r. r.cancel_ready) m.check_results
      → m.running_ptr ≡ 0
      → m.check_funnel ≡ none
      → size m.checkers ≢ 0
      → size m.reporters ≢ 0
      → ((name : String) (r : R) → get name m.reporters ≡ some r → (ops.run r).1 ≡ none)
      → IsMap m.reporters
      → AllWell (entries_of m.checkers)
      → (s : System R) × Reach ops (configured m) s × IsServing s.manager
  Reach-IsServing m w live ready off fresh cs rs quiet d h =
      let (s, reach, same) = Reach-handle_all m h off fresh cs rs quiet d in
      (s, reach, rw same (handled_IsServing m h w live ready cs))
