-- ===== src/System/Safety.antt =====
-- The invariant of every reachable state, whatever the order of the goroutines.
use health.System.{
  cancel, finish, handle, here, leave, next, quit, Reach, receive_report, report, run, run_fails,
  run_hangs, Step, stop_called, System,
}
use health.SyncMap.{Map}
use health.Reporter.{Flags, IsReporter, ReporterOps}
use health.Base.{
  All, All-append, All-middle, arith, inl, inr, List, Option, some, String, string_eq, subst, sym,
  ◌++◌, ◌∷◌, ◌≡◌,
}
use health.Manager.State.{Context, Manager, Wrapper}
use health.Check.{CheckResult}
use health.Channel.{Chan, receive, send}
use health.Manager.Lifecycle.Starting.{IsNamedIn, Leaves}
use health.Manager.Workers.{run_check, Worker, name-run_check}
use health.Base.Int.{ℤ}
use mathlib.Core.List.{Memᴰ}
use health.Manager.Invariant.{entries_of}
use health.Channel.Laws.{receive-All, send-All}
use health.System.Handlers.{
  IsMade, IsSafe, IsSafeSystem, Known, run_start-Leaves, FunnelKnown, IsSafe-finish, IsSafe-handle,
  IsSafe-stop,
}

module _ {R : Type 0} {ops : ReporterOps R} {shows : R → Flags} (laws : IsReporter ops shows)
    (checkers : Map String Wrapper) where
  -- A manager with another funnel.
  pub IsSafe-funnel :
      (m : Manager R) (c : Chan (Option CheckResult))
      → IsSafe shows checkers m
      → All (Known checkers) c.queue
      → IsSafe shows checkers (record m { check_funnel = some c })
  IsSafe-funnel m c h q = record {
    wf = record {
      flags = ground (arith, h.wf.flags);
      checkers_map = h.wf.checkers_map;
      results_map = h.wf.results_map;
      known = h.wf.known;
      reported = h.wf.reported;
      ready_gate = h.wf.ready_gate;
      startup_shown = h.wf.startup_shown;
    };
    sync = h.sync;
    registered = h.registered;
    funnel = q;
  }

  named_middle :
      (before : List Worker) (w : Worker) (after ws : List Worker)
      → ws ≡ before ++ w ∷ after
      → All (IsNamedIn checkers) ws
      → IsNamedIn checkers w × All (IsNamedIn checkers) (before ++ after)
  named_middle before w after ws e h = All-middle (IsNamedIn checkers) before w after (rw e at h)

  run_check-IsMade :
      (w : Worker) (now : ℤ) (hc : CheckResult)
      → IsNamedIn checkers w
      → run_check w.name w.wrapper now ≡ some hc
      → IsMade checkers hc
  run_check-IsMade w now hc n e =
      let same = sym (name-run_check w.name w.wrapper now hc e) in
      record {
        origin = w.wrapper;
        instant = now;
        of_entry = subst (λ x. Memᴰ (x, w.wrapper) (entries_of checkers)) same n;
        outcome = subst (λ x. run_check x w.wrapper now ≡ some hc) same e;
      }

  IsSafe-report :
      (m : Manager R) (w : Worker) (now : ℤ) (hc : CheckResult) (c c' : Chan (Option CheckResult))
      → IsNamedIn checkers w
      → run_check w.name w.wrapper now ≡ some hc
      → m.check_funnel ≡ some c
      → send (some hc) c ≡ some c'
      → IsSafe shows checkers m
      → IsSafe shows checkers (record m { check_funnel = some c' })
  IsSafe-report m w now hc c c' n e f sent h =
      let k = run_check-IsMade w now hc n e in
      IsSafe-funnel m c' h
        (send-All (Known checkers) c c' (some hc) sent k (subst (FunnelKnown checkers) f h.funnel))

  IsSafe-receive :
      (ctx : Context) (o : Option CheckResult) (m : Manager R) (c c' : Chan (Option CheckResult))
      → m.check_funnel ≡ some c
      → receive c ≡ some (o, c')
      → IsSafe shows checkers m
      → IsSafe shows checkers (handle ops ctx o (record m { check_funnel = some c' }))
  IsSafe-receive ctx o m c c' f got h =
      let (k, q) =
        receive-All (Known checkers) c c' o got (subst (FunnelKnown checkers) f h.funnel) in
      IsSafe-handle laws checkers ctx o (record m { check_funnel = some c' }) k
        (IsSafe-funnel m c' h q)

  -- The invariant over one step of any goroutine.
  pub Step-IsSafe :
      {s t : System R}
      → Step ops s t
      → IsSafeSystem shows checkers s
      → IsSafeSystem shows checkers t
  Step-IsSafe {s} (run m ws e) h =
      let l =
        subst (Leaves (IsSafe shows checkers) (IsNamedIn s.manager.checkers)) e
          (run_start-Leaves laws checkers s.ctx s.manager h.safe) in
      record {
        safe = l.0;
        named = All-append (IsNamedIn checkers) ws s.workers (rw h.safe.registered at l.1) h.named;
      }
  Step-IsSafe {s} (run_fails m x e) h = record {
    safe =
        subst (Leaves (IsSafe shows checkers) (IsNamedIn s.manager.checkers)) e
          (run_start-Leaves laws checkers s.ctx s.manager h.safe);
    named = h.named;
  }
  Step-IsSafe {s} (run_hangs m x e) h = record {
    safe =
        subst (Leaves (IsSafe shows checkers) (IsNamedIn s.manager.checkers)) e
          (run_start-Leaves laws checkers s.ctx s.manager h.safe);
    named = h.named;
  }
  Step-IsSafe {s} (finish n e) h = record {
    safe = IsSafe-finish laws checkers s.manager h.safe;
    named = h.named;
  }
  Step-IsSafe {s} (report before w after rest now hc c c' e r k f sent) h =
      let (n, others) = named_middle before w after s.workers e h.named in
      record {
        safe = IsSafe-report s.manager w now hc c c' n k f sent h.safe;
        named = elim r [ inl same ↦ rw same.1 h.named | inr fewer ↦ rw fewer.1 others ];
      }
  Step-IsSafe {s} (quit before w after e) h = record {
    safe = h.safe;
    named = (named_middle before w after s.workers e h.named).1;
  }
  Step-IsSafe {s} (receive_report o c c' live f got) h = record {
    safe = IsSafe-receive s.ctx o s.manager c c' f got h.safe;
    named = h.named;
  }
  Step-IsSafe {s} (leave n e l d) h = record {
    safe = IsSafe-stop laws checkers s.ctx s.manager h.safe;
    named = h.named;
  }
  Step-IsSafe (cancel e) h = record { safe = h.safe; named = h.named }
  Step-IsSafe {s} (stop_called ctx) h = record {
    safe = IsSafe-stop laws checkers ctx s.manager h.safe;
    named = h.named;
  }

  pub Reach-IsSafe :
      {s t : System R}
      → IsSafeSystem shows checkers s
      → Reach ops s t
      → IsSafeSystem shows checkers t
  Reach-IsSafe h here = h
  Reach-IsSafe h (next r st) = Step-IsSafe st (Reach-IsSafe h r)
