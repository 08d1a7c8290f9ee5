-- ===== src/System/Bounds.antt =====
-- The sizes that every reachable state keeps within.
use health.System.{
  cancel, finish, handle, here, leave, next, quit, Reach, receive_report, report, run, run_fails,
  run_hangs, Step, stop_called, System, configured,
}
use health.Manager.State.{Context, Manager}
use health.Reporter.{Flags, IsReporter, ReporterOps}
use health.SyncMap.{get, size}
use health.Channel.{Chan, make_chan}
use health.Check.{CheckResult}
use health.Manager.Lifecycle.{
  run_start, run_finish, stop, make_if_nil, init_internals, dispatch_reporters,
}
use health.Manager.Invariant.{SameMaps, evaluate_fitness-maps, stop-maps, run_finish-maps}
use health.Manager.Lifecycle.Starting.{Leaves, Leaves-run_start, IsNamedIn}
use health.Base.{
  ℕ, ◌≡◌, List, Option, some, subst, length, arith, ◌∙◌, All, ◌≤◌, none, refl, String, is_some,
  true, string_eq,
}
use health.Manager.Process.{process_health_check}
use health.System.Setup.{Registration, StartsDown, registered_manager, registered_funnel}
use health.Manager.Process.Correct.{process_result-frame}
use health.System.Readiness.{Reach-results}
use health.Channel.Laws.{length-send, length-receive}

-- The funnel has that capacity, and no more messages than that.
abbrev pub Fits : ℕ → Option (Chan (Option CheckResult)) → Type 0
Fits n none = Unit
Fits n (some c) = (c.capacity ≡ n) × (length c.queue ≤ n)

record IsBounded {R : Type 0} (n : ℕ) (m : Manager R) : Type 0 where
  checks : size m.checkers ≡ n
  room : Fits n m.check_funnel

Fits-init : (n : ℕ) (o : Option (Chan (Option CheckResult))) → Fits n o → Fits n (make_if_nil n o)
unfolding make_if_nil make_chan
Fits-init n none h = (refl, omega arith)
Fits-init n (some c) h = h

module _ {R : Type 0} (ops : ReporterOps R) (n : ℕ) where
  IsBounded-maps : (m m' : Manager R) → SameMaps m m' → IsBounded n m → IsBounded n m'
  IsBounded-maps m m' s h = record {
    checks = rw s.same_checkers h.checks;
    room = rw s.same_funnel h.room;
  }

  IsBounded-run :
      (ctx : Context) (m : Manager R)
      → IsBounded n m
      → Leaves (IsBounded n) (IsNamedIn m.checkers) (run_start ops ctx m)
  unfolding init_internals dispatch_reporters
  IsBounded-run ctx m h =
      Leaves-run_start ops (IsBounded n) ctx m h
        (λ _. record { checks = h.checks; room = rw h.checks (Fits-init n m.check_funnel h.room) })
        (λ m b. record { checks = b.checks; room = b.room })
        (λ m c b. record { checks = b.checks; room = b.room })

  IsBounded-process :
      (ctx : Context) (o : Option CheckResult) (m : Manager R)
      → IsBounded n m
      → IsBounded n (process_health_check ops ctx o m)
  unfolding process_health_check
  IsBounded-process ctx none m h = h
  IsBounded-process (some e) (some hc) m h = h
  IsBounded-process none (some hc) m h =
      let (same, funnel) = process_result-frame ops hc m in
      record { checks = rw same h.checks; room = rw funnel h.room }

  IsBounded-handle :
      (ctx : Context) (o : Option CheckResult) (m : Manager R)
      → IsBounded n m
      → IsBounded n (handle ops ctx o m)
  unfolding handle
  IsBounded-handle ctx o m h =
      IsBounded-maps (process_health_check ops ctx o m) (handle ops ctx o m)
        (evaluate_fitness-maps ops (process_health_check ops ctx o m)) (IsBounded-process ctx o m h)

  Step-IsBounded : {s t : System R} → Step ops s t → IsBounded n s.manager → IsBounded n t.manager
  Step-IsBounded {s} (run m ws e) h =
      (subst (Leaves (IsBounded n) (IsNamedIn s.manager.checkers)) e
        (IsBounded-run s.ctx s.manager h)).0
  Step-IsBounded {s} (run_fails m x e) h =
      subst (Leaves (IsBounded n) (IsNamedIn s.manager.checkers)) e
        (IsBounded-run s.ctx s.manager h)
  Step-IsBounded {s} (run_hangs m x e) h =
      subst (Leaves (IsBounded n) (IsNamedIn s.manager.checkers)) e
        (IsBounded-run s.ctx s.manager h)
  Step-IsBounded {s} (finish k e) h =
      IsBounded-maps s.manager (run_finish ops s.manager) (run_finish-maps ops s.manager) h
  Step-IsBounded {s} (report before w after rest now hc c c' e r k f sent) h = record {
    checks = h.checks;
    room =
        let (cap, len) = length-send (some hc) c c' sent in
        let (cap', len') : Fits n (some c) = subst (Fits n) f h.room in
        (cap ∙ cap', omega (arith, len, cap'));
  }
  Step-IsBounded (quit before w after e) h = h
  Step-IsBounded {s} (receive_report o c c' live f got) h =
      let (cap, len) = length-receive o c c' got in
      let (cap', len') : Fits n (some c) = subst (Fits n) f h.room in
      IsBounded-handle s.ctx o (record s.manager { check_funnel = some c' })
        (record { checks = h.checks; room = (cap ∙ cap', omega (arith, len, len')) })
  Step-IsBounded {s} (leave k e l d) h =
      IsBounded-maps s.manager (stop ops s.ctx s.manager).0 (stop-maps ops s.ctx s.manager) h
  Step-IsBounded (cancel e) h = h
  Step-IsBounded {s} (stop_called ctx) h =
      IsBounded-maps s.manager (stop ops ctx s.manager).0 (stop-maps ops ctx s.manager) h

  Reach-IsBounded : {s t : System R} → IsBounded n s.manager → Reach ops s t → IsBounded n t.manager
  Reach-IsBounded h here = h
  Reach-IsBounded h (next r st) = Step-IsBounded st (Reach-IsBounded h r)

module _ {R : Type 0} {ops : ReporterOps R} {shows : R → Flags} (laws : IsReporter ops shows) where
  -- In every state that an application can reach after its registrations, by any order of steps,
  -- with reporters that keep the laws of the interface and show no flag when they are registered:
  -- the funnel, once it is made, has the number of registered checks for its capacity and no more
  -- messages than that, and there are no more results than registered checks, each for one of them.
  pub Reach-bounds :
      (xs : List (Registration R)) (s : System R)
      → All (StartsDown shows) xs
      → Reach ops (configured (registered_manager xs)) s
      → Fits (size (registered_manager xs).checkers) s.manager.check_funnel
        × (size s.manager.check_results ≤ size (registered_manager xs).checkers)
        × ((name : String)
            → is_some (get name s.manager.check_results) ≡ true
            → is_some (get name (registered_manager xs).checkers) ≡ true)
  Reach-bounds xs s f r =
      let few = Reach-results laws xs s f r in
      (
        (Reach-IsBounded ops (size (registered_manager xs).checkers)
            (record { checks = refl; room = rw (registered_funnel shows xs f) tt }) r).room,
        few.0,
        few.1,
      )
