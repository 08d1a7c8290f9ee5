-- ===== src/System/Refinement.antt =====
-- The running manager refines the promised service: each step of a goroutine is a move of it.
use health.Base.{All, inl, inr, refl, some, String, string_eq, subst, List, Option, ◌≡◌}
use health.Channel.{Chan, receive}
use health.Channel.Laws.{receive-All}
use health.Check.{CheckResult}
use health.Manager.State.{Manager, Wrapper}
use health.Base.Assoc.{lookup}
use health.Manager.Invariant.{entries_of}
use health.Reporter.{Flags, IsReporter, ReporterOps}
use health.Service.{new_service, Service}
use health.Service.Laws.{here, Moves, next, rest}
use health.SyncMap.{get, Map}
use health.System
use health.System.{
  configured, System, cancel, finish, leave, quit, receive_report, report, run, run_fails,
  run_hangs, Step, stop_called, Reach, handle,
}
use health.System.Following.{Follows, handle-Follows, run_finish-revive, stop-halt}
use health.System.Handlers.{FunnelKnown, IsMade, IsSafe, IsSafeSystem, Known}
use health.System.Launch.{run_start-Follows}
use health.System.Mirror.{Mirrors}
use health.System.Safety.{IsSafe-funnel, Reach-IsSafe}
use health.System.Setup.{
  registered_blank, registered-IsSafeSystem, registered_manager, Registration, StartsDown,
}

Mirrors-funnel :
    {R : Type 0} (m : Manager R) (a : Service) (c : Chan (Option CheckResult))
    → Mirrors m a
    → Mirrors (record m { check_funnel = some c }) a
Mirrors-funnel m a c h = record {
  same_on = h.same_on;
  same_complete = h.same_complete;
  same_started = h.same_started;
  same_live = h.same_live;
  same_ready = h.same_ready;
  stored = h.stored;
}

module _ {R : Type 0} {ops : ReporterOps R} {shows : R → Flags} (laws : IsReporter ops shows)
    (checkers : Map String Wrapper) where
  receive-Follows :
      (s : System R) (a : Service) (o : Option CheckResult) (c c' : Chan (Option CheckResult))
      → s.manager.check_funnel ≡ some c
      → receive c ≡ some (o, c')
      → IsSafe shows checkers s.manager
      → Mirrors s.manager a
      → Follows ops checkers a (handle ops s.ctx o (record s.manager { check_funnel = some c' }))
  receive-Follows s a o c c' f got h k =
      let (known, q) =
        receive-All (Known checkers) c c' o got (subst (FunnelKnown checkers) f h.funnel) in
      let h' = IsSafe-funnel laws checkers s.manager c' h q in
      handle-Follows ops checkers a s.ctx o (record s.manager { check_funnel = some c' }) known
        h.registered h'.wf (Mirrors-funnel s.manager a c' k)

  Step-Follows :
      {s t : System R} (a : Service)
      → Step ops s t
      → IsSafe shows checkers s.manager
      → Mirrors s.manager a
      → Follows ops checkers a t.manager
  Step-Follows {s} a (run m ws e) h k =
      run_start-Follows ops checkers a s.ctx s.manager m h.wf.flags.running_flag k (inl (ws, e))
  Step-Follows {s} a (run_fails m x e) h k =
      run_start-Follows ops checkers a s.ctx s.manager m h.wf.flags.running_flag k
        (inr (inl (x, e)))
  Step-Follows {s} a (run_hangs m x e) h k =
      run_start-Follows ops checkers a s.ctx s.manager m h.wf.flags.running_flag k
        (inr (inr (x, e)))
  Step-Follows {s} a (finish n e) h k = run_finish-revive ops checkers a s.manager h.registered k
  Step-Follows {s} a (report before w after ws now hc c c' e r p f sent) h k =
      (a, rest, Mirrors-funnel s.manager a c' k)
  Step-Follows a (quit before w after e) h k = (a, rest, k)
  Step-Follows {s} a (receive_report o c c' live f got) h k = receive-Follows s a o c c' f got h k
  Step-Follows {s} a (leave n e l d) h k = stop-halt ops checkers a s.ctx s.manager k
  Step-Follows a (cancel e) h k = (a, rest, k)
  Step-Follows {s} a (stop_called ctx) h k = stop-halt ops checkers a ctx s.manager k

  Reach-Mirrors :
      {s t : System R} (a : Service)
      → IsSafeSystem shows checkers s
      → Mirrors s.manager a
      → Reach ops s t
      → (b : Service) × Moves (entries_of checkers) (IsMade checkers) a b × Mirrors t.manager b
  Reach-Mirrors a h k System.here = (a, here, k)
  Reach-Mirrors a h k (System.next {t} r st) =
      let (b, moves, k') = Reach-Mirrors a h k r in
      let (d, move, k'') = Step-Follows b st (Reach-IsSafe laws checkers h r).safe k' in
      (d, next moves move, k'')

registered-Mirrors :
    {R : Type 0} (shows : R → Flags) (xs : List (Registration R))
    → All (StartsDown shows) xs
    → Mirrors (registered_manager xs) new_service
unfolding get lookup
registered-Mirrors shows xs f =
    let b = registered_blank shows xs f in
    record {
      same_on = b.0;
      same_complete = b.4;
      same_started = b.6;
      same_live = b.1;
      same_ready = b.2;
      stored = λ name. rw b.7 refl;
    }

module _ {R : Type 0} {ops : ReporterOps R} {shows : R → Flags} (laws : IsReporter ops shows)
    (xs : List (Registration R)) where
  abbrev checkers : Map String Wrapper
  checkers = (registered_manager xs).checkers

  -- The manager refines the promised service in every run in which no two of the following overlap:
  -- a `Run` up to its goroutines, its last lines, a `Stop`, and the handling of a report. In every
  -- state that an application can reach by such a run after its registrations, with reporters that
  -- keep the laws of the interface and show no flag when they are registered, the manager's words
  -- and stored results are those of a service that started with nothing heard and has made moves of
  -- the promise only: it ran, heard reports that registered checks made, judged itself by the latest
  -- of each, or stopped.
  pub Reach-Moves :
      (s : System R)
      → All (StartsDown shows) xs
      → Reach ops (configured (registered_manager xs)) s
      → (a : Service) × Moves
          (entries_of (registered_manager xs).checkers)
          (IsMade (registered_manager xs).checkers)
          new_service
          a
        × Mirrors s.manager a
  Reach-Moves s f r =
      Reach-Mirrors laws checkers new_service (registered-IsSafeSystem shows xs f)
        (registered-Mirrors shows xs f) r
