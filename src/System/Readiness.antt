-- ===== src/System/Readiness.antt =====
-- What an observer may rely on in every reachable state.
use health.Base.{All, arith, is_some, List, some, String, string_eq, true, ◌≡◌, ◌≤◌}
use health.System.{configured, Reach, System}
use health.Reporter.{Flags, IsReporter, ReporterOps}
use health.Manager.State.{is_ready, Wrapper}
use health.SyncMap.{get, size}
use health.System.Setup.{registered-IsSafeSystem, registered_manager, Registration, StartsDown}
use health.System.Handlers.{IsSafe}
use health.System.Safety.{Reach-IsSafe}
use health.Manager.Flags.Sync.{flags_of}
use health.Base.Assoc.Count.{length-le_of_KeysWithin}
use health.Manager.Invariant.{entries_of}

module _ {R : Type 0} {ops : ReporterOps R} {shows : R → Flags} (laws : IsReporter ops shows) where
  reached :
      (xs : List (Registration R)) (s : System R)
      → All (StartsDown shows) xs
      → Reach ops (configured (registered_manager xs)) s
      → IsSafe shows (registered_manager xs).checkers s.manager
  reached xs s f r =
      (Reach-IsSafe laws (registered_manager xs).checkers (registered-IsSafeSystem shows xs f)
        r).safe

  -- In every state that an application can reach after its registrations, by any order of steps,
  -- with reporters that keep the laws of the interface and show no flag when they are registered:
  -- if the manager is ready, then startup is complete, and every registered check has reported.
  Reach-ready :
      (xs : List (Registration R)) (s : System R)
      → All (StartsDown shows) xs
      → Reach ops (configured (registered_manager xs)) s
      → is_ready s.manager ≡ true
      → (s.manager.startup_done ≡ 1)
        × ((name : String) (w : Wrapper)
            → get name (registered_manager xs).checkers ≡ some w
            → is_some (get name s.manager.check_results) ≡ true)
  unfolding is_ready get
  Reach-ready xs s f r e =
      let h = reached xs s f r in
      let (ran, done) = h.wf.ready_gate (ground arith) in
      (done, λ name w p. h.wf.reported ran name (ground (arith, h.registered, p)))

  -- In every state that an application can reach after its registrations by a run in which no two of
  -- the following overlap: a `Run` up to its goroutines, its last lines, a `Stop`, and the handling of
  -- a report, with reporters that keep the laws of the interface and show no flag when they are
  -- registered, every reporter shows the manager's liveness, readiness and startup.
  pub Reach-InSync :
      (xs : List (Registration R)) (s : System R)
      → All (StartsDown shows) xs
      → Reach ops (configured (registered_manager xs)) s
      → (name : String) (r : R) → get name s.manager.reporters ≡ some r
      → shows r ≡ flags_of s.manager
  Reach-InSync xs s f r = (reached xs s f r).sync

  -- In every state that an application can reach after its registrations, by any order of steps,
  -- with reporters that keep the laws of the interface and show no flag when they are registered,
  -- only registered checks have results, and there are no more results than checks.
  pub Reach-results :
      (xs : List (Registration R)) (s : System R)
      → All (StartsDown shows) xs
      → Reach ops (configured (registered_manager xs)) s
      → (size s.manager.check_results ≤ size (registered_manager xs).checkers)
        × ((name : String)
            → is_some (get name s.manager.check_results) ≡ true
            → is_some (get name (registered_manager xs).checkers) ≡ true)
  unfolding get size
  Reach-results xs s f r =
      let h = reached xs s f r in
      let same = h.registered in
      (
        rw (← same) (
            length-le_of_KeysWithin (entries_of s.manager.check_results)
              (entries_of s.manager.checkers) h.wf.results_map h.wf.checkers_map h.wf.known),
        λ name p. rw (← same) (h.wf.known name p),
      )
