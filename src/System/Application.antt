-- ===== src/System/Application.antt =====
-- An application after its registrations gets ready, and what its reporters keep meanwhile.
use health.Base.{All, List, none, some, String, string_eq, ◌≡◌, ◌≢◌}
use health.Base.Assoc.{lookup}
use health.Manager.Invariant.{entries_of}
use health.Reporter.{Flags, ReporterOps}
use health.SyncMap.{Map, get, size}
use health.SyncMap.Laws.{IsMap}
use health.System.{configured, Reach, System}
use health.System.Progress.{IsServing}
use health.System.Rounds.{AllWell, reports_of}
use health.System.Serving.{handled_IsServing, Reach-handle_all}
use health.System.Relay.{handle_all-Survives, Survives}
use health.Manager.Lifecycle.Running.{launched}
use health.System.Setup.{
  registered-IsSafeSystem, registered_blank, registered_funnel, registered_manager, Registration,
  StartsDown,
}

module _ {R : Type 0} (ops : ReporterOps R) (shows : R → Flags) (xs : List (Registration R)) where
  -- An application that has registered a check and a reporter gets ready in some order of steps,
  -- and its reporters keep what survives the calls of the manager.
  pub registered-IsServing :
      All (StartsDown shows) xs
      → size (registered_manager xs).checkers ≢ 0
      → size (registered_manager xs).reporters ≢ 0
      → ((name : String) (r : R)
          → get name (registered_manager xs).reporters ≡ some r
          → (ops.run r).1 ≡ none)
      → IsMap (registered_manager xs).reporters
      → AllWell (entries_of (registered_manager xs).checkers)
      → (P : Map String R → Type 0) → Survives ops P
      → P (launched ops (registered_manager xs)).reporters
      → (s : System R) × Reach ops (configured (registered_manager xs)) s
        × IsServing s.manager
        × P s.manager.reporters
  unfolding get lookup
  registered-IsServing f cs rs quiet d h P k p =
      let m = registered_manager xs in
      let blank = registered_blank shows xs f in
      let (s, reach, same) =
        Reach-handle_all ops m h blank.0 (registered_funnel shows xs f) cs rs
          (unfold get lookup in quiet) d in
      (
        s,
        reach,
        rw same (
            handled_IsServing ops m h (registered-IsSafeSystem shows xs f).safe.wf
              (λ name r q. absurd (cc blank.7)) (λ name r q. absurd (cc blank.7)) cs),
        rw same
            (handle_all-Survives ops P k (reports_of (entries_of m.checkers) h) (launched ops m) p),
      )
