-- ===== src/System/Latest.antt =====
-- What a manager that is ready has heard of every check.
use health.Base.{
  All, false, inl, inr, some, String, string_eq, true, subst, List, ◌≡◌, ◌&&◌, ◌||◌, arith,
  Option-cases, is_some,
}
use health.Base.Int.{ℤ}
use health.Check.{CheckResult, is_unhealthy}
use health.Manager.State.{is_live, is_ready, Manager, running, Tally, Wrapper}
use health.Manager.Process.{classify}
use health.Base.Assoc.{IsDistinct, lookup}
use health.Base.Assoc.Count.{lookup-of_mem}
use health.Manager.Invariant.{entries_of}
use health.Manager.Workers.{impacts-run_check, run_check}
use health.Reporter.{Flags, IsReporter, ReporterOps}
use health.Service.{downs_ready, Service, unless_heard}
use health.Service.Every.{every-lookup}
use health.Service.Laws.{IsSound, Moves-IsSound, new_service-IsSound}
use health.SyncMap.{get, Map}
use health.System.{configured, System, Reach}
use health.System.Handlers.{IsMade, IsSafe}
use health.System.Mirror.{Mirrors}
use health.System.Safety.{Reach-IsSafe}
use health.System.Setup.{registered-IsSafeSystem, registered_manager, Registration, StartsDown}
use health.System.Refinement.{Reach-Moves}

-- What the stored tally of a report says: an unhealthy check with an impact on liveness cancels
-- both flags, one with an impact on readiness alone cancels readiness, and any other nothing.
abbrev pub tally_for : Wrapper → CheckResult → Tally
tally_for w hc = record {
  cancel_live = is_unhealthy hc.status && w.opts.affects_liveness;
  cancel_ready = is_unhealthy hc.status && (w.opts.affects_liveness || w.opts.affects_readiness);
}

module _ {R : Type 0} {ops : ReporterOps R} {shows : R → Flags} (laws : IsReporter ops shows)
    (xs : List (Registration R)) where
  abbrev checkers : Map String Wrapper
  checkers = (registered_manager xs).checkers

  -- The latest report of a check, behind what a sound service says of it.
  latest_report :
      (m : Manager R) (a : Service) (name : String) (w : Wrapper)
      → IsSafe shows checkers m
      → IsSound (entries_of checkers) (IsMade checkers) a
      → Mirrors m a
      → a.ready ≡ true
      → lookup name (entries_of checkers) ≡ some w
      → (now : ℤ) × (hc : CheckResult) × (run_check name w now ≡ some hc)
        × ((is_unhealthy hc.status && (w.opts.affects_liveness || w.opts.affects_readiness))
            ≡ false)
        × (get name m.check_results
            ≡ some (classify hc.status w.opts.affects_liveness w.opts.affects_readiness))
  latest_report m a name w safe sound mirror up p = elim (Option-cases (a.latest name)) [
    | inl nothing ↦ absurd (
        ground (
          arith,
          every-lookup (λ v o. is_some o) a.latest (entries_of checkers) name w
              (sound.full (sound.fine up).0) p,
        ))
    | inr (hc, e) ↦
        let (named, made) = sound.made name hc e in
        let there =
          lookup-of_mem hc.name made.origin (entries_of checkers)
            (subst (λ c. IsDistinct (entries_of c)) safe.registered safe.wf.checkers_map)
            made.of_entry in
        let same : made.origin ≡ w = ground arith in
        let ran = subst (λ n. run_check n made.origin made.instant ≡ some hc) named made.outcome in
        let ran' = subst (λ v. run_check name v made.instant ≡ some hc) same ran in
        let (l, r) = impacts-run_check name w made.instant hc ran' in
        let fine =
          every-lookup (λ v o. unless_heard downs_ready o) a.latest (entries_of checkers) name w
            (sound.fine up).1 p in
        let kept = mirror.stored name in (made.instant, hc, ran', ground arith, ground arith)
  ]

  pub Reach-latest :
      (s : System R)
      → All (StartsDown shows) xs
      → Reach ops (configured (registered_manager xs)) s
      → is_ready s.manager ≡ true
      → (running s.manager ≡ true)
        × (is_live s.manager ≡ true)
        × (s.manager.startup_done ≡ 1)
        × ((name : String) (w : Wrapper)
            → get name (registered_manager xs).checkers ≡ some w
            → (now : ℤ) × (hc : CheckResult) × (run_check name w now ≡ some hc)
              × ((is_unhealthy hc.status && (w.opts.affects_liveness || w.opts.affects_readiness))
                  ≡ false)
              × (get name s.manager.check_results
                  ≡ some (classify hc.status w.opts.affects_liveness w.opts.affects_readiness)))
  unfolding is_ready is_live running get
  Reach-latest s f r e =
      let (a, moves, mirror) = Reach-Moves laws xs s f r in
      let sound =
        Moves-IsSound (entries_of checkers) (IsMade checkers)
          (new_service-IsSound (entries_of checkers) (IsMade checkers)) moves in
      let safe = (Reach-IsSafe laws checkers (registered-IsSafeSystem shows xs f) r).safe in
      let up : a.ready ≡ true = ground (arith, mirror.same_ready) in
      let (on, live, started) = sound.up up in
      (
        ground (arith, mirror.same_on),
        ground (arith, mirror.same_live),
        ground (arith, mirror.same_started),
        λ name w p. unfold get in latest_report s.manager a name w safe sound mirror up p,
      )
