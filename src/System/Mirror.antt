-- ===== src/System/Mirror.antt =====
-- The manager's words and stored results as the promised service of Service, and the evaluation as
-- its verdict.
use health.Base.{
  arith, Bool, false, inl, inr, none, Option, Option-cases, refl, some, String, string_eq, true,
  sym, is_some, ◌&&◌, ◌||◌, ◌↔◌, ◌≡◌, ◌∙◌,
}
use health.Base.Assoc.{lookup}
use health.Check.{CheckResult, Status, unhealthy, healthy, is_unhealthy}
use health.Manager.State.{Manager, Tally, Wrapper}
use health.Manager.Flags.{flag}
use health.Manager.Process.{classify}
use health.Manager.Fitness.{aggregate_results, blocks_startup}
use health.Manager.Fitness.Aggregate.{aggregate_live_iff, aggregate_ready_iff, NoneCancels}
use health.Manager.Fitness.Startup.{AllPass}
use health.Manager.Invariant.{entries_of, IsWf}
use health.SyncMap.{get}
use health.Service.{
  downs_live, downs_ready, every, gate_open, none_downs_live, none_downs_ready, Service,
  startup_passes, unless_heard,
}
use health.Service.Every.{every-lookup, lookup-every}

-- What is stored of the latest report.
abbrev pub tally_of : Option CheckResult → Option Tally
tally_of none = none
tally_of (some hc) = some (classify hc.status hc.affects_liveness hc.affects_readiness)

pub record Mirrors {R : Type 0} (m : Manager R) (s : Service) : Type 0 where
  pub same_on : m.running_ptr ≡ flag s.on
  pub same_complete : m.all_checks_ran ≡ flag s.complete
  pub same_started : m.startup_done ≡ flag s.started
  pub same_live : m.live_ptr ≡ flag s.live
  pub same_ready : m.ready_ptr ≡ flag s.ready
  pub stored : (name : String) → get name m.check_results ≡ tally_of (s.latest name)

classify-downs :
    (status : Status) (a b : Bool)
    → ((classify status a b).cancel_live ≡ (is_unhealthy status && a))
      × ((classify status a b).cancel_ready ≡ (is_unhealthy status && (a || b)))
unfolding classify
classify-downs unhealthy a b = ground arith
classify-downs healthy a b = (refl, refl)
classify-downs _ a b = (refl, refl)

eq_of_iff : (a b : Bool) → (a ≡ true → b ≡ true) → (b ≡ true → a ≡ true) → a ≡ b
eq_of_iff true b f g = sym (f refl)
eq_of_iff false true f g = g refl
eq_of_iff false false f g = refl

-- A stored result cancels nothing exactly where the latest report has nothing against the flag.
cancels-unless_heard :
    (field : Tally → Bool) (bad : CheckResult → Bool)
    → ((hc : CheckResult)
        → field (classify hc.status hc.affects_liveness hc.affects_readiness) ≡ bad hc)
    → (o : Option CheckResult)
    → (unless_heard bad o ≡ true) ↔ ((r : Tally) → tally_of o ≡ some r → field r ≡ false)
cancels-unless_heard field bad e none = (λ h r p. absurd (cc), λ h. refl)
cancels-unless_heard field bad e (some hc) = (
  λ h r p. ground (arith, e hc),
  λ h. ground (arith, e hc, h (classify hc.status hc.affects_liveness hc.affects_readiness) refl),
)

blocks-gate_open :
    (w : Wrapper) (o : Option CheckResult)
    → (gate_open w o ≡ true) ↔ (w.opts.affects_startup ≡ true → blocks_startup (tally_of o) ≡ false)
blocks-gate_open w none = (λ h. ground arith, λ h. ground arith)
blocks-gate_open w (some hc) =
    let e = classify-downs hc.status hc.affects_liveness hc.affects_readiness in
    (λ h. ground arith, λ h. ground arith)

module _ {R : Type 0} (m : Manager R) (s : Service) (wf : IsWf m) (mirror : Mirrors m s) where
  every-NoneCancels :
      (field : Tally → Bool) (bad : CheckResult → Bool)
      → ((hc : CheckResult)
          → field (classify hc.status hc.affects_liveness hc.affects_readiness) ≡ bad hc)
      → (every (λ w o. unless_heard bad o) (entries_of m.checkers) s.latest ≡ true)
        ↔ NoneCancels field m.check_results
  unfolding get
  every-NoneCancels field bad e = (
    λ h name r p.
        let (w, q) = registered name (wf.known name (rw p refl)) in
        (cancels-unless_heard field bad e (s.latest name)).0
          (every-lookup (λ v o. unless_heard bad o) s.latest (entries_of m.checkers) name w h q) r
          (sym (mirror.stored name) ∙ p),
    λ h.
        lookup-every (λ v o. unless_heard bad o) s.latest (entries_of m.checkers) wf.checkers_map
          (λ name w q.
            (cancels-unless_heard field bad e (s.latest name)).1
              (λ r p. h name r (mirror.stored name ∙ p))),
  )
    where
      registered :
          (name : String)
          → is_some (lookup name (entries_of m.checkers)) ≡ true
          → (w : Wrapper) × (lookup name (entries_of m.checkers) ≡ some w)
      registered name k = elim (Option-cases (lookup name (entries_of m.checkers))) [
        | inl nothing ↦ absurd (ground arith)
        | inr found ↦ found
      ]

  pub aggregate_live_eq : (aggregate_results m).0 ≡ none_downs_live (entries_of m.checkers) s.latest
  aggregate_live_eq =
      let i =
        every-NoneCancels (λ r. r.cancel_live) downs_live
          (λ hc. (classify-downs hc.status hc.affects_liveness hc.affects_readiness).0) in
      let a = aggregate_live_iff m wf.results_map in
      eq_of_iff _ _ (λ h. i.1 (a.0 h)) (λ h. a.1 (i.0 h))

  pub aggregate_ready_eq :
      (aggregate_results m).1 ≡ none_downs_ready (entries_of m.checkers) s.latest
  aggregate_ready_eq =
      let i =
        every-NoneCancels (λ r. r.cancel_ready) downs_ready
          (λ hc. (classify-downs hc.status hc.affects_liveness hc.affects_readiness).1) in
      let a = aggregate_ready_iff m wf.results_map in
      eq_of_iff _ _ (λ h. i.1 (a.0 h)) (λ h. a.1 (i.0 h))

  pub startup_passes-AllPass :
      (startup_passes (entries_of m.checkers) s.latest ≡ true) ↔ AllPass m.check_results m.checkers
  unfolding get
  startup_passes-AllPass = (
    λ h name w q a. rw (mirror.stored name) (
        (blocks-gate_open w (s.latest name)).0
          (every-lookup gate_open s.latest (entries_of m.checkers) name w h q) a),
    λ h. lookup-every gate_open s.latest (entries_of m.checkers) wf.checkers_map (λ name w q.
        (blocks-gate_open w (s.latest name)).1 (λ a. rw (mirror.stored name) at (h name w q a))),
  )
