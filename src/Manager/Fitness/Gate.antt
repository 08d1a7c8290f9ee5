-- ===== src/Manager/Fitness/Gate.antt =====
-- The startup gate as a whole: when it opens, and a failing startup check that does not close it.
use health.Base.{
  none, Option, arith, Bool-cases, eq_iff, false, inl, inr, refl, some, String, string_eq, true,
  ◌==◌, ◌=?◌, ◌↔◌, ◌≡◌, ◌≢◌, ◌⊎◌,
}
use health.Manager.State.{Manager, Tally, Wrapper}
use health.Reporter.{ReporterOps}
use health.Manager.Fitness.{blocks_startup, evaluate_startup}
use health.Manager.Process.{classify, process_result}
use health.Check.{CheckResult, Status, unhealthy}
use health.SyncMap.Laws.{IsMap}
use health.SyncMap.{get}
use health.Manager.Fitness.Startup.{AllPass, Passes, startup_passed_iff}
use health.Manager.Process.Correct.{get-process_result, process_result-frame}

blocks_startup-classify : (s : Status) → blocks_startup (some (classify s false false)) ≡ false
unfolding classify
blocks_startup-classify unhealthy = refl
blocks_startup-classify _ = refl

-- A stored result that cancels nothing.
abbrev pub IsCleared : Option Tally → Type 0
IsCleared o = (r : Tally) × (o ≡ some r) × (r.cancel_live ≡ false) × (r.cancel_ready ≡ false)

blocks_startup_iff : (o : Option Tally) → (blocks_startup o ≡ false) ↔ IsCleared o
blocks_startup_iff none = (λ h. absurd (cc), λ h. absurd (cc (h.1)))
blocks_startup_iff (some r) =
    (λ h. (r, refl, ground arith, ground arith), λ (q, e, live, ready). ground arith)

module _ {R : Type 0} (ops : ReporterOps R) where
  pub evaluate_startup-AllPass :
      (m : Manager R)
      → IsMap m.checkers
      → ((evaluate_startup ops m).1 ≡ true)
        ↔ ((m.startup_done ≢ 0) ⊎ AllPass m.check_results m.checkers)
  unfolding evaluate_startup
  evaluate_startup-AllPass m d =
      let (f, g) = startup_passed_iff m d in
      (
        λ h. elim (Bool-cases (m.startup_done == 0)) [
          | inl pending ↦ inr (f (ground arith))
          | inr done ↦ inl (ground arith)
        ],
        λ h. elim h [ inl done ↦ ground arith | inr pass ↦ let c = g pass in ground arith ],
      )

  -- With each check under one name, the startup gate is open exactly when startup was complete
  -- before, or every check that affects startup has a stored result that cancels neither liveness
  -- nor readiness.
  pub evaluate_startup_iff :
      (m : Manager R)
      → IsMap m.checkers
      → ((evaluate_startup ops m).1 ≡ true) ↔ (
          (m.startup_done ≢ 0)
          ⊎ ((name : String) (w : Wrapper)
              → get name m.checkers ≡ some w
              → w.opts.affects_startup ≡ true
              → IsCleared (get name m.check_results)))
  evaluate_startup_iff m d =
      let (f, g) = evaluate_startup-AllPass m d in
      (
        λ h. elim (f h) [
          | inl done ↦ inl done
          | inr pass ↦
              inr
                (λ name w p a. (blocks_startup_iff (get name m.check_results)).0 (pass name w p a))
        ],
        λ h. elim h [
          | inl done ↦ g (inl done)
          | inr clear ↦ g (
              inr (λ name w p a.
                (blocks_startup_iff (get name m.check_results)).1 (clear name w p a)))
        ],
      )

  Passes-after :
      (hc : CheckResult) (m : Manager R)
      → hc.affects_liveness ≡ false
      → hc.affects_readiness ≡ false
      → ((name : String) (w : Wrapper)
          → name ≢ hc.name
          → get name m.checkers ≡ some w
          → Passes m.check_results name w)
      → AllPass (process_result ops hc m).check_results (process_result ops hc m).checkers
  Passes-after hc m live ready others name w p a =
      let at = get-process_result ops hc m name in
      let c = (process_result-frame ops hc m).0 in
      elim (Bool-cases (hc.name =? name)) [
        | inl same ↦ rw (at, same, live, ready) (blocks_startup-classify hc.status)
        | inr other ↦
            rw (at, other) (others name w (λ e. ground (arith, eq_iff hc.name name)) (rw (← c) p) a)
      ]

  -- An unhealthy report from a check that affects startup, and neither liveness nor readiness, does
  -- not hold startup back: with each check under one name, if all checks of other names pass or do
  -- not affect startup, the gate opens.
  pub unhealthy_startup-Passes :
      (hc : CheckResult) (m : Manager R)
      → IsMap m.checkers
      → hc.status ≡ unhealthy
      → hc.affects_startup ≡ true
      → hc.affects_liveness ≡ false
      → hc.affects_readiness ≡ false
      → ((name : String) (w : Wrapper)
          → name ≢ hc.name
          → get name m.checkers ≡ some w
          → Passes m.check_results name w)
      → (evaluate_startup ops (process_result ops hc m)).1 ≡ true
  unhealthy_startup-Passes hc m d bad startup live ready others =
      (evaluate_startup-AllPass (process_result ops hc m)
          (rw (process_result-frame ops hc m).0 d)).1
        (inr (Passes-after hc m live ready others))
