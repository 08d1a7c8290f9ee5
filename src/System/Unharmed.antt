-- ===== src/System/Unharmed.antt =====
-- Reports that are not unhealthy, and the managers that they do no harm to.
use health.Reporter.{ReporterOps}
use health.SyncMap.{Map, get}
use health.Base.{
  String, List, ◌∷◌, is_some, ◌≡◌, Bool, none, ◌⊎◌, arith, false, some, true, [], ◌&&◌, Bool-cases,
  ◌∙◌, ◌=?◌, refl, string_eq, inl, inr,
}
use health.Manager.State.{Manager, Wrapper, Tally}
use health.Manager.Process.{classify, process_result, process_health_check}
use health.Manager.Invariant.{IsWf, evaluate_fitness-maps, evaluate_fitness-IsWf}
use health.Check.{Status, CheckResult, is_unhealthy, unhealthy, healthy}
use health.Manager.Fitness.{
  evaluate_startup, first_ready, apply_liveness_change, apply_readiness_change, evaluate_fitness,
  apply_fitness, aggregate_results,
}
use health.System.{handle}
use health.Manager.Flags.{set_startup, set_ready, set_live}
use health.Manager.Process.Correct.{process_result-IsWf, get-process_result}
use health.Manager.Fitness.Aggregate.{NoneCancels}

-- The reading loop over reports with no other goroutine in between.
abbrev pub handle_all : {R : Type 0} → ReporterOps R → List CheckResult → Manager R → Manager R
handle_all ops [] m = m
handle_all ops (hc ∷ hcs) m = handle_all ops hcs (handle ops none (some hc) m)

-- A report of a registered check that is not unhealthy.
pub record IsGood (checkers : Map String Wrapper) (hc : CheckResult) : Type 0 where
  pub registered : is_some (get hc.name checkers) ≡ true
  pub well : is_unhealthy hc.status ≡ false

-- One of the reports carries the name.
abbrev pub HasReport : String → List CheckResult → Type 0
HasReport name [] = ⊥
HasReport name (hc ∷ hcs) = (hc.name ≡ name) ⊎ HasReport name hcs

-- All the reports are good.
abbrev pub AllGood : Map String Wrapper → List CheckResult → Type 0
AllGood checkers [] = Unit
AllGood checkers (hc ∷ hcs) = IsGood checkers hc × AllGood checkers hcs

-- A manager that runs, where no stored result cancels a flag.
pub record IsUnharmed {R : Type 0} (m : Manager R) : Type 0 where
  pub wf : IsWf m
  pub on : m.running_ptr ≡ 1
  pub keeps_live : NoneCancels (λ r. r.cancel_live) m.check_results
  pub keeps_ready : NoneCancels (λ r. r.cancel_ready) m.check_results

classify_good :
    (s : Status) (a b : Bool)
    → is_unhealthy s ≡ false
    → classify s a b ≡ record { cancel_live = false; cancel_ready = false }
unfolding classify
classify_good unhealthy a b h = absurd (cc)
classify_good healthy a b h = refl
classify_good _ a b h = refl

module _ {R : Type 0} (ops : ReporterOps R) where
  pub process_result-running :
      (hc : CheckResult) (m : Manager R) → (process_result ops hc m).running_ptr ≡ m.running_ptr
  unfolding process_result
  process_result-running hc m = ground arith

  evaluate_startup-running :
      (m : Manager R) → (evaluate_startup ops m).0.running_ptr ≡ m.running_ptr
  unfolding evaluate_startup set_startup
  evaluate_startup-running m = ground arith

  first_ready-running :
      (b : Bool) (m : Manager R) → (first_ready ops b m).0.running_ptr ≡ m.running_ptr
  unfolding first_ready set_ready
  first_ready-running b m = ground arith

  apply_liveness_change-running :
      (b : Bool) (m : Manager R) → (apply_liveness_change ops b m).running_ptr ≡ m.running_ptr
  unfolding apply_liveness_change set_live
  apply_liveness_change-running b m = ground arith

  apply_readiness_change-running :
      (a b : Bool) (m : Manager R) → (apply_readiness_change ops a b m).running_ptr ≡ m.running_ptr
  unfolding apply_readiness_change set_ready
  apply_readiness_change-running a b m = ground arith

  pub evaluate_fitness-running :
      (m : Manager R) → (evaluate_fitness ops m).running_ptr ≡ m.running_ptr
  unfolding evaluate_fitness apply_fitness
  evaluate_fitness-running m =
      let m1 = (evaluate_startup ops m).0 in
      let a = aggregate_results m1 in
      let f = first_ready ops a.1 m1 in
      let m3 = apply_liveness_change ops a.0 f.0 in
      ground (
        arith,
        evaluate_startup-running m,
        first_ready-running a.1 m1,
        apply_liveness_change-running a.0 f.0,
        apply_readiness_change-running f.1 (a.1 && a.0) m3,
      )

  NoneCancels-process_result :
      (field : Tally → Bool) (hc : CheckResult) (m : Manager R)
      → field (record { cancel_live = false; cancel_ready = false }) ≡ false
      → is_unhealthy hc.status ≡ false
      → NoneCancels field m.check_results
      → NoneCancels field (process_result ops hc m).check_results
  NoneCancels-process_result field hc m clear well h name r p =
      elim (Bool-cases (hc.name =? name)) [
        | inl same ↦
            let e : classify hc.status hc.affects_liveness hc.affects_readiness ≡ r =
              ground (arith, get-process_result ops hc m name) in
            rw (← e)
              (rw (classify_good hc.status hc.affects_liveness hc.affects_readiness well) clear)
        | inr other ↦ h name r (ground (arith, get-process_result ops hc m name))
      ]

  pub handle-none :
      (hc : CheckResult) (m : Manager R)
      → handle ops none (some hc) m ≡ evaluate_fitness ops (process_result ops hc m)
  unfolding handle process_health_check
  handle-none hc m = refl

  pub process_result-IsUnharmed :
      (hc : CheckResult) (m : Manager R)
      → IsGood m.checkers hc
      → IsUnharmed m
      → IsUnharmed (process_result ops hc m)
  process_result-IsUnharmed hc m g u = record {
    wf = process_result-IsWf ops hc m (unfold get in g.registered) u.wf;
    on = process_result-running hc m ∙ u.on;
    keeps_live = NoneCancels-process_result (λ r. r.cancel_live) hc m refl g.well u.keeps_live;
    keeps_ready = NoneCancels-process_result (λ r. r.cancel_ready) hc m refl g.well u.keeps_ready;
  }

  pub evaluate_fitness-IsUnharmed :
      (m : Manager R) → IsUnharmed m → IsUnharmed (evaluate_fitness ops m)
  evaluate_fitness-IsUnharmed m u =
      let same = evaluate_fitness-maps ops m in
      record {
        wf = evaluate_fitness-IsWf ops m u.wf;
        on = evaluate_fitness-running m ∙ u.on;
        keeps_live = rw same.same_results u.keeps_live;
        keeps_ready = rw same.same_results u.keeps_ready;
      }
