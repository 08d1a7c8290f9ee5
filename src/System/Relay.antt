-- ===== src/System/Relay.antt =====
-- What the handling of reports keeps of the reporters: whatever no call of theirs breaks.
use health.Base.{
  arith, Bool, Bool-cases, false, if◌then◌else◌, inl, inr, none, not, some, String, true, ◌&&◌,
  ◌==◌, ◌≡◌, ◌∷◌, List, [],
}
use health.Check.{CheckResult}
use health.Manager.Flags.{flag, notify, set_live, set_ready, set_startup}
use health.Manager.Fitness.{
  aggregate_results, apply_fitness, apply_liveness_change, apply_readiness_change, evaluate_fitness,
  evaluate_startup, first_ready, startup_passed,
}
use health.Manager.Process.{process_health_check, process_result, record_tally}
use health.Manager.State.{is_live, Manager, running}
use health.Reporter.{ReporterOps}
use health.SyncMap.{GoMap, made, Map}
use health.System.{handle}
use health.System.Unharmed.{handle_all}

-- A predicate that survives each call by which the manager tells its reporters something.
pub record Survives {R : Type 0} (ops : ReporterOps R) (P : Map String R → Type 0) : Type 0 where
  pub live : (b : Bool) (rs : Map String R) → P rs → P (notify (ops.set_liveness b) rs)
  pub ready : (b : Bool) (rs : Map String R) → P rs → P (notify (ops.set_readiness b) rs)
  pub startup : (b : Bool) (rs : Map String R) → P rs → P (notify (ops.set_startup b) rs)
  pub updated :
      (u : GoMap String CheckResult) (rs : Map String R)
      → P rs
      → P (notify (ops.update_health_checks u) rs)

module _ {R : Type 0} (ops : ReporterOps R) (P : Map String R → Type 0) (k : Survives ops P) where
  pub either :
      (c : Bool) (m m' : Manager R)
      → P m.reporters
      → P m'.reporters
      → P (if c then m else m').reporters
  either true m m' p p' = p
  either false m m' p p' = p'

  pub set_live-Survives :
      (b : Bool) (m : Manager R) → P m.reporters → P (set_live ops b m).0.reporters
  unfolding set_live
  set_live-Survives b m p = elim (Bool-cases (m.live_ptr == flag b)) [
    | inl same ↦ rw same p
    | inr new ↦ rw new (k.live (flag b == 1) m.reporters p)
  ]

  pub set_startup-Survives :
      (b : Bool) (m : Manager R) → P m.reporters → P (set_startup ops b m).0.reporters
  unfolding set_startup
  set_startup-Survives b m p = elim (Bool-cases (m.startup_ptr == flag b)) [
    | inl same ↦ rw same p
    | inr new ↦ rw new (k.startup (flag b == 1) m.reporters p)
  ]

  pub set_ready-Survives :
      (b : Bool) (m : Manager R) → P m.reporters → P (set_ready ops b m).0.reporters
  unfolding set_ready
  set_ready-Survives b m p = elim (Bool-cases (b && m.all_checks_ran == 0)) [
    | inl early ↦ rw early p
    | inr ran ↦ rw ran (elim (Bool-cases (b && m.startup_done == 0)) [
      | inl early ↦ rw early p
      | inr done ↦ rw done (elim (Bool-cases (m.ready_ptr == flag b)) [
        | inl same ↦ rw same p
        | inr new ↦ rw new (k.ready (flag b == 1) m.reporters p)
      ])
    ])
  ]

  first_ready-Survives :
      (a : Bool) (m : Manager R) → P m.reporters → P (first_ready ops a m).0.reporters
  unfolding first_ready
  first_ready-Survives a m p = elim (Bool-cases (a && m.initial_ready == 0)) [
    | inl first ↦ rw first (set_ready-Survives true (record m { initial_ready = 1 }) p)
    | inr later ↦ rw later p
  ]

  apply_liveness_change-Survives :
      (b : Bool) (m : Manager R) → P m.reporters → P (apply_liveness_change ops b m).reporters
  unfolding apply_liveness_change
  apply_liveness_change-Survives b m p =
      either (if is_live m then b else not b) m (set_live ops b m).0 p (set_live-Survives b m p)

  apply_readiness_change-Survives :
      (a b : Bool) (m : Manager R) → P m.reporters → P (apply_readiness_change ops a b m).reporters
  unfolding apply_readiness_change
  apply_readiness_change-Survives a b m p =
      either (if a then b else not b) m (set_ready ops b m).0 p (set_ready-Survives b m p)

  apply_fitness-Survives : (m : Manager R) → P m.reporters → P (apply_fitness ops m).reporters
  unfolding apply_fitness
  apply_fitness-Survives m p =
      let (live, ready) = aggregate_results m in
      let f = first_ready ops ready m in
      apply_readiness_change-Survives f.1 (ready && live) (apply_liveness_change ops live f.0)
        (apply_liveness_change-Survives live f.0 (first_ready-Survives ready m p))

  evaluate_startup-Survives :
      (m : Manager R) → P m.reporters → P (evaluate_startup ops m).0.reporters
  unfolding evaluate_startup
  evaluate_startup-Survives m p = elim (Bool-cases (m.startup_done == 0)) [
    | inr done ↦ rw done p
    | inl pending ↦ rw pending (elim (Bool-cases (startup_passed m)) [
      | inr fails ↦ rw fails p
      | inl passes ↦ rw passes (set_startup-Survives true (record m { startup_done = 1 }) p)
    ])
  ]

  evaluate_fitness-Survives : (m : Manager R) → P m.reporters → P (evaluate_fitness ops m).reporters
  unfolding evaluate_fitness
  evaluate_fitness-Survives m p =
      let s = evaluate_startup ops m in
      let p' = evaluate_startup-Survives m p in
      let both = either s.1 (apply_fitness ops s.0) s.0 (apply_fitness-Survives s.0 p') p' in
      either (not (running m)) m _ p (either (m.all_checks_ran == 0) m _ p both)

  reporters-process_result :
      (hc : CheckResult) (m : Manager R)
      → (process_result ops hc m).reporters
        ≡ notify (ops.update_health_checks (made ((hc.name, hc) ∷ []))) m.reporters
  unfolding process_result record_tally
  reporters-process_result hc m = ground arith

  process_result-Survives :
      (hc : CheckResult) (m : Manager R) → P m.reporters → P (process_result ops hc m).reporters
  process_result-Survives hc m p =
      rw (reporters-process_result hc m) (k.updated (made ((hc.name, hc) ∷ [])) m.reporters p)

  handle-Survives :
      (hc : CheckResult) (m : Manager R) → P m.reporters → P (handle ops none (some hc) m).reporters
  unfolding handle process_health_check
  handle-Survives hc m p =
      evaluate_fitness-Survives (process_result ops hc m) (process_result-Survives hc m p)

  -- Whatever survives the calls holds of the reporters after any reports.
  pub handle_all-Survives :
      (hcs : List CheckResult) (m : Manager R) → P m.reporters → P (handle_all ops hcs m).reporters
  handle_all-Survives [] m p = p
  handle_all-Survives (hc ∷ hcs) m p =
      handle_all-Survives hcs (handle ops none (some hc) m) (handle-Survives hc m p)
