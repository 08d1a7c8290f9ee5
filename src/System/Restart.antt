-- ===== src/System/Restart.antt =====
-- `Run`, `Stop` and `Run` again, with a context that nobody cancels (manager/std/manager.go).
use health.Base.{
  ◌==◌, arith, Bool-cases, inl, inr, none, refl, String, string_eq, true, ℕ, ◌++◌, ◌+◌, ◌∙◌, ◌≡◌,
  ◌≢◌, ap, sym, false,
}
use health.Manager.Flags.{notify, set_live, set_ready, set_startup}
use health.Manager.Invariant.{entries_of, run_finish-maps, stop-maps}
use health.Manager.Lifecycle.{
  dispatch_reporters, has_startup_checks, run_start, started, init_internals, init_startup_state,
  run_finish, start_visit, stop, stop_reporters, stop_visit,
}
use health.Manager.Lifecycle.Running.{launched, run_start-launched, workers_of}
use health.Errors.{end}
use health.Manager.State.{Context, Manager, running}
use health.Reporter.{ReporterOps}
use health.SyncMap.{Map, size}
use health.SyncMap.Laws.{IsMap}
use health.SyncMap.Loops.{always, each_object-IsMap, size-each_object}
use health.System.{here, next, Reach, Step, System}
use health.System.Relay.{
  either, set_live-Survives, set_ready-Survives, set_startup-Survives, Survives,
}

-- As many reporters, each under one name.
abbrev IsMapOf : {R : Type 0} → ℕ → Map String R → Type 0
IsMapOf n rs = IsMap rs × (size rs ≡ n)

module _ {R : Type 0} (ops : ReporterOps R) (n : ℕ) where
  notify-IsMapOf : (f : R → R) (rs : Map String R) → IsMapOf n rs → IsMapOf n (notify f rs)
  unfolding notify
  notify-IsMapOf f rs (d, e) =
      (each_object-IsMap (always f) rs (tt {0}) d, size-each_object (always f) rs (tt {0}) ∙ e)

  IsMapOf-Survives : Survives ops (IsMapOf n)
  IsMapOf-Survives = record {
    live = λ b. notify-IsMapOf (ops.set_liveness b);
    ready = λ b. notify-IsMapOf (ops.set_readiness b);
    startup = λ b. notify-IsMapOf (ops.set_startup b);
    updated = λ u. notify-IsMapOf (ops.update_health_checks u);
  }

  launched-IsMapOf : (m : Manager R) → IsMapOf n m.reporters → IsMapOf n (launched ops m).reporters
  unfolding dispatch_reporters init_internals
  launched-IsMapOf m (d, e) = (
    each_object-IsMap (start_visit ops) m.reporters none d,
    size-each_object (start_visit ops) m.reporters none ∙ e,
  )

  run_finish-IsMapOf :
      (m : Manager R) → IsMapOf n m.reporters → IsMapOf n (run_finish ops m).reporters
  unfolding run_finish init_startup_state
  run_finish-IsMapOf m p =
      let k = IsMapOf-Survives in
      let u = set_startup ops true (record m { startup_done = 1 }) in
      set_live-Survives ops (IsMapOf n) k true (init_startup_state ops m) (
        either ops (IsMapOf n) k (has_startup_checks m) m u.0 p
          (set_startup-Survives ops (IsMapOf n) k true (record m { startup_done = 1 }) p))

  stop-IsMapOf :
      (ctx : Context) (m : Manager R)
      → IsMapOf n m.reporters
      → IsMapOf n (stop ops ctx m).0.reporters
  unfolding stop stop_reporters
  stop-IsMapOf ctx m p = elim (Bool-cases (m.running_ptr == 1)) [
    | inr off ↦ rw off p
    | inl on ↦ rw on (
        let rs = (set_ready ops false (record m { running_ptr = 0 })).0.reporters in
        let (d, e) =
          set_ready-Survives ops (IsMapOf n) IsMapOf-Survives false (record m { running_ptr = 0 })
            p in
        (each_object-IsMap (stop_visit ops) rs end d, size-each_object (stop_visit ops) rs end ∙ e))
  ]

module _ {R : Type 0} (ops : ReporterOps R) where
  -- What `Stop` leaves of a manager that `Run` has started.
  abbrev stopped : Context → Manager R → Manager R
  stopped ctx m = (stop ops ctx (run_finish ops (launched ops m))).0

  run_finish-running_ptr : (m : Manager R) → (run_finish ops m).running_ptr ≡ m.running_ptr
  unfolding run_finish init_startup_state set_live set_startup
  run_finish-running_ptr m = ground arith

  stop-running_ptr :
      (ctx : Context) (m : Manager R) → m.running_ptr ≡ 1 → (stop ops ctx m).0.running_ptr ≡ 0
  unfolding stop stop_reporters set_ready
  stop-running_ptr ctx m on = ground arith

  stopped-running_ptr : (ctx : Context) (m : Manager R) → (stopped ctx m).running_ptr ≡ 0
  stopped-running_ptr ctx m =
      stop-running_ptr ctx (run_finish ops (launched ops m))
        (run_finish-running_ptr (launched ops m) ∙ unfold dispatch_reporters init_internals in refl)

  stopped-checkers : (ctx : Context) (m : Manager R) → (stopped ctx m).checkers ≡ m.checkers
  stopped-checkers ctx m =
      (stop-maps ops ctx (run_finish ops (launched ops m))).same_checkers
      ∙ (run_finish-maps ops (launched ops m)).same_checkers
      ∙ unfold dispatch_reporters init_internals in refl

  stopped-IsMapOf :
      (n : ℕ) (ctx : Context) (m : Manager R)
      → IsMapOf n m.reporters
      → IsMapOf n (stopped ctx m).reporters
  stopped-IsMapOf n ctx m p =
      stop-IsMapOf ops n ctx (run_finish ops (launched ops m))
        (run_finish-IsMapOf ops n (launched ops m) (launched-IsMapOf ops n m p))

  run_start-stopped :
      (ctx : Context) (m : Manager R)
      → size m.checkers ≢ 0
      → size m.reporters ≢ 0
      → ((r : R) → (ops.run r).1 ≡ none)
      → IsMap m.reporters
      → run_start ops none (stopped ctx m)
        ≡ started (launched ops (stopped ctx m)) (workers_of (entries_of m.checkers))
  run_start-stopped ctx m cs rs quiet d =
      let (d', e) = stopped-IsMapOf (size m.reporters) ctx m (d, refl) in
      let c = stopped-checkers ctx m in
      run_start-launched ops (stopped ctx m) (stopped-running_ptr ctx m)
        (λ z. cs (sym (ap size c) ∙ z)) (λ z. rs (sym e ∙ z)) (λ name r p. quiet r) d'
      ∙ ap (λ k. started (launched ops (stopped ctx m)) (workers_of (entries_of k))) c

  -- `Stop` ends neither the goroutines of the checks nor the reading loop, which wait for the
  -- context of `Run` alone: of a manager that does not run, has a checker and reporters, each under
  -- one name, that always start without an error, and a context that is not done, the calls `Run`, `Stop`
  -- and `Run` lead to a running manager with two goroutines for each registered check and two reading loops beside
  -- those that there were before.
  pub stop-keeps_goroutines :
      (s : System R) (ctx : Context)
      → s.ctx ≡ none
      → s.manager.running_ptr ≡ 0
      → size s.manager.checkers ≢ 0
      → size s.manager.reporters ≢ 0
      → ((r : R) → (ops.run r).1 ≡ none)
      → IsMap s.manager.reporters
      → let ws = workers_of (entries_of s.manager.checkers) in
        (t : System R) × Reach ops s t
        × (running t.manager ≡ true)
        × (t.ctx ≡ none)
        × (t.workers ≡ ws ++ (ws ++ s.workers))
        × (t.loops ≡ s.loops + 2)
  unfolding running dispatch_reporters init_internals
  stop-keeps_goroutines s ctx alive off cs rs quiet d =
      let m = s.manager in
      let ws = workers_of (entries_of m.checkers) in
      let first : run_start ops s.ctx m ≡ started (launched ops m) ws =
        ap (λ c. run_start ops c m) alive
        ∙ run_start-launched ops m off cs rs (λ name r p. quiet r) d in
      let second : run_start ops s.ctx (stopped ctx m) ≡ started (launched ops (stopped ctx m)) ws =
        ap (λ c. run_start ops c (stopped ctx m)) alive ∙ run_start-stopped ctx m cs rs quiet d in
      (
        _,
        next
            (next
              (next (next here (Step.run (launched ops m) ws first)) (Step.finish s.finishing refl))
              (Step.stop_called ctx))
            (Step.run (launched ops (stopped ctx m)) ws second),
        refl,
        alive,
        refl,
        omega arith,
      )
