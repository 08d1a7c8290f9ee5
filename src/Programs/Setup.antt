-- ===== src/Programs/Setup.antt =====
-- The registrations of a program go through, and what its readiness then says of its checks.
use health.Base.{
  All, arith, false, List, none, refl, inr, some, String, string_eq, true, [], ◌||◌, ◌∷◌, ◌≡◌, ap,
  sym, subst,
}
use health.Base.Int.{ℤ}
use health.Check.{CheckResult, is_unhealthy}
use health.Manager.Lifecycle.{add_check, add_reporter, run_start}
use health.Manager.State.{Context, new_manager, is_ready, Manager, running, Wrapper}
use health.Manager.Workers.{run_check}
use health.Programs.{register_or_fail, set_up, start_main, start_or_fail}
use health.Reporter.{Flags, IsReporter, ReporterOps}
use health.SyncMap.{get}
use health.System.{configured, Reach, System}
use health.System.Latest.{Reach-latest}
use health.System.Setup.{
  of_check, of_reporter, register, register_all, registered_manager, Registration, StartsDown,
}

module _ {R : Type 0} where
  register_or_fail_idle :
      (x : Registration R) (m : Manager R)
      → m.running_ptr ≡ 0
      → (register_or_fail x m ≡ (register x m, none)) × ((register x m).running_ptr ≡ 0)
  unfolding register_or_fail register add_check add_reporter running
  register_or_fail_idle (of_check name checker opts) m off = (ground arith, ground arith)
  register_or_fail_idle (of_reporter name r) m off = (ground arith, ground arith)

  -- No registration fails before `Run`.
  set_up_registers :
      (xs : List (Registration R)) (m : Manager R)
      → m.running_ptr ≡ 0
      → set_up xs m ≡ (register_all xs m, none)
  unfolding set_up register_all
  set_up_registers [] m off = refl
  set_up_registers (x ∷ xs) m off =
      let (same, off') = register_or_fail_idle x m off in
      rw (same, set_up)
        (subst (λ y. set_up xs y ≡ (register_all xs (register x m), none))
          (sym (ap (λ p. p.0) same)) (set_up_registers xs (register x m) off'))

  -- `main` comes to `Run` with the manager that has registered all.
  pub start_main-run_start :
      (ops : ReporterOps R) (ctx : Context) (xs : List (Registration R))
      → start_main ops ctx xs ≡ inr (run_start ops ctx (registered_manager xs))
  unfolding start_main
  start_main-run_start ops ctx xs =
      ap (start_or_fail ops ctx) (set_up_registers xs new_manager refl)

module _ {R : Type 0} {ops : ReporterOps R} {shows : R → Flags} (laws : IsReporter ops shows)
    (xs : List (Registration R)) where
  -- Once the manager is ready, each check that affects liveness or readiness has made a report that
  -- is not unhealthy.
  pub ready_check :
      (s : System R) (name : String) (w : Wrapper)
      → All (StartsDown shows) xs
      → Reach ops (configured (registered_manager xs)) s
      → is_ready s.manager ≡ true
      → get name (registered_manager xs).checkers ≡ some w
      → (w.opts.affects_liveness || w.opts.affects_readiness) ≡ true
      → (now : ℤ) × (hc : CheckResult) × (run_check name w now ≡ some hc)
        × (is_unhealthy hc.status ≡ false)
  ready_check s name w f r e p impact =
      let (now, hc, ran, fine, _) = (Reach-latest laws xs s f r e).3 name w p in
      (now, hc, ran, ground arith)
