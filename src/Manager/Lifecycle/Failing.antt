-- ===== src/Manager/Lifecycle/Failing.antt =====
-- How the first part of `Run` fails.
use health.Base.{
  arith, Bool-cases, false, inl, inr, length, none, refl, some, string_eq, true, [], ◌==◌, ◌∷◌, ◌≡◌,
  ◌≢◌, ◌≤◌, ◌⊎◌,
}
use health.Manager.State.{Context, Manager, running}
use health.SyncMap.{size}
use health.Reporter.{ReporterOps}
use health.Manager.Lifecycle.{
  already, blocked, failed, init_internals, manager_error, run_start, validate_and_start,
}
use health.Channel.{Chan, make_chan, send}
use health.Errors.{Error, is}
use health.Manager.Lifecycle.Running.{initialised}

abbrev no_checkers : Error
no_checkers = manager_error "there are no checkers specified for this manager"

abbrev no_reporters : Error
no_reporters = manager_error "there are no reporters specified for this manager"

module _ {R : Type 0} (ops : ReporterOps R) where
  -- `Run` on a running manager does nothing: one call alone starts the goroutines.
  pub run_start-already :
      (ctx : Context) (m : Manager R) → m.running_ptr ≡ 1 → run_start ops ctx m ≡ already m
  unfolding run_start
  run_start-already ctx m e = ground arith

  -- The manager after a failure before any reporter was started.
  abbrev failed_manager : Manager R → Error → Manager R
  failed_manager m e = record (initialised ops m) {
    err_chan = some (record { capacity = 1; queue = e ∷ [] });
    running_ptr = 0;
  }

  no_checkers_start :
      (ctx : Context) (m : Manager R)
      → m.running_ptr ≡ 0
      → m.err_chan ≡ none
      → size m.checkers ≡ 0
      → run_start ops ctx m ≡ failed (failed_manager m no_checkers) no_checkers
  unfolding run_start validate_and_start init_internals make_chan send
  no_checkers_start ctx m off fresh h = ground arith

  no_reporters_start :
      (ctx : Context) (m : Manager R)
      → m.running_ptr ≡ 0
      → m.err_chan ≡ none
      → size m.checkers ≢ 0
      → size m.reporters ≡ 0
      → run_start ops ctx m ≡ failed (failed_manager m no_reporters) no_reporters
  unfolding run_start validate_and_start init_internals make_chan send
  no_reporters_start ctx m off fresh some_checker h = ground arith

  -- Of a manager that does not run and has no error channel yet, with no checker or no reporter,
  -- `Run` puts an error of this library into a fresh error channel and leaves a manager that does
  -- not run and can be registered with.
  pub run_start-invalid :
      (ctx : Context) (m : Manager R)
      → m.running_ptr ≡ 0
      → m.err_chan ≡ none
      → (size m.checkers ≡ 0) ⊎ (size m.reporters ≡ 0)
      → (e : Error) × (m' : Manager R) × (run_start ops ctx m ≡ failed m' e)
        × (is e "health" ≡ true)
        × (m'.err_chan ≡ some (record { capacity = 1; queue = e ∷ [] }))
        × (running m' ≡ false)
        × (m'.checkers ≡ m.checkers)
        × (m'.reporters ≡ m.reporters)
  unfolding init_internals running is
  run_start-invalid ctx m off fresh h = elim (Bool-cases (size m.checkers == 0)) [
    | inl c ↦ (
      no_checkers,
      failed_manager m no_checkers,
      no_checkers_start ctx m off fresh (ground arith),
      refl,
      refl,
      refl,
      refl,
      refl,
    )
    | inr c ↦ (
      no_reporters,
      failed_manager m no_reporters,
      no_reporters_start ctx m off fresh (ground arith) (ground arith),
      refl,
      refl,
      refl,
      refl,
      refl,
    )
  ]

  -- On a manager that does not run, whose error channel is full with errors that nobody has read, a
  -- `Run` without checkers waits for room in the channel, with the manager marked as running.
  pub run_start-blocks :
      (ctx : Context) (m : Manager R) (c : Chan Error)
      → m.running_ptr ≡ 0
      → m.err_chan ≡ some c
      → c.capacity ≤ length c.queue
      → size m.checkers ≡ 0
      → (e : Error) × (m' : Manager R) × (run_start ops ctx m ≡ blocked m' e) × (running m' ≡ true)
  unfolding run_start validate_and_start init_internals make_chan send running
  run_start-blocks ctx m c off full le h = (no_checkers, initialised ops m, ground arith, refl)
