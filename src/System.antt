-- ===== src/System.antt =====
-- The running manager with its goroutines (manager/std/manager.go, from `Run` on), in runs in which
-- no two of the following overlap: a `Run` up to its goroutines, its last lines, a `Stop`, and the
-- handling of a report with the two calls of the reading loop's body. Each of these is one step, and
-- any goroutine that can go on may take the next. In the program they can overlap: what a `Stop` in
-- the middle of `setReady` does is in Manager.Flags.Race. All checks and reporters are registered
-- before the first `Run`, and every `Run` has the same context.
pub mod Handlers
pub mod Safety
pub mod Setup
pub mod Readiness
pub mod Bounds
pub mod Manifest
pub mod Unharmed
pub mod Progress
pub mod Mirror
pub mod Verdict
pub mod Heard
pub mod Following
pub mod Launch
pub mod Refinement
pub mod Latest
pub mod Relay
pub mod Rounds
pub mod Serving
pub mod Application
pub mod Restart
use health.Manager.State.{Context, Manager}
use health.Reporter.{ReporterOps}
use health.Base.{List, none, Option, some, suc, ℕ, [], ◌++◌, ◌<◌, ◌∷◌, ◌≡◌, ◌⊎◌}
use health.Manager.Workers.{at_interval, one_time, run_check, Worker}
use health.Check.{CheckResult}
use health.Manager.Lifecycle.{blocked, failed, run_finish, run_start, started, stop}
use health.Manager.Fitness.{evaluate_fitness}
use health.Manager.Process.{process_health_check}
use health.Errors.{Error}
use health.Base.Int.{ℤ}
use health.Channel.{Chan, receive, send}

-- The manager, the goroutines of its checkers, the context of `Run`, how many loops read the
-- funnel, and how many calls of `Run` have not come to their last lines.
pub record System (R : Type 0) : Type 0 where
  pub manager : Manager R
  pub workers : List Worker
  pub ctx : Context
  pub loops : ℕ
  pub finishing : ℕ

abbrev pub configured : {R : Type 0} → Manager R → System R
configured m = record { manager = m; workers = []; ctx = none; loops = 0; finishing = 0 }

module _ {R : Type 0} (ops : ReporterOps R) where
  -- The loop's body for one message.
  unfoldable pub handle : Context → Option CheckResult → Manager R → Manager R
  handle ctx o m = evaluate_fitness ops (process_health_check ops ctx o m)

  pub data Step (s : System R) : System R → Type 0 where
    -- `Run` gets as far as the goroutine that reads the funnel.
    run :
        (m : Manager R) (ws : List Worker)
        → run_start ops s.ctx s.manager ≡ started m ws
        → Step s (record s {
          manager = m;
          workers = ws ++ s.workers;
          loops = suc s.loops;
          finishing = suc s.finishing;
        })
    -- `Run` ends with an error in the error channel.
    run_fails :
        (m : Manager R) (e : Error)
        → run_start ops s.ctx s.manager ≡ failed m e
        → Step s (record s { manager = m })
    -- `Run` waits for room in the error channel.
    run_hangs :
        (m : Manager R) (e : Error)
        → run_start ops s.ctx s.manager ≡ blocked m e
        → Step s (record s { manager = m })
    -- The last lines of `Run`.
    finish :
        (n : ℕ)
        → s.finishing ≡ suc n
        → Step s (record s { manager = run_finish ops s.manager; finishing = n })
    -- A goroutine runs its check and sends the report; an interval goroutine goes on.
    report :
        (before : List Worker) (w : Worker) (after rest : List Worker) (now : ℤ) (hc : CheckResult)
        (c c' : Chan (Option CheckResult))
        → s.workers ≡ before ++ w ∷ after
        → ((w.kind ≡ at_interval) × (rest ≡ s.workers))
          ⊎ ((w.kind ≡ one_time) × (rest ≡ before ++ after))
        → run_check w.name w.wrapper now ≡ some hc
        → s.manager.check_funnel ≡ some c
        → send (some hc) c ≡ some c'
        → Step s
            (record s { manager = record s.manager { check_funnel = some c' }; workers = rest })
    -- A goroutine ends without a report: its context is done, or its one check gave nil.
    quit :
        (before : List Worker) (w : Worker) (after : List Worker)
        → s.workers ≡ before ++ w ∷ after
        → Step s (record s { workers = before ++ after })
    -- The loop takes a report and handles it.
    receive_report :
        (o : Option CheckResult) (c c' : Chan (Option CheckResult))
        → 0 < s.loops
        → s.manager.check_funnel ≡ some c
        → receive c ≡ some (o, c')
        → Step s
            (record s { manager = handle s.ctx o (record s.manager { check_funnel = some c' }) })
    -- The loop sees that the context is done, stops the manager and ends.
    leave :
        (n : ℕ) (e : Error)
        → s.loops ≡ suc n
        → s.ctx ≡ some e
        → Step s (record s { manager = (stop ops s.ctx s.manager).0; loops = n })
    -- The application cancels the context, or calls `Stop`.
    cancel : (e : Error) → Step s (record s { ctx = some e })
    stop_called : (ctx : Context) → Step s (record s { manager = (stop ops ctx s.manager).0 })

  pub data Reach (s : System R) : System R → Type 0 where
    here : Reach s s
    next : {t u : System R} → Reach s t → Step t u → Reach s u
