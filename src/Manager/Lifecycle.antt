-- ===== src/Manager/Lifecycle.antt =====
-- Registration, `Run` and `Stop`. `Run` is cut where the goroutine that reads the funnel is
-- spawned: what `run_finish` does can come after reports that this goroutine has handled.
pub mod Starting
pub mod Registration
pub mod Running
pub mod Failing
pub mod Restart
pub mod Stopping
use health.Base.{
  Bool, false, if◌then◌else◌, List, none, not, Option, some, String, string_eq, true, ℕ, [], ◌++◌,
  ◌==◌, ◌∷◌,
}
use health.SyncMap.{each, each_object, set, size}
use health.Errors.{also, concat, end, err_health, Error, error_text, Errors, is, joined, wrapped}
use health.Options.{AddCheckOption, AddCheckOptions, check_once, Checker, no_options}
use health.Channel.{Chan, make_chan, send}
use health.Reporter.{ReporterOps}
use health.Manager.State.{Context, Manager, running}
use health.Manager.Flags.{set_live, set_ready, set_startup}
use health.Manager.Workers.{kind_of, Worker}

-- `fmt.Errorf("%w.manager.std: …", health.ErrHealth)`.
abbrev pub manager_error : String → Error
manager_error text = wrapped (concat "health.manager.std: " text) (also err_health end)

-- The loop over the options.
unfoldable pub apply_options : List AddCheckOption → AddCheckOptions → AddCheckOptions
apply_options [] o = o
apply_options (opt ∷ opts) o = apply_options opts (opt o)

-- A check with no frequency runs once.
unfoldable pub default_frequency : AddCheckOptions → AddCheckOptions
default_frequency o = if o.frequency == 0 then record o { frequency = check_once } else o

module _ {R : Type 0} where
  unfoldable pub add_check :
      String → Checker → List AddCheckOption → Manager R → Manager R × Option Error
  unfolding apply_options default_frequency
  add_check name checker opts m =
      let o = default_frequency (apply_options opts no_options) in
      if running m
      then (m, some (manager_error "cannot add a health check to a running health instance"))
      else (
        record m { checkers = set name (record { opts = o; checker = checker }) m.checkers },
        none,
      )

  unfoldable pub add_reporter : String → R → Manager R → Manager R × Option Error
  add_reporter name r m =
      if running m
      then (m, some (manager_error "cannot add a reporter to a running health instance"))
      else (record m { reporters = set name r m.reporters }, none)

-- `errs = append(errs, e)`.
unfoldable pub append_error : Errors → Error → Errors
append_error end e = also e end
append_error (also f es) e = also f (append_error es e)

-- A reporter's error from `Stop` counts unless it is a cancellation.
pub stop_failure : String → Option Error → Errors → Errors
unfolding append_error
stop_failure key none errs = errs
stop_failure key (some e) errs =
    if is e "context canceled"
    then errs
    else append_error errs (
        wrapped (concat "reporter '" (concat key (concat "' failed to stop: " (error_text e))))
          (also e end))

unfoldable pub stop_error : Errors → Option Error
stop_error end = none
stop_error (also e es) = some (
    wrapped (concat "health.manager.std: " (error_text (joined (also e es))))
      (also err_health (also (joined (also e es)) end)))

-- The error of the first reporter that fails ends the loop.
start_failure : Option Error → Option Error → Option Error × Bool
start_failure none out = (out, true)
start_failure (some e) out = (some e, false)

module _ {R : Type 0} (ops : ReporterOps R) where
  -- The callbacks of the two loops over the reporters.
  unfoldable pub stop_visit : String → R → Errors → R × Errors × Bool
  unfolding stop_failure
  stop_visit key r errs = let (r', e) = ops.stop r in (r', stop_failure key e errs, true)

  unfoldable pub start_visit : String → R → Option Error → R × Option Error × Bool
  unfolding start_failure
  start_visit key r out =
      let (r', e) = ops.run r in let (out', more) = start_failure e out in (r', out', more)

  unfoldable pub stop_reporters : Manager R → Manager R × Option Error
  unfolding stop_visit stop_error
  stop_reporters m =
      let (rs, errs) = each_object stop_visit m.reporters end in
      (record m { reporters = rs }, stop_error errs)

  unfoldable pub stop : Context → Manager R → Manager R × Option Error
  unfolding stop_reporters
  stop ctx m =
      if not (m.running_ptr == 1)
      then (m, none)
      else stop_reporters (set_ready ops false (record m { running_ptr = 0 })).0

  unfoldable pub dispatch_reporters : Manager R → Manager R × Option Error
  unfolding start_visit
  dispatch_reporters m =
      let (rs, err) = each_object start_visit m.reporters none in (record m { reporters = rs }, err)

-- `if c == nil { c = make(chan A, n) }`.
unfoldable pub make_if_nil {ℓ} : {A : Type ℓ} → ℕ → Option (Chan A) → Option (Chan A)
make_if_nil n none = some (make_chan n)
make_if_nil n (some c) = some c

module _ {R : Type 0} where
  -- Each checker gets a goroutine of its own, unless the context is done.
  unfoldable pub dispatch_health_checks : Context → Manager R → List Worker × Option Error
  dispatch_health_checks (some e) m = ([], some e)
  dispatch_health_checks none m = (
    each (λ key w ws. (ws ++ record { name = key; wrapper = w; kind = kind_of w.opts } ∷ [], true))
        m.checkers [],
    none,
  )

  unfoldable pub init_internals : Manager R → Manager R
  unfolding make_if_nil
  init_internals m = record m {
    check_funnel = make_if_nil (size m.checkers) m.check_funnel;
    err_chan = make_if_nil 1 m.err_chan;
  }

  pub start_checks : Context → Manager R × Option Error → Manager R × List Worker × Option Error
  start_checks ctx (m, some e) = (m, [], some e)
  start_checks ctx (m, none) = let (ws, err) = dispatch_health_checks ctx m in (m, ws, err)

  unfoldable pub has_startup_checks : Manager R → Bool
  has_startup_checks m =
      each (λ _ w found. if w.opts.affects_startup then (true, false) else (found, true)) m.checkers
        false

module _ {R : Type 0} (ops : ReporterOps R) where
  unfoldable pub init_startup_state : Manager R → Manager R
  init_startup_state m =
      if has_startup_checks m then m else (set_startup ops true (record m { startup_done = 1 })).0

  unfoldable pub validate_and_start : Context → Manager R → Manager R × List Worker × Option Error
  unfolding start_checks
  validate_and_start ctx m =
      if size m.checkers == 0
      then (m, [], some (manager_error "there are no checkers specified for this manager"))
      else if size m.reporters == 0
      then (m, [], some (manager_error "there are no reporters specified for this manager"))
      else start_checks ctx (dispatch_reporters ops m)

-- How the first part of `Run` ends: the manager was running already, an error was sent, the send of
-- an error blocks on a full channel, or the goroutines are started.
pub data Start (R : Type 0) : Type 0 where
  already : Manager R → Start R
  failed : Manager R → Error → Start R
  blocked : Manager R → Error → Start R
  started : Manager R → List Worker → Start R

-- `m.errChan <- err`, and the deferred reset of `running`, which a blocked send never reaches.
pub fail_on : {R : Type 0} → Manager R → Error → Option (Chan Error) → Start R
fail_on m e none = blocked m e
fail_on m e (some c) = failed (record m { err_chan = some c; running_ptr = 0 }) e

pub send_error : {R : Type 0} → Manager R → Error → Option (Chan Error) → Start R
unfolding fail_on
send_error m e none = blocked m e
send_error m e (some c) = fail_on m e (send e c)

pub start_result : {R : Type 0} → Manager R × List Worker × Option Error → Start R
unfolding send_error
start_result (m, ws, none) = started m ws
start_result (m, ws, some e) = send_error m e m.err_chan

module _ {R : Type 0} (ops : ReporterOps R) where
  unfoldable pub run_start : Context → Manager R → Start R
  unfolding start_result
  run_start ctx m =
      if not (m.running_ptr == 0)
      then already m
      else start_result (validate_and_start ops ctx (init_internals (record m { running_ptr = 1 })))

  unfoldable pub run_finish : Manager R → Manager R
  run_finish m = (set_live ops true (init_startup_state ops m)).0
