-- ===== src/Manager/Sync.antt =====
-- Every reporter shows the manager's flags: kept by every method of the manager.
use health.Manager.State.{Context, is_live, Manager, running, Tally}
use health.Reporter.{Flags, IsReporter, ReporterOps}
use health.Manager.Process.{classify, process_health_check, process_result, record_tally}
use health.Manager.Fitness.{
  aggregate_results, apply_fitness, apply_liveness_change, apply_readiness_change, evaluate_fitness,
  evaluate_startup, first_ready, startup_passed,
}
use health.Manager.Lifecycle.{
  dispatch_reporters, has_startup_checks, init_startup_state, run_finish, start_visit, stop,
  stop_reporters, stop_visit,
}
use health.Check.{CheckResult}
use health.Manager.Flags.Sync.{
  flags_of, InSync, InSync-if, notify-AllShow, set_live-InSync, set_ready-InSync,
  set_startup-InSync,
}
use health.Base.{
  Bool, Bool-cases, false, if◌then◌else◌, inl, inr, none, not, Option, some, String, string_eq,
  true, [], ◌&&◌, ◌==◌, ◌∙◌, ◌∷◌, ◌≡◌,
}
use health.Errors.{end, Error, Errors}
use health.SyncMap.Loops.{get-each_object_keeps}
use health.Manager.Flags.{notify, set_live, set_ready, set_startup}
use health.SyncMap.{made, set, size}

module _ {R : Type 0} {ops : ReporterOps R} {shows : R → Flags} (laws : IsReporter ops shows) where
  -- A change of fields that the flags and the reporters do not read keeps the relation.
  record_tally-InSync :
      (name : String) (t : Tally) (m : Manager R)
      → InSync shows m
      → InSync shows (record_tally name t m)
  unfolding record_tally
  record_tally-InSync name t m h =
      let m' = record m { check_results = set name t m.check_results } in
      InSync-if laws (m'.all_checks_ran == 0 && size m'.check_results == size m'.checkers)
        (record m' { all_checks_ran = 1 }) m' h h

  process_result-InSync :
      (hc : CheckResult) (m : Manager R) → InSync shows m → InSync shows (process_result ops hc m)
  unfolding process_result
  process_result-InSync hc m h =
      let update = made ((hc.name, hc) ∷ []) in
      record_tally-InSync hc.name (classify hc.status hc.affects_liveness hc.affects_readiness)
        (record m { reporters = notify (ops.update_health_checks update) m.reporters })
        (notify-AllShow shows (ops.update_health_checks update) (λ x. x) m.reporters (flags_of m)
          (laws.shows-update_health_checks update) h)

  pub process_health_check-InSync :
      (ctx : Context) (o : Option CheckResult) (m : Manager R)
      → InSync shows m
      → InSync shows (process_health_check ops ctx o m)
  unfolding process_health_check
  process_health_check-InSync ctx none m h = h
  process_health_check-InSync none (some hc) m h = process_result-InSync hc m h
  process_health_check-InSync (some e) (some hc) m h = h

  evaluate_startup-InSync :
      (m : Manager R) → InSync shows m → InSync shows (evaluate_startup ops m).0
  unfolding evaluate_startup
  evaluate_startup-InSync m h = elim (Bool-cases (m.startup_done == 0)) [
    | inl c ↦ rw c (elim (Bool-cases (startup_passed m)) [
      | inl d ↦ rw d (set_startup-InSync laws true (record m { startup_done = 1 }) h)
      | inr d ↦ rw d h
    ])
    | inr c ↦ rw c h
  ]

  first_ready-InSync :
      (a : Bool) (m : Manager R) → InSync shows m → InSync shows (first_ready ops a m).0
  unfolding first_ready
  first_ready-InSync a m h = elim (Bool-cases (a && m.initial_ready == 0)) [
    | inl c ↦ rw c (set_ready-InSync laws true (record m { initial_ready = 1 }) h)
    | inr c ↦ rw c h
  ]

  apply_liveness_change-InSync :
      (a : Bool) (m : Manager R) → InSync shows m → InSync shows (apply_liveness_change ops a m)
  unfolding apply_liveness_change
  apply_liveness_change-InSync a m h =
      InSync-if laws (if is_live m then a else not a) m (set_live ops a m).0 h
        (set_live-InSync laws a m h)

  apply_readiness_change-InSync :
      (b a : Bool) (m : Manager R)
      → InSync shows m
      → InSync shows (apply_readiness_change ops b a m)
  unfolding apply_readiness_change
  apply_readiness_change-InSync b a m h =
      InSync-if laws (if b then a else not a) m (set_ready ops a m).0 h
        (set_ready-InSync laws a m h)

  apply_fitness-InSync : (m : Manager R) → InSync shows m → InSync shows (apply_fitness ops m)
  unfolding apply_fitness
  apply_fitness-InSync m h =
      let (live, ready) = aggregate_results m in
      let f = first_ready ops ready m in
      apply_readiness_change-InSync f.1 (ready && live) (apply_liveness_change ops live f.0)
        (apply_liveness_change-InSync live f.0 (first_ready-InSync ready m h))

  -- After an evaluation every reporter shows the liveness, readiness and startup of the manager.
  pub evaluate_fitness-InSync :
      (m : Manager R) → InSync shows m → InSync shows (evaluate_fitness ops m)
  unfolding evaluate_fitness
  evaluate_fitness-InSync m h = elim (Bool-cases (running m)) [
    | inr c ↦ rw c h
    | inl c ↦ rw c (elim (Bool-cases (m.all_checks_ran == 0)) [
      | inl d ↦ rw d h
      | inr d ↦ rw d (
          let s = evaluate_startup ops m in
          let k = evaluate_startup-InSync m h in
          InSync-if laws s.1 (apply_fitness ops s.0) s.0 (apply_fitness-InSync s.0 k) k)
    ])
  ]

  stop_visit-shows :
      (key : String) (r : R) (errs : Errors) → shows (stop_visit ops key r errs).0 ≡ shows r
  unfolding stop_visit
  stop_visit-shows key r errs = laws.shows-stop r

  start_visit-shows :
      (key : String) (r : R) (out : Option Error) → shows (start_visit ops key r out).0 ≡ shows r
  unfolding start_visit
  start_visit-shows key r out = laws.shows-run r

  stop_reporters-InSync : (m : Manager R) → InSync shows m → InSync shows (stop_reporters ops m).0
  unfolding stop_reporters
  stop_reporters-InSync m h name r p =
      get-each_object_keeps (stop_visit ops) (λ q. shows q ≡ flags_of m) name m.reporters end
        (λ j v s e. stop_visit-shows j v s ∙ e) (h name) r p

  pub dispatch_reporters-InSync :
      (m : Manager R) → InSync shows m → InSync shows (dispatch_reporters ops m).0
  unfolding dispatch_reporters
  dispatch_reporters-InSync m h name r p =
      get-each_object_keeps (start_visit ops) (λ q. shows q ≡ flags_of m) name m.reporters none
        (λ j v s e. start_visit-shows j v s ∙ e) (h name) r p

  pub stop-InSync :
      (ctx : Context) (m : Manager R) → InSync shows m → InSync shows (stop ops ctx m).0
  unfolding stop
  stop-InSync ctx m h = elim (Bool-cases (m.running_ptr == 1)) [
    | inr c ↦ rw c h
    | inl c ↦ rw c (
        stop_reporters-InSync (set_ready ops false (record m { running_ptr = 0 })).0
          (set_ready-InSync laws false (record m { running_ptr = 0 }) h))
  ]

  init_startup_state-InSync :
      (m : Manager R) → InSync shows m → InSync shows (init_startup_state ops m)
  unfolding init_startup_state
  init_startup_state-InSync m h =
      InSync-if laws (has_startup_checks m) m
        (set_startup ops true (record m { startup_done = 1 })).0 h
        (set_startup-InSync laws true (record m { startup_done = 1 }) h)

  pub run_finish-InSync : (m : Manager R) → InSync shows m → InSync shows (run_finish ops m)
  unfolding run_finish
  run_finish-InSync m h =
      set_live-InSync laws true (init_startup_state ops m) (init_startup_state-InSync m h)
