-- ===== src/System/Launch.antt =====
-- `Run`, up to the goroutine that it spawns, as a move of the promised service.
use health.Base.{
  arith, Bool-cases, false, inl, inr, refl, String, string_eq, true, sym, subst, List, ◌==◌, ◌≡◌,
  ◌≢◌, ◌⊎◌, ◌≤◌, ◌∙◌,
}
use health.Errors.{Error}
use health.Manager.State.{Context, Manager, Wrapper}
use health.Manager.Lifecycle.{
  already, dispatch_reporters, failed, blocked, started, init_internals, run_start,
}
use health.Manager.Lifecycle.Starting.{IsNamedIn, Leaves, Leaves-run_start}
use health.Manager.Workers.{Worker}
use health.System.Mirror.{Mirrors}
use health.Reporter.{ReporterOps}
use health.SyncMap.{Map}
use health.Service.{Service}
use health.Service.Laws.{rest, start}
use health.System.Following.{Follows}

module _ {R : Type 0} (ops : ReporterOps R) (checkers : Map String Wrapper) (s : Service) where
  -- The service but for the word `running`.
  record MirrorsOff (m : Manager R) : Type 0 where
    one : m.running_ptr ≤ 1
    mirror : Mirrors m (record s { on = m.running_ptr == 1 })

  keeps_MirrorsOff :
      (m n : Manager R)
      → n.running_ptr ≤ 1
      → n.all_checks_ran ≡ m.all_checks_ran
      → n.startup_done ≡ m.startup_done
      → n.live_ptr ≡ m.live_ptr
      → n.ready_ptr ≡ m.ready_ptr
      → n.check_results ≡ m.check_results
      → MirrorsOff m
      → MirrorsOff n
  keeps_MirrorsOff m n one ran done live ready results h = record {
    one = one;
    mirror = record {
      same_on = ground arith;
      same_complete = ran ∙ h.mirror.same_complete;
      same_started = done ∙ h.mirror.same_started;
      same_live = live ∙ h.mirror.same_live;
      same_ready = ready ∙ h.mirror.same_ready;
      stored = λ name. rw results (h.mirror.stored name);
    };
  }

  Mirrors-MirrorsOff : (m : Manager R) → m.running_ptr ≤ 1 → Mirrors m s → MirrorsOff m
  Mirrors-MirrorsOff m one h = record {
    one = one;
    mirror = record {
      same_on = ground arith;
      same_complete = h.same_complete;
      same_started = h.same_started;
      same_live = h.same_live;
      same_ready = h.same_ready;
      stored = h.stored;
    };
  }

  -- `Run`, up to the goroutine that it spawns, changes the word `running` alone.
  run_start-MirrorsOff :
      (ctx : Context) (m : Manager R)
      → m.running_ptr ≤ 1
      → Mirrors m s
      → Leaves MirrorsOff (IsNamedIn m.checkers) (run_start ops ctx m)
  unfolding init_internals dispatch_reporters
  run_start-MirrorsOff ctx m one h =
      let off = Mirrors-MirrorsOff m one h in
      Leaves-run_start ops MirrorsOff ctx m off
        (λ e.
          keeps_MirrorsOff m (init_internals (record m { running_ptr = 1 })) (omega arith) refl refl
            refl refl refl off)
        (λ n k. keeps_MirrorsOff n (dispatch_reporters ops n).0 k.one refl refl refl refl refl k)
        (λ n c k.
          keeps_MirrorsOff n (record n { err_chan = c; running_ptr = 0 }) (omega arith) refl refl
            refl refl refl k)

  already_running :
      (ctx : Context) (m : Manager R)
      → (m.running_ptr == 0) ≡ false
      → run_start ops ctx m ≡ already m
  unfolding run_start
  already_running ctx m on = rw on refl

  -- A `Run` that gets past its first test finds the service off.
  off_before :
      (ctx : Context) (m : Manager R) → Mirrors m s → run_start ops ctx m ≢ already m → s.on ≡ false
  off_before ctx m h new = elim (Bool-cases (m.running_ptr == 0)) [
    | inl off ↦ ground (arith, h.same_on)
    | inr on ↦ absurd (new (already_running ctx m on))
  ]

  MirrorsOff-Follows : (n : Manager R) → s.on ≡ false → MirrorsOff n → Follows ops checkers s n
  MirrorsOff-Follows n off h = elim (Bool-cases (n.running_ptr == 1)) [
    | inl on ↦
        (record s { on = true }, start, subst (λ b. Mirrors n (record s { on = b })) on h.mirror)
    | inr still ↦ (s, rest, subst (λ b. Mirrors n (record s { on = b })) (still ∙ sym off) h.mirror)
  ]

  pub run_start-Follows :
      (ctx : Context) (m n : Manager R)
      → m.running_ptr ≤ 1
      → Mirrors m s
      → ((ws : List Worker) × (run_start ops ctx m ≡ started n ws))
        ⊎ ((e : Error) × (run_start ops ctx m ≡ failed n e))
        ⊎ ((e : Error) × (run_start ops ctx m ≡ blocked n e))
      → Follows ops checkers s n
  run_start-Follows ctx m n one h (inl (ws, e)) =
      let l =
        subst (Leaves MirrorsOff (IsNamedIn m.checkers)) e (run_start-MirrorsOff ctx m one h) in
      MirrorsOff-Follows n (off_before ctx m h (λ x. cc)) l.0
  run_start-Follows ctx m n one h (inr (inl (x, e))) =
      MirrorsOff-Follows n (off_before ctx m h (λ y. cc))
        (subst (Leaves MirrorsOff (IsNamedIn m.checkers)) e (run_start-MirrorsOff ctx m one h))
  run_start-Follows ctx m n one h (inr (inr (x, e))) =
      MirrorsOff-Follows n (off_before ctx m h (λ y. cc))
        (subst (Leaves MirrorsOff (IsNamedIn m.checkers)) e (run_start-MirrorsOff ctx m one h))
