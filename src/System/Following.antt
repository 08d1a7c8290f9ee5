-- ===== src/System/Following.antt =====
-- The operations of the manager as moves of the promised service.
use health.Base.{
  arith, Bool-cases, false, inl, inr, none, not, Option, refl, some, String, string_eq, true, sym,
  subst, [], ◌==◌, ◌≡◌, ◌∙◌, if◌then◌else◌, ◌∷◌,
}
use health.Base.Assoc.{Assoc}
use health.Check.{CheckResult}
use health.Manager.State.{Context, Manager, Wrapper}
use health.Manager.Flags.{set_live, set_ready, set_startup}
use health.Manager.Lifecycle.{
  has_startup_checks, init_startup_state, run_finish, stop, stop_reporters,
}
use health.Manager.Invariant.{entries_of, IsWf}
use health.Manager.Process.{process_health_check}
use health.System.{handle}
use health.System.Mirror.{Mirrors}
use health.System.Verdict.{evaluate_fitness-judge}
use health.System.Heard.{handle-hear}
use health.System.Handlers.{has_key-IsMade, IsMade, Known}
use health.Reporter.{ReporterOps}
use health.SyncMap.{each, each_entry, Map}
use health.Service.{every, hear, judge, no_gates, revive, Service}
use health.Service.Laws.{alive, halt, heard, judged, Move, rest}

each_entry-no_gates :
    (latest : String → Option CheckResult) (l : Assoc String Wrapper)
    → each_entry
        (λ _ w found. if w.opts.affects_startup then (true, false) else (found, true))
        l
        false
      ≡ not (no_gates l latest)
unfolding each_entry every
each_entry-no_gates latest [] = refl
each_entry-no_gates latest ((k, w) ∷ l) = ground (arith, each_entry-no_gates latest l)

module _ {R : Type 0} (ops : ReporterOps R) (checkers : Map String Wrapper) (s : Service) where
  -- The promised service makes a move that the manager shows.
  abbrev pub Follows : Manager R → Type 0
  Follows m = (t : Service) × Move (entries_of checkers) (IsMade checkers) s t × Mirrors m t

  has_startup_checks-no_gates :
      (m : Manager R) → has_startup_checks m ≡ not (no_gates (entries_of m.checkers) s.latest)
  unfolding has_startup_checks each
  has_startup_checks-no_gates m = each_entry-no_gates s.latest (entries_of m.checkers)

  run_finish-words :
      (m : Manager R)
      → ((run_finish ops m).running_ptr ≡ m.running_ptr)
        × ((run_finish ops m).all_checks_ran ≡ m.all_checks_ran)
        × ((run_finish ops m).ready_ptr ≡ m.ready_ptr)
        × ((run_finish ops m).live_ptr ≡ 1)
        × ((run_finish ops m).startup_done ≡ (if has_startup_checks m then m.startup_done else 1))
        × ((run_finish ops m).check_results ≡ m.check_results)
  unfolding run_finish init_startup_state set_live set_startup
  run_finish-words m = ground arith

  pub run_finish-revive :
      (m : Manager R) → m.checkers ≡ checkers → Mirrors m s → Follows (run_finish ops m)
  unfolding revive
  run_finish-revive m reg h =
      let (on, ran, ready, live, done, results) = run_finish-words m in
      let gates =
        subst (λ c. has_startup_checks m ≡ not (no_gates (entries_of c) s.latest)) reg
          (has_startup_checks-no_gates m) in
      (
        revive (entries_of checkers) s,
        alive,
        record {
          same_on = on ∙ h.same_on;
          same_complete = ran ∙ h.same_complete;
          same_started = ground (arith, h.same_started);
          same_live = live;
          same_ready = ready ∙ h.same_ready;
          stored = λ name. rw results (h.stored name);
        },
      )

  stop-words :
      (ctx : Context) (m : Manager R)
      → m.running_ptr ≡ 1
      → ((stop ops ctx m).0.running_ptr ≡ 0)
        × ((stop ops ctx m).0.all_checks_ran ≡ m.all_checks_ran)
        × ((stop ops ctx m).0.ready_ptr ≡ 0)
        × ((stop ops ctx m).0.live_ptr ≡ m.live_ptr)
        × ((stop ops ctx m).0.startup_done ≡ m.startup_done)
        × ((stop ops ctx m).0.check_results ≡ m.check_results)
  unfolding stop stop_reporters set_ready
  stop-words ctx m on = ground arith

  stop_off : (ctx : Context) (m : Manager R) → (m.running_ptr == 1) ≡ false → (stop ops ctx m).0 ≡ m
  unfolding stop
  stop_off ctx m off = rw off refl

  pub stop-halt : (ctx : Context) (m : Manager R) → Mirrors m s → Follows (stop ops ctx m).0
  stop-halt ctx m h = elim (Bool-cases (m.running_ptr == 1)) [
    | inr off ↦ (s, rest, rw (stop_off ctx m off) h)
    | inl on ↦
        let (off, ran, ready, live, done, results) = stop-words ctx m (ground arith) in
        (
          record s { on = false; ready = false },
          halt,
          record {
            same_on = off;
            same_complete = ran ∙ h.same_complete;
            same_started = done ∙ h.same_started;
            same_live = live ∙ h.same_live;
            same_ready = ready;
            stored = λ name. rw results (h.stored name);
          },
        )
  ]

  handle-judge :
      (ctx : Context) (o : Option CheckResult) (m : Manager R)
      → process_health_check ops ctx o m ≡ m
      → m.checkers ≡ checkers
      → IsWf m
      → Mirrors m s
      → Follows (handle ops ctx o m)
  unfolding handle
  handle-judge ctx o m e reg wf h =
      (judge (entries_of checkers) s, judged, rw (e, sym reg) (evaluate_fitness-judge ops m s wf h))

  pub handle-Follows :
      (ctx : Context) (o : Option CheckResult) (m : Manager R)
      → Known checkers o
      → m.checkers ≡ checkers
      → IsWf m
      → Mirrors m s
      → Follows (handle ops ctx o m)
  unfolding process_health_check
  handle-Follows ctx none m k reg wf h = handle-judge ctx none m refl reg wf h
  handle-Follows (some e) (some hc) m k reg wf h = handle-judge (some e) (some hc) m refl reg wf h
  handle-Follows none (some hc) m k reg wf h = (
    hear (entries_of checkers) hc s,
    heard hc k,
    subst (λ c. Mirrors (handle ops none (some hc) m) (hear (entries_of c) hc s)) reg
        (handle-hear ops hc m s wf (rw reg (has_key-IsMade checkers hc k)) h),
  )
