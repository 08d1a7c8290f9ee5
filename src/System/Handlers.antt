-- ===== src/System/Handlers.antt =====
-- What holds of the manager between two steps, and that each operation of the manager keeps it.
use health.System.{handle, System}
use health.SyncMap.{Map, size}
use health.Reporter.{Flags, IsReporter, ReporterOps}
use health.Base.{All, arith, none, Option, refl, some, String, string_eq, true, ℕ, ◌∙◌, ◌≡◌}
use health.Manager.State.{Context, Manager, Wrapper}
use health.Manager.Fitness.{evaluate_fitness}
use health.Manager.Lifecycle.{
  dispatch_reporters, init_internals, make_if_nil, run_finish, run_start, stop,
}
use health.Check.{CheckResult}
use health.Channel.{Chan, make_chan}
use health.Manager.Invariant.{
  entries_of, evaluate_fitness-IsWf, evaluate_fitness-maps, IsWf, IsWf-of_words, IsWf-words,
  run_finish-IsWf, run_finish-maps, SameMaps, stop-IsWf, stop-maps,
}
use health.Manager.Lifecycle.Starting.{IsNamedIn, Leaves, Leaves-run_start}
use health.Manager.Flags.Sync.{InSync}
use health.Errors.{Error}
use health.Base.Assoc.Count.{has_key, has_key-of_mem}
use health.Base.Int.{ℤ}
use health.Manager.Workers.{run_check}
use mathlib.Core.List.{Memᴰ}
use health.Manager.Sync.{
  dispatch_reporters-InSync, evaluate_fitness-InSync, process_health_check-InSync,
  run_finish-InSync, stop-InSync,
}
use health.Manager.Process.{process_health_check}
use health.Manager.Process.Correct.{process_result-frame, process_result-IsWf}

-- A report that a registered check made at some instant, under its name.
pub record IsMade (checkers : Map String Wrapper) (hc : CheckResult) : Type 0 where
  pub origin : Wrapper
  pub instant : ℤ
  pub of_entry : Memᴰ (hc.name, origin) (entries_of checkers)
  pub outcome : run_check hc.name origin instant ≡ some hc

pub has_key-IsMade :
    (checkers : Map String Wrapper) (hc : CheckResult)
    → IsMade checkers hc
    → has_key hc.name (entries_of checkers) ≡ true
has_key-IsMade checkers hc k = has_key-of_mem hc.name k.origin (entries_of checkers) k.of_entry

-- What the funnel holds: nothing but reports of registered checks.
abbrev pub Known : Map String Wrapper → Option CheckResult → Type 0
Known checkers none = Unit
Known checkers (some hc) = IsMade checkers hc

abbrev pub FunnelKnown : Map String Wrapper → Option (Chan (Option CheckResult)) → Type 0
FunnelKnown checkers none = Unit
FunnelKnown checkers (some c) = All (Known checkers) c.queue

-- What holds of the manager, with the registered checks `checkers` and what reporters show.
pub record IsSafe {R : Type 0} (shows : R → Flags) (checkers : Map String Wrapper) (m : Manager R)
    : Type 0 where
  pub wf : IsWf m
  pub sync : InSync shows m
  pub registered : m.checkers ≡ checkers
  pub funnel : FunnelKnown checkers m.check_funnel

pub record IsSafeSystem {R : Type 0} (shows : R → Flags) (checkers : Map String Wrapper)
    (s : System R) : Type 0 where
  pub safe : IsSafe shows checkers s.manager
  pub named : All (IsNamedIn checkers) s.workers

module _ {R : Type 0} {ops : ReporterOps R} {shows : R → Flags} (laws : IsReporter ops shows)
    (checkers : Map String Wrapper) where
  -- A change of words and reporters alone.
  IsSafe-of_maps :
      (m m' : Manager R)
      → IsSafe shows checkers m
      → SameMaps m m'
      → IsWf m'
      → InSync shows m'
      → IsSafe shows checkers m'
  IsSafe-of_maps m m' h s w y = record {
    wf = w;
    sync = y;
    registered = s.same_checkers ∙ h.registered;
    funnel = rw s.same_funnel h.funnel;
  }

  funnel-init :
      (n : ℕ) (o : Option (Chan (Option CheckResult)))
      → FunnelKnown checkers o
      → FunnelKnown checkers (make_if_nil n o)
  unfolding make_if_nil make_chan
  funnel-init n none h = tt
  funnel-init n (some c) h = h

  IsSafe-init :
      (m : Manager R)
      → IsSafe shows checkers m
      → m.running_ptr ≡ 0
      → IsSafe shows checkers (init_internals (record m { running_ptr = 1 }))
  unfolding init_internals
  IsSafe-init m h e = record {
    wf = record {
      flags = ground (arith, h.wf.flags);
      checkers_map = h.wf.checkers_map;
      results_map = h.wf.results_map;
      known = h.wf.known;
      reported = h.wf.reported;
      ready_gate = h.wf.ready_gate;
      startup_shown = h.wf.startup_shown;
    };
    sync = h.sync;
    registered = h.registered;
    funnel = funnel-init (size m.checkers) m.check_funnel h.funnel;
  }

  IsSafe-dispatch :
      (m : Manager R) → IsSafe shows checkers m → IsSafe shows checkers (dispatch_reporters ops m).0
  unfolding dispatch_reporters
  IsSafe-dispatch m h =
      let m' = (dispatch_reporters ops m).0 in
      let same : SameMaps m m' = record {
        same_checkers = refl;
        same_results = refl;
        same_ran = refl;
        same_funnel = refl;
      } in
      IsSafe-of_maps m m' h same (IsWf-of_words m m' h.wf same (ground (arith, IsWf-words h.wf)))
        (dispatch_reporters-InSync laws m h.sync)

  IsSafe-exit :
      (m : Manager R) (c : Option (Chan Error))
      → IsSafe shows checkers m
      → IsSafe shows checkers (record m { err_chan = c; running_ptr = 0 })
  IsSafe-exit m c h = record {
    wf =
        IsWf-of_words m (record m { err_chan = c; running_ptr = 0 }) h.wf
          (record {
            same_checkers = refl;
            same_results = refl;
            same_ran = refl;
            same_funnel = refl;
          })
          (ground (arith, IsWf-words h.wf));
    sync = h.sync;
    registered = h.registered;
    funnel = h.funnel;
  }

  pub run_start-Leaves :
      (ctx : Context) (m : Manager R)
      → IsSafe shows checkers m
      → Leaves (IsSafe shows checkers) (IsNamedIn m.checkers) (run_start ops ctx m)
  run_start-Leaves ctx m h =
      Leaves-run_start ops (IsSafe shows checkers) ctx m h (IsSafe-init m h) IsSafe-dispatch
        IsSafe-exit

  IsSafe-process :
      (ctx : Context) (o : Option CheckResult) (m : Manager R)
      → Known checkers o
      → IsSafe shows checkers m
      → IsSafe shows checkers (process_health_check ops ctx o m)
  unfolding process_health_check
  IsSafe-process ctx none m k h = h
  IsSafe-process (some e) (some hc) m k h = h
  IsSafe-process none (some hc) m k h =
      let (same, funnel) = process_result-frame ops hc m in
      record {
        wf = process_result-IsWf ops hc m (rw h.registered (has_key-IsMade checkers hc k)) h.wf;
        sync = process_health_check-InSync laws none (some hc) m h.sync;
        registered = same ∙ h.registered;
        funnel = rw funnel h.funnel;
      }

  pub IsSafe-handle :
      (ctx : Context) (o : Option CheckResult) (m : Manager R)
      → Known checkers o
      → IsSafe shows checkers m
      → IsSafe shows checkers (handle ops ctx o m)
  unfolding handle
  IsSafe-handle ctx o m k h =
      let p = process_health_check ops ctx o m in
      let h1 = IsSafe-process ctx o m k h in
      IsSafe-of_maps p (evaluate_fitness ops p) h1 (evaluate_fitness-maps ops p)
        (evaluate_fitness-IsWf ops p h1.wf) (evaluate_fitness-InSync laws p h1.sync)

  pub IsSafe-stop :
      (ctx : Context) (m : Manager R)
      → IsSafe shows checkers m
      → IsSafe shows checkers (stop ops ctx m).0
  IsSafe-stop ctx m h =
      IsSafe-of_maps m (stop ops ctx m).0 h (stop-maps ops ctx m) (stop-IsWf ops ctx m h.wf)
        (stop-InSync laws ctx m h.sync)

  pub IsSafe-finish :
      (m : Manager R) → IsSafe shows checkers m → IsSafe shows checkers (run_finish ops m)
  IsSafe-finish m h =
      IsSafe-of_maps m (run_finish ops m) h (run_finish-maps ops m) (run_finish-IsWf ops m h.wf)
        (run_finish-InSync laws m h.sync)
