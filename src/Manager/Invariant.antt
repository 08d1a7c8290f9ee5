-- ===== src/Manager/Invariant.antt =====
-- What holds of a configured manager between two events, and that every handler keeps it.
use health.Base.Assoc.{Assoc}
use health.Manager.State.{Context, Manager, running}
use health.SyncMap.{entries, Map}
use health.Manager.Fitness.Correct.{HasFlags}
use health.Base.{
  arith, Bool, Bool-cases, false, if◌then◌else◌, inl, inr, String, string_eq, sym, true, ◌&&◌, ◌==◌,
  ◌∙◌, ◌≡◌,
}
use health.Reporter.{ReporterOps}
use health.SyncMap.Laws.{IsMap}
use health.Manager.Fitness.{
  aggregate_results, apply_fitness, apply_liveness_change, apply_readiness_change, evaluate_fitness,
  evaluate_startup, first_ready,
}
use health.Base.Assoc.Count.{KeysWithin}
use health.Manager.Flags.{set_live, set_ready, set_startup}
use health.Manager.Lifecycle.{init_startup_state, run_finish, stop, stop_reporters}

abbrev pub entries_of : {V : Type 0} → Map String V → Assoc String V
entries_of m = entries m.items

pub record IsWf {R : Type 0} (m : Manager R) : Type 0 where
  pub flags : HasFlags m
  pub checkers_map : IsMap m.checkers
  pub results_map : IsMap m.check_results
  -- Only registered checks have results.
  pub known : KeysWithin (entries_of m.check_results) (entries_of m.checkers)
  -- Once the word says that all checks ran, each registered check has a result.
  pub reported :
      m.all_checks_ran ≡ 1 → KeysWithin (entries_of m.checkers) (entries_of m.check_results)
  pub ready_gate : m.ready_ptr ≡ 1 → (m.all_checks_ran ≡ 1) × (m.startup_done ≡ 1)
  pub startup_shown : m.startup_ptr ≡ m.startup_done

-- The words and the reporters, apart from the maps: what the setters may change.
pub record SameMaps {R : Type 0} (m m' : Manager R) : Type 0 where
  pub same_checkers : m'.checkers ≡ m.checkers
  pub same_results : m'.check_results ≡ m.check_results
  pub same_ran : m'.all_checks_ran ≡ m.all_checks_ran
  pub same_funnel : m'.check_funnel ≡ m.check_funnel

pub record HasWords {R : Type 0} (m : Manager R) : Type 0 where
  pub flags : HasFlags m
  pub ready_gate : m.ready_ptr ≡ 1 → (m.all_checks_ran ≡ 1) × (m.startup_done ≡ 1)
  pub startup_shown : m.startup_ptr ≡ m.startup_done

module _ {R : Type 0} where
  pub IsWf-words : {m : Manager R} → IsWf m → HasWords m
  IsWf-words w = record {
    flags = w.flags;
    ready_gate = w.ready_gate;
    startup_shown = w.startup_shown;
  }

  pub IsWf-of_words : (m m' : Manager R) → IsWf m → SameMaps m m' → HasWords m' → IsWf m'
  IsWf-of_words m m' w s h = record {
    flags = h.flags;
    checkers_map = rw s.same_checkers w.checkers_map;
    results_map = rw s.same_results w.results_map;
    known = rw s.same_checkers (rw s.same_results w.known);
    reported = λ e. rw s.same_checkers (rw s.same_results (w.reported (sym s.same_ran ∙ e)));
    ready_gate = h.ready_gate;
    startup_shown = h.startup_shown;
  }

  SameMaps-trans : (a b c : Manager R) → SameMaps a b → SameMaps b c → SameMaps a c
  SameMaps-trans a b c p q = record {
    same_checkers = q.same_checkers ∙ p.same_checkers;
    same_results = q.same_results ∙ p.same_results;
    same_ran = q.same_ran ∙ p.same_ran;
    same_funnel = q.same_funnel ∙ p.same_funnel;
  }

  pub IsWf-if : (c : Bool) (m m' : Manager R) → IsWf m → IsWf m' → IsWf (if c then m else m')
  IsWf-if true m m' w w' = w
  IsWf-if false m m' w w' = w'

module _ {R : Type 0} (ops : ReporterOps R) where
  evaluate_startup-words : (m : Manager R) → HasWords m → HasWords (evaluate_startup ops m).0
  unfolding evaluate_startup set_startup
  evaluate_startup-words m h = ground arith

  evaluate_startup-maps : (m : Manager R) → SameMaps m (evaluate_startup ops m).0
  unfolding evaluate_startup set_startup
  evaluate_startup-maps m = ground arith

  set_live-words : (b : Bool) (m : Manager R) → HasWords m → HasWords (set_live ops b m).0
  unfolding set_live
  set_live-words b m h = ground arith

  -- The two guards of `setReady` keep readiness behind the gates.
  set_ready-words : (b : Bool) (m : Manager R) → HasWords m → HasWords (set_ready ops b m).0
  unfolding set_ready
  set_ready-words b m h = ground arith

  first_ready-words : (a : Bool) (m : Manager R) → HasWords m → HasWords (first_ready ops a m).0
  unfolding first_ready set_ready
  first_ready-words a m h = ground arith

  apply_liveness_change-words :
      (a : Bool) (m : Manager R) → HasWords m → HasWords (apply_liveness_change ops a m)
  unfolding apply_liveness_change
  apply_liveness_change-words a m h = ground (arith, set_live-words a m h)

  apply_readiness_change-words :
      (b a : Bool) (m : Manager R) → HasWords m → HasWords (apply_readiness_change ops b a m)
  unfolding apply_readiness_change
  apply_readiness_change-words b a m h = ground (arith, set_ready-words a m h)

  apply_fitness-words : (m : Manager R) → HasWords m → HasWords (apply_fitness ops m)
  unfolding apply_fitness
  apply_fitness-words m h =
      let (live, ready) = aggregate_results m in
      let f = first_ready ops ready m in
      apply_readiness_change-words f.1 (ready && live) (apply_liveness_change ops live f.0)
        (apply_liveness_change-words live f.0 (first_ready-words ready m h))

  first_ready-maps : (a : Bool) (m : Manager R) → SameMaps m (first_ready ops a m).0
  unfolding first_ready set_ready
  first_ready-maps a m = ground arith

  apply_liveness_change-maps :
      (a : Bool) (m : Manager R) → SameMaps m (apply_liveness_change ops a m)
  unfolding apply_liveness_change set_live
  apply_liveness_change-maps a m = ground arith

  apply_readiness_change-maps :
      (b a : Bool) (m : Manager R) → SameMaps m (apply_readiness_change ops b a m)
  unfolding apply_readiness_change set_ready
  apply_readiness_change-maps b a m = ground arith

  apply_fitness-maps : (m : Manager R) → SameMaps m (apply_fitness ops m)
  unfolding apply_fitness
  apply_fitness-maps m =
      let (live, ready) = aggregate_results m in
      let f = first_ready ops ready m in
      let l = apply_liveness_change ops live f.0 in
      SameMaps-trans m l (apply_readiness_change ops f.1 (ready && live) l)
        (SameMaps-trans m f.0 l (first_ready-maps ready m) (apply_liveness_change-maps live f.0))
        (apply_readiness_change-maps f.1 (ready && live) l)

  pub evaluate_fitness-maps : (m : Manager R) → SameMaps m (evaluate_fitness ops m)
  unfolding evaluate_fitness
  evaluate_fitness-maps m =
      let s = (evaluate_startup ops m).0 in
      ground (arith, evaluate_startup-maps m, apply_fitness-maps s)

  -- `evaluateFitness` keeps the invariant.
  pub evaluate_fitness-IsWf : (m : Manager R) → IsWf m → IsWf (evaluate_fitness ops m)
  unfolding evaluate_fitness
  evaluate_fitness-IsWf m w = elim (Bool-cases (running m)) [
    | inr c ↦ rw c w
    | inl c ↦ rw c (elim (Bool-cases (m.all_checks_ran == 0)) [
      | inl d ↦ rw d w
      | inr d ↦ rw d (
          let s = evaluate_startup ops m in
          let w1 =
            IsWf-of_words m s.0 w (evaluate_startup-maps m)
              (evaluate_startup-words m (IsWf-words w)) in
          IsWf-if s.1 (apply_fitness ops s.0) s.0
            (IsWf-of_words s.0 (apply_fitness ops s.0) w1 (apply_fitness-maps s.0)
              (apply_fitness-words s.0 (IsWf-words w1)))
            w1)
    ])
  ]

  stop_reporters-words : (m : Manager R) → HasWords m → HasWords (stop_reporters ops m).0
  unfolding stop_reporters
  stop_reporters-words m h = ground arith

  stop-words : (ctx : Context) (m : Manager R) → HasWords m → HasWords (stop ops ctx m).0
  unfolding stop stop_reporters set_ready
  stop-words ctx m h = ground arith

  pub stop-maps : (ctx : Context) (m : Manager R) → SameMaps m (stop ops ctx m).0
  unfolding stop stop_reporters set_ready
  stop-maps ctx m = ground arith

  pub stop-IsWf : (ctx : Context) (m : Manager R) → IsWf m → IsWf (stop ops ctx m).0
  stop-IsWf ctx m w =
      IsWf-of_words m (stop ops ctx m).0 w (stop-maps ctx m) (stop-words ctx m (IsWf-words w))

  run_finish-words : (m : Manager R) → HasWords m → HasWords (run_finish ops m)
  unfolding run_finish init_startup_state set_live set_startup
  run_finish-words m h = ground arith

  pub run_finish-maps : (m : Manager R) → SameMaps m (run_finish ops m)
  unfolding run_finish init_startup_state set_live set_startup
  run_finish-maps m = ground arith

  pub run_finish-IsWf : (m : Manager R) → IsWf m → IsWf (run_finish ops m)
  run_finish-IsWf m w =
      IsWf-of_words m (run_finish ops m) w (run_finish-maps m) (run_finish-words m (IsWf-words w))
