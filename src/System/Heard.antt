-- ===== src/System/Heard.antt =====
-- A report that the reading loop handles is a report that the promised service hears.
use health.Base.{
  arith, Bool-cases, inl, inr, none, Option, Option-cases, refl, some, String, string_eq, true, ap,
  is_some, subst, ◌||◌, ◌↔◌, ◌≡◌, ◌∙◌, ◌=?◌,
}
use health.Base.Assoc.{lookup}
use health.Base.Assoc.Count.{has_key, KeysWithin}
use health.Check.{CheckResult}
use health.Manager.State.{Manager}
use health.Manager.Flags.{flag}
use health.Manager.Process.{process_health_check, process_result, record_tally}
use health.Manager.Process.Correct.{
  process_result-ran_iff, process_result-frame, process_result-IsWf, get-process_result,
}
use health.Manager.Fitness.{evaluate_fitness}
use health.Manager.Invariant.{entries_of, IsWf}
use health.System.{handle}
use health.System.Mirror.{Mirrors, tally_of}
use health.System.Verdict.{evaluate_fitness-judge}
use health.System.Unharmed.{process_result-running}
use health.Reporter.{ReporterOps}
use health.SyncMap.{get}
use health.Service.{all_heard, hear, judge, Service, update}
use health.Service.Every.{every-lookup, lookup-every}

is_some-tally_of : (o : Option CheckResult) → is_some (tally_of o) ≡ is_some o
is_some-tally_of none = refl
is_some-tally_of (some hc) = refl

module _ {R : Type 0} (ops : ReporterOps R) where
  process_result-words :
      (hc : CheckResult) (m : Manager R)
      → ((process_result ops hc m).startup_done ≡ m.startup_done)
        × ((process_result ops hc m).live_ptr ≡ m.live_ptr)
        × ((process_result ops hc m).ready_ptr ≡ m.ready_ptr)
        × (m.all_checks_ran ≡ 1 → (process_result ops hc m).all_checks_ran ≡ 1)
  unfolding process_result record_tally
  process_result-words hc m = ground arith

  module _ (hc : CheckResult) (m : Manager R) (s : Service) (wf : IsWf m)
      (reg : has_key hc.name (entries_of m.checkers) ≡ true) (mirror : Mirrors m s) where
    stored_update :
        (name : String)
        → get name (process_result ops hc m).check_results ≡ tally_of (update hc s.latest name)
    stored_update name = elim (Bool-cases (hc.name =? name)) [
      | inl same ↦ rw (get-process_result ops hc m name, same) refl
      | inr other ↦ rw (get-process_result ops hc m name, other) (mirror.stored name)
    ]

    key_after :
        (name : String)
        → has_key name (entries_of (process_result ops hc m).check_results)
          ≡ is_some (update hc s.latest name)
    unfolding get
    key_after name = ap is_some (stored_update name) ∙ is_some-tally_of (update hc s.latest name)

    -- Every registered check has a result exactly where every one has been heard.
    all_heard_iff :
        (all_heard (entries_of m.checkers) (update hc s.latest) ≡ true)
        ↔ KeysWithin (entries_of m.checkers) (entries_of (process_result ops hc m).check_results)
    all_heard_iff = (
      λ h name k. elim (Option-cases (lookup name (entries_of m.checkers))) [
        | inl nothing ↦ absurd (ground arith)
        | inr (w, p) ↦ rw (key_after name) (
            every-lookup (λ v o. is_some o) (update hc s.latest) (entries_of m.checkers) name w h p)
      ],
      λ h.
          lookup-every (λ v o. is_some o) (update hc s.latest) (entries_of m.checkers)
            wf.checkers_map (λ name w p. rw (key_after name) at (h name (rw p refl))),
    )

    complete_after :
        (process_result ops hc m).all_checks_ran
        ≡ flag (s.complete || all_heard (entries_of m.checkers) (update hc s.latest))
    complete_after =
        let (f, g) = all_heard_iff in
        let ran = (process_result-IsWf ops hc m reg wf).flags.ran_flag in
        elim (Bool-cases s.complete) [
          | inl old ↦ rw old ((process_result-words hc m).3 (ground (arith, mirror.same_complete)))
          | inr new ↦
              let (p, q) =
                process_result-ran_iff ops hc m reg wf (ground (arith, mirror.same_complete)) in
              elim (Bool-cases (all_heard (entries_of m.checkers) (update hc s.latest))) [
                | inl all ↦ rw (new, all) (q (f all))
                | inr few ↦
                    rw (new, few)
                      (ground
                        (arith, λ (x : (process_result ops hc m).all_checks_ran ≡ 1). g (p x)))
              ]
        ]

    abbrev after : Service
    after = record s {
      latest = update hc s.latest;
      complete = s.complete || all_heard (entries_of m.checkers) (update hc s.latest);
    }

    process_result-Mirrors : Mirrors (process_result ops hc m) after
    process_result-Mirrors =
        let (started, live, ready, _) = process_result-words hc m in
        record {
          same_on = process_result-running ops hc m ∙ mirror.same_on;
          same_complete = complete_after;
          same_started = started ∙ mirror.same_started;
          same_live = live ∙ mirror.same_live;
          same_ready = ready ∙ mirror.same_ready;
          stored = stored_update;
        }

    -- A report that is handled is heard.
    pub handle-hear : Mirrors (handle ops none (some hc) m) (hear (entries_of m.checkers) hc s)
    unfolding handle process_health_check hear
    handle-hear =
        subst
          (λ c.
            Mirrors (evaluate_fitness ops (process_result ops hc m)) (judge (entries_of c) after))
          (process_result-frame ops hc m).0
          (evaluate_fitness-judge ops (process_result ops hc m) after
            (process_result-IsWf ops hc m reg wf) process_result-Mirrors)
