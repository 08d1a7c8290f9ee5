-- ===== src/System/Progress.antt =====
-- The way to readiness: once each registered check has sent a report that is not unhealthy, in
-- whatever order and however often, the service is live and ready.
use health.Reporter.{ReporterOps}
use health.SyncMap.{get}
use health.Base.{
  String, List, ◌∷◌, is_some, ◌≡◌, none, ◌⊎◌, arith, false, some, true, [], Bool-cases, refl,
  string_eq, inl, inr, eq_iff, Option, ◌==◌, subst, sym,
}
use health.Manager.State.{Manager, Tally, is_live, is_ready, running}
use health.Manager.Process.{process_result, record_tally}
use health.Manager.Invariant.{IsWf, evaluate_fitness-maps, evaluate_fitness-IsWf, entries_of}
use health.Check.{CheckResult}
use health.Manager.Fitness.{evaluate_fitness, blocks_startup}
use health.Manager.Process.Correct.{
  get-process_result, process_result-frame, process_result-ran_iff,
}
use health.Base.Assoc.Count.{KeysWithin}
use health.Manager.Fitness.Gate.{evaluate_startup-AllPass}
use health.Manager.Fitness.Startup.{AllPass}
use health.Manager.Fitness.Correct.{evaluate_fitness_correct}
use health.System.Unharmed.{
  HasReport, IsGood, IsUnharmed, AllGood, handle_all, process_result-IsUnharmed, handle-none,
  evaluate_fitness-IsUnharmed,
}

-- Live, ready, and started.
abbrev pub IsServing : {R : Type 0} → Manager R → Type 0
IsServing m = (is_live m ≡ true) × (is_ready m ≡ true) × (m.startup_ptr ≡ 1)

module _ {R : Type 0} (ops : ReporterOps R) where
  -- Each registered check has a stored result or a report to come.
  abbrev pub Covers : List CheckResult → Manager R → Type 0
  Covers hcs m =
      (name : String)
      → is_some (get name m.checkers) ≡ true
      → (is_some (get name m.check_results) ≡ true) ⊎ HasReport name hcs

  process_result-ran :
      (hc : CheckResult) (m : Manager R)
      → m.all_checks_ran ≡ 1
      → (process_result ops hc m).all_checks_ran ≡ 1
  unfolding process_result record_tally
  process_result-ran hc m e = ground arith

  is_some-process_result :
      (hc : CheckResult) (m : Manager R) (name : String)
      → (is_some (get name m.check_results) ≡ true) ⊎ (hc.name ≡ name)
      → is_some (get name (process_result ops hc m).check_results) ≡ true
  is_some-process_result hc m name h =
      ground (arith, get-process_result ops hc m name, eq_iff hc.name name)

  Covers-handle :
      (hc : CheckResult) (hcs : List CheckResult) (m : Manager R)
      → Covers (hc ∷ hcs) m
      → Covers hcs (evaluate_fitness ops (process_result ops hc m))
  Covers-handle hc hcs m c name reg =
      let m1 = process_result ops hc m in
      let same = evaluate_fitness-maps ops m1 in
      rw same.same_results
        (elim (c name (rw (process_result-frame ops hc m).0 at (rw same.same_checkers at reg))) [
          | inl old ↦ inl (is_some-process_result hc m name (inl old))
          | inr (inl e) ↦ inl (is_some-process_result hc m name (inr e))
          | inr (inr later) ↦ inr later
        ])

  all_ran :
      (hc : CheckResult) (m : Manager R)
      → IsGood m.checkers hc
      → IsUnharmed m
      → KeysWithin (entries_of m.checkers) (entries_of (process_result ops hc m).check_results)
      → (process_result ops hc m).all_checks_ran ≡ 1
  all_ran hc m g u h = elim (Bool-cases (m.all_checks_ran == 0)) [
    | inl e ↦ (process_result-ran_iff ops hc m (unfold get in g.registered) u.wf (ground arith)).1 h
    | inr e ↦ process_result-ran hc m (let f = u.wf.flags.ran_flag in ground arith)
  ]

  harmless :
      (t : Option Tally)
      → is_some t ≡ true
      → ((r : Tally) → t ≡ some r → r.cancel_live ≡ false)
      → ((r : Tally) → t ≡ some r → r.cancel_ready ≡ false)
      → blocks_startup t ≡ false
  harmless none h a b = absurd (cc)
  harmless (some r) h a b = rw (a r refl) (b r refl)

  AllPass-of_unharmed :
      (m : Manager R)
      → IsUnharmed m
      → KeysWithin (entries_of m.checkers) (entries_of m.check_results)
      → AllPass m.check_results m.checkers
  unfolding get
  AllPass-of_unharmed m u h name w p _ =
      harmless (get name m.check_results) (h name (rw p refl)) (u.keeps_live name)
        (u.keeps_ready name)

  ready_when_full :
      (m : Manager R)
      → IsUnharmed m
      → m.all_checks_ran ≡ 1
      → (is_live (evaluate_fitness ops m) ≡ true) × (is_ready (evaluate_fitness ops m) ≡ true)
  ready_when_full m u ran =
      let complete =
        (evaluate_startup-AllPass ops m u.wf.checkers_map).1
          (inr (AllPass-of_unharmed m u (u.wf.reported ran))) in
      let (live, ready) =
        evaluate_fitness_correct ops m u.wf.flags u.wf.results_map (unfold running in rw u.on refl)
          ran complete in
      (live.1 u.keeps_live, ready.1 (u.keeps_live, u.keeps_ready))

  AllGood-handle :
      (hc : CheckResult) (hcs : List CheckResult) (m : Manager R)
      → AllGood m.checkers hcs
      → AllGood (evaluate_fitness ops (process_result ops hc m)).checkers hcs
  AllGood-handle hc hcs m g =
      rw
        (
          (evaluate_fitness-maps ops (process_result ops hc m)).same_checkers,
          (process_result-frame ops hc m).0,
        )
        g

  all_reported :
      (hc : CheckResult) (m : Manager R)
      → Covers (hc ∷ []) m
      → (name : String) → is_some (get name m.checkers) ≡ true
      → is_some (get name (process_result ops hc m).check_results) ≡ true
  all_reported hc m c name reg = is_some-process_result hc m name (elim (c name reg) [
    | inl old ↦ inl old
    | inr (inl e) ↦ inr e
    | inr (inr later) ↦ absurd later
  ])

  startup_of_ready : (m : Manager R) → IsWf m → is_ready m ≡ true → m.startup_ptr ≡ 1
  unfolding is_ready
  startup_of_ready m w r = ground (arith, w.flags.ready_flag, w.ready_gate, w.startup_shown)

  -- A well-formed running manager whose stored results cancel nothing handles a non-empty sequence
  -- of reports, each of a registered check and not unhealthy, in any order and with any repetition.
  -- When every registered check has a stored result before or a report in the sequence, the service
  -- ends live and ready, with its startup complete.
  pub handle_all-ready :
      (hc : CheckResult) (hcs : List CheckResult) (m : Manager R)
      → IsUnharmed m
      → AllGood m.checkers (hc ∷ hcs)
      → Covers (hc ∷ hcs) m
      → IsServing (handle_all ops (hc ∷ hcs) m)
  handle_all-ready hc [] m u (g, _) c =
      let m1 = process_result ops hc m in
      let u1 = process_result-IsUnharmed ops hc m g u in
      let (live, ready) =
        ready_when_full m1 u1 (all_ran hc m g u (unfold get in all_reported hc m c)) in
      rw (handle-none ops hc m) (
        live,
        ready,
        startup_of_ready (evaluate_fitness ops m1) (evaluate_fitness-IsWf ops m1 u1.wf) ready,
      )
  handle_all-ready hc (hc' ∷ hcs) m u (g, gs) c =
      let m1 = process_result ops hc m in
      subst (λ x. IsServing (handle_all ops (hc' ∷ hcs) x)) (sym (handle-none ops hc m))
        (handle_all-ready hc' hcs (evaluate_fitness ops m1)
          (evaluate_fitness-IsUnharmed ops m1 (process_result-IsUnharmed ops hc m g u))
          (AllGood-handle hc (hc' ∷ hcs) m gs) (Covers-handle hc (hc' ∷ hcs) m c))
