-- ===== src/System/Rounds.antt =====
-- One goroutine after the other runs its check and sends its report, which the loop handles at
-- once.
use mathlib.Core.List.{append_assoc}
use health.System.{handle, next, Reach, Step, System}
use health.Manager.Workers.{at_interval, kind_of, one_time, run_check, Worker, Kind}
use health.Manager.Lifecycle.Running.{worker_of, workers_of}
use health.Manager.Invariant.{evaluate_fitness-maps}
use health.Manager.State.{Manager, Wrapper}
use health.Check.{CheckResult, is_unhealthy}
use health.Channel.{Chan, receive, send}
use health.Reporter.{ReporterOps}
use health.Base.{
  String, ℕ, List, Option, ◌<◌, some, none, ◌≡◌, ap, false, [], ◌∷◌, ◌++◌, ◌∙◌, arith, refl, ◌⊎◌,
  sym, inr, string_eq, inl,
}
use health.Base.Assoc.{Assoc}
use health.Manager.Process.{process_health_check, process_result}
use health.Base.Int.{ℤ}
use health.Manager.Process.Correct.{process_result-frame}
use health.System.Unharmed.{handle_all}

-- A call of the check at some instant gives a result that is not unhealthy.
pub record IsWell (key : String) (w : Wrapper) : Type 0 where
  pub at : ℤ
  pub result : CheckResult
  pub gives : run_check key w at ≡ some result
  pub well : is_unhealthy result.status ≡ false

abbrev pub AllWell : Assoc String Wrapper → Type 0
AllWell [] = Unit
AllWell ((k, w) ∷ l) = IsWell k w × AllWell l

abbrev pub reports_of : (l : Assoc String Wrapper) → AllWell l → List CheckResult
reports_of [] h = []
reports_of ((k, w) ∷ l) (h, hs) = h.result ∷ reports_of l hs

-- An empty funnel.
abbrev pub empty_funnel : ℕ → Chan (Option CheckResult)
empty_funnel n = record { capacity = n; queue = [] }

send_empty :
    (n : ℕ) (hc : CheckResult)
    → 0 < n
    → send (some hc) (empty_funnel n) ≡ some (record { capacity = n; queue = some hc ∷ [] })
unfolding send
send_empty n hc pos' = ground arith

receive_full :
    (n : ℕ) (hc : CheckResult)
    → receive (record { capacity = n; queue = some hc ∷ [] }) ≡ some (some hc, empty_funnel n)
unfolding receive
receive_full n hc = refl

module _ {R : Type 0} (ops : ReporterOps R) where
  handle-frame :
      (hc : CheckResult) (m : Manager R)
      → ((handle ops none (some hc) m).check_funnel ≡ m.check_funnel)
        × ((handle ops none (some hc) m).checkers ≡ m.checkers)
  unfolding handle process_health_check
  handle-frame hc m =
      let same = evaluate_fitness-maps ops (process_result ops hc m) in
      let (checkers, funnel) = process_result-frame ops hc m in
      (same.same_funnel ∙ funnel, same.same_checkers ∙ checkers)

  -- A system on its way: the context is open, the loop reads, the funnel is empty.
  pub record IsReading (n : ℕ) (s : System R) : Type 0 where
    pub undone : s.ctx ≡ none
    pub reads : 0 < s.loops
    pub empty : s.manager.check_funnel ≡ some (empty_funnel n)

  -- The goroutines that are left after one has reported.
  rest_of : (kept : List Worker) (w : Worker) (after : List Worker) → Kind → List Worker
  rest_of kept w after one_time = kept ++ after
  rest_of kept w after at_interval = kept ++ w ∷ after

  goes_on :
      (kept : List Worker) (w : Worker) (after ws : List Worker) (k : Kind)
      → ws ≡ kept ++ w ∷ after
      → w.kind ≡ k
      → ((w.kind ≡ at_interval) × (rest_of kept w after k ≡ ws))
        ⊎ ((w.kind ≡ one_time) × (rest_of kept w after k ≡ kept ++ after))
  unfolding rest_of
  goes_on kept w after ws one_time e k = inr (k, refl)
  goes_on kept w after ws at_interval e k = inl (k, sym e)

  -- The system after a goroutine has reported and the loop has handled the report.
  abbrev served : ℕ → List Worker → CheckResult → System R → System R
  served n rest hc s = record s {
    manager =
        handle ops s.ctx (some hc) (record s.manager { check_funnel = some (empty_funnel n) });
    workers = rest;
  }

  one_report :
      (n : ℕ) (s0 s : System R) (kept : List Worker) (k : String) (w : Wrapper)
      (after : List Worker) (h : IsWell k w)
      → 0 < n
      → IsReading n s
      → s.workers ≡ kept ++ worker_of k w ∷ after
      → Reach ops s0 s
      → Reach ops s0 (served n (rest_of kept (worker_of k w) after (kind_of w.opts)) h.result s)
  one_report n s0 s kept k w after h room r e reach =
      let full : Chan (Option CheckResult) = record { capacity = n; queue = some h.result ∷ [] } in
      let rest = rest_of kept (worker_of k w) after (kind_of w.opts) in
      next
        (next reach (
          Step.report kept (worker_of k w) after rest h.at h.result (empty_funnel n) full e
            (goes_on kept (worker_of k w) after s.workers (kind_of w.opts) e refl) h.gives r.empty
            (send_empty n h.result room)))
        (Step.receive_report (some h.result) full (empty_funnel n) r.reads refl
          (receive_full n h.result))

  served-manager :
      (n : ℕ) (rest : List Worker) (hc : CheckResult) (s : System R)
      → IsReading n s
      → (served n rest hc s).manager ≡ handle ops none (some hc) s.manager
  served-manager n rest hc s r =
      ap (λ c. handle ops c (some hc) (record s.manager { check_funnel = some (empty_funnel n) }))
        r.undone
      ∙ ap (λ f. handle ops none (some hc) (record s.manager { check_funnel = f })) (sym r.empty)

  served-IsReading :
      (n : ℕ) (rest : List Worker) (hc : CheckResult) (s : System R)
      → IsReading n s
      → IsReading n (served n rest hc s)
  served-IsReading n rest hc s r = record {
    undone = r.undone;
    reads = r.reads;
    empty =
        ap (λ (m : Manager R). m.check_funnel) (served-manager n rest hc s r)
        ∙ (handle-frame hc s.manager).0
        ∙ r.empty;
  }

  -- Where the kept goroutines end and those to come begin, after one report.
  workers_split :
      (kept : List Worker) (w : Worker) (after : List Worker) (k : Kind)
      → (kept' : List Worker) × (rest_of kept w after k ≡ kept' ++ after)
  unfolding rest_of
  workers_split kept w after one_time = (kept, refl)
  workers_split kept w after at_interval = (kept ++ w ∷ [], sym (append_assoc kept (w ∷ []) after))

  -- All goroutines of a list report, one after the other.
  pub all_report :
      (n : ℕ) (s0 s : System R) (kept : List Worker) (l : Assoc String Wrapper) (h : AllWell l)
      → 0 < n
      → IsReading n s
      → s.workers ≡ kept ++ workers_of l
      → Reach ops s0 s
      → (t : System R) × Reach ops s0 t × (t.manager ≡ handle_all ops (reports_of l h) s.manager)
  all_report n s0 s kept [] h room r e reach = (s, reach, refl)
  all_report n s0 s kept ((k, w) ∷ l) (h, hs) room r e reach =
      let rest = rest_of kept (worker_of k w) (workers_of l) (kind_of w.opts) in
      let (kept', split) = workers_split kept (worker_of k w) (workers_of l) (kind_of w.opts) in
      let (t, reach', same) =
        all_report n s0 (served n rest h.result s) kept' l hs room
          (served-IsReading n rest h.result s r) split
          (one_report n s0 s kept k w (workers_of l) h room r e reach) in
      (t, reach', same ∙ ap (handle_all ops (reports_of l hs)) (served-manager n rest h.result s r))
