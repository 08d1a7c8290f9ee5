-- ===== src/Manager/Lifecycle/Stopping.antt =====
-- `Stop`: what it leaves, and which reporter errors it returns.
use mathlib.Core.Option.{map}
use health.Manager.Flags.Sync.{get-notify}
use health.Base.{
  if◌then◌else◌, ap, arith, Bool, Bool-cases, eq_iff, false, inl, inr, none, Option, refl, some,
  String, string_eq, subst, sym, true, [], ◌&&◌, ◌==◌, ◌↔◌, ◌∙◌, ◌∷◌, ◌≡◌,
}
use health.Manager.State.{Context, is_ready, Manager, running}
use health.Reporter.{ReporterOps}
use health.Errors.{also, concat, end, err_health, Error, error_text, Errors, is, joined, wrapped}
use health.Base.Assoc.{Assoc, IsDistinct, lookup}
use health.Manager.Lifecycle.{
  append_error, stop, stop_error, stop_failure, stop_reporters, stop_visit,
}
use health.SyncMap.{each_object, each_object_entry, get, Map}
use health.Manager.Flags.{set_ready}
use health.SyncMap.Laws.{IsMap}
use health.Manager.Invariant.{entries_of}
use health.SyncMap.Loops.{get-goes_on}

map_same : {A : Type 0} (o : Option A) → map (λ x. x) o ≡ o
map_same none = refl
map_same (some x) = refl

map-map : {A : Type 0} (f g : A → A) (o : Option A) → map f (map g o) ≡ map (λ x. f (g x)) o
map-map f g none = refl
map-map f g (some x) = refl

-- A result of a reporter's `Stop` that the manager does not count: none, or a cancellation.
unfoldable pub is_harmless : Option Error → Bool
is_harmless none = true
is_harmless (some e) = is e "context canceled"

module _ {R : Type 0} (ops : ReporterOps R) where
  harmless : Assoc String R → Bool
  harmless [] = true
  harmless ((_, r) ∷ l) = is_harmless (ops.stop r).1 && harmless l

  is_end : Errors → Bool
  is_end end = true
  is_end (also e es) = false

  append_error-ne-end : (es : Errors) (e : Error) → is_end (append_error es e) ≡ false
  unfolding append_error is_end
  append_error-ne-end end e = refl
  append_error-ne-end (also f es) e = refl

  stop_failure-is_end :
      (key : String) (o : Option Error) (errs : Errors)
      → is_end (stop_failure key o errs) ≡ (is_end errs && is_harmless o)
  unfolding stop_failure is_harmless
  stop_failure-is_end key none errs = ground arith
  stop_failure-is_end key (some e) errs = ground (
    arith,
    append_error-ne-end errs (
        wrapped (concat "reporter '" (concat key (concat "' failed to stop: " (error_text e))))
          (also e end)),
  )

  stop_loop-is_end :
      (l : Assoc String R) (errs : Errors)
      → is_end (each_object_entry (stop_visit ops) l errs).1 ≡ (is_end errs && harmless l)
  unfolding each_object_entry harmless stop_visit
  stop_loop-is_end [] errs = ground arith
  stop_loop-is_end ((k, r) ∷ l) errs = ground (
    arith,
    stop_failure-is_end k (ops.stop r).1 errs,
    stop_loop-is_end l (stop_failure k (ops.stop r).1 errs),
  )

  harmless-lookup :
      (l : Assoc String R) (name : String) (r : R)
      → harmless l ≡ true
      → lookup name l ≡ some r
      → is_harmless (ops.stop r).1 ≡ true
  unfolding harmless lookup
  harmless-lookup [] name r h p = cc
  harmless-lookup ((k, q) ∷ l) name r h p = ground (arith, harmless-lookup l name r)

  lookup-harmless :
      (l : Assoc String R)
      → IsDistinct l
      → ((name : String) (r : R) → lookup name l ≡ some r → is_harmless (ops.stop r).1 ≡ true)
      → harmless l ≡ true
  unfolding harmless lookup
  lookup-harmless [] d h = refl
  lookup-harmless ((k, q) ∷ l) d h = ground (
    arith,
    h k q,
    eq_iff k k,
    lookup-harmless l d.1 (λ name r p. h name r (ground (arith, eq_iff k name, d.0))),
  )

  stop_error-none : (es : Errors) → (stop_error es ≡ none) ↔ (is_end es ≡ true)
  unfolding stop_error is_end
  stop_error-none end = (λ h. refl, λ h. refl)
  stop_error-none (also e es) = (λ h. cc, λ h. cc)

  -- The manager whose reporters `Stop` goes through: it runs no more, and is not ready.
  abbrev pub stopping : Manager R → Manager R
  stopping m = (set_ready ops false (record m { running_ptr = 0 })).0

  errors_of : Map String R → Errors
  errors_of rs = (each_object (stop_visit ops) rs end).1

  errors_of-is_end : (rs : Map String R) → is_end (errors_of rs) ≡ harmless (entries_of rs)
  unfolding errors_of each_object is_end
  errors_of-is_end rs = stop_loop-is_end (entries_of rs) end

  stop-running :
      (ctx : Context) (m : Manager R)
      → m.running_ptr ≡ 1
      → stop ops ctx m ≡ stop_reporters ops (stopping m)
  unfolding stop
  stop-running ctx m e = ground arith

  stop-errors :
      (ctx : Context) (m : Manager R)
      → m.running_ptr ≡ 1
      → (stop ops ctx m).1 ≡ stop_error (errors_of (stopping m).reporters)
  unfolding stop_reporters errors_of
  stop-errors ctx m e = ap (λ p. p.1) (stop-running ctx m e)

  -- `Stop` of a running manager with each reporter under one name returns no error exactly when
  -- every reporter stopped without an error or with a cancellation.
  stop-none_iff :
      (ctx : Context) (m : Manager R)
      → m.running_ptr ≡ 1
      → IsMap (stopping m).reporters
      → ((stop ops ctx m).1 ≡ none) ↔ (
          (name : String) (r : R)
          → get name (stopping m).reporters ≡ some r
          → is_harmless (ops.stop r).1 ≡ true)
  unfolding get
  stop-none_iff ctx m e d =
      let rs = (stopping m).reporters in
      let l = entries_of rs in
      let s = stop-errors ctx m e in
      let (none→, →none) = stop_error-none (errors_of rs) in
      let c = errors_of-is_end rs in
      (
        λ h name r p. harmless-lookup l name r (sym c ∙ none→ (sym s ∙ h)) p,
        λ h. s ∙ →none (c ∙ lookup-harmless l d h),
      )

  stop_error-Is : (es : Errors) (e : Error) → stop_error es ≡ some e → is e "health" ≡ true
  unfolding stop_error is
  stop_error-Is end e h = cc
  stop_error-Is (also f es) e h =
      let same : wrapped (concat "health.manager.std: " (error_text (joined (also f es))))
            (also err_health (also (joined (also f es)) end))
          ≡ e =
        cc in
      subst (λ x. is x "health" ≡ true) same refl

  -- Any error of `Stop` is recognised by `errors.Is(err, health.ErrHealth)`.
  stop_error-health :
      (ctx : Context) (m : Manager R) (e : Error)
      → (stop ops ctx m).1 ≡ some e
      → is e "health" ≡ true
  stop_error-health ctx m e h = elim (Bool-cases (m.running_ptr == 1)) [
    | inl on ↦
        stop_error-Is (errors_of (stopping m).reporters) e
          (sym (stop-errors ctx m (ground arith)) ∙ h)
    | inr off ↦ absurd (unfold stop in ground arith)
  ]

  -- What a running manager's `Stop` does to a reporter: it is told that readiness ended, if the
  -- readiness word was set, and then stopped.
  abbrev pub told_and_stopped : Manager R → R → R
  told_and_stopped m r = (ops.stop (if m.ready_ptr == 0 then r else ops.set_readiness false r)).0

  get-stopping :
      (m : Manager R) (name : String)
      → get name (stopping m).reporters
        ≡ map
            (λ r. if m.ready_ptr == 0 then r else ops.set_readiness false r)
            (get name m.reporters)
  unfolding set_ready
  get-stopping m name = elim (Bool-cases (m.ready_ptr == 0)) [
    | inl down ↦ rw down (sym (map_same (get name m.reporters)))
    | inr up ↦ rw up (get-notify (ops.set_readiness false) name m.reporters)
  ]

  -- `Stop` of a running manager ends readiness and keeps liveness and startup. Each registered
  -- reporter is stopped once, after it was told that readiness ended if the manager was ready
  -- until then; if it was not, the reporter is told nothing.
  pub stop_lem :
      (ctx : Context) (m : Manager R)
      → m.running_ptr ≡ 1
      → (running (stop ops ctx m).0 ≡ false)
        × (is_ready (stop ops ctx m).0 ≡ false)
        × ((stop ops ctx m).0.live_ptr ≡ m.live_ptr)
        × ((stop ops ctx m).0.startup_ptr ≡ m.startup_ptr)
        × ((name : String)
            → get name (stop ops ctx m).0.reporters
              ≡ map (told_and_stopped m) (get name m.reporters))
  unfolding stop stop_reporters set_ready running is_ready stop_visit
  stop_lem ctx m e = (
    ground arith,
    ground arith,
    ground arith,
    ground arith,
    λ name. rw (ap (λ p. p.0) (stop-running ctx m e)) (
        get-goes_on (stop_visit ops) (λ r. (ops.stop r).0) name (stopping m).reporters end
          (λ j v s. refl) (λ j v s. refl)
        ∙ ap (map (λ r. (ops.stop r).0)) (get-stopping m name)
        ∙ map-map (λ r. (ops.stop r).0)
            (λ r. if m.ready_ptr == 0 then r else ops.set_readiness false r)
            (get name m.reporters)),
  )

  -- `Stop` of a running manager with each reporter under one name returns no error exactly when
  -- every reporter stopped without an error or with a cancellation, and any error that it returns
  -- is recognised by `errors.Is(err, health.ErrHealth)`.
  pub stop-error :
      (ctx : Context) (m : Manager R)
      → m.running_ptr ≡ 1
      → IsMap (stopping m).reporters
      → (((stop ops ctx m).1 ≡ none) ↔ (
          (name : String) (r : R)
          → get name (stopping m).reporters ≡ some r
          → is_harmless (ops.stop r).1 ≡ true))
        × ((e : Error) → (stop ops ctx m).1 ≡ some e → is e "health" ≡ true)
  stop-error ctx m on d = (stop-none_iff ctx m on d, stop_error-health ctx m)

  -- A second `Stop`, or one before `Run`, does nothing and returns no error.
  stop-stop :
      (ctx ctx' : Context) (m : Manager R)
      → stop ops ctx' (stop ops ctx m).0 ≡ ((stop ops ctx m).0, none)
  unfolding stop stop_reporters set_ready
  stop-stop ctx ctx' m = ground arith
