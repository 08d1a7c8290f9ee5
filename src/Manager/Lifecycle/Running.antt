-- ===== src/Manager/Lifecycle/Running.antt =====
-- `Run`: when it starts the goroutines, and what a failure leaves.
use mathlib.Core.List.{append-nil, append_assoc}
use Prim.Native.Nat.{bit_and}
use health.Options.{has_flag}
use health.Base.{
  ap, arith, Bool, eq_iff, is_none, List, none, Option, refl, some, String, string_eq, true, [],
  ◌&&◌, ◌++◌, ◌∙◌, ◌∷◌, ◌≡◌, ◌≢◌, sym,
}
use health.Manager.State.{Manager, running, Wrapper}
use health.Base.Assoc.{Assoc, IsDistinct, lookup}
use health.SyncMap.{
  each, each_entry, each_object, each_object_entry, entries, get, GoMap, made, nil, size,
}
use health.Reporter.{ReporterOps}
use health.Manager.Lifecycle.{
  dispatch_health_checks, dispatch_reporters, init_internals, run_start, start_checks, start_result,
  start_visit, started, validate_and_start,
}
use health.Manager.Workers.{at_interval, kind_of, one_time, Worker}
use health.Errors.{Error}
use health.SyncMap.Laws.{IsMap}
use health.Manager.Invariant.{entries_of}

abbrev pub worker_of : String → Wrapper → Worker
worker_of key w = record { name = key; wrapper = w; kind = kind_of w.opts }

abbrev pub workers_of : Assoc String Wrapper → List Worker
workers_of [] = []
workers_of ((k, w) ∷ l) = worker_of k w ∷ workers_of l

-- One goroutine for each entry, in the same order, of the kind that its frequency asks for.
abbrev pub RunsChecks : Assoc String Wrapper → List Worker → Type 0
RunsChecks [] [] = Unit
RunsChecks [] (v ∷ ws) = ⊥
RunsChecks (e ∷ l) [] = ⊥
RunsChecks ((k, w) ∷ l) (v ∷ ws) =
    (v.name ≡ k)
    × (v.wrapper ≡ w)
    × (bit_and w.opts.frequency 2 ≡ 2 → v.kind ≡ at_interval)
    × (bit_and w.opts.frequency 2 ≢ 2 → v.kind ≡ one_time)
    × RunsChecks l ws

workers_of-RunsChecks : (l : Assoc String Wrapper) → RunsChecks l (workers_of l)
unfolding kind_of has_flag
workers_of-RunsChecks [] = tt
workers_of-RunsChecks ((k, w) ∷ l) =
    (refl, refl, λ h. ground arith, λ h. ground arith, workers_of-RunsChecks l)

each_entry-workers_of :
    (l : Assoc String Wrapper) (ws : List Worker)
    → each_entry
        (λ key w ws. (ws ++ record { name = key; wrapper = w; kind = kind_of w.opts } ∷ [], true))
        l
        ws
      ≡ ws ++ workers_of l
unfolding each_entry
each_entry-workers_of [] ws = sym (append-nil ws)
each_entry-workers_of ((k, w) ∷ l) ws =
    each_entry-workers_of l (ws ++ worker_of k w ∷ [])
    ∙ append_assoc ws (worker_of k w ∷ []) (workers_of l)

module _ {R : Type 0} (ops : ReporterOps R) where
  -- What `Run` hands to `validateAndStart`.
  abbrev pub initialised : Manager R → Manager R
  initialised m = init_internals (record m { running_ptr = 1 })

  harmless_starts : Assoc String R → Bool
  harmless_starts [] = true
  harmless_starts ((_, r) ∷ l) = is_none (ops.run r).1 && harmless_starts l

  start_loop-none :
      (l : Assoc String R)
      → is_none (each_object_entry (start_visit ops) l none).1 ≡ harmless_starts l
  unfolding each_object_entry start_visit harmless_starts
  start_loop-none [] = refl
  start_loop-none ((k, r) ∷ l) = ground (arith, start_loop-none l)

  start_loop-values :
      (l : Assoc String R) (name : String)
      → harmless_starts l ≡ true
      → lookup name (each_object_entry (start_visit ops) l none).0
        ≡ mathlib.Core.Option.map (λ r. (ops.run r).0) (lookup name l)
  unfolding each_object_entry start_visit harmless_starts lookup
  start_loop-values [] name h = refl
  start_loop-values ((k, r) ∷ l) name h = ground (arith, start_loop-values l name)

  lookup-harmless_starts :
      (l : Assoc String R)
      → IsDistinct l
      → ((name : String) (r : R) → lookup name l ≡ some r → (ops.run r).1 ≡ none)
      → harmless_starts l ≡ true
  unfolding harmless_starts lookup
  lookup-harmless_starts [] d h = refl
  lookup-harmless_starts ((k, q) ∷ l) d h = ground (
    arith,
    h k q,
    eq_iff k k,
    lookup-harmless_starts l d.1 (λ name r p. h name r (ground (arith, eq_iff k name, d.0))),
  )

  dispatched_items :
      (rs : GoMap String R) (name : String)
      → harmless_starts (entries rs) ≡ true
      → ((each_object (start_visit ops) (record { items = rs }) none).1 ≡ none)
        × (get name (each_object (start_visit ops) (record { items = rs }) none).0
            ≡ mathlib.Core.Option.map (λ r. (ops.run r).0) (lookup name (entries rs)))
  unfolding each_object get
  dispatched_items nil name h = (refl, start_loop-values [] name h)
  dispatched_items (made l) name h = (ground (arith, start_loop-none l), start_loop-values l name h)

  start_checks-ok :
      (r : Manager R × Option Error)
      → r.1 ≡ none
      → start_checks none r ≡ (r.0, (dispatch_health_checks none r.0).0, none)
  unfolding start_checks dispatch_health_checks
  start_checks-ok (m, none) e = refl
  start_checks-ok (m, some x) e = cc

  run_start-checks :
      (m : Manager R)
      → m.running_ptr ≡ 0
      → size m.checkers ≢ 0
      → size m.reporters ≢ 0
      → run_start ops none m
        ≡ start_result (start_checks none (dispatch_reporters ops (initialised m)))
  unfolding run_start validate_and_start init_internals
  run_start-checks m off cs rs = ground arith

  dispatch_health_checks-workers_of :
      (m : Manager R) → (dispatch_health_checks none m).0 ≡ workers_of (entries_of m.checkers)
  unfolding dispatch_health_checks each
  dispatch_health_checks-workers_of m = each_entry-workers_of (entries_of m.checkers) []

  -- The manager that `Run` leaves to its goroutines.
  abbrev pub launched : Manager R → Manager R
  launched m = (dispatch_reporters ops (initialised m)).0

  pub run_start-launched :
      (m : Manager R)
      → m.running_ptr ≡ 0
      → size m.checkers ≢ 0
      → size m.reporters ≢ 0
      → ((name : String) (r : R) → get name m.reporters ≡ some r → (ops.run r).1 ≡ none)
      → IsMap m.reporters
      → run_start ops none m ≡ started (launched m) (workers_of (entries_of m.checkers))
  unfolding dispatch_reporters init_internals get
  run_start-launched m off cs rs quiet d =
      let calm = lookup-harmless_starts (entries_of m.reporters) d quiet in
      let ok =
        start_checks-ok (dispatch_reporters ops (initialised m))
          (dispatched_items m.reporters.items "" calm).0 in
      run_start-checks m off cs rs
      ∙ unfold start_result in
        ap start_result ok
        ∙ ap (started (launched m)) (dispatch_health_checks-workers_of (launched m))

  -- Each reporter is run, and nothing else is done to it.
  pub get-launched :
      (m : Manager R) (name : String)
      → ((k : String) (r : R) → get k m.reporters ≡ some r → (ops.run r).1 ≡ none)
      → IsMap m.reporters
      → get name (launched m).reporters
        ≡ mathlib.Core.Option.map (λ r. (ops.run r).0) (get name m.reporters)
  unfolding dispatch_reporters init_internals get
  get-launched m name quiet d =
      (dispatched_items m.reporters.items name
        (lookup-harmless_starts (entries_of m.reporters) d quiet)).1

  -- Of a manager that does not run and has each reporter under one name, with a checker and a
  -- reporter at hand, every reporter starting without an error, and a context that is not done,
  -- `Run` marks the manager as running, starts every reporter and starts for each registered check
  -- one goroutine of its own: at intervals if its frequency has the flag 2 of `CheckAtInterval`, and
  -- once if it has not.
  pub run_start-started :
      (m : Manager R)
      → m.running_ptr ≡ 0
      → size m.checkers ≢ 0
      → size m.reporters ≢ 0
      → ((name : String) (r : R) → get name m.reporters ≡ some r → (ops.run r).1 ≡ none)
      → IsMap m.reporters
      → (m' : Manager R) × (ws : List Worker) × (run_start ops none m ≡ started m' ws)
        × (running m' ≡ true)
        × RunsChecks (entries_of m.checkers) ws
        × ((name : String)
            → get name m'.reporters
              ≡ mathlib.Core.Option.map (λ r. (ops.run r).0) (get name m.reporters))
  unfolding running dispatch_reporters init_internals
  run_start-started m off cs rs quiet d = (
    launched m,
    workers_of (entries_of m.checkers),
    run_start-launched m off cs rs quiet d,
    refl,
    workers_of-RunsChecks (entries_of m.checkers),
    λ name. get-launched m name quiet d,
  )
