-- ===== src/Manager/Lifecycle/Starting.antt =====
-- What the first part of `Run` leaves on each way out.
use mathlib.Core.List.{Memᴰ}
use health.Manager.State.{Context, Manager, Wrapper}
use health.Manager.Workers.{kind_of, Worker}
use health.SyncMap.{each, each_entry, Map, size}
use health.Manager.Lifecycle.{
  already, blocked, dispatch_health_checks, dispatch_reporters, fail_on, failed, init_internals,
  run_start, send_error, Start, start_checks, start_result, started, validate_and_start,
}
use health.Reporter.{ReporterOps}
use health.Base.{
  All, All-append, arith, Bool-cases, inl, inr, List, none, Option, refl, some, String, string_eq,
  subst, true, [], ◌++◌, ◌==◌, ◌∷◌, ◌≡◌,
}
use health.Base.Assoc.{Assoc}
use health.Errors.{Error}
use health.Channel.{Chan, send}
use health.Manager.Invariant.{entries_of}

-- A predicate on the manager that each outcome holds, and one on the goroutines that are started.
abbrev pub Leaves : {R : Type 0} → (Manager R → Type 0) → (Worker → Type 0) → Start R → Type 0
Leaves P Q (already m) = P m
Leaves P Q (failed m e) = P m
Leaves P Q (blocked m e) = P m
Leaves P Q (started m ws) = P m × All Q ws

-- The same for the result of `validateAndStart`.
abbrev LeavesAll :
    {R : Type 0}
    → (Manager R → Type 0)
    → (Worker → Type 0)
    → Manager R × List Worker × Option Error
    → Type 0
LeavesAll P Q (m, ws, e) = P m × All Q ws

module _ {R : Type 0} (P : Manager R → Type 0) (Q : Worker → Type 0) where
  -- A predicate that does not read the error channel, and that survives the reset of `running`.
  Leaves-fail_on :
      (m : Manager R) (e : Error) (o : Option (Chan Error))
      → ((c : Option (Chan Error)) → P m → P (record m { err_chan = c; running_ptr = 0 }))
      → P m
      → Leaves P Q (fail_on m e o)
  unfolding fail_on
  Leaves-fail_on m e none k p = p
  Leaves-fail_on m e (some c) k p = k (some c) p

  Leaves-send_error :
      (m : Manager R) (e : Error) (o : Option (Chan Error))
      → ((c : Option (Chan Error)) → P m → P (record m { err_chan = c; running_ptr = 0 }))
      → P m
      → Leaves P Q (send_error m e o)
  unfolding send_error
  Leaves-send_error m e none k p = p
  Leaves-send_error m e (some c) k p = Leaves-fail_on m e (send e c) k p

  Leaves-start_result :
      (r : Manager R × List Worker × Option Error)
      → ((m : Manager R) (c : Option (Chan Error))
          → P m
          → P (record m { err_chan = c; running_ptr = 0 }))
      → LeavesAll P Q r
      → Leaves P Q (start_result r)
  unfolding start_result
  Leaves-start_result (m, ws, none) k p = p
  Leaves-start_result (m, ws, some e) k p = Leaves-send_error m e m.err_chan (k m) p.0

-- The workers of the loop over the checkers stand for its entries.
dispatched_named :
    (l : Assoc String Wrapper) (ws : List Worker)
    → (Q : Worker → Type 0) → All Q ws
    → ((key : String) (w : Wrapper)
        → Memᴰ (key, w) l
        → Q (record { name = key; wrapper = w; kind = kind_of w.opts }))
    → All Q (
        each_entry
          (λ key w ws. (ws ++ record { name = key; wrapper = w; kind = kind_of w.opts } ∷ [], true))
          l
          ws)
unfolding each_entry
dispatched_named [] ws Q q h = q
dispatched_named ((k, w) ∷ l) ws Q q h =
    dispatched_named l (ws ++ record { name = k; wrapper = w; kind = kind_of w.opts } ∷ []) Q
      (All-append Q ws (record { name = k; wrapper = w; kind = kind_of w.opts } ∷ []) q
        (h k w (Memᴰ.head refl), tt))
      (λ j v p. h j v (Memᴰ.tail p))

-- A goroutine that runs a registered check under its name.
abbrev pub IsNamedIn : Map String Wrapper → Worker → Type 0
IsNamedIn checkers w = Memᴰ (w.name, w.wrapper) (entries_of checkers)

module _ {R : Type 0} where
  dispatch_health_checks-named :
      (ctx : Context) (m : Manager R) → All (IsNamedIn m.checkers) (dispatch_health_checks ctx m).0
  unfolding dispatch_health_checks each
  dispatch_health_checks-named (some e) m = tt
  dispatch_health_checks-named none m =
      dispatched_named (entries_of m.checkers) [] (IsNamedIn m.checkers) tt (λ key w p. p)

module _ {R : Type 0} (ops : ReporterOps R) (P : Manager R → Type 0) where
  Leaves-start_checks :
      (ctx : Context) (r : Manager R × Option Error) (checkers : Map String Wrapper)
      → r.0.checkers ≡ checkers
      → P r.0
      → LeavesAll P (IsNamedIn checkers) (start_checks ctx r)
  unfolding start_checks
  Leaves-start_checks ctx (m, some e) checkers s p = (p, tt)
  Leaves-start_checks ctx (m, none) checkers s p = (
    p,
    subst (λ c. All (IsNamedIn c) (dispatch_health_checks ctx m).0) s
        (dispatch_health_checks-named ctx m),
  )

  checkers-dispatch_reporters : (m : Manager R) → (dispatch_reporters ops m).0.checkers ≡ m.checkers
  unfolding dispatch_reporters
  checkers-dispatch_reporters m = refl

  Leaves-validate_and_start :
      (ctx : Context) (m : Manager R)
      → P m
      → P (dispatch_reporters ops m).0
      → LeavesAll P (IsNamedIn m.checkers) (validate_and_start ops ctx m)
  unfolding validate_and_start
  Leaves-validate_and_start ctx m p q = elim (Bool-cases (size m.checkers == 0)) [
    | inl c ↦ rw c (p, tt)
    | inr c ↦ rw c (elim (Bool-cases (size m.reporters == 0)) [
      | inl d ↦ rw d (p, tt)
      | inr d ↦ rw d (
          Leaves-start_checks ctx (dispatch_reporters ops m) m.checkers
            (checkers-dispatch_reporters m) q)
    ])
  ]

  -- The rule for the first part of `Run`: `P` survives the start of the words and channels, the
  -- start of the reporters, and the way out through the error channel.
  pub Leaves-run_start :
      (ctx : Context) (m : Manager R)
      → P m
      → (m.running_ptr ≡ 0 → P (init_internals (record m { running_ptr = 1 })))
      → ((n : Manager R) → P n → P (dispatch_reporters ops n).0)
      → ((n : Manager R) (c : Option (Chan Error))
          → P n
          → P (record n { err_chan = c; running_ptr = 0 }))
      → Leaves P (IsNamedIn m.checkers) (run_start ops ctx m)
  unfolding run_start
  Leaves-run_start ctx m p i d k = elim (Bool-cases (m.running_ptr == 0)) [
    | inr c ↦ rw c p
    | inl c ↦ rw c (
        let n = init_internals (record m { running_ptr = 1 }) in
        let pn = i (ground arith) in
        Leaves-start_result P (IsNamedIn m.checkers) (validate_and_start ops ctx n) k
          (unfold init_internals in Leaves-validate_and_start ctx n pn (d n pn)))
  ]
