-- ===== src/Manager/Lifecycle/Registration.antt =====
-- `AddCheck` and `AddReporter`.
use health.Base.{
  arith, false, if◌then◌else◌, inl, inr, is_some, List, none, refl, some, String, string_eq, subst,
  suc, true, ◌=?◌, ◌≡◌, ◌⊎◌,
}
use health.Manager.State.{Manager, running, Wrapper}
use health.Errors.{Error, is}
use health.Manager.Lifecycle.{
  add_check, add_reporter, apply_options, default_frequency, manager_error,
}
use health.Options.{AddCheckOption, Checker, no_options}
use health.SyncMap.{get, size}
use health.SyncMap.Laws.{get-set, size-set}

refused-Is : (text : String) (e : Error) → manager_error text ≡ e → is e "health" ≡ true
unfolding is
refused-Is text e h = subst (λ x. is x "health" ≡ true) h refl

module _ {R : Type 0} where
  -- A manager that runs refuses new checks and reporters: it is unchanged, and the error is one of
  -- this library.
  add-refused :
      (name : String) (checker : Checker) (opts : List AddCheckOption) (r : R) (m : Manager R)
      → running m ≡ true
      → ((add_check name checker opts m).0 ≡ m)
        × ((add_reporter name r m).0 ≡ m)
        × ((e : Error)
            → ((add_check name checker opts m).1 ≡ some e) ⊎ ((add_reporter name r m).1 ≡ some e)
            → is e "health" ≡ true)
        × (is_some (add_check name checker opts m).1 ≡ true)
        × (is_some (add_reporter name r m).1 ≡ true)
  unfolding add_check add_reporter is
  add-refused name checker opts r m on = (
    ground arith,
    ground arith,
    λ e h. elim h [
      | inl p ↦ refused-Is "cannot add a health check to a running health instance" e (ground arith)
      | inr p ↦ refused-Is "cannot add a reporter to a running health instance" e (ground arith)
    ],
    ground arith,
    ground arith,
  )

  -- A manager that does not run takes the check under its name: the options in their order, with
  -- the frequency `CheckOnce` if none was set. Every other name keeps its check.
  get-add_check :
      (name j : String) (checker : Checker) (opts : List AddCheckOption) (m : Manager R)
      → running m ≡ false
      → ((add_check name checker opts m).1 ≡ none)
        × (get j (add_check name checker opts m).0.checkers ≡ (
            if name =? j
            then some (record {
              opts = default_frequency (apply_options opts no_options);
              checker = checker;
            })
            else get j m.checkers))
  unfolding add_check
  get-add_check name j checker opts m off =
      let w : Wrapper = record {
        opts = default_frequency (apply_options opts no_options);
        checker = checker;
      } in
      (ground arith, rw off (get-set name j w m.checkers))

  -- A name that differs from every registered one, in whatever way, adds a check: names that differ
  -- in case alone are two checks.
  size-add_check :
      (name : String) (checker : Checker) (opts : List AddCheckOption) (m : Manager R)
      → running m ≡ false
      → get name m.checkers ≡ none
      → size (add_check name checker opts m).0.checkers ≡ suc (size m.checkers)
  unfolding add_check
  size-add_check name checker opts m off new =
      let w : Wrapper = record {
        opts = default_frequency (apply_options opts no_options);
        checker = checker;
      } in
      rw off (ground (arith, size-set name w m.checkers))
