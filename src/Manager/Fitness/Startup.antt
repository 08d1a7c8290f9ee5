-- ===== src/Manager/Fitness/Startup.antt =====
-- The startup gate: what passes it, and a failing startup check that it does not see.
use health.Base.{
  arith, Bool, eq_iff, false, not, refl, some, String, string_eq, true, [], ◌&&◌, ◌||◌, ◌↔◌, ◌∷◌,
  ◌≡◌,
}
use health.Manager.State.{Manager, Tally, Wrapper}
use health.SyncMap.{each, each_entry, get, Map}
use health.SyncMap.Laws.{IsMap}
use health.Manager.Fitness.{blocks_startup, startup_passed, startup_visit}
use health.Base.Assoc.{Assoc, IsDistinct, lookup}
use health.Manager.Invariant.{entries_of}

-- A check passes if it does not affect startup, or its stored result cancels nothing.
abbrev pub Passes : Map String Tally → String → Wrapper → Type 0
Passes results name w = w.opts.affects_startup ≡ true → blocks_startup (get name results) ≡ false

abbrev pub AllPass : Map String Tally → Map String Wrapper → Type 0
AllPass results checkers =
    (name : String) (w : Wrapper) → get name checkers ≡ some w → Passes results name w

module _ (results : Map String Tally) where
  passing : Assoc String Wrapper → Bool
  passing [] = true
  passing ((k, w) ∷ l) =
      (not w.opts.affects_startup || not (blocks_startup (get k results))) && passing l

  each_entry-startup :
      (l : Assoc String Wrapper) → each_entry (startup_visit results) l true ≡ passing l
  unfolding each_entry passing
  each_entry-startup [] = refl
  each_entry-startup ((k, w) ∷ l) = ground (arith, each_entry-startup l)

  passing-lookup :
      (l : Assoc String Wrapper) (name : String) (w : Wrapper)
      → passing l ≡ true
      → lookup name l ≡ some w
      → Passes results name w
  unfolding passing lookup
  passing-lookup [] name w h p a = cc
  passing-lookup ((k, v) ∷ l) name w h p a = ground (arith, passing-lookup l name w, eq_iff k name)

  lookup-passing :
      (l : Assoc String Wrapper)
      → IsDistinct l
      → ((name : String) (w : Wrapper) → lookup name l ≡ some w → Passes results name w)
      → passing l ≡ true
  unfolding passing lookup
  lookup-passing [] d h = refl
  lookup-passing ((k, v) ∷ l) d h = ground (
    arith,
    h k v,
    eq_iff k k,
    lookup-passing l d.1 (λ name w p. h name w (ground (arith, eq_iff k name, d.0))),
  )

module _ {R : Type 0} (m : Manager R) (d : IsMap m.checkers) where
  -- The startup test passes exactly when every startup check has a result that cancels nothing.
  pub startup_passed_iff : (startup_passed m ≡ true) ↔ AllPass m.check_results m.checkers
  unfolding startup_passed each get
  startup_passed_iff =
      let l = entries_of m.checkers in
      let e = each_entry-startup m.check_results l in
      (
        λ h name w p. passing-lookup m.check_results l name w (ground arith) p,
        λ h. let c = lookup-passing m.check_results l d h in ground arith,
      )
