-- ===== src/System/Setup.antt =====
-- Registration before the first `Run` leads to a state in which the invariant holds.
use health.Base.{
  All, arith, Bool-cases, false, inl, inr, List, none, refl, String, string_eq, [], ◌==◌, ◌∷◌, ◌≡◌,
}
use health.System.{configured}
use health.Manager.State.{Manager, new_manager, running}
use health.Reporter.{Flags}
use health.Manager.Lifecycle.{add_check, add_reporter, apply_options, default_frequency}
use health.Base.Assoc.{lookup}
use health.SyncMap.{get, zero_map}
use health.Options.{AddCheckOption, Checker, no_options}
use health.System.Handlers.{IsSafe, IsSafeSystem}
use health.SyncMap.Laws.{get-set, IsMap, set-IsMap}
use health.Manager.Flags.Sync.{InSync}

pub data Registration (R : Type 0) : Type 0 where
  of_check : String → Checker → List AddCheckOption → Registration R
  of_reporter : String → R → Registration R

module _ {R : Type 0} where
  unfoldable pub register : Registration R → Manager R → Manager R
  register (of_check name checker opts) m = (add_check name checker opts m).0
  register (of_reporter name r) m = (add_reporter name r m).0

  unfoldable pub register_all : List (Registration R) → Manager R → Manager R
  register_all [] m = m
  register_all (x ∷ xs) m = register_all xs (register x m)

  -- A new reporter shows none of the three flags.
  abbrev pub StartsDown : (R → Flags) → Registration R → Type 0
  StartsDown shows (of_check name checker opts) = Unit
  StartsDown shows (of_reporter name r) =
      shows r ≡ record { live = false; ready = false; startup = false }

  record IsIdle (shows : R → Flags) (m : Manager R) : Type 0 where
    words :
        (m.running_ptr ≡ 0)
        × (m.live_ptr ≡ 0)
        × (m.ready_ptr ≡ 0)
        × (m.startup_ptr ≡ 0)
        × (m.all_checks_ran ≡ 0)
        × (m.initial_ready ≡ 0)
        × (m.startup_done ≡ 0)
    results : m.check_results ≡ zero_map
    funnel : m.check_funnel ≡ none
    checkers_map : IsMap m.checkers
    sync : InSync shows m

  add_check-IsIdle :
      (shows : R → Flags) (name : String) (checker : Checker) (opts : List AddCheckOption)
      (m : Manager R)
      → IsIdle shows m
      → IsIdle shows (add_check name checker opts m).0
  unfolding add_check running
  add_check-IsIdle shows name checker opts m h = elim (Bool-cases (m.running_ptr == 1)) [
    | inl on ↦ rw on h
    | inr off ↦ rw off (record {
      words = h.words;
      results = h.results;
      funnel = h.funnel;
      checkers_map =
          set-IsMap name
            (record { opts = default_frequency (apply_options opts no_options); checker = checker })
            m.checkers h.checkers_map;
      sync = h.sync;
    })
  ]

  add_reporter-IsIdle :
      (shows : R → Flags) (name : String) (r : R) (m : Manager R)
      → shows r ≡ record { live = false; ready = false; startup = false }
      → IsIdle shows m
      → IsIdle shows (add_reporter name r m).0
  unfolding add_reporter running
  add_reporter-IsIdle shows name r m fresh h = elim (Bool-cases (m.running_ptr == 1)) [
    | inl on ↦ rw on h
    | inr off ↦ rw off (record {
      words = h.words;
      results = h.results;
      funnel = h.funnel;
      checkers_map = h.checkers_map;
      sync = λ k q p. ground (arith, get-set name k r m.reporters, h.sync k q, h.words);
    })
  ]

  register_all-IsIdle :
      (shows : R → Flags) (xs : List (Registration R)) (m : Manager R)
      → All (StartsDown shows) xs
      → IsIdle shows m
      → IsIdle shows (register_all xs m)
  unfolding register_all register
  register_all-IsIdle shows [] m f h = h
  register_all-IsIdle shows (of_check name checker opts ∷ xs) m f h =
      register_all-IsIdle shows xs (add_check name checker opts m).0 f.1
        (add_check-IsIdle shows name checker opts m h)
  register_all-IsIdle shows (of_reporter name r ∷ xs) m f h =
      register_all-IsIdle shows xs (add_reporter name r m).0 f.1
        (add_reporter-IsIdle shows name r m f.0 h)

  IsIdle-IsSafe : (shows : R → Flags) (m : Manager R) → IsIdle shows m → IsSafe shows m.checkers m
  unfolding lookup
  IsIdle-IsSafe shows m h = record {
    wf = record {
      flags = ground (arith, h.words);
      checkers_map = h.checkers_map;
      results_map = rw h.results tt;
      known = rw h.results (λ k p. cc);
      reported = λ e. absurd (ground (arith, h.words));
      ready_gate = ground (arith, h.words);
      startup_shown = ground (arith, h.words);
    };
    sync = h.sync;
    registered = refl;
    funnel = rw h.funnel tt;
  }

  new_manager-IsIdle : (shows : R → Flags) → IsIdle shows new_manager
  unfolding get lookup
  new_manager-IsIdle shows = record {
    words = (refl, refl, refl, refl, refl, refl, refl);
    results = refl;
    funnel = refl;
    checkers_map = tt;
    sync = λ k r p. absurd (cc);
  }

  -- The manager of an application that has registered `xs`.
  abbrev pub registered_manager : List (Registration R) → Manager R
  registered_manager xs = register_all xs new_manager

  -- Nothing is stored, and every word is 0.
  pub registered_blank :
      (shows : R → Flags) (xs : List (Registration R))
      → All (StartsDown shows) xs
      → ((registered_manager xs).running_ptr ≡ 0)
        × ((registered_manager xs).live_ptr ≡ 0)
        × ((registered_manager xs).ready_ptr ≡ 0)
        × ((registered_manager xs).startup_ptr ≡ 0)
        × ((registered_manager xs).all_checks_ran ≡ 0)
        × ((registered_manager xs).initial_ready ≡ 0)
        × ((registered_manager xs).startup_done ≡ 0)
        × ((registered_manager xs).check_results ≡ zero_map)
  registered_blank shows xs f =
      let h = register_all-IsIdle shows xs new_manager f (new_manager-IsIdle shows) in
      let (on, live, ready, startup, ran, initial, done) = h.words in
      (on, live, ready, startup, ran, initial, done, h.results)

  pub registered_funnel :
      (shows : R → Flags) (xs : List (Registration R))
      → All (StartsDown shows) xs
      → (registered_manager xs).check_funnel ≡ none
  registered_funnel shows xs f =
      (register_all-IsIdle shows xs new_manager f (new_manager-IsIdle shows)).funnel

  pub registered-IsSafeSystem :
      (shows : R → Flags) (xs : List (Registration R))
      → All (StartsDown shows) xs
      → IsSafeSystem shows (registered_manager xs).checkers (configured (registered_manager xs))
  registered-IsSafeSystem shows xs f = record {
    safe =
        IsIdle-IsSafe shows (registered_manager xs)
          (register_all-IsIdle shows xs new_manager f (new_manager-IsIdle shows));
    named = tt;
  }
