-- ===== src/Examples/Cached.antt =====
-- The cache at concrete inputs.
use health.Check.{CheckResult, healthy}
use health.Cached.{CachedChecker, Instants, is_fresh, write_sections, with_cache}
use health.Base.Int.{pos, ◌+ℤ◌}
use health.Examples.Data.{result_of, steady}
use health.Options.{returned}
use health.Base.{arith, none, refl, some, string_eq, [], ◌∷◌, ◌≡◌, List, All}
use health.Cached.Laws.{all_return, refreshed, write_sections-once}
use health.Cached.Interleaving.{IsOf, Caller, IsAnswered, entering, move_all, move_all-IsAnswered}

abbrev inner_result : CheckResult
inner_result = result_of "db" healthy

-- A cache of five seconds that has never been filled.
abbrev empty_cache : CachedChecker
empty_cache = record { inner = steady inner_result; ttl = pos 5; cached = none; expiry = pos 0 }

abbrev at_ten : Instants
at_ten = record { test_at = pos 10; call_at = pos 10; stamp_at = pos 11 }

abbrev at_twelve : Instants
at_twelve = record { test_at = pos 12; call_at = pos 12; stamp_at = pos 12 }

write_sections-once_example : write_sections (at_ten ∷ at_twelve ∷ []) empty_cache ≡ (
  refreshed at_ten empty_cache inner_result,
  all_return (returned (some inner_result)) (at_ten ∷ at_twelve ∷ []),
  1,
)
unfolding is_fresh ◌+ℤ◌
write_sections-once_example =
    write_sections-once at_ten (at_twelve ∷ []) empty_cache inner_result refl refl (omega arith, tt)

abbrev callers : List Caller
callers =
    record { now = pos 10; instants = at_ten; phase = entering }
    ∷ record { now = pos 10; instants = at_twelve; phase = entering }
    ∷ []

-- Both look before either refreshes.
move_all-IsAnswered_example :
    All
      (IsAnswered (steady inner_result) (pos 5) (IsOf callers))
      (move_all (0 ∷ 1 ∷ 1 ∷ 0 ∷ []) callers (with_cache (steady inner_result) (pos 5))).1
move_all-IsAnswered_example =
    move_all-IsAnswered (steady inner_result) (pos 5) (0 ∷ 1 ∷ 1 ∷ 0 ∷ []) callers
      (refl, (refl, tt))
