-- ===== src/Options.antt =====
-- checker.go: the options of a registered check, and the checkers themselves.
use health.Base.{Bool, false, List, Option, String, true, ℕ, [], ◌++◌, ◌==◌}
use health.Base.Int.{pos, ℤ}
use health.Check.{CheckResult}
use Prim.Native.Nat.{bit_and}

-- What one call of `Check` does: it returns a result, which may be nil, or it panics.
pub data Outcome : Type 0 where
  returned : Option CheckResult → Outcome
  panicked : String → Outcome

-- A checker, as what a call at each instant would do. The service that it asks is outside.
abbrev pub Checker : Type 0
Checker = ℤ → Outcome

pub record AddCheckOptions : Type 0 where
  pub frequency : ℕ
  pub delay : ℤ
  pub interval : ℤ
  pub affects_liveness : Bool
  pub affects_readiness : Bool
  pub affects_startup : Bool
  pub group : String
  pub component_type : String
  pub depends_on : List String

-- The zero value of the struct.
abbrev pub no_options : AddCheckOptions
no_options = record {
  frequency = 0;
  delay = pos 0;
  interval = pos 0;
  affects_liveness = false;
  affects_readiness = false;
  affects_startup = false;
  group = "";
  component_type = "";
  depends_on = [];
}

abbrev pub AddCheckOption : Type 0
AddCheckOption = AddCheckOptions → AddCheckOptions

-- The flags of `CheckFrequency`.
abbrev pub check_once : ℕ
check_once = 1

abbrev pub check_at_interval : ℕ
check_at_interval = 2

abbrev pub check_after : ℕ
check_after = 4

-- `f & flag == flag`.
unfoldable pub has_flag : ℕ → ℕ → Bool
has_flag f flag = bit_and f flag == flag

unfoldable pub with_check_frequency : ℕ → ℤ → ℤ → AddCheckOption
with_check_frequency f interval delay o = record o {
  frequency = f;
  interval = interval;
  delay = delay;
}

unfoldable pub with_liveness_impact : AddCheckOption
with_liveness_impact o = record o { affects_liveness = true }

unfoldable pub with_readiness_impact : AddCheckOption
with_readiness_impact o = record o { affects_readiness = true }

unfoldable pub with_startup_impact : AddCheckOption
with_startup_impact o = record o { affects_startup = true }

unfoldable pub with_group : String → AddCheckOption
with_group group o = record o { group = group }

unfoldable pub with_component_type : String → AddCheckOption
with_component_type ct o = record o { component_type = ct }

unfoldable pub with_depends_on : List String → AddCheckOption
with_depends_on deps o = record o { depends_on = o.depends_on ++ deps }
