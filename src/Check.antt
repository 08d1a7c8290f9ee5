-- ===== src/Check.antt =====
-- check.go: the status of a check and its result. Go's `time.Time` and `time.Duration` are integers
-- of nanoseconds, an instant counted from the zero time.
use health.Base.{Bool, List, Option, String}
use health.Base.Int.{ℤ}
use health.SyncMap.{GoMap}
use health.Errors.{Error}

-- The three constants, and any other value of the underlying int.
pub data Status : Type 0 where
  healthy : Status
  degraded : Status
  unhealthy : Status
  other : ℤ → Status

unfoldable pub status_text : Status → String
status_text healthy = "healthy"
status_text degraded = "degraded"
status_text unhealthy = "unhealthy"
status_text (other _) = "unknown"

pub record CheckResult : Type 0 where
  pub name : String
  pub status : Status
  pub affects_liveness : Bool
  pub affects_readiness : Bool
  pub affects_startup : Bool
  pub group : String
  pub component_type : String
  pub depends_on : List String
  pub error : Option Error
  pub error_since : ℤ
  pub duration : ℤ
  pub metadata : GoMap String String
  pub timestamp : ℤ

abbrev pub is_unhealthy : Status → Bool
is_unhealthy unhealthy = Bool.true
is_unhealthy _ = Bool.false
