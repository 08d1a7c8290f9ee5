-- ===== src/Checkers/Db.antt =====
-- checker/db/check.go: the checker, its option and its constructor.
use health.Base.{apply_all, String, Option, List}
use health.Base.Int.{ℤ, pos}
use health.Check.{CheckResult}
use health.Checkers.{db_check}
use health.Errors.{Error}

-- What `PingContext` returns within a time limit. A nil pinger is `none`.
abbrev pub CtxPinger : Type 0
CtxPinger = ℤ → Option Error

pub record DbChecker : Type 0 where
  pub name : String
  pub pinger : Option CtxPinger
  pub timeout : ℤ

abbrev pub default_ping_timeout : ℤ
default_ping_timeout = pos 3000000000

abbrev pub DbOption : Type 0
DbOption = DbChecker → DbChecker

unfoldable pub with_timeout : ℤ → DbOption
with_timeout timeout c = record c { timeout = timeout }

unfoldable pub new_checker : String → Option CtxPinger → List DbOption → DbChecker
new_checker name pinger opts =
    apply_all opts (record { name = name; pinger = pinger; timeout = default_ping_timeout })

-- `ctx` is the error of the context, if any; `now`, `start` and `end_at` are instants.
unfoldable pub check : DbChecker → Option Error → ℤ → ℤ → ℤ → CheckResult
check c ctx now start end_at =
    db_check c.name ctx (mathlib.Core.Option.map (λ ping. ping c.timeout) c.pinger) now start end_at
