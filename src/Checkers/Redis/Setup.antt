-- ===== src/Checkers/Redis/Setup.antt =====
-- The Redis checker, its options and its constructor.
use health.Base.{apply_all, String, List, ◌⊎◌}
use health.Base.Int.{ℤ, pos}
use health.Check.{CheckResult}
use health.Checkers.Redis.{Conn, redis_check, Texts}
use health.Errors.{Error}

pub record RedisChecker : Type 0 where
  pub name : String
  pub addr : String
  pub timeout : ℤ
  pub password : String

abbrev pub default_timeout : ℤ
default_timeout = pos 5000000000

abbrev pub RedisOption : Type 0
RedisOption = RedisChecker → RedisChecker

unfoldable pub with_timeout : ℤ → RedisOption
with_timeout d c = record c { timeout = d }

unfoldable pub with_password : String → RedisOption
with_password password c = record c { password = password }

unfoldable pub new_checker : String → String → List RedisOption → RedisChecker
new_checker name addr opts =
    apply_all opts (record { name = name; addr = addr; timeout = default_timeout; password = "" })

-- `dial` gives a connection with its deadline, within the time limit.
unfoldable pub check :
    {S : Type 0} → Texts → Conn S → (ℤ → String → Error ⊎ S) → RedisChecker → ℤ → ℤ → CheckResult
check texts conn dial c start now =
    redis_check texts conn c.name c.addr c.password (dial c.timeout c.addr) start now
