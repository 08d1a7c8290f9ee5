-- ===== src/Checkers/Tcp.antt =====
-- checker/tcp/checker.go: the checker, its option and its constructor. `dial` is the network.
use health.Base.{apply_all, String, Option, List}
use health.Base.Int.{ℤ, pos}
use health.Check.{CheckResult}
use health.Checkers.{tcp_check}
use health.Errors.{Error}

pub record TcpChecker : Type 0 where
  pub name : String
  pub addr : String
  pub timeout : ℤ

abbrev pub default_timeout : ℤ
default_timeout = pos 5000000000

abbrev pub TcpOption : Type 0
TcpOption = TcpChecker → TcpChecker

unfoldable pub with_timeout : ℤ → TcpOption
with_timeout d c = record c { timeout = d }

unfoldable pub new_checker : String → String → List TcpOption → TcpChecker
new_checker name addr opts =
    apply_all opts (record { name = name; addr = addr; timeout = default_timeout })

unfoldable pub check : (ℤ → String → Option Error) → TcpChecker → ℤ → ℤ → CheckResult
check dial c start now = tcp_check c.name c.addr (dial c.timeout c.addr) start now
