-- ===== src/Checkers/Redis.antt =====
-- checker/redis/checker.go: AUTH and PING over a connection. The connection is outside: what a
-- write and the reading of a line do to it, and give, is a parameter. So are Go's `len` of a text,
-- in bytes, and the decimal text of a number (%d). Deadlines are part of what the connection gives.
pub mod Exchange
pub mod Setup
use text.Mathlib.Text.{starts_with}
use health.Base.{
  String, Option, ℕ, ◌⊎◌, some, if◌then◌else◌, inr, ltb, none, not, inl, ◌||◌, ◌=?◌, string_eq,
}
use health.Checkers.{result_at}
use health.Errors.{Error, concat, wrapped, error_text, also, end}
use health.Base.Int.{ℤ, ◌-ℤ◌}
use health.Check.{CheckResult, unhealthy, healthy}

pub record Conn (S : Type 0) : Type 0 where
  pub write : String → S → S × Option Error
  -- `reader.ReadString('\n')`.
  pub read_line : S → S × (Error ⊎ String)

pub record Texts : Type 0 where
  pub len : String → ℕ
  pub decimal : ℕ → String

unfoldable pub auth_command : Texts → String → String
auth_command texts password =
    concat "*2\r\n$4\r\nAUTH\r\n$"
      (concat (texts.decimal (texts.len password)) (concat "\r\n" (concat password "\r\n")))

abbrev pub ping_command : String
ping_command = "*1\r\n$4\r\nPING\r\n"

-- `if err != nil { return fmt.Errorf(…) }` after a write, and after a read.
pub after_write :
    {S : Type 0} → String → (S → S × Option Error) → S × Option Error → S × Option Error
after_write what k (s, none) = k s
after_write what k (s, some e) = (s, some (wrapped (concat what (error_text e)) (also e end)))

pub after_read :
    {S : Type 0} → String → (String → Option Error) → S × (Error ⊎ String) → S × Option Error
after_read what test (s, inr line) = (s, test line)
after_read what test (s, inl e) = (s, some (wrapped (concat what (error_text e)) (also e end)))

unfoldable pub auth_reply : Texts → String → Option Error
auth_reply texts line =
    if ltb (texts.len line) 3 || not (starts_with line "+")
    then some (wrapped (concat "AUTH failed: " line) end)
    else none

unfoldable pub ping_reply : Texts → String → Option Error
ping_reply texts line =
    if ltb (texts.len line) 5 || not (starts_with line "+PONG")
    then some (wrapped (concat "unexpected PING response: " line) end)
    else none

module _ {S : Type 0} (texts : Texts) (conn : Conn S) where
  -- The common course of `authenticate` and `ping`.
  unfoldable pub request : String → String → String → (String → Option Error) → S → S × Option Error
  unfolding after_write after_read
  request writing reading command test s =
      after_write writing (λ s1. after_read reading test (conn.read_line s1)) (conn.write command s)

  unfoldable pub authenticate : String → S → S × Option Error
  unfolding request
  authenticate password s =
      request "write AUTH: " "read AUTH response: " (auth_command texts password) (auth_reply texts)
        s

  unfoldable pub ping : S → S × Option Error
  unfolding request
  ping s = request "write PING: " "read PING response: " ping_command (ping_reply texts) s

  -- The part after the dial: an error ends it.
  pub then_ping : S × Option Error → Option Error
  unfolding ping
  then_ping (s, some e) = some e
  then_ping (s, none) = (ping s).1

  unfoldable pub exchange : String → S → Option Error
  unfolding then_ping authenticate
  exchange password s =
      if not (password =? "") then then_ping (authenticate password s) else (ping s).1

unfoldable pub unhealthy_result : String → ℤ → ℤ → Error → CheckResult
unfolding result_at
unhealthy_result name start now err =
    record (result_at name unhealthy (some err) (now -ℤ start) start) { error_since = start }

exchange_result : String → ℤ → ℤ → Option Error → CheckResult
unfolding unhealthy_result result_at
exchange_result name start now none = result_at name healthy none (now -ℤ start) start
exchange_result name start now (some e) = unhealthy_result name start now e

-- `dial` is the connection, or the error of the dial; `start` and `now` are the instants at which
-- the clock is read.
unfoldable pub redis_check :
    {S : Type 0} → Texts → Conn S → String → String → String → Error ⊎ S → ℤ → ℤ → CheckResult
unfolding exchange_result
redis_check texts conn name addr password (inl e) start now =
    unhealthy_result name start now
      (wrapped (concat "dial " (concat addr (concat ": " (error_text e)))) (also e end))
redis_check texts conn name addr password (inr s) start now =
    exchange_result name start now (exchange texts conn password s)
