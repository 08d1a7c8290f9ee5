-- ===== src/Examples/Checkers.antt =====
-- The checkers at concrete answers.
use health.Base.{
  ℕ, String, if◌then◌else◌, false, ◌==◌, some, true, ◌∷◌, [], none, ◌⊎◌, Bool, inr, ◌=?◌, ◌≡◌, ◌↔◌,
  string_eq, Option,
}
use health.Errors.{Error, sentinel}
use health.Checkers.Reports.{IsReport, db_ok}
use health.Base.Int.{pos, ℤ}
use health.Checkers.{
  command_check, call_panicked, tcp_check, dns_check, Lookup, http_check, answered, db_check,
}
use health.Checkers.Redis.{Conn, Texts, redis_check, ping_command}
use health.Checkers.Redis.Exchange.{Serves, redis_check-healthy_iff}
use health.Checkers.Http.{Web}
use health.Checkers.Dns.{Names, DnsChecker}
use health.Checkers.Tcp.{TcpChecker}
use health.Checkers.Db.{DbChecker}
use health.Checkers.Setup.{GivesReport, new_checkers-IsReport}

abbrev code_text : ℕ → String
code_text n = if n == 503 then "503" else "200"

abbrev refused : Error
refused = sentinel "connection refused"

abbrev web : Web Unit
web = record { client_of = λ d. tt; ask = λ c d method url. answered 503; decimal = code_text }

abbrev names : Names Unit
names = record { default_resolver = tt; lookup_host = λ r d host. Lookup.found ("10.0.0.1" ∷ []) }

abbrev refuse : ℤ → String → Option Error
refuse d addr = some refused

abbrev tcp_checker : TcpChecker
tcp_checker = health.Checkers.Tcp.new_checker "db" "db:5432" []

abbrev dns_checker : DnsChecker Unit
dns_checker = health.Checkers.Dns.new_checker names "db" "db" []

abbrev db_checker : DbChecker
db_checker = health.Checkers.Db.new_checker "db" (some (λ d. none)) []

new_checkers-IsReport_example :
    IsReport "db" (pos 5) false (command_check "db" (call_panicked "boom") (pos 5) (pos 7))
    × IsReport tcp_checker.name
        (pos 5)
        false
        (health.Checkers.Tcp.check refuse tcp_checker (pos 5) (pos 7))
    × IsReport dns_checker.name
        (pos 5)
        true
        (health.Checkers.Dns.check names dns_checker (pos 5) (pos 7))
    × IsReport db_checker.name
        (pos 5)
        (db_ok none (mathlib.Core.Option.map (λ ping. ping db_checker.timeout) db_checker.pinger))
        (health.Checkers.Db.check db_checker none (pos 5) (pos 7) (pos 9))
    × ((client : Unit) × GivesReport web
          (health.Checkers.Http.new_checker web "db" "http://db" [])
          client
          (pos 5)
          (pos 7))
new_checkers-IsReport_example =
    new_checkers-IsReport web names refuse (call_panicked "boom") tcp_checker dns_checker db_checker
      "db" "http://db" [] none (pos 5) (pos 7) (pos 9)

-- A server that accepts every password and answers PING; a connection is what was written last.
abbrev redis_conn : Conn String
redis_conn = record {
  write = λ text s. (text, none);
  read_line = λ s. (s, inr (if s =? ping_command then "+PONG\r\n" else "+OK\r\n"));
}

abbrev ascii : Texts
ascii = record { len = Prim.Native.String.len; decimal = λ n. "6" }

abbrev the_dial : Error ⊎ String
the_dial = inr ""

redis_check-healthy_iff_example :
    (ok : Bool) × IsReport "cache"
      (pos 5)
      ok
      (redis_check ascii redis_conn "cache" "cache:6379" "secret" the_dial (pos 5) (pos 7))
    × ((ok ≡ true) ↔ ((s : String) × (the_dial ≡ inr s) × Serves ascii redis_conn "secret" s))
redis_check-healthy_iff_example =
    redis_check-healthy_iff ascii redis_conn "cache" "cache:6379" "secret" the_dial (pos 5) (pos 7)
