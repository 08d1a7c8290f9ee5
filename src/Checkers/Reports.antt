-- ===== src/Checkers/Reports.antt =====
-- What every result of the checkers has in common.
use health.Base.{
  String, ℕ, Option, Bool, false, is_none, ◌≡◌, some, if◌then◌else◌, ◌∷◌, ◌&&◌, true, ◌==◌, none,
  arith, [], is_some, not, refl,
}
use health.Checkers.{
  Call, Lookup, command_check, tcp_check, dns_check, http_check, db_check, Response, result_at,
  db_failure, call_panicked, lookup_failed, not_created, finished, found, request_failed, answered,
}
use health.Base.Int.{ℤ, ◌-ℤ◌, pos}
use health.Errors.{Error, sentinel}
use health.Check.{CheckResult, healthy, unhealthy}

-- A result under this name, from this instant, that is healthy without an error if `ok` holds, and
-- else unhealthy with one.
pub record IsReport (name : String) (start : ℤ) (ok : Bool) (hc : CheckResult) : Type 0 where
  pub named : hc.name ≡ name
  pub at_start : hc.timestamp ≡ start
  pub judged : hc.status ≡ (if ok then healthy else unhealthy)
  pub explained : is_some hc.error ≡ not ok

abbrev pub call_ok : Call → Bool
call_ok (call_panicked r) = false
call_ok (finished e) = is_none e

abbrev pub lookup_ok : Lookup → Bool
lookup_ok (lookup_failed e) = false
lookup_ok (found []) = false
lookup_ok (found (a ∷ addrs)) = true

abbrev pub response_ok : ℕ → Response → Bool
response_ok expected (not_created e) = false
response_ok expected (request_failed e) = false
response_ok expected (answered code) = code == expected

abbrev pub db_ok : Option Error → Option (Option Error) → Bool
db_ok ctx none = false
db_ok ctx (some ping) = is_none ctx && is_none ping

pub passing-IsReport :
    (name : String) (duration start : ℤ)
    → IsReport name start true (result_at name healthy none duration start)
unfolding result_at
passing-IsReport name duration start = record {
  named = refl;
  at_start = refl;
  judged = refl;
  explained = refl;
}

failing-IsReport :
    (name : String) (e : Error) (duration start : ℤ)
    → IsReport name start false (result_at name unhealthy (some e) duration start)
unfolding result_at
failing-IsReport name e duration start = record {
  named = refl;
  at_start = refl;
  judged = refl;
  explained = refl;
}

db_failure-IsReport :
    (name : String) (e : Error) (duration now : ℤ)
    → IsReport name now false (db_failure name e duration now)
unfolding db_failure result_at
db_failure-IsReport name e duration now = record {
  named = refl;
  at_start = refl;
  judged = refl;
  explained = refl;
}

command_check-IsReport :
    (name : String) (c : Call) (start now : ℤ)
    → IsReport name start (call_ok c) (command_check name c start now)
unfolding command_check
command_check-IsReport name (call_panicked r) start now =
    failing-IsReport name _ (now -ℤ start) start
command_check-IsReport name (finished none) start now = passing-IsReport name (now -ℤ start) start
command_check-IsReport name (finished (some e)) start now =
    failing-IsReport name _ (now -ℤ start) start

tcp_check-IsReport :
    (name addr : String) (dial : Option Error) (start now : ℤ)
    → IsReport name start (is_none dial) (tcp_check name addr dial start now)
unfolding tcp_check
tcp_check-IsReport name addr none start now = passing-IsReport name (now -ℤ start) start
tcp_check-IsReport name addr (some e) start now = failing-IsReport name _ (now -ℤ start) start

dns_check-IsReport :
    (name hostname : String) (l : Lookup) (start now : ℤ)
    → IsReport name start (lookup_ok l) (dns_check name hostname l start now)
unfolding dns_check result_at
dns_check-IsReport name hostname (lookup_failed e) start now =
    failing-IsReport name _ (now -ℤ start) start
dns_check-IsReport name hostname (found []) start now = failing-IsReport name _ (now -ℤ start) start
dns_check-IsReport name hostname (found (a ∷ addrs)) start now = record {
  named = refl;
  at_start = refl;
  judged = refl;
  explained = refl;
}

http_check-IsReport :
    (print : ℕ → String) (name : String) (expected : ℕ) (r : Response) (start now : ℤ)
    → IsReport name start (response_ok expected r) (http_check print name expected r start now)
unfolding http_check result_at
http_check-IsReport print name expected (not_created e) start now =
    failing-IsReport name _ (now -ℤ start) start
http_check-IsReport print name expected (request_failed e) start now =
    failing-IsReport name _ (now -ℤ start) start
http_check-IsReport print name expected (answered code) start now = record {
  named = ground arith;
  at_start = ground arith;
  judged = ground arith;
  explained = ground arith;
}

db_check-IsReport :
    (name : String) (ctx : Option Error) (pinger : Option (Option Error)) (now start end_at : ℤ)
    → IsReport name now (db_ok ctx pinger) (db_check name ctx pinger now start end_at)
unfolding db_check
db_check-IsReport name none none now start end_at =
    db_failure-IsReport name (sentinel "invalid pinger") (pos 0) now
db_check-IsReport name (some e) none now start end_at =
    db_failure-IsReport name (sentinel "invalid context") (pos 0) now
db_check-IsReport name (some e) (some ping) now start end_at =
    db_failure-IsReport name (sentinel "invalid context") (pos 0) now
db_check-IsReport name none (some none) now start end_at =
    passing-IsReport name (end_at -ℤ start) now
db_check-IsReport name none (some (some e)) now start end_at =
    db_failure-IsReport name e (end_at -ℤ start) now

-- Whatever the outside world answers, a panic of the command included, every checker gives a result
-- under its own name from the instant of its start: healthy without an error exactly where the
-- command, the dial, the ping of a live context's pinger, the lookup with an address, or the answer
-- with the expected code succeeded, and else unhealthy with an error.
pub checks_IsReport :
    (name addr : String) (c : Call) (dial : Option Error) (l : Lookup) (print : ℕ → String)
    (expected : ℕ) (r : Response) (ctx : Option Error) (pinger : Option (Option Error))
    (start now end_at : ℤ)
    → IsReport name start (call_ok c) (command_check name c start now)
      × IsReport name start (is_none dial) (tcp_check name addr dial start now)
      × IsReport name start (lookup_ok l) (dns_check name addr l start now)
      × IsReport name start (response_ok expected r) (http_check print name expected r start now)
      × IsReport name start (db_ok ctx pinger) (db_check name ctx pinger start now end_at)
checks_IsReport name addr c dial l print expected r ctx pinger start now end_at = (
  command_check-IsReport name c start now,
  tcp_check-IsReport name addr dial start now,
  dns_check-IsReport name addr l start now,
  http_check-IsReport print name expected r start now,
  db_check-IsReport name ctx pinger start now end_at,
)
