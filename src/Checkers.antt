-- ===== src/Checkers.antt =====
-- checker/command, checker/tcp, checker/dns, checker/http and checker/db: each asks one thing of
-- the outside world and turns the answer into a result. The answer is an argument, as are the
-- instants at which the clock is read. Timeouts are part of the answer.
pub mod Reports
pub mod Redis
pub mod Http
pub mod Dns
pub mod Tcp
pub mod Db
pub mod Setup
use health.Base.{Option, String, ℕ, List, false, some, [], none, ◌∷◌, if◌then◌else◌, ◌==◌}
use health.Errors.{Error, wrapped, sentinel, concat, end, error_text, also}
use health.Check.{Status, CheckResult, unhealthy, healthy}
use health.Base.Int.{ℤ, pos, ◌-ℤ◌}
use health.SyncMap.{made, nil}

-- How a function of the application ends.
pub data Call : Type 0 where
  finished : Option Error → Call
  call_panicked : String → Call

-- The fields that every result of these checkers has; the others have their zero values.
unfoldable pub result_at : String → Status → Option Error → ℤ → ℤ → CheckResult
result_at name status err duration start = record {
  name = name;
  status = status;
  affects_liveness = false;
  affects_readiness = false;
  affects_startup = false;
  group = "";
  component_type = "";
  depends_on = [];
  error = err;
  error_since = pos 0;
  duration = duration;
  metadata = nil;
  timestamp = start;
}

unfoldable pub command_check : String → Call → ℤ → ℤ → CheckResult
unfolding result_at
command_check name (call_panicked r) start now =
    result_at name unhealthy (some (wrapped (concat "checker panicked: " r) end)) (now -ℤ start)
      start
command_check name (finished (some e)) start now =
    result_at name unhealthy (some e) (now -ℤ start) start
command_check name (finished none) start now = result_at name healthy none (now -ℤ start) start

-- `dial` is the error of the dial, if any.
unfoldable pub tcp_check : String → String → Option Error → ℤ → ℤ → CheckResult
unfolding result_at
tcp_check name addr (some e) start now =
    result_at name unhealthy
      (some (wrapped (concat "dial " (concat addr (concat ": " (error_text e)))) (also e end)))
      (now -ℤ start) start
tcp_check name addr none start now = result_at name healthy none (now -ℤ start) start

-- What a lookup gives: an error, or addresses.
pub data Lookup : Type 0 where
  lookup_failed : Error → Lookup
  found : List String → Lookup

unfoldable pub dns_check : String → String → Lookup → ℤ → ℤ → CheckResult
unfolding result_at
dns_check name hostname (lookup_failed e) start now =
    result_at name unhealthy
      (some
        (wrapped (concat "lookup " (concat hostname (concat ": " (error_text e)))) (also e end)))
      (now -ℤ start) start
dns_check name hostname (found []) start now =
    result_at name unhealthy
      (some (wrapped (concat "lookup " (concat hostname ": no addresses returned")) end))
      (now -ℤ start) start
dns_check name hostname (found (a ∷ addrs)) start now =
    record (result_at name healthy none (now -ℤ start) start) {
      metadata = made (("resolved", a) ∷ []);
    }

-- What a request gives: no request could be made, it failed, or a status code.
pub data Response : Type 0 where
  not_created : Error → Response
  request_failed : Error → Response
  answered : ℕ → Response

-- `print` prints a number, as %d does.
unfoldable pub http_check : (ℕ → String) → String → ℕ → Response → ℤ → ℤ → CheckResult
unfolding result_at
http_check print name expected (not_created e) start now =
    result_at name unhealthy
      (some (wrapped (concat "create request: " (error_text e)) (also e end))) (now -ℤ start) start
http_check print name expected (request_failed e) start now =
    result_at name unhealthy
      (some (wrapped (concat "request failed: " (error_text e)) (also e end))) (now -ℤ start) start
http_check print name expected (answered code) start now =
    if code == expected
    then result_at name healthy none (now -ℤ start) start
    else result_at name unhealthy
        (some (
          wrapped
            (concat "expected status " (concat (print expected) (concat ", got " (print code))))
            end))
        (now -ℤ start) start

-- What the database checker adds to a failure.
unfoldable pub db_failure : String → Error → ℤ → ℤ → CheckResult
unfolding result_at
db_failure name e duration now = record (result_at name unhealthy (some e) duration now) {
  error_since = now;
  metadata = made (("origin", "github.com/schigh/health/v2/checker/db.Checker.Check") ∷ []);
}

ping_result : String → Option Error → ℤ → ℤ → CheckResult
unfolding db_failure
ping_result name none duration now = result_at name healthy none duration now
ping_result name (some e) duration now = db_failure name e duration now

-- `ctx` is the context; `pinger` is nil, or what its ping returns; `start` and `end_at` are the
-- instants around the ping.
unfoldable pub db_check : String → Option Error → Option (Option Error) → ℤ → ℤ → ℤ → CheckResult
unfolding ping_result
db_check name (some ctx_err) pinger now start end_at =
    db_failure name (sentinel "invalid context") (pos 0) now
db_check name none none now start end_at = db_failure name (sentinel "invalid pinger") (pos 0) now
db_check name none (some ping) now start end_at = ping_result name ping (end_at -ℤ start) now
