-- ===== src/Programs/Checks.antt =====
-- What a report that is not unhealthy says of the world, for the checkers that the programs use.
use health.Base.{
  arith, Bool, ℕ, false, inl, inr, List, none, Option, refl, some, String, true, ◌≡◌, ◌==◌, sym,
  ◌∙◌, ap, Bool-cases, apply_all,
}
use health.Base.Int.{ℤ}
use health.Check.{CheckResult, is_unhealthy}
use health.Checkers.{answered, http_check, Response, tcp_check, not_created, request_failed}
use health.Checkers.Http
use health.Checkers.Http.{client_or_new, check_with, HttpChecker, HttpOption, default_checker}
use health.Checkers.Redis.Exchange.{redis_check-healthy_iff, Serves}
use health.Checkers.Redis.Setup as Redis
use health.Checkers.Redis.Setup.{RedisOption}
use health.Checkers.Reports.{IsReport}
use health.Checkers.Setup.{has_client}
use health.Checkers.Tcp
use health.Checkers.Tcp.{TcpOption}
use health.Errors.{Error}
use health.Manager.State.{Wrapper}
use health.Manager.Workers.{apply_check_options, run_check, safe_check}
use health.Options.{Outcome, returned}
use health.Programs.{http_checker, redis_checker, tcp_checker, web_at, World}

-- A report has the status of what its check returned.
status-run_check :
    (name : String) (w : Wrapper) (now : ℤ) (r hc : CheckResult)
    → w.checker now ≡ returned (some r)
    → run_check name w now ≡ some hc
    → is_unhealthy hc.status ≡ is_unhealthy r.status
unfolding run_check safe_check apply_check_options
status-run_check name w now r hc e p = ground arith

tcp_check-healthy :
    (name addr : String) (o : Option Error) (start now : ℤ)
    → is_unhealthy (tcp_check name addr o start now).status ≡ false
    → o ≡ none
unfolding tcp_check
tcp_check-healthy name addr none start now h = refl
tcp_check-healthy name addr (some e) start now h = absurd (cc)

http_check-healthy :
    (print : ℕ → String) (name : String) (expected : ℕ) (r : Response) (start now : ℤ)
    → is_unhealthy (http_check print name expected r start now).status ≡ false
    → r ≡ answered expected
unfolding http_check
http_check-healthy print name expected (not_created e) start now h = absurd (cc)
http_check-healthy print name expected (request_failed e) start now h = absurd (cc)
http_check-healthy print name expected (answered code) start now h =
    elim (Bool-cases (code == expected)) [
      | inl same ↦ ap answered (ground arith)
      | inr other ↦ absurd (cc (rw other at h))
    ]

judged_healthy :
    (name : String) (start : ℤ) (ok : Bool) (hc : CheckResult)
    → IsReport name start ok hc
    → is_unhealthy hc.status ≡ false
    → ok ≡ true
judged_healthy name start true hc r h = refl
judged_healthy name start false hc r h = absurd (cc (ap is_unhealthy r.judged))

module _ {C V S : Type 0} (world : World C V S) (key : String) (w : Wrapper) (now : ℤ)
    (hc : CheckResult) (ran : run_check key w now ≡ some hc)
    (well : is_unhealthy hc.status ≡ false) where
  -- A TCP check: the dial gave no error.
  pub tcp_up :
      (name addr : String) (opts : List TcpOption)
      → w.checker ≡ tcp_checker world name addr opts
      → let c = Tcp.new_checker name addr opts in world.dial now c.timeout c.addr ≡ none
  unfolding tcp_checker Tcp.check
  tcp_up name addr opts e =
      let c = Tcp.new_checker name addr opts in
      let d = world.dial now c.timeout c.addr in
      let r = tcp_check c.name c.addr d now (world.end_of now) in
      tcp_check-healthy c.name c.addr d now (world.end_of now)
        (sym (status-run_check key w now r hc (ap (λ (f : ℤ → Outcome). f now) e) ran) ∙ well)

  -- A Redis check: the dial gave a connection over which the server accepted AUTH, if there is a
  -- password, and answered PING.
  pub redis_up :
      (name addr : String) (opts : List RedisOption)
      → w.checker ≡ redis_checker world name addr opts
      → let c = Redis.new_checker name addr opts in
        (s : S) × (world.dial_redis now c.timeout c.addr ≡ inr s)
        × Serves world.texts world.conn c.password s
  unfolding redis_checker Redis.check
  redis_up name addr opts e =
      let c = Redis.new_checker name addr opts in
      let d = world.dial_redis now c.timeout c.addr in
      let (ok, r, iff) =
        redis_check-healthy_iff world.texts world.conn c.name c.addr c.password d now
          (world.end_of now) in
      iff.0 (
        judged_healthy c.name now ok _ r
          (sym (status-run_check key w now _ hc (ap (λ (f : ℤ → Outcome). f now) e) ran) ∙ well))

  -- An HTTP check: the request with the checker's client was answered with the expected code.
  pub http_up :
      (name url : String) (opts : List (HttpOption C))
      → w.checker ≡ http_checker world name url opts
      → let c = Http.new_checker (web_at world now) name url opts in
        (client : C) × (c.client ≡ some client)
        × (world.ask now client c.timeout c.method c.url ≡ answered c.expected_status)
  unfolding http_checker Http.check check_with Http.new_checker
  http_up name url opts e =
      let web = web_at world now in
      let c = Http.new_checker web name url opts in
      let a = apply_all opts (default_checker name url) in
      let (client, ce) = has_client web a.client a.timeout in
      let answer = world.ask now client c.timeout c.method c.url in
      let r = http_check world.decimal c.name c.expected_status answer now (world.end_of now) in
      let checks : w.checker now ≡ returned (some r) =
        ap (λ (f : ℤ → Outcome). f now) e
        ∙ ap (λ (o : Option C). check_with web o c now (world.end_of now)) ce in
      (
        client,
        ce,
        http_check-healthy world.decimal c.name c.expected_status answer now (world.end_of now)
            (sym (status-run_check key w now r hc checks ran) ∙ well),
      )
