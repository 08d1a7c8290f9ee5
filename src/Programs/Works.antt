-- ===== src/Programs/Works.antt =====
-- In a world that answers, each check of the services gives a good report.
use health.Base.{
  arith, ap, Bool, List, none, refl, some, String, string_eq, true, false, ◌≡◌, ◌∷◌, [], ◌∙◌,
}
use health.Base.Int.{ℤ}
use health.Check.{CheckResult, is_unhealthy}
use health.Checkers.{answered, dns_check, found, Lookup, http_check, tcp_check}
use health.Checkers.Dns
use health.Checkers.Http
use health.Checkers.Http.{check_with, client_or_new}
use health.Checkers.Redis.{redis_check}
use health.Checkers.Redis.Exchange.{redis_check-healthy_iff}
use health.Checkers.Redis.Setup as Redis
use health.Checkers.Reports.{IsReport}
use health.Checkers.Tcp
use health.Manager.State.{Wrapper}
use health.Manager.Workers.{apply_check_options, run_check, safe_check}
use health.Options.{Checker, returned}
use health.Programs.{dns_checker, http_checker, redis_checker, tcp_checker, World}
use health.Programs.Ready.{
  PostgresDialled, ReadyzAnswered, RedisAnswered, postgres_checker, readyz_checker,
}
use health.Programs.Services.{seconds}
use health.System.Rounds.{IsWell}

-- A check that gives a result that is not unhealthy gives such a report.
check-IsWell :
    (key : String) (w : Wrapper) (now : ℤ) (r : CheckResult)
    → w.checker now ≡ returned (some r)
    → is_unhealthy r.status ≡ false
    → IsWell key w
unfolding run_check safe_check apply_check_options
check-IsWell key w now r e h = record {
  at = now;
  result = apply_check_options r key w.opts;
  gives = ground arith;
  well = h;
}

healthy_judged :
    (name : String) (start : ℤ) (ok : Bool) (hc : CheckResult)
    → IsReport name start ok hc
    → ok ≡ true
    → is_unhealthy hc.status ≡ false
healthy_judged name start true hc r h = ap is_unhealthy r.judged
healthy_judged name start false hc r h = absurd (cc)

-- Postgres, Redis, the readiness routes of the payments and the orders service, and the name of the
-- cluster each answered, at some instant.
pub record Works {C V S : Type 0} (world : World C V S) : Type 0 where
  pub postgres : PostgresDialled world
  pub redis : RedisAnswered world
  pub payments_api : ReadyzAnswered world "http://payments-svc:8183/readyz"
  pub orders_api : ReadyzAnswered world "http://orders-svc:8182/readyz"
  pub dns_at : ℤ
  pub address : String
  pub addresses : List String
  pub resolved :
      (world.names dns_at).lookup_host
        (some (world.names dns_at).default_resolver)
        (seconds 2)
        "kubernetes.default.svc"
      ≡ found (address ∷ addresses)

module _ {C V S : Type 0} (world : World C V S) (works : Works world) (key : String)
    (w : Wrapper) where
  pub postgres-IsWell : w.checker ≡ postgres_checker world → IsWell key w
  unfolding tcp_checker Tcp.check Tcp.new_checker Tcp.with_timeout tcp_check
  postgres-IsWell e =
      let (now, up) = works.postgres in
      check-IsWell key w now (tcp_check "postgres" "postgres:5432" none now (world.end_of now))
        (ap (λ (f : Checker). f now) e
          ∙ ap
              (λ o. returned (some (tcp_check "postgres" "postgres:5432" o now (world.end_of now))))
              up)
        refl

  pub readyz-IsWell :
      (name url : String)
      → ReadyzAnswered world url
      → w.checker ≡ readyz_checker world name url
      → IsWell key w
  unfolding http_checker Http.check check_with Http.new_checker Http.with_timeout client_or_new
      http_check
  readyz-IsWell name url (now, up) e =
      check-IsWell key w now
        (http_check world.decimal name 200 (answered 200) now (world.end_of now))
        (ap (λ (f : Checker). f now) e
          ∙ ap (λ a. returned (some (http_check world.decimal name 200 a now (world.end_of now))))
              up)
        refl

  pub dns-IsWell :
      w.checker
        ≡ dns_checker world "cluster-dns" "kubernetes.default.svc"
            (Dns.with_timeout (seconds 2) ∷ [])
      → IsWell key w
  unfolding dns_checker Dns.check Dns.new_checker Dns.with_timeout dns_check
  dns-IsWell e =
      let now = works.dns_at in
      let answer =
        λ (a : Lookup). dns_check "cluster-dns" "kubernetes.default.svc" a now (world.end_of now) in
      check-IsWell key w now (answer (found (works.address ∷ works.addresses)))
        (ap (λ (f : Checker). f now) e ∙ ap (λ a. returned (some (answer a))) works.resolved) refl

  pub redis-IsWell :
      w.checker ≡ redis_checker world "redis" "redis:6379" (Redis.with_timeout (seconds 2) ∷ [])
      → IsWell key w
  unfolding redis_checker Redis.check Redis.new_checker Redis.with_timeout
  redis-IsWell e =
      let (now, c, up, serving) = works.redis in
      let r =
        redis_check world.texts world.conn "redis" "redis:6379" ""
          (world.dial_redis now (seconds 2) "redis:6379") now (world.end_of now) in
      let (ok, made, iff) =
        redis_check-healthy_iff world.texts world.conn "redis" "redis:6379" ""
          (world.dial_redis now (seconds 2) "redis:6379") now (world.end_of now) in
      check-IsWell key w now r (ap (λ (f : Checker). f now) e)
        (healthy_judged "redis" now ok r made (iff.1 (c, up, serving)))
