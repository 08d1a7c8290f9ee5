-- ===== src/Programs/Services.antt =====
-- The registrations of e2e/cmd/payments, e2e/cmd/orders, e2e/cmd/gateway and examples/basic, in
-- their order. `inner` stands for the router behind the HTTP reporter.
use health.Base.{List, none, some, String, ℕ, ◌*◌, ◌∷◌, []}
use health.Base.Int.{pos, ℤ}
use health.Check.{healthy}
use health.Checkers.{result_at}
use health.Checkers.Dns
use health.Checkers.Http
use health.Checkers.Redis.Setup as Redis
use health.Checkers.Tcp
use health.Options.{
  AddCheckOption, check_at_interval, Checker, returned, with_check_frequency, with_component_type,
  with_depends_on, with_group, with_liveness_impact, with_readiness_impact, with_startup_impact,
}
use health.Programs.{dns_checker, http_checker, redis_checker, tcp_checker, World}
use health.Reporters.Http.Config.{new, with_port, with_service_name, with_service_version}
use health.Reporters.Http.Middleware.{Handler}
use health.Reporters.Http.State.{HttpReporter}
use health.Reporters.Stdout.{new_stdout_reporter, StdoutReporter}
use health.System.Setup.{of_check, of_reporter, Registration}

-- `n*time.Second`.
abbrev pub seconds : ℕ → ℤ
seconds n = pos (n * 1000000000)

-- The options that the three services share for a check at an interval.
abbrev pub every_seconds : ℕ → AddCheckOption
every_seconds n = with_check_frequency check_at_interval (seconds n) (pos 0)

abbrev pub http_reporter : ℤ → String → Handler → HttpReporter
http_reporter port name inner =
    (new (with_port port ∷ with_service_name name ∷ with_service_version "e2e" ∷ []) inner).0

module _ {C V S : Type 0} (world : World C V S) (inner : Handler) where
  unfoldable pub payments : List (Registration HttpReporter)
  payments =
      of_check "postgres"
        (tcp_checker world "postgres" "postgres:5432" (Tcp.with_timeout (seconds 2) ∷ []))
        (every_seconds 5
          ∷ with_liveness_impact
          ∷ with_readiness_impact
          ∷ with_startup_impact
          ∷ with_group "database"
          ∷ with_component_type "datastore"
          ∷ [])
      ∷ of_reporter "http" (http_reporter (pos 8183) "payments" inner)
      ∷ []

  unfoldable pub orders : List (Registration HttpReporter)
  orders =
      of_check "postgres"
        (tcp_checker world "postgres" "postgres:5432" (Tcp.with_timeout (seconds 2) ∷ []))
        (every_seconds 5
          ∷ with_liveness_impact
          ∷ with_readiness_impact
          ∷ with_startup_impact
          ∷ with_group "database"
          ∷ with_component_type "datastore"
          ∷ [])
      ∷ of_check "redis"
          (redis_checker world "redis" "redis:6379" (Redis.with_timeout (seconds 2) ∷ []))
          (every_seconds 5
            ∷ with_readiness_impact
            ∷ with_group "cache"
            ∷ with_component_type "datastore"
            ∷ [])
      ∷ of_check "payments-api"
          (http_checker world "payments-api" "http://payments-svc:8183/readyz"
            (Http.with_timeout (seconds 3) ∷ []))
          (every_seconds 5
            ∷ with_readiness_impact
            ∷ with_group "services"
            ∷ with_component_type "http"
            ∷ with_depends_on ("http://payments-svc:8183" ∷ [])
            ∷ [])
      ∷ of_reporter "http" (http_reporter (pos 8182) "orders" inner)
      ∷ []

  unfoldable pub gateway : List (Registration HttpReporter)
  gateway =
      of_check "orders-api"
        (http_checker world "orders-api" "http://orders-svc:8182/readyz"
          (Http.with_timeout (seconds 3) ∷ []))
        (every_seconds 5
          ∷ with_liveness_impact
          ∷ with_readiness_impact
          ∷ with_group "services"
          ∷ with_component_type "http"
          ∷ with_depends_on ("http://orders-svc:8182" ∷ [])
          ∷ [])
      ∷ of_check "cluster-dns"
          (dns_checker world "cluster-dns" "kubernetes.default.svc"
            (Dns.with_timeout (seconds 2) ∷ []))
          (every_seconds 10
            ∷ with_startup_impact
            ∷ with_group "infrastructure"
            ∷ with_component_type "dns"
            ∷ [])
      ∷ of_reporter "http" (http_reporter (pos 8181) "gateway" inner)
      ∷ []

-- The check of examples/basic: a name and a status, with all else zero.
unfoldable pub test_check : Checker
unfolding result_at
test_check _ = returned (some (result_at "test_check" healthy none (pos 0) (pos 0)))

unfoldable pub basic : List (Registration StdoutReporter)
basic =
    of_check "test_check" test_check
      (every_seconds 5 ∷ with_liveness_impact ∷ with_readiness_impact ∷ [])
    ∷ of_reporter "stdout" new_stdout_reporter
    ∷ []
