-- ===== src/Programs/Ready.antt =====
-- What the readiness of each service of e2e/cmd says of the world, by its own registrations.
use health.Base.{
  All, arith, false, ◌||◌, inr, List, none, Option, refl, some, String, string_eq, true, ◌≡◌, ◌∷◌,
  [],
}
use health.Base.Int.{pos, ℤ}
use health.Base.Assoc.{insert, lookup}
use health.Checkers.{answered}
use health.Checkers.Http
use health.Checkers.Http.{client_or_new}
use health.Checkers.Redis.Exchange.{Serves}
use health.Checkers.Redis.Setup as Redis
use health.Checkers.Tcp
use health.Errors.{Error}
use health.Manager.Lifecycle.{add_check, add_reporter, apply_options, default_frequency}
use health.Manager.State.{is_ready, running, Wrapper}
use health.Options.{
  Checker, with_check_frequency, with_component_type, with_depends_on, with_group,
  with_liveness_impact, with_readiness_impact, with_startup_impact,
}
use health.Programs.{http_checker, redis_checker, tcp_checker, World}
use health.Programs.Checks.{http_up, redis_up, tcp_up}
use health.Programs.Services.{gateway, http_reporter, orders, payments, seconds}
use health.Programs.Setup.{ready_check}
use health.Reporters.Http.Config.{
  apply_config, new, with_port, with_service_name, with_service_version,
}
use health.Reporters.Http.Middleware.{Handler}
use health.Reporters.Http.State.{http_ops, HttpReporter, TimeText}
use health.SyncMap.{get, set}
use health.System.{configured, Reach, System}
use health.System.Manifest.{serves, serves_laws}
use health.System.Setup.{register, register_all, registered_manager, Registration, StartsDown}

http_reporter-StartsDown :
    (port : ℤ) (name : String) (inner : Handler)
    → serves (http_reporter port name inner)
      ≡ record { live = false; ready = false; startup = false }
unfolding new apply_config with_port with_service_name with_service_version
http_reporter-StartsDown port name inner = refl

module _ {C V S : Type 0} (world : World C V S) (inner : Handler) where
  pub payments-StartsDown : All (StartsDown serves) (payments world inner)
  unfolding payments
  payments-StartsDown = (tt, (http_reporter-StartsDown (pos 8183) "payments" inner, tt))

  pub orders-StartsDown : All (StartsDown serves) (orders world inner)
  unfolding orders
  orders-StartsDown = (tt, (tt, (tt, (http_reporter-StartsDown (pos 8182) "orders" inner, tt))))

  pub gateway-StartsDown : All (StartsDown serves) (gateway world inner)
  unfolding gateway
  gateway-StartsDown = (tt, (tt, (http_reporter-StartsDown (pos 8181) "gateway" inner, tt)))

module _ {C V S : Type 0} (world : World C V S) where
  -- A dial of Postgres within two seconds, at some instant.
  abbrev pub PostgresDialled : Type 0
  PostgresDialled = (now : ℤ) × (world.dial now (seconds 2) "postgres:5432" ≡ none)

  -- A readiness route that answered within three seconds, at some instant.
  abbrev pub ReadyzAnswered : String → Type 0
  ReadyzAnswered url =
      (now : ℤ) × (world.ask now (world.client_of (seconds 3)) (seconds 3) "GET" url ≡ answered 200)

  -- A dial of Redis within two seconds, at some instant, with a server that answers PING.
  abbrev pub RedisAnswered : Type 0
  RedisAnswered =
      (now : ℤ) × (c : S) × (world.dial_redis now (seconds 2) "redis:6379" ≡ inr c)
      × Serves world.texts world.conn "" c

  abbrev pub postgres_checker : Checker
  postgres_checker =
      tcp_checker world "postgres" "postgres:5432" (Tcp.with_timeout (seconds 2) ∷ [])

  abbrev pub readyz_checker : String → String → Checker
  readyz_checker name url = http_checker world name url (Http.with_timeout (seconds 3) ∷ [])

-- A check that a service has registered under a name, with an impact on a flag.
record HasCheck (xs : List (Registration HttpReporter)) (name : String) (checker : Checker)
    : Type 0 where
  wrapper : Wrapper
  there : get name (registered_manager xs).checkers ≡ some wrapper
  impact : (wrapper.opts.affects_liveness || wrapper.opts.affects_readiness) ≡ true
  same : wrapper.checker ≡ checker

module _ {C V S : Type 0} (world : World C V S) (inner : Handler) where
  -- The checks of the three services that affect a flag.
  services-HasCheck :
      HasCheck (payments world inner) "postgres" (postgres_checker world)
      × HasCheck (orders world inner) "postgres" (postgres_checker world)
      × HasCheck
          (orders world inner)
          "redis"
          (redis_checker world "redis" "redis:6379" (Redis.with_timeout (seconds 2) ∷ []))
      × HasCheck
          (orders world inner)
          "payments-api"
          (readyz_checker world "payments-api" "http://payments-svc:8183/readyz")
      × HasCheck
          (gateway world inner)
          "orders-api"
          (readyz_checker world "orders-api" "http://orders-svc:8182/readyz")
  unfolding payments orders gateway register_all register add_check add_reporter apply_options
      default_frequency running get set insert lookup with_check_frequency with_component_type
      with_depends_on with_group with_liveness_impact with_readiness_impact with_startup_impact
  services-HasCheck = (
    record { wrapper = _; there = refl; impact = refl; same = refl },
    record { wrapper = _; there = refl; impact = refl; same = refl },
    record { wrapper = _; there = refl; impact = refl; same = refl },
    record { wrapper = _; there = refl; impact = refl; same = refl },
    record { wrapper = _; there = refl; impact = refl; same = refl },
  )

  module _ (tt' : TimeText) (listen shutdown : Option Error) (s : System HttpReporter) where
    abbrev pub Reaches : List (Registration HttpReporter) → Type 0
    Reaches xs = Reach (http_ops tt' listen shutdown) (configured (registered_manager xs)) s

    postgres_dialled :
        (xs : List (Registration HttpReporter))
        → All (StartsDown serves) xs
        → HasCheck xs "postgres" (postgres_checker world)
        → Reaches xs
        → is_ready s.manager ≡ true
        → PostgresDialled world
    unfolding Tcp.new_checker Tcp.with_timeout
    postgres_dialled xs f h r e =
        let (now, hc, ran, well) =
          ready_check (serves_laws tt' listen shutdown) xs s "postgres" h.wrapper f r e h.there
            h.impact in
        (
          now,
          tcp_up world "postgres" h.wrapper now hc ran well "postgres" "postgres:5432"
              (Tcp.with_timeout (seconds 2) ∷ []) h.same,
        )

    readyz_answered :
        (xs : List (Registration HttpReporter)) (name url : String)
        → All (StartsDown serves) xs
        → HasCheck xs name (readyz_checker world name url)
        → Reaches xs
        → is_ready s.manager ≡ true
        → ReadyzAnswered world url
    unfolding Http.new_checker Http.with_timeout client_or_new
    readyz_answered xs name url f h r e =
        let (now, hc, ran, well) =
          ready_check (serves_laws tt' listen shutdown) xs s name h.wrapper f r e h.there
            h.impact in
        let (client, c, a) =
          http_up world name h.wrapper now hc ran well name url (Http.with_timeout (seconds 3) ∷ [])
            h.same in
        (now, ground arith)

    redis_answered :
        (xs : List (Registration HttpReporter))
        → All (StartsDown serves) xs
        → HasCheck xs "redis"
            (redis_checker world "redis" "redis:6379" (Redis.with_timeout (seconds 2) ∷ []))
        → Reaches xs
        → is_ready s.manager ≡ true
        → RedisAnswered world
    unfolding Redis.new_checker Redis.with_timeout
    redis_answered xs f h r e =
        let (now, hc, ran, well) =
          ready_check (serves_laws tt' listen shutdown) xs s "redis" h.wrapper f r e h.there
            h.impact in
        let (c, dialled, serving) =
          redis_up world "redis" h.wrapper now hc ran well "redis" "redis:6379"
            (Redis.with_timeout (seconds 2) ∷ []) h.same in
        (now, c, dialled, serving)

    pub payments_ready :
        Reaches (payments world inner) → is_ready s.manager ≡ true → PostgresDialled world
    payments_ready =
        postgres_dialled (payments world inner) (payments-StartsDown world inner)
          services-HasCheck.0

    pub orders_ready :
        Reaches (orders world inner)
        → is_ready s.manager ≡ true
        → PostgresDialled world
          × RedisAnswered world
          × ReadyzAnswered world "http://payments-svc:8183/readyz"
    orders_ready r e =
        let xs = orders world inner in
        let f = orders-StartsDown world inner in
        let (_, postgres, redis, api, _) = services-HasCheck in
        (
          postgres_dialled xs f postgres r e,
          redis_answered xs f redis r e,
          readyz_answered xs "payments-api" "http://payments-svc:8183/readyz" f api r e,
        )

    pub gateway_ready :
        Reaches (gateway world inner)
        → is_ready s.manager ≡ true
        → ReadyzAnswered world "http://orders-svc:8182/readyz"
    gateway_ready r e =
        let (_, _, _, _, api) = services-HasCheck in
        readyz_answered (gateway world inner) "orders-api" "http://orders-svc:8182/readyz"
          (gateway-StartsDown world inner) api r e
