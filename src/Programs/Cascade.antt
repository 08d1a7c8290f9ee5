-- ===== src/Programs/Cascade.antt =====
-- Readiness along the dependencies of the services: the gateway asks the orders service, which asks
-- the payments service.
use health.Base.{All, arith, ap, List, Option, some, String, string_eq, true, false, ◌≡◌, sym, ◌∙◌}
use health.Base.Int.{ℤ}
use health.Checkers.{answered}
use health.Errors.{Error}
use health.Manager.State.{is_ready}
use health.Programs.{World}
use health.Programs.Ready.{
  gateway_ready, orders-StartsDown, orders_ready, payments-StartsDown, payments_ready,
  PostgresDialled, ReadyzAnswered, RedisAnswered,
}
use health.Programs.Services.{gateway, orders, payments, seconds}
use health.Reporter.{Flags}
use health.Reporters.Http.Answers.{code_of}
use health.Reporters.Http.Middleware.{Handler}
use health.Reporters.Http.Probes.{report_readiness, Request}
use health.Reporters.Http.State.{http_ops, HttpReporter, TimeText}
use health.Reporters.Http.Writer.{fresh_writer, set_header, write, write_header}
use health.SyncMap.{get}
use health.System.{configured, Reach, System}
use health.System.Manifest.{serves, serves_laws}
use health.System.Readiness.{Reach-InSync}
use health.System.Setup.{registered_manager, Registration, StartsDown}

-- The handler of the readiness route answers a request without a query with 200 only while its flag
-- is shown.
ready_of_code :
    (rq : Request) (r : HttpReporter)
    → rq.verbose ≡ false
    → code_of (report_readiness rq r fresh_writer) ≡ 200
    → (serves r).ready ≡ true
unfolding report_readiness write write_header set_header
ready_of_code rq r plain h = ground arith

module _ (tt' : TimeText) (listen shutdown : Option Error) where
  -- The handler of the readiness route of a registered reporter, in a state that the application
  -- with these registrations can reach, answers a request without a query with 200.
  pub record Answers200 (xs : List (Registration HttpReporter)) : Type 0 where
    pub state : System HttpReporter
    pub reached : Reach (http_ops tt' listen shutdown) (configured (registered_manager xs)) state
    pub name : String
    pub reporter : HttpReporter
    pub there : get name state.manager.reporters ≡ some reporter
    pub request : Request
    pub plain : request.verbose ≡ false
    pub ok : code_of (report_readiness request reporter fresh_writer) ≡ 200

  -- A state of the application in which it is ready.
  abbrev pub WasReady : List (Registration HttpReporter) → Type 0
  WasReady xs =
      (s : System HttpReporter) × Reach (http_ops tt' listen shutdown)
        (configured (registered_manager xs)) s
      × (is_ready s.manager ≡ true)

  answers-WasReady :
      (xs : List (Registration HttpReporter))
      → All (StartsDown serves) xs
      → Answers200 xs
      → WasReady xs
  unfolding is_ready
  answers-WasReady xs f a =
      let same =
        Reach-InSync (serves_laws tt' listen shutdown) xs a.state f a.reached a.name a.reporter
          a.there in
      let shown = ready_of_code a.request a.reporter a.plain a.ok in
      (a.state, a.reached, sym (ap (λ (x : Flags). x.ready) same) ∙ shown)

  -- The network takes a request to the readiness route of a service to the handler of its reporter:
  -- an answer 200 is one that this handler gives.
  abbrev pub Delivers :
      {C V S : Type 0} → World C V S → String → List (Registration HttpReporter) → Type 0
  Delivers world url xs =
      (now : ℤ)
      → world.ask now (world.client_of (seconds 3)) (seconds 3) "GET" url ≡ answered 200
      → Answers200 xs

  module _ {C V S : Type 0} (world : World C V S) (inner inner' inner'' : Handler) where
    payments-WasReady :
        Delivers world "http://payments-svc:8183/readyz" (payments world inner)
        → ReadyzAnswered world "http://payments-svc:8183/readyz"
        → WasReady (payments world inner) × PostgresDialled world
    payments-WasReady d (now, a) =
        let w =
          answers-WasReady (payments world inner) (payments-StartsDown world inner) (d now a) in
        (w, payments_ready world inner tt' listen shutdown w.0 w.1 w.2)

    -- In a world where an answer 200 of the readiness route of the payments service, or of the
    -- orders service, is one that the handler of its reporter gives in a state that the service can
    -- reach, by any order of steps: if the gateway is ready in a state that it can reach, then the
    -- orders service was ready in one of its states, and so was the payments service; and a dial of
    -- Postgres went through, and Redis answered PING.
    pub gateway-cascade :
        (s : System HttpReporter)
        → Delivers world "http://payments-svc:8183/readyz" (payments world inner)
        → Delivers world "http://orders-svc:8182/readyz" (orders world inner')
        → Reach
            (http_ops tt' listen shutdown)
            (configured (registered_manager (gateway world inner'')))
            s
        → is_ready s.manager ≡ true
        → WasReady (orders world inner')
          × WasReady (payments world inner)
          × PostgresDialled world
          × RedisAnswered world
    gateway-cascade s p o r e =
        let (now, a) = gateway_ready world inner'' tt' listen shutdown s r e in
        let w = answers-WasReady (orders world inner') (orders-StartsDown world inner') (o now a) in
        let (postgres, redis, api) = orders_ready world inner' tt' listen shutdown w.0 w.1 w.2 in
        let (ready, _) = payments-WasReady p api in (w, ready, postgres, redis)
