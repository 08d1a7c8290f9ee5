-- ===== src/Programs/Serving.antt =====
-- In a world that answers, each service of e2e/cmd gets ready.
use health.Base.{
  All, arith, subst, inl, Bool-cases, ◌=?◌, ap, List, none, Option, refl, some, String, string_eq,
  true, false, ◌≡◌, ◌≢◌, ◌∷◌, [], ◌∙◌, inr,
}
use health.Base.Assoc.{insert, lookup}
use health.Base.Int.{pos, ℤ}
use health.Errors.{Error}
use health.Manager.Lifecycle.{
  run_start, dispatch_reporters, init_internals, start_visit, add_check, add_reporter,
  apply_options, default_frequency,
}
use health.Manager.Invariant.{entries_of}
use health.Manager.State.{is_ready, running}
use health.Options.{
  with_check_frequency, with_component_type, with_depends_on, with_group, with_liveness_impact,
  with_readiness_impact, with_startup_impact,
}
use health.Programs.{World}
use health.Programs.Ready.{gateway-StartsDown, orders-StartsDown, payments-StartsDown}
use health.Programs.Services.{http_reporter, gateway, orders, payments}
use health.Reporter.{Flags}
use health.Reporters.Http.Middleware.{Handler}
use health.Reporters.Http.State.{
  http_ops, HttpReporter, run, set_liveness, set_readiness, set_startup, update_frame,
  update_health_checks, TimeText,
}
use health.Reporters.Http.Config.{
  apply_config, new, with_port, with_service_name, with_service_version,
}
use health.SyncMap.{each_object, each_object_entry, made, Map, with_entries, get, set, size}
use health.System.{configured, Reach, System}
use health.System.Manifest.{serves, serves_laws}
use health.System.Progress.{IsServing}
use health.System.Rounds.{AllWell}
use health.System.Relay.{Survives}
use health.System.Readiness.{Reach-InSync}
use health.Manager.Flags.{notify}
use health.Manager.Flags.Sync.{get-notify}
use health.Reporters.Http.Answers.{code_of}
use health.Reporters.Http.Probes.{report_readiness, Request}
use health.Reporters.Http.Writer.{fresh_writer, set_header, write, write_header}
use health.System.Setup.{register, register_all, registered_manager, Registration, StartsDown}
use health.Programs.{start_main}
use health.Programs.Setup.{start_main-run_start}
use health.Programs.Works.{dns-IsWell, postgres-IsWell, readyz-IsWell, redis-IsWell, Works}
use health.System.Application.{registered-IsServing}

-- The HTTP reporter is registered, and runs.
abbrev Runs : Map String HttpReporter → Type 0
Runs rs = (r : HttpReporter) × (get "http" rs ≡ some r) × (r.running ≡ 1)

notify-Runs :
    (f : HttpReporter → HttpReporter) (rs : Map String HttpReporter)
    → ((r : HttpReporter) → (f r).running ≡ r.running)
    → Runs rs
    → Runs (notify f rs)
notify-Runs f rs still (r, p, on) = (f r, rw (get-notify f "http" rs, p) refl, still r ∙ on)

Runs-Survives :
    (tt' : TimeText) (listen shutdown : Option Error) → Survives (http_ops tt' listen shutdown) Runs
unfolding set_liveness set_readiness set_startup
Runs-Survives tt' listen shutdown = record {
  live = λ b rs h. notify-Runs (set_liveness b) rs (λ r. refl) h;
  ready = λ b rs h. notify-Runs (set_readiness b) rs (λ r. refl) h;
  startup = λ b rs h. notify-Runs (set_startup b) rs (λ r. refl) h;
  updated = λ u rs h. notify-Runs (update_health_checks tt' u) rs (λ r. (update_frame tt' u r).0) h;
}

code_of_ready :
    (rq : Request) (r : HttpReporter)
    → rq.verbose ≡ false
    → r.running ≡ 1
    → (serves r).ready ≡ true
    → code_of (report_readiness rq r fresh_writer) ≡ 200
unfolding report_readiness write write_header set_header
code_of_ready rq r plain on h = ground arith

-- No registration fails, so that `main` comes to `Run`, and there is a state of the application in which it is live, ready and started, and the readiness route of its
-- reporter answers every request without a query with 200.
abbrev pub GetsReady : TimeText → Option Error → List (Registration HttpReporter) → Type 0
GetsReady tt' shutdown xs =
    (start_main (http_ops tt' none shutdown) none xs
      ≡ inr (run_start (http_ops tt' none shutdown) none (registered_manager xs)))
    × (s : System HttpReporter) × Reach (http_ops tt' none shutdown)
        (configured (registered_manager xs)) s
    × IsServing s.manager
    × ((r : HttpReporter) × (get "http" s.manager.reporters ≡ some r)
        × ((rq : Request)
            → rq.verbose ≡ false
            → code_of (report_readiness rq r fresh_writer) ≡ 200))

fresh_runs :
    (port : ℤ) (service : String) (inner : Handler) (name : String) (r : HttpReporter)
    → lookup name (("http", http_reporter port service inner) ∷ []) ≡ some r
    → (run none r).1 ≡ none
unfolding lookup run new apply_config with_port with_service_name with_service_version
fresh_runs port service inner name r p = elim (Bool-cases ("http" =? name)) [
  | inl same ↦
      let e : http_reporter port service inner ≡ r = cc (rw same at p) in
      subst (λ x. (run none x).1 ≡ none) e refl
  | inr other ↦ absurd (cc (rw other at p))
]

-- A service with the HTTP reporter that its registrations make.
service-GetsReady :
    (tt' : TimeText) (shutdown : Option Error) (xs : List (Registration HttpReporter)) (port : ℤ)
    (service : String) (inner : Handler)
    → All (StartsDown serves) xs
    → (registered_manager xs).reporters
      ≡ record { items = made (("http", http_reporter port service inner) ∷ []) }
    → size (registered_manager xs).checkers ≢ 0
    → AllWell (entries_of (registered_manager xs).checkers)
    → GetsReady tt' shutdown xs
unfolding size get lookup dispatch_reporters init_internals start_visit each_object
    each_object_entry with_entries run new apply_config with_port with_service_name
    with_service_version is_ready
service-GetsReady tt' shutdown xs port service inner f e cs h =
    let ops = http_ops tt' none shutdown in
    let (s, reach, up, (r, p, on)) =
      registered-IsServing ops serves xs f cs (rw e (λ z. absurd (omega (arith, z))))
        (rw e (λ name r p. fresh_runs port service inner name r p)) (rw e (refl, tt)) h Runs
        (Runs-Survives tt' none shutdown)
        (rw e (record (http_reporter port service inner) { running = 1 }, refl, refl)) in
    let same = Reach-InSync (serves_laws tt' none shutdown) xs s f reach "http" r p in
    (
      start_main-run_start ops none xs,
      s,
      reach,
      up,
      (r, p, λ rq plain. code_of_ready rq r plain on (ap (λ (x : Flags). x.ready) same ∙ up.1)),
    )

-- In a world where Postgres, Redis, the two readiness routes and the name of the cluster each
-- answered at some instant, and with a listener that opens: in each of the three services no
-- registration fails, so that `main` comes to `Run`; and `Run` after the registrations and some
-- order of steps of the goroutines that it starts lead to a state
-- in which the service is live, ready and started, and the readiness route of its reporter answers
-- every request without a query with 200.
pub services-GetsReady :
    {C V S : Type 0} (world : World C V S) (inner : Handler) (tt' : TimeText)
    (shutdown : Option Error)
    → Works world
    → GetsReady tt' shutdown (payments world inner)
      × GetsReady tt' shutdown (orders world inner)
      × GetsReady tt' shutdown (gateway world inner)
unfolding payments orders gateway register_all register add_check add_reporter apply_options
    default_frequency running get set size insert lookup with_check_frequency with_component_type
    with_depends_on with_group with_liveness_impact with_readiness_impact with_startup_impact
services-GetsReady world inner tt' shutdown works = (
  service-GetsReady tt' shutdown (payments world inner) (pos 8183) "payments" inner
      (payments-StartsDown world inner) refl (λ e. absurd (omega (arith, e)))
      (postgres-IsWell world works "postgres" _ refl, tt),
  service-GetsReady tt' shutdown (orders world inner) (pos 8182) "orders" inner
      (orders-StartsDown world inner) refl (λ e. absurd (omega (arith, e)))
      (
        postgres-IsWell world works "postgres" _ refl,
        (
          redis-IsWell world works "redis" _ refl,
          (
            readyz-IsWell world works "payments-api" _ "payments-api"
                "http://payments-svc:8183/readyz" works.payments_api refl,
            tt,
          ),
        ),
      ),
  service-GetsReady tt' shutdown (gateway world inner) (pos 8181) "gateway" inner
      (gateway-StartsDown world inner) refl (λ e. absurd (omega (arith, e)))
      (
        readyz-IsWell world works "orders-api" _ "orders-api" "http://orders-svc:8182/readyz"
            works.orders_api refl,
        (dns-IsWell world works "cluster-dns" _ refl, tt),
      ),
)
