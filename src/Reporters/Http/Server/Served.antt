-- ===== src/Reporters/Http/Server/Served.antt =====
-- What the server of a reporter answers, through recovery, authentication, time limit and router.
use mathlib.Core.List.{Memᴰ}
use health.Base.{
  ap, arith, false, if◌then◌else◌, none, List, refl, some, String, string_eq, [], ◌∙◌, ◌∷◌, ◌≡◌,
  ◌≢◌, ◌≤◌, ℕ,
}
use health.Base.Assoc.{lookup}
use health.Base.Assoc.Count.{lookup-of_mem}
use health.Base.Int.{pos, ℤ}
use health.Reporters.Http.Answers.{code_of, headers_of, report_probe_lem}
use health.Reporters.Http.Config.{apply_config, ConfigOption, default_config, new, new_from_config}
use health.Reporters.Http.Middleware.{apply_middleware, basic_auth, Handler, Middleware}
use health.Reporters.Http.Middleware.Order.{apply_middleware-basic_auth}
use health.Reporters.Http.Probes.{
  report_liveness, report_manifest, report_readiness, report_startup, Request,
}
use health.Reporters.Http.Recover.{recover_lem}
use health.Reporters.Http.Server.{
  calm, IsServerLibrary, IsTable, routes, server_handler, ServerLibrary,
}
use health.Reporters.Http.State.{HttpReporter, shows, TimeText}
use health.Reporters.Http.Writer.{fresh_writer, set_header, write, write_header}

-- The codes that a probe of each route, and a request for the manifest, get.
abbrev pub AnswersRoutes : HttpReporter → Request → ℕ → Type 0
AnswersRoutes r rq code =
    (rq.path ≡ r.live_path → code ≡ (if (shows r).live then 200 else 503))
    × (rq.path ≡ r.ready_path → code ≡ (if (shows r).ready then 200 else 503))
    × (rq.path ≡ r.startup_path → code ≡ (if (shows r).startup then 200 else 503))
    × (rq.path ≡ "/.well-known/health" → code ≡ 200)

module _ (lib : ServerLibrary) (os : List ConfigOption) (tt' : TimeText) (now : ℤ)
    (r : HttpReporter) where
  table_lookups :
      IsTable (routes tt' now r)
      → (lookup r.live_path (routes tt' now r) ≡ some (λ rq. report_liveness rq r))
        × (lookup r.ready_path (routes tt' now r) ≡ some (λ rq. report_readiness rq r))
        × (lookup r.startup_path (routes tt' now r) ≡ some (λ rq. report_startup rq r))
        × (lookup "/.well-known/health" (routes tt' now r) ≡ some (λ rq. report_manifest tt' now r))
  unfolding routes
  table_lookups (d, _) =
      let t = routes tt' now r in
      (
        lookup-of_mem r.live_path (λ rq. report_liveness rq r) t d (Memᴰ.head refl),
        lookup-of_mem r.ready_path (λ rq. report_readiness rq r) t d (Memᴰ.tail (Memᴰ.head refl)),
        lookup-of_mem r.startup_path (λ rq. report_startup rq r) t d
            (Memᴰ.tail (Memᴰ.tail (Memᴰ.head refl))),
        lookup-of_mem "/.well-known/health" (λ rq. report_manifest tt' now r) t d
            (Memᴰ.tail
              (Memᴰ.tail (Memᴰ.tail (Memᴰ.tail (Memᴰ.tail (Memᴰ.tail (Memᴰ.head refl))))))),
      )

  -- What is behind the middleware, and the chain of middleware.
  abbrev limited : Handler
  limited =
      lib.timeout_handler (lib.mux (routes tt' now r)) (pos 60000000000) "the request timed out"

  server_handler-chain :
      (rq : Request)
      → server_handler lib os tt' now r rq fresh_writer
        ≡ apply_middleware (apply_config os default_config).middleware limited rq fresh_writer
  unfolding server_handler new new_from_config
  server_handler-chain rq =
      let h = apply_middleware (apply_config os default_config).middleware limited in
      (recover_lem (calm h) rq (h rq fresh_writer) none refl).0 refl

  -- The server of a reporter that was made with basic authentication as its first middleware
  -- answers every request without the right name and password with 401 and a challenge, whatever
  -- the request asks for, the other middleware, the router and the time limit do, and the state of
  -- the reporter is.
  pub server_handler-refuses :
      (username password : String) (mws : List Middleware)
      → (apply_config os default_config).middleware ≡ basic_auth username password ∷ mws
      → (rq : Request) → rq.auth ≢ some (username, password)
      → (code_of (server_handler lib os tt' now r rq fresh_writer) ≡ 401)
        × (lookup "WWW-Authenticate" (headers_of (server_handler lib os tt' now r rq fresh_writer))
            ≡ some "Basic realm=\"health\"")
  server_handler-refuses username password mws auth rq ne =
      rw (server_handler-chain rq ∙ ap (λ ms. apply_middleware ms limited rq fresh_writer) auth)
        ((apply_middleware-basic_auth username password mws limited rq).1 ne)

  module _ (Unescaped : Request → Type 0) (InTime : Handler → Request → Type 0)
      (net_http : IsServerLibrary lib Unescaped InTime) (rq : Request) (direct : Unescaped rq)
      (in_time : InTime (lib.mux (routes tt' now r)) rq) (table : IsTable (routes tt' now r)) where
    -- The answer of the handler whose pattern is the path.
    limited-code :
        (h : Handler) (path : String)
        → lookup path (routes tt' now r) ≡ some h
        → 200 ≤ code_of (h rq fresh_writer)
        → rq.path ≡ path
        → code_of (limited rq fresh_writer) ≡ code_of (h rq fresh_writer)
    limited-code h path e c same =
        let found = net_http.exact (routes tt' now r) rq h table direct (rw same e) in
        net_http.relays (lib.mux (routes tt' now r)) (pos 60000000000) "the request timed out" rq
          in_time (rw found c)
        ∙ ap code_of found

    report_manifest-code : r.running ≢ 0 → code_of (report_manifest tt' now r fresh_writer) ≡ 200
    unfolding report_manifest write write_header set_header
    report_manifest-code on = ground arith

    limited-AnswersRoutes :
        rq.verbose ≡ false
        → r.running ≢ 0
        → r.live ≤ 1
        → r.ready ≤ 1
        → r.startup ≤ 1
        → AnswersRoutes r rq (code_of (limited rq fresh_writer))
    limited-AnswersRoutes plain on l d s =
        let (live, ready, startup) = report_probe_lem rq r on plain l d s in
        let (find_live, find_ready, find_startup, find_manifest) = table_lookups table in
        let m = report_manifest-code on in
        (
          λ e.
              limited-code (λ rq. report_liveness rq r) r.live_path find_live
                (rw live (ground arith)) e
              ∙ rw live refl,
          λ e.
              limited-code (λ rq. report_readiness rq r) r.ready_path find_ready
                (rw ready (ground arith)) e
              ∙ rw ready refl,
          λ e.
              limited-code (λ rq. report_startup rq r) r.startup_path find_startup
                (rw startup (ground arith)) e
              ∙ rw startup refl,
          λ e.
              limited-code (λ rq. report_manifest tt' now r) "/.well-known/health" find_manifest
                (rw m (omega arith)) e
              ∙ m,
        )

    -- The server of a reporter that runs, made with basic authentication as its one middleware,
    -- whose routes are distinct plain paths, and whose three words are 0 or 1: a request with the
    -- right name and password that is not verbose gets on each probe route 200 while the flag is
    -- shown and 503 otherwise, and the manifest with 200. The router and the time limit are assumed
    -- to do what net/http documents, the path to be sent without escapes, and the limit not to pass.
    pub served_lem :
        (username password : String)
        → (apply_config os default_config).middleware ≡ basic_auth username password ∷ []
        → rq.verbose ≡ false
        → r.running ≢ 0
        → r.live ≤ 1
        → r.ready ≤ 1
        → r.startup ≤ 1
        → rq.auth ≡ some (username, password)
        → AnswersRoutes r rq (code_of (server_handler lib os tt' now r rq fresh_writer))
    unfolding apply_middleware
    served_lem username password auth plain on l d s e =
        let chain =
          server_handler-chain rq ∙ ap (λ mws. apply_middleware mws limited rq fresh_writer) auth in
        let (pass, _) = apply_middleware-basic_auth username password [] limited rq in
        rw (chain, pass e) (limited-AnswersRoutes plain on l d s)
