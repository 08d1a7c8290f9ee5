-- ===== src/Examples/Server.antt =====
-- The server of an HTTP reporter with basic authentication, with a router that finds the path in
-- its table and a time limit that never passes.
use health.Base.{
  eq_iff, true, arith, false, none, refl, some, string_eq, [], ◌∷◌, ◌≡◌, ◌≢◌, List, Option,
}
use health.Base.Assoc.{lookup}
use health.Base.Int.{pos}
use health.Examples.Data.{plain_text}
use health.Reporters.Http.Answers.{code_of, headers_of}
use health.Reporters.Http.Checks.{not_found}
use health.Reporters.Http.Config.{
  apply_config, ConfigOption, new, new_from_config, route_path, with_middleware,
}
use health.Reporters.Http.Middleware.{basic_auth, Handler}
use health.Reporters.Http.Probes.{Request}
use health.Reporters.Http.Server.{
  is_plain, IsServerLibrary, IsTable, routes, server_handler, ServerLibrary,
}
use health.Reporters.Http.Server.Served.{AnswersRoutes, served_lem, server_handler-refuses}
use health.Reporters.Http.State.{HttpReporter, run}
use health.Reporters.Http.Writer.{fresh_writer}
use health.Text.{strip, trim_prefix}

-- The handler that was found, or the answer 404.
or_not_found : Option Handler → Handler
or_not_found none rq w = not_found w
or_not_found (some h) rq w = h rq w

abbrev exact_library : ServerLibrary
exact_library = record {
  mux = λ t rq w. or_not_found (lookup rq.path t) rq w;
  timeout_handler = λ h limit message. h;
}

abbrev Always : Handler → Request → Type 0
Always h rq = Unit

abbrev AnyRequest : Request → Type 0
AnyRequest rq = Unit

exact_library-IsServerLibrary : IsServerLibrary exact_library AnyRequest Always
unfolding or_not_found
exact_library-IsServerLibrary = record {
  exact = λ t rq h table direct e. rw e refl;
  relays = λ h limit message rq q c. refl;
}

abbrev ops_only : List ConfigOption
ops_only = with_middleware (basic_auth "ops" "secret" ∷ []) ∷ []

abbrev idle : Handler
idle rq w = w

-- The reporter after `New` and `Run`.
abbrev served_reporter : HttpReporter
served_reporter = (run none (new ops_only idle).0).0

served-IsTable : IsTable (routes plain_text (pos 0) served_reporter)
unfolding routes run new apply_config new_from_config route_path trim_prefix strip lookup is_plain
    with_middleware
served-IsTable = (
  (refl, (refl, (refl, (refl, (refl, (refl, (refl, tt))))))),
  (refl, (refl, (refl, (refl, (refl, (refl, (refl, tt))))))),
)

abbrev readyz : Request
readyz = record { path = "/readyz"; verbose = false; exclude = []; auth = some ("ops", "secret") }

served_lem_example : AnswersRoutes served_reporter readyz (
    code_of (
      server_handler exact_library ops_only plain_text (pos 0) served_reporter readyz fresh_writer))
unfolding run new apply_config new_from_config with_middleware
served_lem_example =
    served_lem exact_library ops_only plain_text (pos 0) served_reporter AnyRequest Always
      exact_library-IsServerLibrary readyz tt tt served-IsTable "ops" "secret" refl refl
      (λ e. omega (arith, e)) (omega arith) (omega arith) (omega arith) refl

-- A verbose request for a check by a stranger.
abbrev stranger : Request
stranger = record { path = "/livez/db"; verbose = true; exclude = []; auth = some ("ops", "guess") }

stranger-refused : stranger.auth ≢ some ("ops", "secret")
stranger-refused e = ground (arith, eq_iff "guess" "secret")

server_handler-refuses_example :
    let w =
      server_handler exact_library ops_only plain_text
        (pos 0)
        served_reporter
        stranger
        fresh_writer in
    (code_of w ≡ 401) × (lookup "WWW-Authenticate" (headers_of w) ≡ some "Basic realm=\"health\"")
unfolding apply_config with_middleware
server_handler-refuses_example =
    server_handler-refuses exact_library ops_only plain_text (pos 0) served_reporter "ops" "secret"
      [] refl stranger stranger-refused
