-- ===== src/Examples/Reporters.antt =====
-- The reporters at concrete inputs.
use health.Reporters.Grpc.{
  grpc_laws, grpc_ops, GrpcReporter, list, list-check, new_grpc_reporter, service_unknown, serving,
  ServingStatus,
}
use health.Base.{
  true, arith, eq_iff, false, none, refl, some, String, string_eq, ℕ, [], ◌∷◌, ◌≡◌, ◌≢◌, Option,
}
use health.Base.Assoc.{insert, insert_all, lookup, Assoc}
use health.Reporters.Http.State.{HttpReporter}
use health.Reporters.Http.Probes.{
  Body, cached, report_liveness, report_readiness, report_startup, Request,
}
use health.Reporters.Http.Answers.{
  AnswersListing, code_of, json_header, report_probe_lem, report_verbose_lem,
}
use health.SyncMap.{GoMap, made}
use health.Reporters.Http.Writer.{fresh_writer, Writer}
use health.Reporters.Http.Checks.{report_individual_check}
use health.Examples.Data.{result_of, plain_text}
use health.Check.{CheckResult, unhealthy}
use health.Reporters.Http.Middleware.{Handler}
use health.Reporters.Http.Config.{apply_config, route_path}
use health.Text.{strip, trim_prefix}
use health.Reporters.Http.Routes.{individual_check-new, updated}
use health.Reporters.Http.Recover.{RiskyHandler, recover, recover_lem}

abbrev grpc_reporter : GrpcReporter
grpc_reporter = record new_grpc_reporter {
  live = 1;
  ready = 1;
  hcs = made (("db", result_of "db" unhealthy) ∷ []);
}

abbrev db_name : String
db_name = "db"

not_empty : db_name ≢ ""
not_empty e = absurd (ground (arith, eq_iff db_name ""))

list-check_example :
    (lookup "db" (list grpc_reporter) ≡ none
      → health.Reporters.Grpc.check "db" grpc_reporter ≡ service_unknown)
    × ((s : ServingStatus)
        → lookup "db" (list grpc_reporter) ≡ some s
        → (health.Reporters.Grpc.check "db" grpc_reporter ≡ s) × (s ≢ service_unknown))
unfolding lookup
list-check_example = list-check "db" grpc_reporter not_empty (refl, tt)

abbrev http_reporter : HttpReporter
http_reporter = record {
  running = 1;
  live = 1;
  ready = 0;
  startup = 1;
  hc_cache = some [];
  hcs = made (("db", result_of "db" unhealthy) ∷ []);
  service_name = "shop";
  service_ver = "1";
  live_path = "/livez";
  ready_path = "/readyz";
  startup_path = "/healthz";
}

abbrev probe : Request
probe = record { path = "/livez/db"; verbose = false; exclude = []; auth = none }

abbrev answer : ℕ → Writer Body
answer code = record {
  header = json_header;
  sent = some (code, json_header);
  body = cached (some []) ∷ [];
}

report_probe_lem_example :
    (report_liveness probe http_reporter fresh_writer ≡ answer 200)
    × (report_readiness probe http_reporter fresh_writer ≡ answer 503)
    × (report_startup probe http_reporter fresh_writer ≡ answer 200)
report_probe_lem_example =
    report_probe_lem probe http_reporter (λ e. absurd (omega (arith, e))) refl (omega arith)
      (omega arith) (omega arith)

abbrev quiet : Writer Body
quiet = fresh_writer

-- A handler that panics before it answers.
abbrev broken : RiskyHandler
broken rq w = (w, some "index out of range")

abbrev panic_text : Option String
panic_text = some "index out of range"

recover_lem_example :
    (panic_text ≡ none → recover broken probe fresh_writer ≡ fresh_writer)
    × (panic_text ≢ none → quiet.sent ≡ none → code_of (recover broken probe fresh_writer) ≡ 503)
    × ((s : ℕ × Assoc String String)
        → panic_text ≢ none
        → quiet.sent ≡ some s
        → (recover broken probe fresh_writer).sent ≡ some s)
recover_lem_example = recover_lem broken probe quiet panic_text refl

abbrev listing : Request
listing = record probe { verbose = true; exclude = "cache" ∷ [] }

report_verbose_lem_example :
    AnswersListing listing http_reporter (report_liveness listing http_reporter fresh_writer)
    × AnswersListing listing http_reporter (report_readiness listing http_reporter fresh_writer)
    × AnswersListing listing http_reporter (report_startup listing http_reporter fresh_writer)
report_verbose_lem_example = report_verbose_lem listing http_reporter (λ e. omega (arith, e)) refl

abbrev inner_handler : Handler
inner_handler rq w = report_liveness rq http_reporter w

abbrev one_update : GoMap String CheckResult
one_update = made (("db", result_of "db" unhealthy) ∷ [])

individual_check-new_example :
    code_of
      (report_individual_check probe (updated plain_text [] inner_handler one_update) fresh_writer)
    ≡ 503
unfolding lookup insert_all insert route_path trim_prefix strip apply_config
individual_check-new_example =
    individual_check-new plain_text [] inner_handler one_update probe "db" not_empty refl
