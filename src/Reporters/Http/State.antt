-- ===== src/Reporters/Http/State.antt =====
-- reporter.go: the reporter's state, its part of the `Reporter` interface, and the JSON cache. The
-- listener is outside: whether it opened is an argument of `run`. Encoded JSON is kept as the value
-- that was encoded; the texts of instants and durations are those of the time package.
use health.Base.{
  arith, Bool, if◌then◌else◌, none, not, Option, refl, some, String, string_eq, ℕ, [], ◌==◌, ◌∷◌,
  ◌≡◌,
}
use health.Reporter.{Flags, IsReporter, ReporterOps}
use health.Base.Int.{eq_int, lt_int, pos, ℤ}
use health.Check.{CheckResult, status_text}
use health.Base.Assoc.{Assoc, insert, insert_all}
use health.SyncMap.{entries, GoMap, made}
use health.Errors.{also, concat, end, Error, error_text, wrapped}

-- `checkJSON`.
pub record CheckJson : Type 0 where
  pub name : String
  pub status : String
  pub affects_liveness : Bool
  pub affects_readiness : Bool
  pub affects_startup : Bool
  pub group : String
  pub component_type : String
  pub error : String
  pub error_since : String
  pub duration : String
  pub last_check : String
  pub metadata : GoMap String String

pub record HttpReporter : Type 0 where
  pub running : ℕ
  pub live : ℕ
  pub ready : ℕ
  pub startup : ℕ
  pub hc_cache : Option (Assoc String CheckJson)
  pub hcs : GoMap String CheckResult
  pub service_name : String
  pub service_ver : String
  pub live_path : String
  pub ready_path : String
  pub startup_path : String

-- How the time package prints an instant in RFC 3339, and a duration.
pub record TimeText : Type 0 where
  pub rfc3339 : ℤ → String
  pub duration_text : ℤ → String

abbrev pub error_or_empty : Option Error → String
error_or_empty none = ""
error_or_empty (some e) = error_text e

abbrev pub text_if_positive : TimeText → ℤ → String
text_if_positive tt' d = if lt_int (pos 0) d then tt'.duration_text d else ""

abbrev pub text_unless_zero : TimeText → ℤ → String
text_unless_zero tt' t = if eq_int t (pos 0) then "" else tt'.rfc3339 t

module _ (tt' : TimeText) where
  unfoldable pub check_json : CheckResult → CheckJson
  check_json hc = record {
    name = hc.name;
    status = status_text hc.status;
    affects_liveness = hc.affects_liveness;
    affects_readiness = hc.affects_readiness;
    affects_startup = hc.affects_startup;
    group = hc.group;
    component_type = hc.component_type;
    error = error_or_empty hc.error;
    error_since = text_unless_zero tt' hc.error_since;
    duration = text_if_positive tt' hc.duration;
    last_check = text_unless_zero tt' hc.timestamp;
    metadata = hc.metadata;
  }

  -- The loop of `cacheHealthChecks`, which fills `pl`.
  unfoldable pub json_entries :
      Assoc String CheckResult → Assoc String CheckJson → Assoc String CheckJson
  unfolding check_json
  json_entries [] pl = pl
  json_entries ((k, hc) ∷ l) pl = json_entries l (insert k (check_json hc) pl)

  unfoldable pub cache_health_checks : HttpReporter → HttpReporter
  unfolding json_entries
  cache_health_checks r = record r { hc_cache = some (json_entries (entries r.hcs) []) }

  unfoldable pub update_health_checks : GoMap String CheckResult → HttpReporter → HttpReporter
  unfolding cache_health_checks
  update_health_checks m r =
      if r.running == 0
      then r
      else cache_health_checks (record r { hcs = made (insert_all (entries m) (entries r.hcs)) })

-- `listen` is the error of `net.Listen`, if any.
run_listening : Option Error → HttpReporter → HttpReporter × Option Error
run_listening none r = (record r { running = 1 }, none)
run_listening (some e) r = (
  record r { running = 0 },
  some (
      wrapped (concat "health.reporter.httpserver: Run - listen error: " (error_text e))
        (also e end)),
)

unfoldable pub run : Option Error → HttpReporter → HttpReporter × Option Error
unfolding run_listening
run listen r =
    if not (r.running == 0)
    then (r, some (wrapped "health.reporter.httpserver: Run - reporter is already running" end))
    else run_listening listen r

-- `shutdown` is the result of the server's `Shutdown`.
unfoldable pub stop : Option Error → HttpReporter → HttpReporter × Option Error
stop shutdown r = (record r { running = 0 }, shutdown)

unfoldable pub set_liveness : Bool → HttpReporter → HttpReporter
set_liveness b r = record r { live = if b then 1 else 0 }

unfoldable pub set_readiness : Bool → HttpReporter → HttpReporter
set_readiness b r = record r { ready = if b then 1 else 0 }

unfoldable pub set_startup : Bool → HttpReporter → HttpReporter
set_startup b r = record r { startup = if b then 1 else 0 }

abbrev pub http_ops : TimeText → Option Error → Option Error → ReporterOps HttpReporter
http_ops tt' listen shutdown = record {
  run = run listen;
  stop = stop shutdown;
  set_liveness = set_liveness;
  set_readiness = set_readiness;
  set_startup = set_startup;
  update_health_checks = update_health_checks tt';
}

abbrev pub shows : HttpReporter → Flags
shows r = record { live = r.live == 1; ready = r.ready == 1; startup = r.startup == 1 }

-- The reporter keeps the promises of the interface, whatever the listener and the server return.
pub http_laws :
    (tt' : TimeText) (listen shutdown : Option Error)
    → IsReporter (http_ops tt' listen shutdown) shows
unfolding run stop set_liveness set_readiness set_startup update_health_checks
http_laws tt' listen shutdown = record {
  shows-set_liveness = λ b r. ground arith;
  shows-set_readiness = λ b r. ground arith;
  shows-set_startup = λ b r. ground arith;
  shows-update_health_checks = λ m r. ground arith;
  shows-run = λ r. ground arith;
  shows-stop = λ r. refl;
}

-- What an update leaves alone.
pub update_frame :
    (tt' : TimeText) (m : GoMap String CheckResult) (r : HttpReporter)
    → ((update_health_checks tt' m r).running ≡ r.running)
      × ((update_health_checks tt' m r).live_path ≡ r.live_path)
unfolding update_health_checks
update_frame tt' m r = ground arith
