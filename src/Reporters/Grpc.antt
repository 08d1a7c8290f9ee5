-- ===== src/Reporters/Grpc.antt =====
-- reporter/grpc/reporter.go: the standard gRPC health service. The gRPC server is outside: whether
-- the listener opened is an argument of `run`.
use health.Base.{
  arith, Bool, eq_iff, if◌then◌else◌, is_some, none, not, Option, refl, some, String, string_eq, ℕ,
  [], ◌==◌, ◌=?◌, ◌||◌, ◌&&◌, ◌∷◌, ◌≡◌, ◌≢◌,
}
use health.Reporter.{Flags, IsReporter, ReporterOps}
use health.SyncMap.{entries, GoMap, made, nil}
use health.Check.{CheckResult, is_unhealthy}
use health.Base.Assoc.{Assoc, insert, insert_all, IsDistinct, lookup}
use health.Errors.{also, concat, end, Error, error_text, wrapped}
use health.Base.Assoc.Laws.{lookup-insert}

-- `grpc_health_v1.HealthCheckResponse_ServingStatus`, as far as it is used.
pub data ServingStatus : Type 0 where
  serving : ServingStatus
  not_serving : ServingStatus
  service_unknown : ServingStatus

pub record GrpcReporter : Type 0 where
  pub running : ℕ
  pub live : ℕ
  pub ready : ℕ
  pub startup : ℕ
  pub hcs : GoMap String CheckResult

abbrev pub new_grpc_reporter : GrpcReporter
new_grpc_reporter = record { running = 0; live = 0; ready = 0; startup = 0; hcs = nil }

-- `Config` without its logger. `S` is a server of the gRPC library.
record GrpcConfig (S : Type 0) : Type 0 where
  server : Option S
  addr : String

given_or_new : {S : Type 0} → S → Option S → S
given_or_new fresh none = fresh
given_or_new fresh (some s) = s

-- `NewReporter`: the state, the server with the health service on it, and the address at which
-- `Run` listens. `fresh` is what `grpc.NewServer` gives, `register` what `RegisterHealthServer` does.
unfoldable new_reporter : {S : Type 0} → S → (S → S) → GrpcConfig S → GrpcReporter × S × String
unfolding given_or_new
new_reporter fresh register cfg =
    (new_grpc_reporter, register (given_or_new fresh cfg.server), cfg.addr)

-- `listen` is the error of `net.Listen`, if any.
run_listening : Option Error → GrpcReporter → GrpcReporter × Option Error
run_listening none r = (record r { running = 1 }, none)
run_listening (some e) r = (
  record r { running = 0 },
  some (wrapped (concat "health.reporter.grpc: listen error: " (error_text e)) (also e end)),
)

unfoldable pub run : Option Error → GrpcReporter → GrpcReporter × Option Error
unfolding run_listening
run listen r =
    if not (r.running == 0)
    then (r, some (wrapped "health.reporter.grpc: already running" end))
    else run_listening listen r

unfoldable pub stop : GrpcReporter → GrpcReporter × Option Error
stop r = if not (r.running == 1) then (r, none) else (record r { running = 0 }, none)

unfoldable pub set_liveness : Bool → GrpcReporter → GrpcReporter
set_liveness b r = record r { live = if b then 1 else 0 }

unfoldable pub set_readiness : Bool → GrpcReporter → GrpcReporter
set_readiness b r = record r { ready = if b then 1 else 0 }

unfoldable pub set_startup : Bool → GrpcReporter → GrpcReporter
set_startup b r = record r { startup = if b then 1 else 0 }

unfoldable pub update_health_checks : GoMap String CheckResult → GrpcReporter → GrpcReporter
update_health_checks m r = record r { hcs = made (insert_all (entries m) (entries r.hcs)) }

unfoldable pub serving_status : CheckResult → ServingStatus
serving_status hc = if is_unhealthy hc.status then not_serving else serving

named_status : Option CheckResult → ServingStatus
unfolding serving_status
named_status none = service_unknown
named_status (some hc) = serving_status hc

-- `Check`: the empty name asks for the whole service.
unfoldable pub check : String → GrpcReporter → ServingStatus
unfolding named_status
check svc r =
    if svc =? ""
    then (if r.live == 0 || r.ready == 0 then not_serving else serving)
    else named_status (lookup svc (entries r.hcs))

-- `statuses[name] = …` over the map, in one iteration's order.
list_statuses : Assoc String CheckResult → Assoc String ServingStatus → Assoc String ServingStatus
unfolding serving_status
list_statuses [] out = out
list_statuses ((name, hc) ∷ l) out = list_statuses l (insert name (serving_status hc) out)

-- `List`.
unfoldable pub list : GrpcReporter → Assoc String ServingStatus
unfolding list_statuses
list r = list_statuses (entries r.hcs) []

-- `Watch` sends the current status once, and returns what the stream's `Send` returns.
unfoldable pub watch : String → (ServingStatus → Option Error) → GrpcReporter → Option Error
watch svc send_to_stream r = send_to_stream (check svc r)

abbrev pub grpc_ops : Option Error → ReporterOps GrpcReporter
grpc_ops listen = record {
  run = run listen;
  stop = stop;
  set_liveness = set_liveness;
  set_readiness = set_readiness;
  set_startup = set_startup;
  update_health_checks = update_health_checks;
}

-- The words as flags. `Check` reads the first two; nothing reads the third.
abbrev pub shows : GrpcReporter → Flags
shows r = record {
  live = not (r.live == 0);
  ready = not (r.ready == 0);
  startup = not (r.startup == 0);
}

-- The reporter keeps the promises of the interface, whether or not its listener opens.
pub grpc_laws : (listen : Option Error) → IsReporter (grpc_ops listen) shows
unfolding run stop set_liveness set_readiness set_startup update_health_checks
grpc_laws listen = record {
  shows-set_liveness = λ b r. ground arith;
  shows-set_readiness = λ b r. ground arith;
  shows-set_startup = λ b r. ground arith;
  shows-update_health_checks = λ m r. refl;
  shows-run = λ r. ground arith;
  shows-stop = λ r. ground arith;
}

lookup-list_statuses :
    (name : String) (l : Assoc String CheckResult) (out : Assoc String ServingStatus)
    → IsDistinct l
    → lookup name (list_statuses l out)
      ≡ (if is_some (lookup name l) then some (named_status (lookup name l)) else lookup name out)
unfolding list_statuses lookup named_status
lookup-list_statuses name [] out d = refl
lookup-list_statuses name ((k, hc) ∷ l) out d = ground (
  arith,
  lookup-list_statuses name l (insert k (serving_status hc) out) d.1,
  lookup-insert k name (serving_status hc) out,
  eq_iff k name,
  d.0,
)

-- `List` and `Check` agree where the reporter's map has each name once: under a name that is not
-- empty, a status in the listing is the one that `Check` answers, and is not that of an unknown
-- service; where the listing has none, `Check` answers that the service is unknown.
pub list-check :
    (name : String) (r : GrpcReporter)
    → name ≢ ""
    → IsDistinct (entries r.hcs)
    → (lookup name (list r) ≡ none → check name r ≡ service_unknown)
      × ((s : ServingStatus)
          → lookup name (list r) ≡ some s
          → (check name r ≡ s) × (s ≢ service_unknown))
unfolding check list lookup
list-check name r ne d = (
  λ h. ground (arith, lookup-list_statuses name (entries r.hcs) [] d, eq_iff name ""),
  λ s h. (
    ground (arith, lookup-list_statuses name (entries r.hcs) [] d, eq_iff name ""),
    ground (arith, lookup-list_statuses name (entries r.hcs) [] d),
  ),
)

-- `Check` for the empty name answers by the two flags.
pub check-overall :
    (r : GrpcReporter)
    → check "" r ≡ (if (shows r).live && (shows r).ready then serving else not_serving)
unfolding check
check-overall r = ground arith

-- A new reporter says that the service is not serving, lists no check and knows none by name.
new_reporter-not_serving :
    {S : Type 0} (fresh : S) (register : S → S) (cfg : GrpcConfig S)
    → (check "" (new_reporter fresh register cfg).0 ≡ not_serving)
      × (list (new_reporter fresh register cfg).0 ≡ [])
      × ((svc : String)
          → svc ≢ ""
          → check svc (new_reporter fresh register cfg).0 ≡ service_unknown)
unfolding new_reporter check list lookup
new_reporter-not_serving fresh register cfg = (refl, refl, λ svc ne. ground (arith, eq_iff svc ""))
