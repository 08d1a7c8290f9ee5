-- ===== src/Reporters/Http/Config.antt =====
-- config.go, and what newFromConfig of reporter.go makes of it: the state and the middleware around
-- what Server puts behind it. The logger is left out.
use health.Base.{List, none, String, [], ◌++◌, ◌∷◌, ◌≡◌}
use health.Base.Int.{pos, ℤ}
use health.Reporters.Http.Middleware.{apply_middleware, Handler, Middleware}
use health.Text.{strip, strip-concat, trim_prefix}
use health.Errors.{concat}
use health.Reporters.Http.State.{HttpReporter}
use health.SyncMap.{nil}

pub record Config : Type 0 where
  pub addr : String
  pub port : ℤ
  pub liveness_route : String
  pub readiness_route : String
  pub startup_route : String
  pub middleware : List Middleware
  pub service_name : String
  pub service_version : String

abbrev pub ConfigOption : Type 0
ConfigOption = Config → Config

unfoldable pub with_addr : String → ConfigOption
with_addr addr c = record c { addr = addr }

unfoldable pub with_port : ℤ → ConfigOption
with_port port c = record c { port = port }

unfoldable pub with_liveness_route : String → ConfigOption
with_liveness_route route c = record c { liveness_route = route }

unfoldable pub with_readiness_route : String → ConfigOption
with_readiness_route route c = record c { readiness_route = route }

unfoldable pub with_startup_route : String → ConfigOption
with_startup_route route c = record c { startup_route = route }

unfoldable pub with_middleware : List Middleware → ConfigOption
with_middleware mws c = record c { middleware = c.middleware ++ mws }

unfoldable pub with_service_name : String → ConfigOption
with_service_name name c = record c { service_name = name }

unfoldable pub with_service_version : String → ConfigOption
with_service_version version c = record c { service_version = version }

abbrev pub default_config : Config
default_config = record {
  addr = "0.0.0.0";
  port = pos 8181;
  liveness_route = "/livez";
  readiness_route = "/readyz";
  startup_route = "/healthz";
  middleware = [];
  service_name = "";
  service_version = "";
}

unfoldable pub route_path : String → String
route_path route = concat "/" (trim_prefix route "/")

-- The reporter's state, and the middleware around `inner`, the router with its time limit.
unfoldable pub new_from_config : Config → Handler → HttpReporter × Handler
unfolding route_path
new_from_config cfg inner = (
  record {
    running = 0;
    live = 0;
    ready = 0;
    startup = 0;
    hc_cache = none;
    hcs = nil;
    service_name = cfg.service_name;
    service_ver = cfg.service_version;
    live_path = route_path cfg.liveness_route;
    ready_path = route_path cfg.readiness_route;
    startup_path = route_path cfg.startup_route;
  },
  apply_middleware cfg.middleware inner,
)

unfoldable pub apply_config : List ConfigOption → Config → Config
apply_config [] c = c
apply_config (o ∷ os) c = apply_config os (o c)

-- `New`.
unfoldable pub new : List ConfigOption → Handler → HttpReporter × Handler
unfolding apply_config new_from_config
new os inner = new_from_config (apply_config os default_config) inner

-- A route means the same with and without its leading slash, unless it has a second one.
pub route_path-slash :
    (route : String) → strip route "/" ≡ none → route_path (concat "/" route) ≡ route_path route
unfolding route_path trim_prefix
route_path-slash route h = rw (strip-concat "/" route, h)
