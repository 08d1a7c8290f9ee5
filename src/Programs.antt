-- ===== src/Programs.antt =====
-- What the programs of e2e/cmd and examples/basic share: the world that their checkers ask, the
-- registrations that end the program at the first error, and the last lines of `main`. What a
-- program logs is left out.
pub mod Services
pub mod Setup
pub mod Checks
pub mod Ready
pub mod Cascade
pub mod Works
pub mod Serving
use health.Base.{List, none, Option, some, String, ◌∷◌, [], ◌⊎◌, inl, inr, ℕ}
use health.Base.Int.{pos, ℤ}
use health.Checkers.{Response}
use health.Checkers.Dns
use health.Checkers.Dns.{DnsOption, Names}
use health.Checkers.Http
use health.Checkers.Http.{HttpOption, Web}
use health.Checkers.Redis.{Conn, Texts}
use health.Checkers.Redis.Setup as Redis
use health.Checkers.Redis.Setup.{RedisOption}
use health.Checkers.Tcp
use health.Checkers.Tcp.{TcpOption}
use health.Errors.{Error}
use health.Manager.Lifecycle.{add_check, add_reporter, run_start, Start, stop}
use health.Manager.State.{Context, Manager, new_manager}
use health.Options.{Checker, returned}
use health.Reporter.{ReporterOps}
use health.System.Setup.{of_check, of_reporter, Registration}

-- The network and the clock. A question is asked at an instant; `end_of` is the instant at which a
-- check that started at another one ends. `C`, `V` and `S` are HTTP clients, resolvers and
-- connections to Redis.
pub record World (C V S : Type 0) : Type 0 where
  pub end_of : ℤ → ℤ
  pub client_of : ℤ → C
  pub ask : ℤ → C → ℤ → String → String → Response
  pub decimal : ℕ → String
  pub names : ℤ → Names V
  pub dial : ℤ → ℤ → String → Option Error
  pub texts : Texts
  pub conn : Conn S
  pub dial_redis : ℤ → ℤ → String → Error ⊎ S

module _ {C V S : Type 0} (world : World C V S) where
  abbrev pub web_at : ℤ → Web C
  web_at now = record { client_of = world.client_of; ask = world.ask now; decimal = world.decimal }

  -- The checkers that the constructors make, as what a call at each instant does.
  unfoldable pub tcp_checker : String → String → List TcpOption → Checker
  tcp_checker name addr opts now =
      returned
        (some (Tcp.check (world.dial now) (Tcp.new_checker name addr opts) now (world.end_of now)))

  unfoldable pub dns_checker : String → String → List (DnsOption V) → Checker
  dns_checker name host opts now = returned (
      some (
        Dns.check (world.names now) (Dns.new_checker (world.names now) name host opts) now
          (world.end_of now)))

  unfoldable pub http_checker : String → String → List (HttpOption C) → Checker
  http_checker name url opts now =
      Http.check (web_at now) (Http.new_checker (web_at now) name url opts) now (world.end_of now)

  unfoldable pub redis_checker : String → String → List RedisOption → Checker
  redis_checker name addr opts now = returned (
      some (
        Redis.check world.texts world.conn (world.dial_redis now) (Redis.new_checker name addr opts)
          now (world.end_of now)))

module _ {R : Type 0} where
  register_or_fail : Registration R → Manager R → Manager R × Option Error
  register_or_fail (of_check name checker opts) m = add_check name checker opts m
  register_or_fail (of_reporter name r) m = add_reporter name r m

  -- `if err := mgr.Add…; err != nil { log.Fatalf(…) }`, one after the other: the error is the one
  -- with which the program ends.
  unfoldable pub set_up : List (Registration R) → Manager R → Manager R × Option Error
  unfolding register_or_fail
  set_up [] m = (m, none)
  set_up (x ∷ xs) m =
      let (m', e) = register_or_fail x m in
      let rest = set_up xs m' in elim e [ none ↦ rest | some err ↦ (m', some err) ]

start_or_fail : {R : Type 0} → ReporterOps R → Context → Manager R × Option Error → Error ⊎ Start R
start_or_fail ops ctx (m, none) = inr (run_start ops ctx m)
start_or_fail ops ctx (m, some err) = inl err

-- `main` up to its `select`: `inl` if a registration failed, and else what `Run` does.
unfoldable pub start_main :
    {R : Type 0} → ReporterOps R → Context → List (Registration R) → Error ⊎ Start R
unfolding start_or_fail
start_main ops ctx xs = start_or_fail ops ctx (set_up xs new_manager)

-- How `main` ends once the manager runs: by `log.Fatalf` on an error from the channel, or by
-- returning after `Stop`.
pub data Ending : Type 0 where
  fatal : Error → Ending
  returns : Ending

module _ {R : Type 0} (ops : ReporterOps R) where
  -- The `select`: an error from the channel, or the context that is done. The error of `Stop` is
  -- logged.
  unfoldable pub select : Error ⊎ Context → Manager R → Manager R × Ending
  select (inl err) m = (m, fatal err)
  select (inr ctx) m = ((stop ops ctx m).0, returns)

  -- The loop of examples/basic over what its `select` gives: errors are logged, and the context that
  -- is done ends the program.
  unfoldable pub select_loop : List (Error ⊎ Context) → Manager R → Manager R × Option Ending
  select_loop [] m = (m, none)
  select_loop (inl err ∷ events) m = select_loop events m
  select_loop (inr ctx ∷ events) m = ((stop ops ctx m).0, some returns)
