-- ===== src/Service.antt =====
-- What manager/std/manager.go promises, without its words, maps and setters: a service hears
-- reports, remembers the latest of each check, and judges itself by these.
pub mod Every
pub mod Laws
use health.Base.{
  Bool, false, if◌then◌else◌, is_some, none, not, Option, some, String, string_eq, true, [], ◌&&◌,
  ◌=?◌, ◌||◌, ◌∷◌,
}
use health.Base.Assoc.{Assoc}
use health.Check.{CheckResult, is_unhealthy}
use health.Manager.State.{Wrapper}

pub record Service : Type 0 where
  pub latest : String → Option CheckResult
  pub on : Bool
  -- Every check has been heard.
  pub complete : Bool
  pub started : Bool
  pub live : Bool
  pub ready : Bool

-- A service that has heard nothing.
abbrev pub new_service : Service
new_service = record {
  latest = λ _. none;
  on = false;
  complete = false;
  started = false;
  live = false;
  ready = false;
}

-- What a report says against liveness, and against readiness.
abbrev pub downs_live : CheckResult → Bool
downs_live hc = is_unhealthy hc.status && hc.affects_liveness

abbrev pub downs_ready : CheckResult → Bool
downs_ready hc = is_unhealthy hc.status && (hc.affects_liveness || hc.affects_readiness)

-- A test of the latest report, where there is one.
abbrev pub unless_heard : (CheckResult → Bool) → Option CheckResult → Bool
unless_heard bad none = true
unless_heard bad (some hc) = not (bad hc)

abbrev pub heard_and : (CheckResult → Bool) → Option CheckResult → Bool
heard_and bad none = false
heard_and bad (some hc) = not (bad hc)

-- A test of every registered check and its latest report.
unfoldable pub every :
    (Wrapper → Option CheckResult → Bool)
    → Assoc String Wrapper
    → (String → Option CheckResult)
    → Bool
every test [] latest = true
every test ((k, w) ∷ l) latest = test w (latest k) && every test l latest

abbrev pub gate_open : Wrapper → Option CheckResult → Bool
gate_open w o = not w.opts.affects_startup || heard_and downs_ready o

-- The latest reports after one more.
abbrev pub update : CheckResult → (String → Option CheckResult) → String → Option CheckResult
update hc latest name = if hc.name =? name then some hc else latest name

module _ (checks : Assoc String Wrapper) where
  abbrev pub all_heard : (String → Option CheckResult) → Bool
  all_heard = every (λ w o. is_some o) checks

  abbrev pub none_downs_live : (String → Option CheckResult) → Bool
  none_downs_live = every (λ w o. unless_heard downs_live o) checks

  abbrev pub none_downs_ready : (String → Option CheckResult) → Bool
  none_downs_ready = every (λ w o. unless_heard downs_ready o) checks

  -- Each check that gates startup has been heard, with nothing against readiness.
  abbrev pub startup_passes : (String → Option CheckResult) → Bool
  startup_passes = every gate_open checks

  abbrev pub no_gates : (String → Option CheckResult) → Bool
  no_gates = every (λ w o. not w.opts.affects_startup) checks

  -- The verdict of a service that runs and has heard every check: startup is complete once it
  -- passes, and from then on the two flags follow the latest reports.
  unfoldable pub judge : Service → Service
  judge s =
      if not (s.on && s.complete)
      then s
      else if not (s.started || startup_passes s.latest)
      then s
      else record s {
        started = true;
        live = none_downs_live s.latest;
        ready = none_downs_ready s.latest;
      }

  unfoldable pub hear : CheckResult → Service → Service
  unfolding judge
  hear hc s =
      let latest' = update hc s.latest in
      judge (record s { latest = latest'; complete = s.complete || all_heard latest' })

  -- The last lines of `Run`.
  unfoldable pub revive : Service → Service
  revive s = record s { live = true; started = s.started || no_gates s.latest }
