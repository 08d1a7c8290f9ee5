-- ===== src/Reporters/Http/Routes.antt =====
-- A configured reporter from `New` to the answer of one request.
use health.Reporters.Http.State.{
  cache_health_checks, HttpReporter, run, TimeText, update_health_checks,
}
use health.Base.{arith, List, none, refl, String, string_eq, [], ◌≡◌, ◌≢◌}
use health.Reporters.Http.Config.{
  apply_config, ConfigOption, default_config, new, new_from_config, route_path,
}
use health.Reporters.Http.Middleware.{Handler}
use health.SyncMap.{entries, GoMap}
use health.Check.{CheckResult}
use health.Reporters.Http.Probes.{Request}
use health.Errors.{concat}
use health.Reporters.Http.Answers.{code_of, individual_check_lem, page_code}
use health.Base.Assoc.{insert_all, lookup}
use health.Reporters.Http.Checks.{report_individual_check}
use health.Reporters.Http.Writer.{fresh_writer}

module _ (tt' : TimeText) (os : List ConfigOption) (inner : Handler)
    (m : GoMap String CheckResult) where
  -- The reporter after `New`, `Run` with a listener that opens, and one update.
  abbrev pub updated : HttpReporter
  updated = update_health_checks tt' m (run none (new os inner).0).0

  updated_state :
      (updated.running ≡ 1)
      × (updated.live_path ≡ route_path (apply_config os default_config).liveness_route)
      × (entries updated.hcs ≡ insert_all (entries m) [])
  unfolding update_health_checks cache_health_checks run new new_from_config
  updated_state = (refl, refl, refl)

  -- A reporter that `New` made with any options, that runs and was updated once, answers a request
  -- for a check below its liveness route by that update: 200, 503 if the check is unhealthy, and
  -- 404 if it is not in the update.
  pub individual_check-new :
      (rq : Request) (name : String)
      → name ≢ ""
      → rq.path
        ≡ concat (concat (route_path (apply_config os default_config).liveness_route) "/") name
      → code_of (report_individual_check rq updated fresh_writer)
        ≡ page_code (lookup name (insert_all (entries m) []))
  individual_check-new rq name ne e =
      let (on, path, held) = updated_state in
      rw (← held)
        (individual_check_lem rq updated name (λ z. absurd (omega (arith, on, z))) ne (rw path e))
