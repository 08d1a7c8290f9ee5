-- ===== src/Reporters/Http/Probes.antt =====
-- The three probe handlers, the verbose listing, and the manifest.
use health.Base.{
  Bool, false, if◌then◌else◌, List, map, none, not, Option, some, String, string_eq, true, ℕ, [],
  ◌&&◌, ◌==◌, ◌=?◌, ◌||◌, ◌∷◌,
}
use health.Reporters.Http.State.{
  CheckJson, error_or_empty, HttpReporter, text_if_positive, text_unless_zero, TimeText,
}
use health.Reporters.Http.Writer.{set_header, write, write_header, Writer}
use health.Check.{CheckResult, is_unhealthy, status_text}
use health.Base.Assoc.{Assoc}
use health.SyncMap.{entries}
use health.Base.Int.{ℤ}
use health.Discovery.Types.{CheckEntry, Manifest}
use health.Errors.{concat, error_text}

-- What a handler writes: a text, or a value that is encoded as JSON.
pub data Body : Type 0 where
  text : String → Body
  cached : Option (Assoc String CheckJson) → Body
  encoded : Manifest → Body

-- A request, as far as the handlers read it.
pub record Request : Type 0 where
  pub path : String
  -- The query has the key "verbose".
  pub verbose : Bool
  -- The values of the key "exclude".
  pub exclude : List String
  -- The user name and the password of the basic authentication header, if there is one.
  pub auth : Option (String × String)

unfoldable pub report_not_running : Writer Body → Writer Body
report_not_running rw' =
    write (text "{\"error\":\"health.reporter.httpserver: reporter not running\"}")
      (write_header 503 rw')

-- One line of a listing, and of the page of one check.
unfoldable pub check_line : String → CheckResult → String
check_line name hc =
    if is_unhealthy hc.status
    then concat "[-]" (
        concat name (
          concat " failed: "
            (concat (elim hc.error [ none ↦ "check failed" | some e ↦ error_text e ]) "\n")))
    else concat "[+]" (concat name " ok\n")

unfoldable pub is_excluded : String → List String → Bool
is_excluded name [] = false
is_excluded name (x ∷ xs) = x =? name || is_excluded name xs

-- The loop of `reportVerbose` over `allOK` and the buffer.
unfoldable pub verbose_lines :
    List String → Assoc String CheckResult → Bool × String → Bool × String
unfolding check_line is_excluded
verbose_lines excludes [] s = s
verbose_lines excludes ((name, hc) ∷ l) s = verbose_lines excludes l (
    if is_excluded name excludes
    then s
    else (s.0 && not (is_unhealthy hc.status), concat s.1 (check_line name hc)))

unfoldable pub report_verbose : Request → HttpReporter → Writer Body → Writer Body
unfolding verbose_lines
report_verbose rq r rw' =
    let (all_ok, buf) = verbose_lines rq.exclude (entries r.hcs) (true, "") in
    let w = write_header (if all_ok then 200 else 503) rw' in
    write (text buf) (set_header "Content-Type" "text/plain; charset=utf-8" w)

-- The common body of the three handlers, which differ in the word that they read.
unfoldable pub report_probe :
    (HttpReporter → ℕ) → Request → HttpReporter → Writer Body → Writer Body
unfolding report_not_running report_verbose
report_probe word rq r rw' =
    if r.running == 0
    then report_not_running rw'
    else if rq.verbose
    then report_verbose rq r rw'
    else write (cached r.hc_cache) (
        write_header (if word r == 0 then 503 else 200)
          (set_header "Content-Type" "application/json" rw'))

unfoldable pub report_liveness : Request → HttpReporter → Writer Body → Writer Body
unfolding report_probe
report_liveness = report_probe (λ r. r.live)

unfoldable pub report_readiness : Request → HttpReporter → Writer Body → Writer Body
unfolding report_probe
report_readiness = report_probe (λ r. r.ready)

unfoldable pub report_startup : Request → HttpReporter → Writer Body → Writer Body
unfolding report_probe
report_startup = report_probe (λ r. r.startup)

module _ (tt' : TimeText) where
  unfoldable pub check_entry : CheckResult → CheckEntry
  check_entry hc = record {
    name = hc.name;
    status = status_text hc.status;
    group = hc.group;
    component_type = hc.component_type;
    affects_liveness = hc.affects_liveness;
    affects_readiness = hc.affects_readiness;
    affects_startup = hc.affects_startup;
    depends_on = hc.depends_on;
    duration = text_if_positive tt' hc.duration;
    last_check = text_unless_zero tt' hc.timestamp;
    error = error_or_empty hc.error;
  }

  unfoldable pub manifest_of : ℤ → HttpReporter → Manifest
  unfolding check_entry
  manifest_of now r = record {
    service = r.service_name;
    version = r.service_ver;
    status = if r.live == 0 then "fail" else if r.ready == 0 then "warn" else "pass";
    checks = map (λ p. check_entry p.1) (entries r.hcs);
    timestamp = now;
  }

  -- `now` is the instant at which the handler runs.
  unfoldable pub report_manifest : ℤ → HttpReporter → Writer Body → Writer Body
  unfolding manifest_of report_not_running
  report_manifest now r rw' =
      if r.running == 0
      then report_not_running rw'
      else write (encoded (manifest_of now r))
          (write_header 200 (set_header "Content-Type" "application/json" rw'))
