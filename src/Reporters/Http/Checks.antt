-- ===== src/Reporters/Http/Checks.antt =====
-- The page of one check, by its name in the path.
use health.Base.{if◌then◌else◌, List, none, Option, some, String, string_eq, [], ◌==◌, ◌=?◌, ◌∷◌}
use health.Reporters.Http.State.{HttpReporter}
use health.Reporters.Http.Writer.{set_header, write, write_header, Writer}
use health.Reporters.Http.Probes.{Body, check_line, report_not_running, Request, text}
use health.Text.{trim_prefix}
use health.Errors.{concat}
use health.Check.{CheckResult, is_unhealthy}
use health.Base.Assoc.{lookup}
use health.SyncMap.{entries}

-- `http.NotFound`.
unfoldable pub not_found : Writer Body → Writer Body
not_found w = write (text "404 page not found\n") (
    write_header 404 (
      set_header "X-Content-Type-Options" "nosniff"
        (set_header "Content-Type" "text/plain; charset=utf-8" w)))

-- The loop over the prefixes: the first that shortens the path ends it.
unfoldable pub check_name : String → List String → String
check_name path [] = ""
check_name path (prefix ∷ prefixes) =
    let trimmed = trim_prefix path (concat prefix "/") in
    if trimmed =? path then check_name path prefixes else trimmed

unfoldable pub prefixes_of : HttpReporter → List String
prefixes_of r = r.live_path ∷ r.ready_path ∷ r.startup_path ∷ []

unfoldable pub check_page : String → Option CheckResult → Writer Body → Writer Body
check_page name none w = not_found w
check_page name (some hc) w = write (text (check_line name hc)) (
    write_header (if is_unhealthy hc.status then 503 else 200)
      (set_header "Content-Type" "text/plain; charset=utf-8" w))

unfoldable pub report_individual_check : Request → HttpReporter → Writer Body → Writer Body
unfolding report_not_running check_name prefixes_of check_page not_found
report_individual_check rq r w =
    let name = check_name rq.path (prefixes_of r) in
    if r.running == 0
    then report_not_running w
    else if name =? ""
    then not_found w
    else check_page name (lookup name (entries r.hcs)) w
