-- ===== src/Reporters/Http/Answers.antt =====
-- What the handlers answer to an orchestrator.
use mathlib.Core.List.{Memᴰ}
use health.Base.{
  sym, subst, ◌=?◌, arith, Bool, Bool-cases, eq_iff, false, if◌then◌else◌, inl, inr, List, none,
  not, Option, refl, some, String, string_eq, true, ℕ, [], ◌&&◌, ◌||◌, ◌↔◌, ◌∷◌, ◌≡◌, ◌≢◌, ◌≤◌, ◌⊎◌,
}
use health.Reporters.Http.State.{HttpReporter, shows, TimeText}
use health.Reporters.Http.Writer.{fresh_writer, set_header, write, write_header, Writer}
use health.Base.Assoc.{Assoc, insert, lookup}
use health.Reporters.Http.Probes.{
  Body, cached, check_line, is_excluded, report_liveness, report_manifest, report_readiness,
  report_probe, report_startup, report_verbose, Request, verbose_lines,
}
use health.Reporters.Http.Checks.{
  check_name, check_page, not_found, prefixes_of, report_individual_check,
}
use health.Check.{CheckResult, Status, degraded, healthy, is_unhealthy, unhealthy}
use health.Errors.{concat}
use health.Base.Int.{ℤ}
use health.SyncMap.{entries}
use health.Text.{concat-ne, trim_prefix, trim_prefix-concat}

-- The status that goes out.
abbrev pub code_of : Writer Body → ℕ
code_of w = elim w.sent [ none ↦ 0 | some p ↦ p.0 ]

abbrev pub headers_of : Writer Body → Assoc String String
headers_of w = elim w.sent [ none ↦ [] | some p ↦ p.1 ]

abbrev pub json_header : Assoc String String
json_header = ("Content-Type", "application/json") ∷ []

-- A probe that is not verbose, of a reporter that runs and whose three words are 0 or 1, answers
-- 200 while its flag is shown and 503 otherwise, as JSON, with the cached results for a body.
pub report_probe_lem :
    (rq : Request) (r : HttpReporter)
    → r.running ≢ 0
    → rq.verbose ≡ false
    → r.live ≤ 1
    → r.ready ≤ 1
    → r.startup ≤ 1
    → (report_liveness rq r fresh_writer ≡ record {
      header = json_header;
      sent = some (if (shows r).live then 200 else 503, json_header);
      body = cached r.hc_cache ∷ [];
    })
      × (report_readiness rq r fresh_writer ≡ record {
        header = json_header;
        sent = some (if (shows r).ready then 200 else 503, json_header);
        body = cached r.hc_cache ∷ [];
      })
      × (report_startup rq r fresh_writer ≡ record {
        header = json_header;
        sent = some (if (shows r).startup then 200 else 503, json_header);
        body = cached r.hc_cache ∷ [];
      })
unfolding report_liveness report_readiness report_startup write write_header set_header insert
report_probe_lem rq r on plain l d s = (ground arith, ground arith, ground arith)

-- A reporter that does not run answers every handler with 503.
not_running_unavailable :
    (tt' : TimeText) (now : ℤ) (rq : Request) (r : HttpReporter)
    → r.running ≡ 0
    → (code_of (report_liveness rq r fresh_writer) ≡ 503)
      × (code_of (report_readiness rq r fresh_writer) ≡ 503)
      × (code_of (report_startup rq r fresh_writer) ≡ 503)
      × (code_of (report_individual_check rq r fresh_writer) ≡ 503)
      × (code_of (report_manifest tt' now r fresh_writer) ≡ 503)
unfolding report_liveness report_readiness report_startup report_individual_check report_manifest
    write write_header set_header
not_running_unavailable tt' now rq r off =
    (ground arith, ground arith, ground arith, ground arith, ground arith)

-- No check outside the exclusions is unhealthy.
abbrev pub AllServing : List String → Assoc String CheckResult → Type 0
AllServing excludes [] = Unit
AllServing excludes ((name, hc) ∷ l) =
    ((Memᴰ name excludes → ⊥) → hc.status ≢ unhealthy) × AllServing excludes l

excluded_here :
    (name x : String) (xs : List String)
    → Memᴰ name (x ∷ xs)
    → (Memᴰ name xs → is_excluded name xs ≡ true)
    → is_excluded name (x ∷ xs) ≡ true
unfolding is_excluded
excluded_here name x xs (Memᴰ.head e) g = ground (arith, eq_iff x name, e)
excluded_here name x xs (Memᴰ.tail m) g = let h = g m in ground arith

is_unhealthy_iff : (s : Status) → (is_unhealthy s ≡ true) ↔ (s ≡ unhealthy)
is_unhealthy_iff unhealthy = (λ h. refl, λ h. refl)
is_unhealthy_iff healthy = (λ h. absurd (cc), λ h. absurd (cc))
is_unhealthy_iff degraded = (λ h. absurd (cc), λ h. absurd (cc))
is_unhealthy_iff (health.Check.other n) = (λ h. absurd (cc), λ h. absurd (cc))

is_excluded_iff :
    (name : String) (excludes : List String)
    → (is_excluded name excludes ≡ true) ↔ Memᴰ name excludes
unfolding is_excluded
is_excluded_iff name [] = (λ h. absurd (cc), λ m. elim m [ ])
is_excluded_iff name (x ∷ xs) =
    let (f, g) = is_excluded_iff name xs in
    (
      λ h. elim (Bool-cases (x =? name)) [
        | inl same ↦ Memᴰ.head (ground (arith, eq_iff x name))
        | inr other ↦ Memᴰ.tail (f (ground arith))
      ],
      λ m. excluded_here name x xs m g,
    )

-- What one entry asks for.
serving_here_iff :
    (excludes : List String) (name : String) (s : Status)
    → ((is_excluded name excludes || not (is_unhealthy s)) ≡ true)
      ↔ ((Memᴰ name excludes → ⊥) → s ≢ unhealthy)
serving_here_iff excludes name s =
    let (excluded, listed) = is_excluded_iff name excludes in
    let (down, is_down) = is_unhealthy_iff s in
    elim (Bool-cases (is_excluded name excludes)) [
      | inl e ↦ (λ h out bad. out (excluded e), λ h. ground arith)
      | inr e ↦ (
        λ h out bad. let d = is_down bad in absurd (ground arith),
        λ h. elim (Bool-cases (is_unhealthy s)) [
          | inl d ↦ absurd (h (λ m. let y = listed m in absurd (ground arith)) (down d))
          | inr d ↦ ground arith
        ],
      )
    ]

all_serving : List String → Assoc String CheckResult → Bool
all_serving excludes [] = true
all_serving excludes ((name, hc) ∷ l) =
    (is_excluded name excludes || not (is_unhealthy hc.status)) && all_serving excludes l

verbose_lines-ok :
    (excludes : List String) (l : Assoc String CheckResult) (s : Bool × String)
    → (verbose_lines excludes l s).0 ≡ (s.0 && all_serving excludes l)
unfolding verbose_lines all_serving
verbose_lines-ok excludes [] s = ground arith
verbose_lines-ok excludes ((name, hc) ∷ l) s = ground (
  arith,
  verbose_lines-ok excludes l (
      if is_excluded name excludes
      then s
      else (s.0 && not (is_unhealthy hc.status), concat s.1 (check_line name hc))),
)

all_serving_iff :
    (excludes : List String) (l : Assoc String CheckResult)
    → (all_serving excludes l ≡ true) ↔ AllServing excludes l
unfolding all_serving
all_serving_iff excludes [] = (λ h. tt, λ h. refl)
all_serving_iff excludes ((name, hc) ∷ l) =
    let (f, g) = all_serving_iff excludes l in
    let (here→, →here) = serving_here_iff excludes name hc.status in
    (
      λ h. (here→ (ground arith), f (ground arith)),
      λ h. let c = g h.1 in let d = →here h.0 in ground arith,
    )

probes_verbose :
    (rq : Request) (r : HttpReporter)
    → r.running ≢ 0
    → rq.verbose ≡ true
    → (report_liveness rq r fresh_writer ≡ report_verbose rq r fresh_writer)
      × (report_readiness rq r fresh_writer ≡ report_verbose rq r fresh_writer)
      × (report_startup rq r fresh_writer ≡ report_verbose rq r fresh_writer)
unfolding report_liveness report_readiness report_startup report_probe
probes_verbose rq r on verbose = (ground arith, ground arith, ground arith)

-- 200 if no check outside the exclusions is unhealthy, and else 503.
abbrev pub AnswersListing : Request → HttpReporter → Writer Body → Type 0
AnswersListing rq r w =
    ((code_of w ≡ 200) ↔ AllServing rq.exclude (entries r.hcs))
    × ((code_of w ≡ 200) ⊎ (code_of w ≡ 503))

report_verbose-AnswersListing :
    (rq : Request) (r : HttpReporter) → AnswersListing rq r (report_verbose rq r fresh_writer)
unfolding report_verbose write write_header set_header
report_verbose-AnswersListing rq r =
    let e = verbose_lines-ok rq.exclude (entries r.hcs) (true, "") in
    let (f, g) = all_serving_iff rq.exclude (entries r.hcs) in
    (
      (λ h. f (ground arith), λ h. let c = g h in ground arith),
      elim (Bool-cases (verbose_lines rq.exclude (entries r.hcs) (true, "")).0) [
        | inl c ↦ inl (ground arith)
        | inr c ↦ inr (ground arith)
      ],
    )

-- A verbose request to any of the three probes of a reporter that runs gets 200 exactly when no
-- check outside the exclusions of the request is unhealthy, and else 503, whatever the three flags.
pub report_verbose_lem :
    (rq : Request) (r : HttpReporter)
    → r.running ≢ 0
    → rq.verbose ≡ true
    → AnswersListing rq r (report_liveness rq r fresh_writer)
      × AnswersListing rq r (report_readiness rq r fresh_writer)
      × AnswersListing rq r (report_startup rq r fresh_writer)
report_verbose_lem rq r on verbose =
    let a = report_verbose-AnswersListing rq r in
    let (l, d, s) = probes_verbose rq r on verbose in
    (
      subst (AnswersListing rq r) (sym l) a,
      subst (AnswersListing rq r) (sym d) a,
      subst (AnswersListing rq r) (sym s) a,
    )

-- What the page of one check answers.
abbrev pub page_code : Option CheckResult → ℕ
page_code none = 404
page_code (some hc) = if is_unhealthy hc.status then 503 else 200

check_page_code :
    (name : String) (o : Option CheckResult)
    → code_of (check_page name o fresh_writer) ≡ page_code o
unfolding check_page not_found write write_header set_header
check_page_code name none = refl
check_page_code name (some hc) = refl

check_name-live :
    (path : String) (r : HttpReporter) (name : String)
    → path ≡ concat (concat r.live_path "/") name
    → check_name path (prefixes_of r) ≡ name
unfolding check_name prefixes_of
check_name-live path r name e =
    let p = concat r.live_path "/" in
    let ne =
      concat-ne p name (omega (arith, text.Mathlib.TextLemmas.length-append r.live_path "/")) in
    let t : trim_prefix path p ≡ name = rw e (trim_prefix-concat p name) in
    ground (arith, eq_iff (trim_prefix path p) path, ne)

-- Below the liveness route of a reporter that runs, the path with a name that is not empty answers
-- 200, 503 if the check of that name is unhealthy, and 404 if there is no such check.
pub individual_check_lem :
    (rq : Request) (r : HttpReporter) (name : String)
    → r.running ≢ 0
    → name ≢ ""
    → rq.path ≡ concat (concat r.live_path "/") name
    → code_of (report_individual_check rq r fresh_writer) ≡ page_code (lookup name (entries r.hcs))
unfolding report_individual_check check_page
individual_check_lem rq r name on ne path = ground (
  arith,
  check_name-live rq.path r name path,
  check_page_code name (lookup name (entries r.hcs)),
  eq_iff name "",
)
