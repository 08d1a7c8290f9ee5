-- ===== src/Reporters/Stdout.antt =====
-- reporter/stdout/reporter.go: the reporter that prints. What it prints is a list of lines. The
-- right-aligned text of the verb %ns of package fmt is an argument.
use health.Base.{
  ℕ, Bool, Option, String, List, if◌then◌else◌, ◌==◌, arith, ◌∷◌, none, refl, ◌++◌, length, [], ◌≡◌,
  string_eq, ◌*◌, length-append, ◌+◌,
}
use health.SyncMap.{zero_map, GoMap, Map, absorb_map, entries, value, size}
use health.Reporter.{ReporterOps, Flags, IsReporter}
use health.Base.Assoc.{Assoc}
use health.Errors.{Error, concat}
use health.Check.{CheckResult, status_text}

pub record StdoutReporter : Type 0 where
  pub live : ℕ
  pub ready : ℕ
  pub startup : ℕ
  pub health_checks : Map String CheckResult

abbrev pub new_stdout_reporter : StdoutReporter
new_stdout_reporter = record { live = 0; ready = 0; startup = 0; health_checks = zero_map }

unfoldable pub set_liveness : Bool → StdoutReporter → StdoutReporter
set_liveness b r = record r { live = if b then 1 else 0 }

unfoldable pub set_readiness : Bool → StdoutReporter → StdoutReporter
set_readiness b r = record r { ready = if b then 1 else 0 }

unfoldable pub set_startup : Bool → StdoutReporter → StdoutReporter
set_startup b r = record r { startup = if b then 1 else 0 }

unfoldable pub run : StdoutReporter → StdoutReporter × Option Error
run r = (r, none)

unfoldable pub stop : StdoutReporter → StdoutReporter × Option Error
stop r = (r, none)

unfoldable pub update_health_checks : GoMap String CheckResult → StdoutReporter → StdoutReporter
update_health_checks m r = record r { health_checks = absorb_map m r.health_checks }

abbrev pub stdout_ops : ReporterOps StdoutReporter
stdout_ops = record {
  run = run;
  stop = stop;
  set_liveness = set_liveness;
  set_readiness = set_readiness;
  set_startup = set_startup;
  update_health_checks = update_health_checks;
}

-- The flags that the listing prints.
abbrev pub shows : StdoutReporter → Flags
shows r = record { live = r.live == 1; ready = r.ready == 1; startup = r.startup == 1 }

-- The reporter keeps the promises of the interface.
pub stdout_laws : IsReporter stdout_ops shows
unfolding run stop set_liveness set_readiness set_startup update_health_checks
stdout_laws = record {
  shows-set_liveness = λ b r. ground arith;
  shows-set_readiness = λ b r. ground arith;
  shows-set_startup = λ b r. ground arith;
  shows-update_health_checks = λ m r. refl;
  shows-run = λ r. refl;
  shows-stop = λ r. refl;
}

-- Right-aligned text in a field of a width, as %ns prints it.
abbrev pub Pad : Type 0
Pad = ℕ → String → String

abbrev pub yes_no : Bool → String
yes_no b = if b then "yes" else "no"

module _ (pad : Pad) where
  unfoldable pub check_lines : String → CheckResult → List String
  check_lines k hc =
      "|╭------------------------------------╮|"
      ∷ concat "||name" (concat (pad 32 k) "||")
      ∷ concat "||status" (concat (pad 30 (status_text hc.status)) "||")
      ∷ concat "||affects liveness" (concat (pad 20 (yes_no hc.affects_liveness)) "||")
      ∷ concat "||affects readiness" (concat (pad 19 (yes_no hc.affects_readiness)) "||")
      ∷ "|╰------------------------------------╯|"
      ∷ []

  unfoldable pub each_check_lines : Assoc String CheckResult → List String
  unfolding check_lines
  each_check_lines [] = []
  each_check_lines ((k, hc) ∷ l) = check_lines k hc ++ each_check_lines l

  abbrev pub rule : String
  rule = "|--------------------------------------|"

  unfoldable pub report_liveness : StdoutReporter → String
  report_liveness r = concat "|live:" (concat (pad 33 (yes_no (r.live == 1))) "|")

  unfoldable pub report_readiness : StdoutReporter → String
  report_readiness r = concat "|ready:" (concat (pad 32 (yes_no (r.ready == 1))) "|")

  unfoldable pub report_startup : StdoutReporter → String
  report_startup r = concat "|startup:" (concat (pad 30 (yes_no (r.startup == 1))) "|")

  unfoldable pub report_health_checks : StdoutReporter → List String
  unfolding each_check_lines report_liveness report_readiness report_startup
  report_health_checks r =
      "╭--------------------------------------╮"
        ∷ "|Health Status                         |"
        ∷ rule
        ∷ report_liveness r
        ∷ report_readiness r
        ∷ report_startup r
        ∷ rule
        ∷ "|Checks                                |"
        ∷ each_check_lines (entries (value r.health_checks))
      ++ "╰--------------------------------------╯" ∷ []

  length-check_lines : (k : String) (hc : CheckResult) → length (check_lines k hc) ≡ 6
  unfolding check_lines
  length-check_lines k hc = refl

  length-each_check_lines :
      (l : Assoc String CheckResult) → length (each_check_lines l) ≡ 6 * length l
  unfolding each_check_lines
  length-each_check_lines [] = refl
  length-each_check_lines ((k, hc) ∷ l) = omega (
    arith,
    length-append (check_lines k hc) (each_check_lines l),
    length-each_check_lines l,
    length-check_lines k hc,
  )

  -- An update prints nine fixed lines and six for each check that the reporter has heard of.
  pub length-report_health_checks :
      (r : StdoutReporter) → length (report_health_checks r) ≡ 9 + 6 * size r.health_checks
  unfolding report_health_checks size value
  length-report_health_checks r =
      let l = entries r.health_checks.items in
      omega (
        arith,
        length-append (each_check_lines l) ("╰--------------------------------------╯" ∷ []),
        length-each_check_lines l,
      )
