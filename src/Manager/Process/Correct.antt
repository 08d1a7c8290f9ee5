-- ===== src/Manager/Process/Correct.antt =====
-- What `processHealthCheck` stores and counts.
use health.Manager.State.{Manager, Tally, Wrapper}
use health.Manager.Process.{classify, process_result, record_tally}
use health.Base.{
  arith, Bool-cases, eq_iff, if◌then◌else◌, inl, inr, refl, some, String, string_eq, true, [], ◌=?◌,
  ◌↔◌, ◌∷◌, ◌≡◌, ◌⊎◌,
}
use health.SyncMap.{get, made, Map, set, size}
use health.Reporter.{ReporterOps}
use health.Check.{CheckResult}
use health.Manager.Invariant.{entries_of, HasWords, IsWf, IsWf-of_words, IsWf-words}
use health.Base.Assoc.Count.{has_key, KeysWithin, KeysWithin-all, length-le_of_KeysWithin}
use health.Manager.Flags.{notify}
use health.SyncMap.Laws.{get-set, IsMap, set-IsMap}
use health.Base.Assoc.Laws.{lookup-insert}

-- The report of a registered check keeps the stored names among the registered ones.
set-known :
    (name : String) (t : Tally) (results : Map String Tally) (checkers : Map String Wrapper)
    → has_key name (entries_of checkers) ≡ true
    → KeysWithin (entries_of results) (entries_of checkers)
    → KeysWithin (entries_of (set name t results)) (entries_of checkers)
unfolding set
set-known name t results checkers reg h k p = elim (Bool-cases (name =? k)) [
  | inl same ↦ ground (arith, eq_iff name k)
  | inr other ↦ h k (ground (arith, lookup-insert name k t (entries_of results)))
]

set-reported :
    (name : String) (t : Tally) (results : Map String Tally) (checkers : Map String Wrapper)
    → KeysWithin (entries_of checkers) (entries_of results)
    → KeysWithin (entries_of checkers) (entries_of (set name t results))
unfolding set
set-reported name t results checkers h k p =
    let q = h k p in ground (arith, lookup-insert name k t (entries_of results))

-- As many results as registered checks means that each has one.
size-reported :
    (results : Map String Tally) (checkers : Map String Wrapper)
    → IsMap results
    → IsMap checkers
    → KeysWithin (entries_of results) (entries_of checkers)
    → size results ≡ size checkers
    → KeysWithin (entries_of checkers) (entries_of results)
unfolding size
size-reported results checkers dr dc h e =
    KeysWithin-all (entries_of results) (entries_of checkers) dr dc h (omega arith)

reported-size :
    (results : Map String Tally) (checkers : Map String Wrapper)
    → IsMap results
    → IsMap checkers
    → KeysWithin (entries_of results) (entries_of checkers)
    → KeysWithin (entries_of checkers) (entries_of results)
    → size results ≡ size checkers
unfolding size
reported-size results checkers dr dc h g = omega (
  arith,
  length-le_of_KeysWithin (entries_of results) (entries_of checkers) dr dc h,
  length-le_of_KeysWithin (entries_of checkers) (entries_of results) dc dr g,
)

module _ {R : Type 0} where
  results-record_tally :
      (name : String) (t : Tally) (m : Manager R)
      → (record_tally name t m).check_results ≡ set name t m.check_results
  unfolding record_tally
  results-record_tally name t m = ground arith

  checkers-record_tally :
      (name : String) (t : Tally) (m : Manager R) → (record_tally name t m).checkers ≡ m.checkers
  unfolding record_tally
  checkers-record_tally name t m = ground arith

  record_tally-words :
      (name : String) (t : Tally) (m : Manager R) → HasWords m → HasWords (record_tally name t m)
  unfolding record_tally
  record_tally-words name t m h = ground arith

  ran-record_tally :
      (name : String) (t : Tally) (m : Manager R)
      → (record_tally name t m).all_checks_ran ≡ 1
      → (m.all_checks_ran ≡ 1) ⊎ (size (set name t m.check_results) ≡ size m.checkers)
  unfolding record_tally
  ran-record_tally name t m h = ground arith

  pub record_tally-IsWf :
      (name : String) (t : Tally) (m : Manager R)
      → has_key name (entries_of m.checkers) ≡ true
      → IsWf m
      → IsWf (record_tally name t m)
  record_tally-IsWf name t m reg w =
      let words = record_tally-words name t m (IsWf-words w) in
      let known' = set-known name t m.check_results m.checkers reg w.known in
      let map' = set-IsMap name t m.check_results w.results_map in
      record {
        flags = words.flags;
        checkers_map = rw checkers-record_tally w.checkers_map;
        results_map = rw results-record_tally map';
        known = rw (checkers-record_tally, results-record_tally) known';
        reported = λ e.
            rw (checkers-record_tally, results-record_tally)
              (elim (ran-record_tally name t m e) [
                | inl before ↦ set-reported name t m.check_results m.checkers (w.reported before)
                | inr full ↦
                    size-reported (set name t m.check_results) m.checkers map' w.checkers_map known'
                      full
              ]);
        ready_gate = words.ready_gate;
        startup_shown = words.startup_shown;
      }

  ran_of_full :
      (name : String) (t : Tally) (m : Manager R)
      → m.all_checks_ran ≡ 0
      → size (set name t m.check_results) ≡ size m.checkers
      → (record_tally name t m).all_checks_ran ≡ 1
  unfolding record_tally
  ran_of_full name t m e h = ground arith

  ran_of_reported :
      (name : String) (t : Tally) (m : Manager R)
      → has_key name (entries_of m.checkers) ≡ true
      → IsWf m
      → m.all_checks_ran ≡ 0
      → KeysWithin (entries_of m.checkers) (entries_of (set name t m.check_results))
      → (record_tally name t m).all_checks_ran ≡ 1
  ran_of_reported name t m reg w e h = ran_of_full name t m e (
      reported-size (set name t m.check_results) m.checkers
        (set-IsMap name t m.check_results w.results_map) w.checkers_map
        (set-known name t m.check_results m.checkers reg w.known) h)

  -- The first time that all checks have reported is noticed: after a report, with none noticed
  -- before, the word is set exactly when every registered check has a result.
  ran-record_tally_iff :
      (name : String) (t : Tally) (m : Manager R)
      → has_key name (entries_of m.checkers) ≡ true
      → IsWf m
      → m.all_checks_ran ≡ 0
      → ((record_tally name t m).all_checks_ran ≡ 1)
        ↔ KeysWithin (entries_of m.checkers) (entries_of (record_tally name t m).check_results)
  ran-record_tally_iff name t m reg w e = (
    λ h. rw checkers-record_tally at ((record_tally-IsWf name t m reg w).reported h),
    λ h. ran_of_reported name t m reg w e (rw results-record_tally at h),
  )

module _ {R : Type 0} (ops : ReporterOps R) where
  relay : CheckResult → Manager R → Manager R
  relay hc m = record m {
    reporters = notify (ops.update_health_checks (made ((hc.name, hc) ∷ []))) m.reporters;
  }

  relay-IsWf : (hc : CheckResult) (m : Manager R) → IsWf m → IsWf (relay hc m)
  unfolding relay
  relay-IsWf hc m w =
      IsWf-of_words m (relay hc m) w
        (record { same_checkers = refl; same_results = refl; same_ran = refl; same_funnel = refl })
        (ground (arith, IsWf-words w))

  process_result-relay :
      (hc : CheckResult) (m : Manager R)
      → process_result ops hc m
        ≡ record_tally hc.name
            (classify hc.status hc.affects_liveness hc.affects_readiness)
            (relay hc m)
  unfolding process_result relay
  process_result-relay hc m = refl

  -- A report that carries a registered name keeps the invariant.
  pub process_result-IsWf :
      (hc : CheckResult) (m : Manager R)
      → has_key hc.name (entries_of m.checkers) ≡ true
      → IsWf m
      → IsWf (process_result ops hc m)
  process_result-IsWf hc m reg w = rw process_result-relay (
      record_tally-IsWf hc.name (classify hc.status hc.affects_liveness hc.affects_readiness)
        (relay hc m) (unfold relay in reg) (relay-IsWf hc m w))

  -- After a report is handled, the results hold its classification under its name and are
  -- unchanged under every other name.
  pub get-process_result :
      (hc : CheckResult) (m : Manager R) (name : String)
      → get name (process_result ops hc m).check_results ≡ (
          if hc.name =? name
          then some (classify hc.status hc.affects_liveness hc.affects_readiness)
          else get name m.check_results)
  get-process_result hc m name =
      rw (process_result-relay, results-record_tally)
        (unfold relay in
          get-set hc.name name (classify hc.status hc.affects_liveness hc.affects_readiness)
            m.check_results)

  -- With a report of a registered check, a well-formed manager whose word for it is still 0 notices
  -- that all checks have run exactly when every registered check has a stored result.
  pub process_result-ran_iff :
      (hc : CheckResult) (m : Manager R)
      → has_key hc.name (entries_of m.checkers) ≡ true
      → IsWf m
      → m.all_checks_ran ≡ 0
      → ((process_result ops hc m).all_checks_ran ≡ 1)
        ↔ KeysWithin (entries_of m.checkers) (entries_of (process_result ops hc m).check_results)
  process_result-ran_iff hc m reg w e = rw process_result-relay (
      unfold relay in
      ran-record_tally_iff hc.name (classify hc.status hc.affects_liveness hc.affects_readiness)
        (relay hc m) reg (relay-IsWf hc m w) e)

  pub process_result-frame :
      (hc : CheckResult) (m : Manager R)
      → ((process_result ops hc m).checkers ≡ m.checkers)
        × ((process_result ops hc m).check_funnel ≡ m.check_funnel)
  unfolding process_result
  process_result-frame hc m = ground arith
