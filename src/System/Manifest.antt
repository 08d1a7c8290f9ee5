-- ===== src/System/Manifest.antt =====
-- From the manager to a client in another service: the manager tells the HTTP reporter, which
-- serves a manifest, which the discovery fetches.
use health.Reporters.Http.State.{
  HttpReporter, http_ops, TimeText, run, stop, set_liveness, set_readiness, set_startup,
  update_health_checks,
}
use health.Reporter.{Flags, IsReporter}
use health.Manager.State.{Manager, is_live, is_ready}
use health.System.{configured, Reach, System}
use health.System.Readiness.{Reach-InSync}
use health.System.Setup.{registered_manager, Registration, StartsDown}
use health.Discovery.Fetch.Roundtrip.{fetch-report_manifest, Reaches}
use health.Reporters.Http.Probes.{Body, manifest_of}
use health.Base.{
  not, Option, Bool, ◌==◌, String, ◌≡◌, List, arith, if◌then◌else◌, ℕ, refl, All, some, ◌≢◌, inr,
  string_eq, ap, false, ◌∙◌, true,
}
use health.Base.Int.{ℤ}
use health.Discovery.Fetch.{Net, DiscoverOption, fetch_manifest}
use health.Errors.{Error, concat}
use health.Manager.Flags.Sync.{flags_of}
use health.SyncMap.{get}
use health.Discovery.Types.{Manifest}
use health.Text.Trim.{slashes}

-- The flags as the handlers of the reporter read them: a word that is not 0.
abbrev pub serves : HttpReporter → Flags
serves r = record {
  live = not (r.live == 0);
  ready = not (r.ready == 0);
  startup = not (r.startup == 0);
}

-- The reporter keeps the laws of the interface with these flags too.
pub serves_laws :
    (tt' : TimeText) (listen shutdown : Option Error)
    → IsReporter (http_ops tt' listen shutdown) serves
unfolding run stop set_liveness set_readiness set_startup update_health_checks
serves_laws tt' listen shutdown = record {
  shows-set_liveness = λ b r. ground arith;
  shows-set_readiness = λ b r. ground arith;
  shows-set_startup = λ b r. ground arith;
  shows-update_health_checks = λ m r. ground arith;
  shows-run = λ r. ground arith;
  shows-stop = λ r. refl;
}

-- The status for the liveness and the readiness of a service.
abbrev pub status_for : Bool → Bool → String
status_for live ready = if live then (if ready then "pass" else "warn") else "fail"

status_by_words :
    (down unready : Bool)
    → (if down then "fail" else if unready then "warn" else "pass")
      ≡ status_for (not down) (not unready)
status_by_words true unready = refl
status_by_words false true = refl
status_by_words false false = refl

status-manifest_of :
    (tt' : TimeText) (now : ℤ) (r : HttpReporter) (m : Manager HttpReporter)
    → serves r ≡ flags_of m
    → (manifest_of tt' now r).status ≡ status_for (is_live m) (is_ready m)
unfolding manifest_of is_live is_ready
status-manifest_of tt' now r m e =
    let live : not (r.live == 0) ≡ is_live m = ap (λ (f : Flags). f.live) e in
    let ready : not (r.ready == 0) ≡ is_ready m = ap (λ (f : Flags). f.ready) e in
    status_by_words (r.live == 0) (r.ready == 0)
    ∙ ap (λ b. status_for b (not (r.ready == 0))) live
    ∙ ap (status_for (is_live m)) ready

if_false : {A : Type 0} (off : Bool) (a b : A) → off ≡ false → (if off then a else b) ≡ b
if_false off a b e = rw e refl

module _ {C X Q : Type 0} (net : Net C X Q (List Body)) where
  -- In every state that an application with HTTP reporters, which show no flag when they are
  -- registered, can reach after its registrations, by any order of the steps of System.Step: a fetch that reaches one
  -- of its reporters, which runs, returns a manifest whose status is "pass" if the manager is live
  -- and ready, "warn" if it is live only, and else "fail".
  Reach-fetched :
      (tt' : TimeText) (listen shutdown : Option Error) (xs : List (Registration HttpReporter))
      (s : System HttpReporter) (name : String) (r : HttpReporter) (base : String) (n : ℕ) (now : ℤ)
      (ctx : X) (opts : List (DiscoverOption C))
      → All (StartsDown serves) xs
      → Reach (http_ops tt' listen shutdown) (configured (registered_manager xs)) s
      → get name s.manager.reporters ≡ some r
      → r.running ≢ 0
      → Reaches net base tt' now r
      → (m : Manifest) × (fetch_manifest net ctx (concat base (slashes n)) opts ≡ inr m)
        × (m.status ≡ status_for (is_live s.manager) (is_ready s.manager))
  Reach-fetched tt' listen shutdown xs s name r base n now ctx opts f steps p on h = (
    manifest_of tt' now r,
    fetch-report_manifest net base n tt' now r ctx opts h
        ∙ if_false (r.running == 0) _ (inr (manifest_of tt' now r)) (ground arith),
    status-manifest_of tt' now r s.manager
        (Reach-InSync (serves_laws tt' listen shutdown) xs s f steps name r p),
  )
