-- ===== src/Manager/Flags.antt =====
-- The setters of the three flags, each of which tells the reporters when the flag changed.
pub mod Sync
pub mod Race
use health.Base.{Bool, false, if◌then◌else◌, not, String, true, ℕ, ◌&&◌, ◌==◌}
use health.SyncMap.{each_object, Map}
use health.Reporter.{ReporterOps}
use health.Manager.State.{Manager}

abbrev pub flag : Bool → ℕ
flag b = if b then 1 else 0

module _ {R : Type 0} where
  -- `reporters.Each(func(_, r) { f(r); return true })`.
  unfoldable pub notify : (R → R) → Map String R → Map String R
  notify f reporters = (each_object (λ _ r s. (f r, s, true)) reporters (tt {0})).0

module _ {R : Type 0} (ops : ReporterOps R) where
  unfoldable pub set_live : Bool → Manager R → Manager R × Bool
  set_live b m =
      let v = flag b in
      let changed = not (m.live_ptr == v) in
      let m' = record m { live_ptr = v } in
      (
        if changed
            then record m' { reporters = notify (ops.set_liveness (v == 1)) m'.reporters }
            else m',
        changed,
      )

  pub swap_ready : Bool → Manager R → Manager R × Bool
  swap_ready b m =
      let v = flag b in
      let changed = not (m.ready_ptr == v) in
      let m' = record m { ready_ptr = v } in
      (
        if changed
            then record m' { reporters = notify (ops.set_readiness (v == 1)) m'.reporters }
            else m',
        changed,
      )

  -- Readiness is refused until every check has reported and startup is complete.
  unfoldable pub set_ready : Bool → Manager R → Manager R × Bool
  unfolding swap_ready
  set_ready b m =
      if b && m.all_checks_ran == 0
      then (m, false)
      else if b && m.startup_done == 0
      then (m, false)
      else swap_ready b m

  unfoldable pub set_startup : Bool → Manager R → Manager R × Bool
  set_startup b m =
      let v = flag b in
      let changed = not (m.startup_ptr == v) in
      let m' = record m { startup_ptr = v } in
      (
        if changed
            then record m' { reporters = notify (ops.set_startup (v == 1)) m'.reporters }
            else m',
        changed,
      )
