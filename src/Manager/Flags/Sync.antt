-- ===== src/Manager/Flags/Sync.antt =====
-- The reporters show the manager's flags: kept by each setter.
use mathlib.Core.Option as Option
use health.Base.{
  arith, Bool, Bool-cases, false, if◌then◌else◌, inl, inr, none, Option, refl, some, String,
  string_eq, true, ◌&&◌, ◌==◌, ◌≡◌,
}
use health.SyncMap.{get, Map}
use health.SyncMap.Loops.{get-always}
use health.Reporter.{Flags, IsReporter, ReporterOps}
use health.Manager.State.{Manager}
use health.Manager.Flags.{flag, notify, set_live, set_ready, set_startup, swap_ready}

abbrev pub flags_of : {R : Type 0} → Manager R → Flags
flags_of m = record {
  live = m.live_ptr == 1;
  ready = m.ready_ptr == 1;
  startup = m.startup_ptr == 1;
}

-- Every reporter of the map shows `f`.
abbrev pub AllShow : {R : Type 0} → (R → Flags) → Map String R → Flags → Type 0
AllShow {R} shows rs f = (name : String) (r : R) → get name rs ≡ some r → shows r ≡ f

abbrev pub InSync : {R : Type 0} → (R → Flags) → Manager R → Type 0
InSync shows m = AllShow shows m.reporters (flags_of m)

module _ {R : Type 0} where
  pub get-notify :
      (f : R → R) (name : String) (rs : Map String R)
      → get name (notify f rs) ≡ Option.map f (get name rs)
  unfolding notify
  get-notify f name rs = get-always f name rs tt

  notify_entry :
      (shows : R → Flags) (f : R → R) (g : Flags → Flags) (o : Option R) (x : Flags) (r : R)
      → ((r : R) → shows (f r) ≡ g (shows r))
      → ((r : R) → o ≡ some r → shows r ≡ x)
      → Option.map f o ≡ some r
      → shows r ≡ g x
  notify_entry shows f g none x r law h p = cc
  notify_entry shows f g (some q) x r law h p = cc (law q, h q refl)

  pub notify-AllShow :
      (shows : R → Flags) (f : R → R) (g : Flags → Flags) (rs : Map String R) (x : Flags)
      → ((r : R) → shows (f r) ≡ g (shows r))
      → AllShow shows rs x
      → AllShow shows (notify f rs) (g x)
  notify-AllShow shows f g rs x law h name r p =
      notify_entry shows f g (get name rs) x r law (h name) (rw get-notify at p)

module _ {R : Type 0} {ops : ReporterOps R} {shows : R → Flags} (laws : IsReporter ops shows) where
  pub set_live-InSync :
      (b : Bool) (m : Manager R) → InSync shows m → InSync shows (set_live ops b m).0
  unfolding set_live
  set_live-InSync b m h = elim (Bool-cases (m.live_ptr == flag b)) [
    | inl same ↦ rw same (λ name r p. ground (arith, h name r p))
    | inr changed ↦ rw changed (
        notify-AllShow shows (ops.set_liveness (flag b == 1)) (λ x. record x { live = flag b == 1 })
          m.reporters (flags_of m) (laws.shows-set_liveness (flag b == 1)) h)
  ]

  pub set_startup-InSync :
      (b : Bool) (m : Manager R) → InSync shows m → InSync shows (set_startup ops b m).0
  unfolding set_startup
  set_startup-InSync b m h = elim (Bool-cases (m.startup_ptr == flag b)) [
    | inl same ↦ rw same (λ name r p. ground (arith, h name r p))
    | inr changed ↦ rw changed (
        notify-AllShow shows (ops.set_startup (flag b == 1))
          (λ x. record x { startup = flag b == 1 }) m.reporters (flags_of m)
          (laws.shows-set_startup (flag b == 1)) h)
  ]

  swap_ready-InSync :
      (b : Bool) (m : Manager R) → InSync shows m → InSync shows (swap_ready ops b m).0
  unfolding swap_ready
  swap_ready-InSync b m h = elim (Bool-cases (m.ready_ptr == flag b)) [
    | inl same ↦ rw same (λ name r p. ground (arith, h name r p))
    | inr changed ↦ rw changed (
        notify-AllShow shows (ops.set_readiness (flag b == 1))
          (λ x. record x { ready = flag b == 1 }) m.reporters (flags_of m)
          (laws.shows-set_readiness (flag b == 1)) h)
  ]

  pub InSync-if :
      (c : Bool) (m m' : Manager R)
      → InSync shows m
      → InSync shows m'
      → InSync shows (if c then m else m')
  InSync-if true m m' h h' = h
  InSync-if false m m' h h' = h'

  pub set_ready-InSync :
      (b : Bool) (m : Manager R) → InSync shows m → InSync shows (set_ready ops b m).0
  unfolding set_ready
  set_ready-InSync b m h = elim (Bool-cases (b && m.all_checks_ran == 0)) [
    | inl c ↦ rw c h
    | inr c ↦ rw c (elim (Bool-cases (b && m.startup_done == 0)) [
      | inl d ↦ rw d h
      | inr d ↦ rw d (swap_ready-InSync b m h)
    ])
  ]
