-- ===== src/Manager/Flags/Race.antt =====
-- `setReady` from two goroutines at once, cut at its actions: a load of a guard, the swap of the
-- word, the loop over the reporters, which holds the lock of their map for reading. One of the two
-- may be `Stop`, from its compare-and-swap to the end of its call of `setReady`; the loop that then
-- stops the reporters is left out. A schedule says which goroutine goes on.
use health.Manager.Flags.{flag, notify, set_ready, swap_ready}
use health.Reporter.{Flags, IsReporter, ReporterOps}
use health.Manager.State.{Manager}
use health.SyncMap.{get}
use health.Base.{sym, ◌∙◌}
use health.Manager.Flags.Sync.{get-notify}
use health.Base.{
  Bool, if◌then◌else◌, List, ◌≡◌, ◌≢◌, arith, ◌==◌, true, ◌∷◌, false, [], ◌&&◌, Bool-cases, Option,
  String, inl, some, inr, none, string_eq, refl,
}

-- How far a goroutine is: before the compare-and-swap of `Stop`; in `setReady` at the first guard,
-- at the second, at the swap, at the loop; at the end.
pub data Call : Type 0 where
  stopping : Call
  asked : Bool → Call
  ran_seen : Bool → Call
  gated : Bool → Call
  telling : Bool → Call
  over : Call

pub record Contest (R : Type 0) : Type 0 where
  pub left : Call
  pub right : Call
  pub manager : Manager R

-- The compare-and-swap of `Stop`, behind which it calls `setReady` with false, or ends.
abbrev stop_swap : {R : Type 0} → Manager R → Call × Manager R
stop_swap m = if m.running_ptr == 1 then (asked false, record m { running_ptr = 0 }) else (over, m)

module _ {R : Type 0} (ops : ReporterOps R) where
  -- The next atomic action.
  unfoldable pub advance : Call → Manager R → Call × Manager R
  advance stopping m = stop_swap m
  advance (asked b) m = if b && m.all_checks_ran == 0 then (over, m) else (ran_seen b, m)
  advance (ran_seen b) m = if b && m.startup_done == 0 then (over, m) else (gated b, m)
  advance (gated b) m =
      (if m.ready_ptr == flag b then over else telling b, record m { ready_ptr = flag b })
  advance (telling b) m =
      (over, record m { reporters = notify (ops.set_readiness (flag b == 1)) m.reporters })
  advance over m = (over, m)

  -- The turn of the left goroutine, or of the right one.
  unfoldable pub turn : Bool → Contest R → Contest R
  unfolding advance
  turn true s = let (c, m) = advance s.left s.manager in record s { left = c; manager = m }
  turn false s = let (c, m) = advance s.right s.manager in record s { right = c; manager = m }

  unfoldable pub play : List Bool → Contest R → Contest R
  unfolding turn
  play [] s = s
  play (b ∷ bs) s = play bs (turn b s)

  -- With no other goroutine in between, the four actions are the setter.
  pub set_ready_alone :
      (b : Bool) (m : Manager R)
      → (play
          (true ∷ true ∷ true ∷ true ∷ [])
          (record { left = asked b; right = over; manager = m })).manager
        ≡ (set_ready ops b m).0
  unfolding play turn advance set_ready swap_ready
  set_ready_alone b m = ground arith

  -- What a goroutine knows of the gates.
  abbrev Knows : Manager R → Call → Type 0
  Knows m (ran_seen b) = b ≡ true → m.all_checks_ran ≢ 0
  Knows m (gated b) = b ≡ true → (m.all_checks_ran ≢ 0) × (m.startup_done ≢ 0)
  Knows m _ = Unit

  record IsGated (s : Contest R) : Type 0 where
    knows_left : Knows s.manager s.left
    knows_right : Knows s.manager s.right
    gate : s.manager.ready_ptr ≢ 0 → (s.manager.all_checks_ran ≢ 0) × (s.manager.startup_done ≢ 0)

  -- An action touches no gate.
  record SameGates (m m' : Manager R) : Type 0 where
    same_ran : m'.all_checks_ran ≡ m.all_checks_ran
    same_done : m'.startup_done ≡ m.startup_done

  advance-SameGates : (c : Call) (m : Manager R) → SameGates m (advance c m).1
  unfolding advance
  advance-SameGates stopping m = ground arith
  advance-SameGates (asked b) m = ground arith
  advance-SameGates (ran_seen b) m = ground arith
  advance-SameGates (gated b) m = ground arith
  advance-SameGates (telling b) m = ground arith
  advance-SameGates over m = ground arith

  Knows-same : (m m' : Manager R) (c : Call) → SameGates m m' → Knows m c → Knows m' c
  Knows-same m m' stopping s k = tt
  Knows-same m m' (asked b) s k = tt
  Knows-same m m' (ran_seen b) s k = ground (arith, s, k)
  Knows-same m m' (gated b) s k = ground (arith, s, k)
  Knows-same m m' (telling b) s k = tt
  Knows-same m m' over s k = tt

  advance-Knows : (c : Call) (m : Manager R) → Knows m c → Knows (advance c m).1 (advance c m).0
  unfolding advance
  advance-Knows stopping m k = elim (Bool-cases (m.running_ptr == 1)) [
    | inl e ↦ rw e tt
    | inr e ↦ rw e tt
  ]
  advance-Knows (asked b) m k = elim (Bool-cases (b && m.all_checks_ran == 0)) [
    | inl e ↦ rw e tt
    | inr e ↦ rw e (λ h z. absurd (ground arith))
  ]
  advance-Knows (ran_seen b) m k = elim (Bool-cases (b && m.startup_done == 0)) [
    | inl e ↦ rw e tt
    | inr e ↦ rw e (λ h. (k h, λ z. absurd (ground arith)))
  ]
  advance-Knows (gated b) m k = elim (Bool-cases (m.ready_ptr == flag b)) [
    | inl e ↦ rw e tt
    | inr e ↦ rw e tt
  ]
  advance-Knows (telling b) m k = tt
  advance-Knows over m k = tt

  abbrev Gate : Manager R → Type 0
  Gate m = m.ready_ptr ≢ 0 → (m.all_checks_ran ≢ 0) × (m.startup_done ≢ 0)

  advance-Gate : (c : Call) (m : Manager R) → Knows m c → Gate m → Gate (advance c m).1
  unfolding advance
  advance-Gate stopping m k g = ground (arith, g)
  advance-Gate (asked b) m k g = ground (arith, g)
  advance-Gate (ran_seen b) m k g = ground (arith, g)
  advance-Gate (gated b) m k g = ground (arith, g, k)
  advance-Gate (telling b) m k g = g
  advance-Gate over m k g = g

  turn-IsGated : (b : Bool) (s : Contest R) → IsGated s → IsGated (turn b s)
  unfolding turn
  turn-IsGated true s h = record {
    knows_left = advance-Knows s.left s.manager h.knows_left;
    knows_right =
        Knows-same s.manager (advance s.left s.manager).1 s.right
          (advance-SameGates s.left s.manager) h.knows_right;
    gate = advance-Gate s.left s.manager h.knows_left h.gate;
  }
  turn-IsGated false s h = record {
    knows_left =
        Knows-same s.manager (advance s.right s.manager).1 s.left
          (advance-SameGates s.right s.manager) h.knows_left;
    knows_right = advance-Knows s.right s.manager h.knows_right;
    gate = advance-Gate s.right s.manager h.knows_right h.gate;
  }

  play-IsGated : (bs : List Bool) (s : Contest R) → IsGated s → IsGated (play bs s)
  unfolding play
  play-IsGated [] s h = h
  play-IsGated (b ∷ bs) s h = play-IsGated bs (turn b s) (turn-IsGated b s h)

  -- A goroutine that has done nothing yet.
  abbrev pub IsStart : Call → Type 0
  IsStart stopping = Unit
  IsStart (asked b) = Unit
  IsStart _ = ⊥

  IsStart-Knows : (c : Call) (m : Manager R) → IsStart c → Knows m c
  IsStart-Knows stopping m h = tt
  IsStart-Knows (asked b) m h = tt
  IsStart-Knows (ran_seen b) m h = absurd h
  IsStart-Knows (gated b) m h = absurd h
  IsStart-Knows (telling b) m h = absurd h
  IsStart-Knows over m h = absurd h

  -- Two goroutines that are about to call `setReady` with any value, or `Stop`, on a manager that
  -- is ready only with open gates: at every point of every schedule of their atomic actions, the
  -- readiness word is set only while every check has reported and startup is complete.
  pub play-gate :
      (c c' : Call) (m : Manager R) (schedule : List Bool)
      → IsStart c
      → IsStart c'
      → (m.ready_ptr ≢ 0 → (m.all_checks_ran ≢ 0) × (m.startup_done ≢ 0))
      → (play schedule (record { left = c; right = c'; manager = m })).manager.ready_ptr ≢ 0
      → ((play schedule (record { left = c; right = c'; manager = m })).manager.all_checks_ran ≢ 0)
        × ((play schedule (record { left = c; right = c'; manager = m })).manager.startup_done ≢ 0)
  play-gate c c' m schedule s s' g =
      (play-IsGated schedule (record { left = c; right = c'; manager = m })
        (record {
          knows_left = IsStart-Knows c m s;
          knows_right = IsStart-Knows c' m s';
          gate = g;
        })).gate

-- The order of the goroutines in the race: `setReady(true)` up to its swap, then `Stop` with
-- `setReady(false)`, then the loop of the first.
abbrev pub late : List Bool
late = true ∷ true ∷ true ∷ false ∷ false ∷ false ∷ false ∷ false ∷ true ∷ []

module _ {R : Type 0} {ops : ReporterOps R} {shows : R → Flags} (laws : IsReporter ops shows) where
  told_ready :
      (b : Bool) (o : Option R) (r : R)
      → mathlib.Core.Option.map (ops.set_readiness b) o ≡ some r
      → (shows r).ready ≡ b
  told_ready b none r e = absurd (cc)
  told_ready b (some q) r e = ground (arith, laws.shows-set_readiness b q)

  -- From every running manager that may become ready and is not ready yet, a schedule leads to the
  -- end of both a `setReady(true)` and a `Stop`, with reporters that keep the laws of the
  -- interface: the manager is then stopped and not ready, and every reporter shows that it is
  -- ready.
  pub ready_after_stop :
      (m : Manager R)
      → m.running_ptr ≡ 1
      → m.all_checks_ran ≡ 1
      → m.startup_done ≡ 1
      → m.ready_ptr ≡ 0
      → ((play ops late (record { left = asked true; right = stopping; manager = m })).left ≡ over)
        × ((play ops late (record { left = asked true; right = stopping; manager = m })).right
            ≡ over)
        × ((play ops late
              (record { left = asked true; right = stopping; manager = m })).manager.running_ptr
            ≡ 0)
        × ((play ops late
              (record { left = asked true; right = stopping; manager = m })).manager.ready_ptr
            ≡ 0)
        × ((name : String) (r : R)
            → get name
                (play ops late
                  (record { left = asked true; right = stopping; manager = m })).manager.reporters
              ≡ some r
            → (shows r).ready ≡ true)
  unfolding play turn advance
  ready_after_stop m on ran complete down =
      rw (on, ran, complete, down)
        (
          refl,
          refl,
          refl,
          refl,
          λ name r e. told_ready true (get name (notify (ops.set_readiness false) m.reporters)) r (
              sym (
                get-notify (ops.set_readiness true) name
                  (notify (ops.set_readiness false) m.reporters))
              ∙ e),
        )
