-- ===== src/Reporters/Metrics.antt =====
-- The instruments of a metrics library (client_golang, the OpenTelemetry API), as far as the
-- reporters use them: gauges that hold the last value, counters and histograms, each under sets of
-- attributes. The libraries are outside: their instruments are operations with the laws that they
-- document.
use health.Base.{
  List, Bool, ◌≡◌, ap, ◌∙◌, none, Eq, Option, ℕ, String, true, if◌then◌else◌, ◌∷◌, ◌↔◌, ◌=?◌, some,
  ◌+◌, [], false, arith, ◌&&◌, eq_iff, refl, string_eq,
}
use health.Check.{Status, healthy, degraded}
use health.Base.Int.{ℤ, pos}

-- The attributes of a series, in the order in which the code lists them.
abbrev pub Attributes : Type 0
Attributes = List (String × String)

abbrev pub same_attributes : Attributes → Attributes → Bool
same_attributes [] [] = true
same_attributes [] (b ∷ bs) = false
same_attributes (a ∷ as') [] = false
same_attributes (a ∷ as') (b ∷ bs) = (a.0 =? b.0 && a.1 =? b.1) && same_attributes as' bs

pub same_attributes_iff : (a b : Attributes) → (same_attributes a b ≡ true) ↔ (a ≡ b)
same_attributes_iff [] [] = (λ h. refl, λ h. refl)
same_attributes_iff [] (b ∷ bs) = (λ h. absurd (cc), λ h. cc)
same_attributes_iff (a ∷ as') [] = (λ h. absurd (cc), λ h. cc)
same_attributes_iff (a ∷ as') (b ∷ bs) =
    let (f, g) = same_attributes_iff as' bs in
    (
      λ h. ground (arith, eq_iff a.0 b.0, eq_iff a.1 b.1, f),
      λ h. ground (arith, eq_iff a.0 b.0, eq_iff a.1 b.1, g),
    )

instance abbrev pub attributes_eq : Eq Attributes
attributes_eq = record { beq = same_attributes; beq_iff = same_attributes_iff }

-- `F` is the type of the values, floats for the most part.
pub record GaugeOps (F G : Type 0) : Type 0 where
  pub set : Attributes → F → G → G
  pub read : Attributes → G → Option F

pub record CounterOps (C : Type 0) : Type 0 where
  pub inc : Attributes → C → C
  pub count : Attributes → C → ℕ

pub record HistogramOps (F H : Type 0) : Type 0 where
  pub observe : Attributes → F → H → H
  -- The observations, the last one first.
  pub observed : Attributes → H → List F

pub record IsGauge {F G : Type 0} (ops : GaugeOps F G) : Type 0 where
  pub read-set :
      (k j : Attributes) (v : F) (g : G)
      → ops.read j (ops.set k v g) ≡ (if k =? j then some v else ops.read j g)

pub record IsCounter {C : Type 0} (ops : CounterOps C) : Type 0 where
  pub count-inc :
      (k j : Attributes) (c : C)
      → ops.count j (ops.inc k c) ≡ (if k =? j then 1 else 0) + ops.count j c

pub record IsHistogram {F H : Type 0} (ops : HistogramOps F H) : Type 0 where
  pub observed-observe :
      (k j : Attributes) (v : F) (h : H)
      → ops.observed j (ops.observe k v h)
        ≡ (if k =? j then v ∷ ops.observed j h else ops.observed j h)

abbrev is_up : {F : Type 0} → (F → Bool) → Option F → Bool
is_up is_one none = false
is_up is_one (some v) = is_one v

-- Whether a gauge without attributes shows the number 1.
abbrev pub gauge_up : {F G : Type 0} → GaugeOps F G → (F → Bool) → G → Bool
gauge_up ops is_one g = is_up is_one (ops.read [] g)

pub gauge_up-set :
    {F G : Type 0} (ops : GaugeOps F G) (is_one : F → Bool) (of_int : ℤ → F)
    → IsGauge ops
    → is_one (of_int (pos 1)) ≡ true
    → is_one (of_int (pos 0)) ≡ false
    → (b : Bool) (g : G)
    → gauge_up ops is_one (ops.set [] (of_int (pos (if b then 1 else 0))) g) ≡ b
gauge_up-set ops is_one of_int law one zero true g =
    ap (is_up is_one) (law.read-set [] [] (of_int (pos 1)) g) ∙ one
gauge_up-set ops is_one of_int law one zero false g =
    ap (is_up is_one) (law.read-set [] [] (of_int (pos 0)) g) ∙ zero

-- The value of the status gauge.
unfoldable pub status_value : Status → ℤ
status_value healthy = pos 2
status_value degraded = pos 1
status_value _ = pos 0

-- 2 for healthy, 1 for degraded and 0 for all else.
abbrev pub level_of : Status → ℤ
level_of healthy = pos 2
level_of degraded = pos 1
level_of _ = pos 0

pub status_value-level_of : (s : Status) → status_value s ≡ level_of s
unfolding status_value
status_value-level_of healthy = refl
status_value-level_of degraded = refl
status_value-level_of _ = refl

-- How many members of a list have these attributes.
abbrev pub occurrences : Attributes → List Attributes → ℕ
occurrences j [] = 0
occurrences j (k ∷ ks) = (if k =? j then 1 else 0) + occurrences j ks

-- What the last member of a list with these attributes maps to, or else the old value.
abbrev pub last_value {ℓ} :
    {A : Type ℓ} {F : Type 0}
    → Attributes
    → (A → Attributes)
    → (A → F)
    → List A
    → Option F
    → Option F
last_value j attrs val [] old = old
last_value j attrs val (x ∷ xs) old =
    last_value j attrs val xs (if attrs x =? j then some (val x) else old)
