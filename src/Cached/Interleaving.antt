-- ===== src/Cached/Interleaving.antt =====
-- Any number of goroutines in `Check`, in any order. The lock makes each critical section one step,
-- and any step of another goroutine may come between the two sections of one.
use health.Cached.{
  CachedChecker, Instants, is_fresh, read_section, write_section, store_outcome, with_cache,
}
use health.Options.{Outcome, returned, Checker, panicked}
use health.Base.Int.{ℤ, ◌+ℤ◌, ◌<ℤ◌, lt_int→<ℤ}
use health.Check.{CheckResult}
use mathlib.Core.List.{Memᴰ}
use health.Base.{
  map, Option, ℕ, List, ◌≡◌, some, ◌∷◌, ◌⊎◌, true, none, suc, [], Option-cases, inr, zero, inl, ap,
  arith, Bool-cases, subst, All, sym, refl, ◌∙◌,
}

-- A goroutine before its first section, between the two, and at the end.
pub data Phase : Type 0 where
  entering : Phase
  waiting : Phase
  answered : Outcome → Phase

pub record Caller : Type 0 where
  -- The instant of the first test.
  pub now : ℤ
  pub instants : Instants
  pub phase : Phase

-- The outcome of the first section.
phase_after_read : Option (Option CheckResult) → Phase
phase_after_read (some result) = answered (returned result)
phase_after_read none = waiting

unfoldable pub move : Phase → Caller → CachedChecker → CachedChecker × Caller
unfolding read_section write_section phase_after_read
move entering u c = (c, record u { phase = phase_after_read (read_section u.now c) })
move waiting u c =
    let (c', out) = write_section u.instants c in (c', record u { phase = answered out })
move (answered o) u c = (c, u)

-- The next section of the goroutine at a place of the list.
unfoldable pub move_at : ℕ → List Caller → CachedChecker → CachedChecker × List Caller
unfolding move
move_at n [] c = (c, [])
move_at zero (u ∷ us) c = let (c', u') = move u.phase u c in (c', u' ∷ us)
move_at (suc n) (u ∷ us) c = let (c', us') = move_at n us c in (c', u ∷ us')

-- A schedule names the goroutine of each step.
unfoldable pub move_all : List ℕ → List Caller → CachedChecker → CachedChecker × List Caller
unfolding move_at
move_all [] us c = (c, us)
move_all (n ∷ ns) us c = let (c', us') = move_at n us c in move_all ns us' c'

-- `Allowed` says which goroutines' instants count.
module _ (inner : Checker) (ttl : ℤ) (Allowed : Instants → Type 0) where
  -- The result came from a call of the wrapped checker at the instants of one of these goroutines,
  -- and was stored until that instant.
  pub record Stored (r : CheckResult) (until : ℤ) : Type 0 where
    pub at : Instants
    pub allowed : Allowed at
    pub came : inner at.call_at ≡ returned (some r)
    pub expires : until ≡ at.stamp_at +ℤ ttl

  -- An answer is that of the wrapped checker at the goroutine's own call, or a result that was
  -- stored and that had not expired at one of the goroutine's two tests.
  abbrev pub IsAnswer : Caller → Outcome → Type 0
  IsAnswer u o =
      (inner u.instants.call_at ≡ o)
      ⊎ ((r : CheckResult) × (until : ℤ) × (o ≡ returned (some r))
          × Stored r until
          × ((u.now <ℤ until) ⊎ (u.instants.test_at <ℤ until)))

  abbrev pub IsAnswered : Caller → Type 0
  IsAnswered u = (o : Outcome) → u.phase ≡ answered o → IsAnswer u o

  record IsHonest (c : CachedChecker) : Type 0 where
    same_inner : c.inner ≡ inner
    same_ttl : c.ttl ≡ ttl
    origin : (r : CheckResult) → c.cached ≡ some r → Stored r c.expiry

  fresh_has :
      (now : ℤ) (c : CachedChecker)
      → is_fresh now c ≡ true
      → (r : CheckResult) × (c.cached ≡ some r) × (now <ℤ c.expiry)
  unfolding is_fresh
  fresh_has now c h = elim (Option-cases c.cached) [
    | inl e ↦ absurd (ground arith)
    | inr (r, e) ↦ (r, e, lt_int→<ℤ now c.expiry (ground arith))
  ]

  IsAnswer-of_fresh :
      (u : Caller) (c : CachedChecker) (now : ℤ)
      → IsHonest c
      → is_fresh now c ≡ true
      → (now <ℤ c.expiry → (u.now <ℤ c.expiry) ⊎ (u.instants.test_at <ℤ c.expiry))
      → IsAnswer u (returned c.cached)
  IsAnswer-of_fresh u c now h f k =
      let (r, e, before) = fresh_has now c f in
      inr (r, c.expiry, ap returned e, h.origin r e, k before)

  store_outcome-IsHonest :
      (t : Instants) (c : CachedChecker) (o : Outcome)
      → Allowed t
      → inner t.call_at ≡ o
      → IsHonest c
      → IsHonest (store_outcome t.stamp_at c o).0
  unfolding store_outcome
  store_outcome-IsHonest t c (panicked r) y e h = h
  store_outcome-IsHonest t c (returned o) y e h = record {
    same_inner = h.same_inner;
    same_ttl = h.same_ttl;
    origin = λ r p. record {
      at = t;
      allowed = y;
      came = e ∙ ap returned p;
      expires = ap (λ d. t.stamp_at +ℤ d) h.same_ttl;
    };
  }

  outcome_stored :
      (t : Instants) (c : CachedChecker) (o : Outcome) → (store_outcome t.stamp_at c o).1 ≡ o
  unfolding store_outcome
  outcome_stored t c (returned r) = refl
  outcome_stored t c (panicked r) = refl

  write_section_lem :
      (u : Caller) (c : CachedChecker)
      → Allowed u.instants
      → IsHonest c
      → IsHonest (write_section u.instants c).0 × IsAnswer u (write_section u.instants c).1
  unfolding write_section
  write_section_lem u c y h = elim (Bool-cases (is_fresh u.instants.test_at c)) [
    | inl f ↦ rw f (h, IsAnswer-of_fresh u c u.instants.test_at h f (λ x. inr x))
    | inr f ↦
        let called : inner u.instants.call_at ≡ c.inner u.instants.call_at =
          ap (λ (i : Checker). i u.instants.call_at) (sym h.same_inner) in
        rw f (
          store_outcome-IsHonest u.instants c (c.inner u.instants.call_at) y called h,
          inl (called ∙ sym (outcome_stored u.instants c (c.inner u.instants.call_at))),
        )
  ]

  read_section-IsAnswered :
      (u : Caller) (c : CachedChecker) (o : Outcome)
      → IsHonest c
      → phase_after_read (read_section u.now c) ≡ answered o
      → IsAnswer u o
  unfolding read_section phase_after_read
  read_section-IsAnswered u c o h e = elim (Bool-cases (is_fresh u.now c)) [
    | inl f ↦ subst (IsAnswer u) (ground arith) (IsAnswer-of_fresh u c u.now h f (λ x. inl x))
    | inr f ↦ absurd (ground arith)
  ]

  -- One section keeps the cache honest and the goroutine answered.
  move_lem :
      (p : Phase) (u : Caller) (c : CachedChecker)
      → u.phase ≡ p
      → Allowed u.instants
      → IsHonest c
      → IsAnswered u
      → IsHonest (move p u c).0 × IsAnswered (move p u c).1
  unfolding move
  move_lem entering u c e y h a = (h, λ o p. read_section-IsAnswered u c o h p)
  move_lem waiting u c e y h a =
      let (h', b) = write_section_lem u c y h in (h', λ o p. subst (IsAnswer u) (ground arith) b)
  move_lem (answered o) u c e y h a = (h, a)

  move-Allowed :
      (p : Phase) (u : Caller) (c : CachedChecker)
      → Allowed u.instants
      → Allowed (move p u c).1.instants
  unfolding move
  move-Allowed entering u c y = y
  move-Allowed waiting u c y = y
  move-Allowed (answered o) u c y = y

  -- A goroutine whose instants count, and whose answer is one.
  abbrev IsServed : Caller → Type 0
  IsServed u = Allowed u.instants × IsAnswered u

  move_at_lem :
      (n : ℕ) (us : List Caller) (c : CachedChecker)
      → IsHonest c
      → All IsServed us
      → IsHonest (move_at n us c).0 × All IsServed (move_at n us c).1
  unfolding move_at
  move_at_lem n [] c h a = (h, tt)
  move_at_lem zero (u ∷ us) c h ((y, a), as') =
      let (h', a') = move_lem u.phase u c refl y h a in
      (h', ((move-Allowed u.phase u c y, a'), as'))
  move_at_lem (suc n) (u ∷ us) c h (a, as') =
      let (h', as'') = move_at_lem n us c h as' in (h', (a, as''))

  served-IsAnswered : (us : List Caller) → All IsServed us → All IsAnswered us
  served-IsAnswered [] a = tt
  served-IsAnswered (u ∷ us) ((_, a), as') = (a, served-IsAnswered us as')

  move_all_lem :
      (ns : List ℕ) (us : List Caller) (c : CachedChecker)
      → IsHonest c
      → All IsServed us
      → All IsAnswered (move_all ns us c).1
  unfolding move_all
  move_all_lem [] us c h a = served-IsAnswered us a
  move_all_lem (n ∷ ns) us c h a =
      let (h', a') = move_at_lem n us c h a in
      move_all_lem ns (move_at n us c).1 (move_at n us c).0 h' a'

  new-IsHonest : IsHonest (with_cache inner ttl)
  unfolding with_cache
  new-IsHonest = record { same_inner = refl; same_ttl = refl; origin = λ r p. absurd (cc) }

-- The instants of one of the goroutines.
abbrev pub IsOf : List Caller → Instants → Type 0
IsOf us t = Memᴰ t (map (λ u. u.instants) us)

entering-IsServed :
    (inner : Checker) (ttl : ℤ) (Allowed : Instants → Type 0) (us : List Caller)
    → All (λ u. u.phase ≡ entering) us
    → ((t : Instants) → IsOf us t → Allowed t)
    → All (IsServed inner ttl Allowed) us
entering-IsServed inner ttl Allowed [] h k = tt
entering-IsServed inner ttl Allowed (u ∷ us) (e, h) k = (
  (k u.instants (Memᴰ.head refl), λ o p. absurd (cc)),
  entering-IsServed inner ttl Allowed us h (λ t m. k t (Memᴰ.tail m)),
)

-- Goroutines that call `Check` of a new cache, in any order of their critical sections: each answer
-- is that of the wrapped checker at the goroutine's own call, or a result of a call of the wrapped
-- checker by one of the goroutines, with the instant of one of the two tests of the goroutine that
-- is answered before the instant at which the caller stored the result plus the time to live.
pub move_all-IsAnswered :
    (inner : Checker) (ttl : ℤ) (schedule : List ℕ) (us : List Caller)
    → All (λ u. u.phase ≡ entering) us
    → All (IsAnswered inner ttl (IsOf us)) (move_all schedule us (with_cache inner ttl)).1
move_all-IsAnswered inner ttl schedule us h =
    move_all_lem inner ttl (IsOf us) schedule us (with_cache inner ttl)
      (new-IsHonest inner ttl (IsOf us)) (entering-IsServed inner ttl (IsOf us) us h (λ t m. m))
