-- ===== src/Cached/Laws.antt =====
-- The cache serves what it stored until it expires, and a crowd of callers refreshes it once.
use health.Base.{All, arith, false, List, none, refl, some, true, [], ◌∷◌, ◌≡◌}
use health.Cached.{
  CachedChecker, calls_inner, check, Instants, is_fresh, store_outcome, write_section,
  write_sections,
}
use health.Options.{Outcome, panicked, returned}
use health.Base.Int.{ℤ, <ℤ→lt_int, ◌+ℤ◌, ◌<ℤ◌, ◌≤ℤ◌}
use health.Check.{CheckResult}

-- A goroutine whose test falls before the expiry gets the stored result and changes nothing.
write_section-fresh :
    (t : Instants) (c : CachedChecker)
    → is_fresh t.test_at c ≡ true
    → (write_section t c ≡ (c, returned c.cached)) × (calls_inner t c ≡ false)
unfolding write_section calls_inner
write_section-fresh t c h = (ground arith, ground arith)

abbrev pub all_return : Outcome → List Instants → List Outcome
all_return o [] = []
all_return o (t ∷ ts) = o ∷ all_return o ts

write_sections-fresh :
    (ts : List Instants) (c : CachedChecker)
    → All (λ t. is_fresh t.test_at c ≡ true) ts
    → write_sections ts c ≡ (c, all_return (returned c.cached) ts, 0)
unfolding write_sections
write_sections-fresh [] c h = refl
write_sections-fresh (t ∷ ts) c h =
    ground (arith, write_section-fresh t c h.0, write_sections-fresh ts c h.1)

-- The cache after a refresh that returned a result.
abbrev pub refreshed : Instants → CachedChecker → CheckResult → CachedChecker
refreshed t c r = record c { cached = some r; expiry = t.stamp_at +ℤ c.ttl }

write_section-stale :
    (t : Instants) (c : CachedChecker) (r : CheckResult)
    → is_fresh t.test_at c ≡ false
    → c.inner t.call_at ≡ returned (some r)
    → (write_section t c ≡ (refreshed t c r, returned (some r))) × (calls_inner t c ≡ true)
unfolding write_section calls_inner
write_section-stale t c r h e = (rw (h, e), ground arith)

is_fresh-refreshed :
    (t : Instants) (c : CachedChecker) (r : CheckResult) (ts : List Instants)
    → All (λ u. u.test_at <ℤ t.stamp_at +ℤ c.ttl) ts
    → All (λ u. is_fresh u.test_at (refreshed t c r) ≡ true) ts
unfolding is_fresh
is_fresh-refreshed t c r [] h = tt
is_fresh-refreshed t c r (u ∷ ts) h =
    (<ℤ→lt_int u.test_at (t.stamp_at +ℤ c.ttl) h.0, is_fresh-refreshed t c r ts h.1)

-- No stampede: of any number of goroutines that wait for the write lock with nothing fresh, the
-- first calls the wrapped checker; if that returns a result, all others whose test falls before the
-- new expiry return that result too, without another call.
pub write_sections-once :
    (t : Instants) (ts : List Instants) (c : CachedChecker) (r : CheckResult)
    → is_fresh t.test_at c ≡ false
    → c.inner t.call_at ≡ returned (some r)
    → All (λ u. u.test_at <ℤ t.stamp_at +ℤ c.ttl) ts
    → write_sections (t ∷ ts) c ≡ (refreshed t c r, all_return (returned (some r)) (t ∷ ts), 1)
unfolding write_sections
write_sections-once t ts c r h e fresh = ground (
  arith,
  write_section-stale t c r h e,
  write_sections-fresh ts (refreshed t c r) (is_fresh-refreshed t c r ts fresh),
)

outcome-store_outcome :
    (stamp : ℤ) (c : CachedChecker) (o : Outcome) → (store_outcome stamp c o).1 ≡ o
unfolding store_outcome
outcome-store_outcome stamp c (returned r) = refl
outcome-store_outcome stamp c (panicked r) = refl

check_stale :
    (now : ℤ) (u : Instants) (c : CachedChecker)
    → is_fresh now c ≡ false
    → is_fresh u.test_at c ≡ false
    → (check now u c).1 ≡ c.inner u.call_at
unfolding check write_section
check_stale now u c h k = ground (arith, outcome-store_outcome u.stamp_at c (c.inner u.call_at))

-- A later `Check` returns the refreshed result exactly while its first instant is before the
-- expiry; from then on it goes to the wrapped checker again.
check-refreshed :
    (now : ℤ) (t u : Instants) (c : CachedChecker) (r : CheckResult)
    → (now <ℤ t.stamp_at +ℤ c.ttl
        → check now u (refreshed t c r) ≡ (refreshed t c r, returned (some r)))
      × (t.stamp_at +ℤ c.ttl ≤ℤ now
          → t.stamp_at +ℤ c.ttl ≤ℤ u.test_at
          → (check now u (refreshed t c r)).1 ≡ c.inner u.call_at)
unfolding check is_fresh
check-refreshed now t u c r = (
  λ h. rw (<ℤ→lt_int now (t.stamp_at +ℤ c.ttl) h),
  λ h k. check_stale now u (refreshed t c r) (ground arith) (ground arith),
)

-- A nil result is not cached: the next `Check` goes to the wrapped checker, whatever the clock
-- says.
check-nil :
    (now : ℤ) (u : Instants) (c : CachedChecker)
    → c.cached ≡ none
    → (check now u c).1 ≡ c.inner u.call_at
check-nil now u c e =
    check_stale now u c (unfold is_fresh in ground arith) (unfold is_fresh in ground arith)
