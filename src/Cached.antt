-- ===== src/Cached.antt =====
-- cached.go: a checker behind a time-to-live cache. `Check` has two critical sections, the first
-- under the read lock and the second under the write lock; other goroutines may run between them.
pub mod Laws
pub mod Interleaving
use health.Base.{Bool, if◌then◌else◌, is_some, List, none, not, Option, some, suc, ℕ, [], ◌&&◌, ◌∷◌}
use health.Options.{Checker, Outcome, panicked, returned}
use health.Base.Int.{lt_int, pos, ℤ, ◌+ℤ◌}
use health.Check.{CheckResult}

pub record CachedChecker : Type 0 where
  pub inner : Checker
  pub ttl : ℤ
  pub cached : Option CheckResult
  pub expiry : ℤ

-- `WithCache`: no result, and the zero time.
unfoldable pub with_cache : Checker → ℤ → CachedChecker
with_cache c ttl = record { inner = c; ttl = ttl; cached = none; expiry = pos 0 }

-- `c.cached != nil && time.Now().Before(c.expiry)`.
unfoldable pub is_fresh : ℤ → CachedChecker → Bool
is_fresh now c = is_some c.cached && lt_int now c.expiry

-- The section under the read lock: the result to return, or `none` to go on to the write lock.
unfoldable pub read_section : ℤ → CachedChecker → Option (Option CheckResult)
unfolding is_fresh
read_section now c = if is_fresh now c then some c.cached else none

-- The instants that a goroutine reads in its second section: for the second test, in the call of
-- the wrapped checker, and for the expiry.
pub record Instants : Type 0 where
  pub test_at : ℤ
  pub call_at : ℤ
  pub stamp_at : ℤ

-- A panic of the wrapped checker passes through, and the deferred unlock leaves the cache as it
-- was.
store_outcome : ℤ → CachedChecker → Outcome → CachedChecker × Outcome
store_outcome stamp c (returned result) =
    (record c { cached = result; expiry = stamp +ℤ c.ttl }, returned result)
store_outcome stamp c (panicked r) = (c, panicked r)

-- The section under the write lock.
unfoldable pub write_section : Instants → CachedChecker → CachedChecker × Outcome
unfolding is_fresh store_outcome
write_section t c =
    if is_fresh t.test_at c
    then (c, returned c.cached)
    else store_outcome t.stamp_at c (c.inner t.call_at)

-- Whether the section calls the wrapped checker.
unfoldable pub calls_inner : Instants → CachedChecker → Bool
unfolding is_fresh
calls_inner t c = not (is_fresh t.test_at c)

after_read : Instants → CachedChecker → Option (Option CheckResult) → CachedChecker × Outcome
unfolding write_section
after_read t c (some result) = (c, returned result)
after_read t c none = write_section t c

-- One whole `Check` by a goroutine that meets no other.
unfoldable pub check : ℤ → Instants → CachedChecker → CachedChecker × Outcome
unfolding read_section after_read
check now t c = after_read t c (read_section now c)

-- Goroutines that found nothing fresh and wait for the write lock, in the order in which they get
-- it: the cache at the end, what each returns, and how often the wrapped checker is called.
unfoldable pub write_sections : List Instants → CachedChecker → CachedChecker × List Outcome × ℕ
unfolding write_section calls_inner
write_sections [] c = (c, [], 0)
write_sections (t ∷ ts) c =
    let (c', out) = write_section t c in
    let (c'', outs, n) = write_sections ts c' in
    (c'', out ∷ outs, (if calls_inner t c then suc n else n))
