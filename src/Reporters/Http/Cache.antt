-- ===== src/Reporters/Http/Cache.antt =====
-- cache.go: a value behind a lock, which is a channel with room for one message. A step of a
-- goroutine that has to wait is `none`.
use health.Base.{Option, none, some, [], ◌∷◌, ◌≡◌, sym, subst, refl}
use health.Channel.{Chan, make_chan, receive, send}

-- `struct{}{}`.
pub data Token : Type 0 where
  token : Token

infixl 5 ◌>>=◌
abbrev ◌>>=◌ : {A B : Type 0} → Option A → (A → Option B) → Option B
none >>= k = none
some a >>= k = k a

pub record Cache (D : Type 0) : Type 0 where
  pub sema : Chan Token
  -- Nil is `none`.
  pub content : Option D

module _ {D : Type 0} where
  abbrev with_sema : Cache D → Option (Chan Token) → Option (Cache D)
  with_sema c none = none
  with_sema c (some ch) = some (record c { sema = ch })

  unfoldable pub mk_cache : Cache D
  mk_cache = record { sema = make_chan 1; content = none }

  -- The send of the token.
  unfoldable pub lock : Cache D → Option (Cache D)
  lock c = with_sema c (send token c.sema)

  -- The receive of the token.
  unfoldable pub unlock : Cache D → Option (Cache D)
  unlock c = with_sema c (mathlib.Core.Option.map (λ p. p.1) (receive c.sema))

  -- With the deferred `unlock` at the end.
  unfoldable pub write : D → Cache D → Option (Cache D)
  unfolding lock unlock
  write d c = do c1 ← lock c; unlock (record c1 { content = some d })

  unfoldable pub read : Cache D → Option (Option D × Cache D)
  unfolding lock unlock
  read c = do c1 ← lock c; c2 ← unlock c1; some (c1.content, c2)

  -- The token is not in the channel, which has room for it alone.
  pub record IsFree (c : Cache D) : Type 0 where
    pub room : c.sema.capacity ≡ 1
    pub empty : c.sema.queue ≡ []

  abbrev free_with : Option D → Cache D
  free_with o = record { sema = record { capacity = 1; queue = [] }; content = o }

  free_cache : (c : Cache D) → IsFree c → free_with c.content ≡ c
  free_cache c f = sym (λ i. record {
    sema = record { capacity = f.room i; queue = f.empty i };
    content = c.content;
  })

  -- One goroutine gets in, no other one does, and the first leaves the cache as it was.
  abbrev pub IsExclusive : Cache D → Type 0
  IsExclusive c = (c1 : Cache D) × (lock c ≡ some c1) × (lock c1 ≡ none) × (unlock c1 ≡ some c)

  -- A write and then a read do not wait, and the read gives what was written.
  abbrev pub Keeps : D → Cache D → Type 0
  Keeps d c = (c' : Cache D) × (write d c ≡ some c') × IsFree c' × (read c' ≡ some (some d, c'))

  free_with-IsExclusive : (o : Option D) → IsExclusive (free_with o)
  unfolding lock unlock send receive
  free_with-IsExclusive o =
      (record { sema = record { capacity = 1; queue = token ∷ [] }; content = o }, refl, refl, refl)

  free_with-Keeps : (d : D) (o : Option D) → Keeps d (free_with o)
  unfolding lock unlock write read send receive
  free_with-Keeps d o = (free_with (some d), refl, record { room = refl; empty = refl }, refl)

  -- A free cache lets a goroutine in, and then no other one until the first goes out and leaves the
  -- cache free with its content. A write and then a read of a free cache do not wait and leave it
  -- free, and the read gives what the write stored.
  cache_lem : (d : D) (c : Cache D) → IsFree c → IsExclusive c × Keeps d c
  cache_lem d c f =
      let e = free_cache c f in
      (
        subst IsExclusive e (free_with-IsExclusive c.content),
        subst (Keeps d) e (free_with-Keeps d c.content),
      )
