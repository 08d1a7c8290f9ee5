-- ===== src/Channel/Laws.antt =====
-- What a send and a receive keep: a property of every value in the queue, and its bound.
use health.Channel.{Chan, receive, receive_from, send}
use health.Base.{
  All, All-append, arith, Bool-cases, inl, inr, length, List, ltb, some, subst, [], ◌++◌, ◌∷◌, ◌≡◌,
  ◌≤◌, length-append, suc, refl,
}

module _ {ℓ κ} {A : Type ℓ} (P : A → Type κ) where
  receive_from-All :
      (q : List A) (c c' : Chan A) (a : A)
      → receive_from q c ≡ some (a, c')
      → All P q
      → P a × All P c'.queue
  unfolding receive_from
  receive_from-All [] c c' a e h = absurd (cc)
  receive_from-All (b ∷ q) c c' a e h =
      let head : b ≡ a = cc in
      let tail : record c { queue = q } ≡ c' = cc in
      (subst P head h.0, subst (λ d. All P d.queue) tail h.1)

  pub receive-All :
      (c c' : Chan A) (a : A) → receive c ≡ some (a, c') → All P c.queue → P a × All P c'.queue
  unfolding receive
  receive-All c c' a e h = receive_from-All c.queue c c' a e h

  pub send-All : (c c' : Chan A) (a : A) → send a c ≡ some c' → P a → All P c.queue → All P c'.queue
  unfolding send
  send-All c c' a e p h = elim (Bool-cases (ltb (length c.queue) c.capacity)) [
    | inl room ↦
        let same : record c { queue = c.queue ++ a ∷ [] } ≡ c' = ground arith in
        subst (λ d. All P d.queue) same (All-append P c.queue (a ∷ []) h (p, tt))
    | inr full ↦ absurd (ground arith)
  ]

module _ {ℓ} {A : Type ℓ} where
  -- A send keeps to the capacity, and a receive makes the queue no longer.
  pub length-send :
      (a : A) (c c' : Chan A)
      → send a c ≡ some c'
      → (c'.capacity ≡ c.capacity) × (length c'.queue ≤ c.capacity)
  unfolding send
  length-send a c c' e = elim (Bool-cases (ltb (length c.queue) c.capacity)) [
    | inl room ↦
        let same : record c { queue = c.queue ++ a ∷ [] } ≡ c' = ground arith in
        subst (λ d. (d.capacity ≡ c.capacity) × (length d.queue ≤ c.capacity)) same
          (refl, ground (arith, length-append c.queue (a ∷ [])))
    | inr full ↦ absurd (ground arith)
  ]

  length-receive_from :
      (q : List A) (a : A) (c c' : Chan A)
      → receive_from q c ≡ some (a, c')
      → (c'.capacity ≡ c.capacity) × (length c'.queue ≤ length q)
  unfolding receive_from
  length-receive_from [] a c c' e = absurd (cc)
  length-receive_from (b ∷ q) a c c' e =
      let tail : record c { queue = q } ≡ c' = cc in
      subst (λ d. (d.capacity ≡ c.capacity) × (length d.queue ≤ suc (length q))) tail
        (refl, omega arith)

  pub length-receive :
      (a : A) (c c' : Chan A)
      → receive c ≡ some (a, c')
      → (c'.capacity ≡ c.capacity) × (length c'.queue ≤ length c.queue)
  unfolding receive
  length-receive a c c' e = length-receive_from c.queue a c c' e
