-- ===== src/Channel.antt =====
-- Go's buffered channels: a queue that holds at most its capacity. A send to a full channel blocks,
-- and so does a receive from an empty one.
pub mod Laws
use health.Base.{if◌then◌else◌, length, List, ltb, none, Option, some, ℕ, [], ◌++◌, ◌∷◌}

pub record Chan {ℓ} (A : Type ℓ) : Type ℓ where
  pub capacity : ℕ
  pub queue : List A

module _ {ℓ} {A : Type ℓ} where
  unfoldable pub make_chan : ℕ → Chan A
  make_chan n = record { capacity = n; queue = [] }

  -- `none` means that the sender has to wait.
  unfoldable pub send : A → Chan A → Option (Chan A)
  send a c =
      if ltb (length c.queue) c.capacity
      then some (record c { queue = c.queue ++ a ∷ [] })
      else none

  receive_from : List A → Chan A → Option (A × Chan A)
  receive_from [] c = none
  receive_from (a ∷ q) c = some (a, record c { queue = q })

  unfoldable pub receive : Chan A → Option (A × Chan A)
  unfolding receive_from
  receive c = receive_from c.queue c
