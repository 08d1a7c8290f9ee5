-- ===== src/Reporters/Http/Writer.antt =====
-- net/http's `ResponseWriter`, as far as the handlers use it. `sent` holds the status and the
-- headers at the call of `WriteHeader`, and `header` all that were set: a writer that buffers, such
-- as that of `http.TimeoutHandler`, sends the latter.
use health.Base.{
  if◌then◌else◌, is_some, List, none, Option, some, String, string_eq, ℕ, [], ◌++◌, ◌∷◌,
}
use health.Base.Assoc.{Assoc, insert}

pub record Writer {ℓ} (B : Type ℓ) : Type ℓ where
  pub header : Assoc String String
  -- The status and the headers that went out, once they did.
  pub sent : Option (ℕ × Assoc String String)
  pub body : List B

module _ {ℓ} {B : Type ℓ} where
  abbrev pub fresh_writer : Writer B
  fresh_writer = record { header = []; sent = none; body = [] }

  unfoldable pub set_header : String → String → Writer B → Writer B
  set_header k v w = record w { header = insert k v w.header }

  -- A second call changes nothing.
  unfoldable pub write_header : ℕ → Writer B → Writer B
  write_header code w = if is_some w.sent then w else record w { sent = some (code, w.header) }

  -- A body is preceded by status 200 if none was sent.
  unfoldable pub write : B → Writer B → Writer B
  unfolding write_header
  write b w = let w' = write_header 200 w in record w' { body = w'.body ++ b ∷ [] }
