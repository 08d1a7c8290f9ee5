-- ===== src/Errors.antt =====
-- Go errors as the library builds them: sentinels (errors.go and those of the standard library),
-- fmt.Errorf with %w, and errors.Join. A sentinel is identified by its name.
use health.Base.{Bool, false, String, ◌||◌}
use text.Mathlib.Text.{◌==◌}

mutual
  pub data Error : Type 0 where
    -- `errors.New`.
    sentinel : String → Error
    -- `fmt.Errorf`: the formatted text, and the errors under its %w verbs.
    wrapped : String → Errors → Error
    -- `errors.Join`.
    joined : Errors → Error

  pub data Errors : Type 0 where
    end : Errors
    also : Error → Errors → Errors

-- `errors.Is` against a sentinel.
unfoldable mutual
  pub is : Error → String → Bool
  is (sentinel name) target = name == target
  is (wrapped text es) target = any_is es target
  is (joined es) target = any_is es target

  pub any_is : Errors → String → Bool
  any_is end target = false
  any_is (also e es) target = is e target || any_is es target

abbrev pub concat : String → String → String
concat s t = Prim.Native.String.◌++◌ s t

-- `Error()`.
unfoldable mutual
  pub error_text : Error → String
  error_text (sentinel name) = name
  error_text (wrapped text es) = text
  error_text (joined es) = joined_text es

  pub joined_text : Errors → String
  joined_text end = ""
  joined_text (also e end) = error_text e
  joined_text (also e (also f es)) = concat (error_text e) (concat "\n" (joined_text (also f es)))

-- `health.ErrHealth`.
abbrev pub err_health : Error
err_health = sentinel "health"

-- `context.Canceled`.
abbrev pub canceled : Error
canceled = sentinel "context canceled"
