-- ===== src/Text.antt =====
-- Texts as lists of characters: `strings.TrimPrefix`.
pub mod Trim
use Prim.Native.String.{String}
use Prim.Native.Char.{code}
use health.Base.{ap, arith, if◌then◌else◌, none, Option, some, ◌==◌, ◌≡◌, ◌≢◌}
use health.Errors.{concat}

-- The rest of a text after a prefix, if it has it.
unfoldable pub strip : String → String → Option String
strip s String.[] = some s
strip String.[] (String.◌∷◌ c p) = none
strip (String.◌∷◌ a s) (String.◌∷◌ c p) = if code a == code c then strip s p else none

or_whole : String → Option String → String
or_whole s none = s
or_whole s (some t) = t

unfoldable pub trim_prefix : String → String → String
unfolding strip or_whole
trim_prefix s p = or_whole s (strip s p)

-- A text in front of another is stripped off it.
pub strip-concat : (p s : String) → strip (concat p s) p ≡ some s
unfolding strip
strip-concat String.[] s = rw (Prim.Native.String.append.nil s)
strip-concat (String.◌∷◌ c p) s =
    rw (Prim.Native.String.append.cons c p s) (ground (arith, strip-concat p s))

pub trim_prefix-concat : (p s : String) → trim_prefix (concat p s) p ≡ s
unfolding trim_prefix
trim_prefix-concat p s = rw (strip-concat p s)

-- A text with something in front is another text.
pub concat-ne : (p s : String) → Prim.Native.String.count p ≢ 0 → concat p s ≢ s
concat-ne p s h e =
    h (omega (arith, ap Prim.Native.String.count e, text.Mathlib.TextLemmas.length-append p s))
