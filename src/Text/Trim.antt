-- ===== src/Text/Trim.antt =====
-- `strings.TrimRight` with one character to trim, on texts as lists of characters.
use Prim.Native.String.{String}
use Prim.Native.Char.{code}
use health.Base.{ℕ, zero, suc, ◌==◌, ◌≡◌, Bool, if◌then◌else◌, ◌&&◌, true, false, refl, ◌∙◌}
use health.Errors.{concat}

abbrev is_empty : String → Bool
is_empty String.[] = true
is_empty (String.◌∷◌ c s) = false

unfoldable pub trim_right : String → ℕ → String
trim_right String.[] cut = String.[]
trim_right (String.◌∷◌ c s) cut =
    let rest = trim_right s cut in
    if is_empty rest && code c == cut then String.[] else String.◌∷◌ c rest

-- A number of slashes.
abbrev pub slashes : ℕ → String
slashes zero = String.[]
slashes (suc n) = String.◌∷◌ "/" (slashes n)

trim_right-slashes : (n : ℕ) → trim_right (slashes n) 47 ≡ String.[]
unfolding trim_right
trim_right-slashes zero = refl
trim_right-slashes (suc n) = rw (trim_right-slashes n) refl

-- Slashes at the end make no difference.
pub trim_right-concat :
    (s : String) (n : ℕ) → trim_right (concat s (slashes n)) 47 ≡ trim_right s 47
unfolding trim_right
trim_right-concat String.[] n =
    rw (Prim.Native.String.append.nil (slashes n)) (trim_right-slashes n)
trim_right-concat (String.◌∷◌ c s) n =
    rw (Prim.Native.String.append.cons c s (slashes n)) (rw (trim_right-concat s n))

abbrev pub ends_with_slash : String → Bool
ends_with_slash String.[] = false
ends_with_slash (String.◌∷◌ c String.[]) = code c == 47
ends_with_slash (String.◌∷◌ c (String.◌∷◌ d s)) = ends_with_slash (String.◌∷◌ d s)

-- Without a slash at the end there is nothing to trim.
trim_right-id : (s : String) → ends_with_slash s ≡ false → trim_right s 47 ≡ s
unfolding trim_right
trim_right-id String.[] h = refl
trim_right-id (String.◌∷◌ c String.[]) h = rw h refl
trim_right-id (String.◌∷◌ c (String.◌∷◌ d s)) h = rw (trim_right-id (String.◌∷◌ d s) h) refl

-- All slashes at the end are trimmed.
pub trim_right-all :
    (s : String) (n : ℕ) → ends_with_slash s ≡ false → trim_right (concat s (slashes n)) 47 ≡ s
trim_right-all s n h = trim_right-concat s n ∙ trim_right-id s h
