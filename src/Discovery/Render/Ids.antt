-- ===== src/Discovery/Render/Ids.antt =====
-- The identifiers of nodes.
use Prim.Native.String.{String}
use Prim.Native.Char.{Char}
use health.Text.{strip}
use health.Discovery.Render.{is_mark, replace_from, sanitize_id, Char}
use health.Base.{
  ◌≡◌, ℕ, false, suc, refl, ◌↔◌, Bool-cases, subst, inl, inr, arith, zero, Bool, is_some,
  if◌then◌else◌, true,
}

-- None of the four marks occurs.
abbrev pub IsPlain : String → Type 0
IsPlain String.[] = Unit
IsPlain (String.◌∷◌ c s) = (is_mark c ≡ false) × IsPlain s

is_mark_or_not : (c : Char) (b : Bool) → is_mark c ≡ b → is_mark (if b then "_" else c) ≡ false
is_mark_or_not c true h = refl
is_mark_or_not c false h = h

replace_from-IsPlain : (n : ℕ) (s : String) → IsPlain (replace_from n s)
unfolding replace_from strip
replace_from-IsPlain n String.[] = tt
replace_from-IsPlain (suc n) (String.◌∷◌ c s) = replace_from-IsPlain n s
replace_from-IsPlain zero (String.◌∷◌ c s) =
    elim (Bool-cases (is_some (strip (String.◌∷◌ c s) "://"))) [
      | inl found ↦ rw found (refl, replace_from-IsPlain 2 s)
      | inr other ↦ rw other (is_mark_or_not c (is_mark c) refl, replace_from-IsPlain 0 s)
    ]

plain-not_scheme :
    (c : Char) (s : String) → is_mark c ≡ false → is_some (strip (String.◌∷◌ c s) "://") ≡ false
unfolding strip
plain-not_scheme c s h = ground arith

replace_from_plain : (s : String) → IsPlain s → replace_from 0 s ≡ s
unfolding replace_from
replace_from_plain String.[] p = refl
replace_from_plain (String.◌∷◌ c s) (p, ps) =
    rw (plain-not_scheme c s p, p, replace_from_plain s ps) refl

-- An identifier has none of "/", ".", ":" and "-", and a text is its own identifier exactly if it
-- has none of them.
pub sanitize_id-IsPlain : (s : String) → IsPlain (sanitize_id s) × ((sanitize_id s ≡ s) ↔ IsPlain s)
unfolding sanitize_id
sanitize_id-IsPlain s = (
  replace_from-IsPlain 0 s,
  (λ e. subst IsPlain e (replace_from-IsPlain 0 s), replace_from_plain s),
)
