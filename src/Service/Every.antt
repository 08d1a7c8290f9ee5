-- ===== src/Service/Every.antt =====
-- Tests of every registered check against lookups.
use health.Base.{arith, Bool, eq_iff, Option, refl, some, String, string_eq, true, [], ◌∷◌, ◌≡◌}
use health.Base.Assoc.{Assoc, IsDistinct, lookup}
use health.Check.{CheckResult}
use health.Manager.State.{Wrapper}
use health.Service.{every}

module _ (test : Wrapper → Option CheckResult → Bool) (latest : String → Option CheckResult) where
  pub every-lookup :
      (l : Assoc String Wrapper) (name : String) (w : Wrapper)
      → every test l latest ≡ true
      → lookup name l ≡ some w
      → test w (latest name) ≡ true
  unfolding every lookup
  every-lookup [] name w h p = cc
  every-lookup ((k, v) ∷ l) name w h p = ground (arith, every-lookup l name w, eq_iff k name)

  pub lookup-every :
      (l : Assoc String Wrapper)
      → IsDistinct l
      → ((name : String) (w : Wrapper) → lookup name l ≡ some w → test w (latest name) ≡ true)
      → every test l latest ≡ true
  unfolding every lookup
  lookup-every [] d h = refl
  lookup-every ((k, v) ∷ l) d h = ground (
    arith,
    h k v,
    eq_iff k k,
    lookup-every l d.1 (λ name w p. h name w (ground (arith, eq_iff k name, d.0))),
  )

pub every_mono :
    (test test' : Wrapper → Option CheckResult → Bool) (latest : String → Option CheckResult)
    (l : Assoc String Wrapper)
    → ((w : Wrapper) (o : Option CheckResult) → test w o ≡ true → test' w o ≡ true)
    → every test l latest ≡ true
    → every test' l latest ≡ true
unfolding every
every_mono test test' latest [] f h = refl
every_mono test test' latest ((k, w) ∷ l) f h =
    ground (arith, f w (latest k), every_mono test test' latest l f)
