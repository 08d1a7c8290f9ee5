-- ===== src/Manager/Fitness/Aggregate.antt =====
-- What `aggregateResults` and the startup test compute, in no order: statements over the lookups.
use health.Base.{
  arith, Bool, eq_iff, false, not, refl, some, String, string_eq, true, [], ◌&&◌, ◌↔◌, ◌∷◌, ◌≡◌,
}
use health.Base.Assoc.{Assoc, IsDistinct, lookup}
use health.SyncMap.{each, each_entry, entries, get, Map}
use health.SyncMap.Laws.{IsMap}
use health.Manager.State.{Manager, Tally}
use health.Manager.Fitness.{aggregate_results, aggregate_visit}

-- No stored result cancels liveness (`field` is then `cancel_live`), or readiness.
abbrev pub NoneCancels : (Tally → Bool) → Map String Tally → Type 0
NoneCancels field results =
    (name : String) (r : Tally) → get name results ≡ some r → field r ≡ false

all_clear : (Tally → Bool) → Assoc String Tally → Bool
all_clear field [] = true
all_clear field ((_, r) ∷ l) = not (field r) && all_clear field l

each_entry-aggregate :
    (l : Assoc String Tally) (a b : Bool)
    → each_entry aggregate_visit l (a, b)
      ≡ (a && all_clear (λ r. r.cancel_live) l, b && all_clear (λ r. r.cancel_ready) l)
unfolding each_entry all_clear
each_entry-aggregate [] a b = ground arith
each_entry-aggregate ((k, r) ∷ l) a b =
    ground (arith, each_entry-aggregate l (a && not r.cancel_live) (b && not r.cancel_ready))

all_clear-lookup :
    (field : Tally → Bool) (l : Assoc String Tally) (name : String) (r : Tally)
    → all_clear field l ≡ true
    → lookup name l ≡ some r
    → field r ≡ false
unfolding all_clear lookup
all_clear-lookup field [] name r h p = cc
all_clear-lookup field ((k, q) ∷ l) name r h p = ground (arith, all_clear-lookup field l name r)

lookup-all_clear :
    (field : Tally → Bool) (l : Assoc String Tally)
    → IsDistinct l
    → ((name : String) (r : Tally) → lookup name l ≡ some r → field r ≡ false)
    → all_clear field l ≡ true
unfolding all_clear lookup
lookup-all_clear field [] d h = refl
lookup-all_clear field ((k, q) ∷ l) d h = ground (
  arith,
  h k q,
  eq_iff k k,
  lookup-all_clear field l d.1 (λ name r p. ground (arith, h name r, eq_iff k name, d.0)),
)

module _ {R : Type 0} (m : Manager R) (d : IsMap m.check_results) where
  -- The first component is the aggregate liveness, the second the aggregate readiness.
  pub aggregate_live_iff :
      ((aggregate_results m).0 ≡ true) ↔ NoneCancels (λ r. r.cancel_live) m.check_results
  unfolding aggregate_results each get
  aggregate_live_iff =
      let l = entries m.check_results.items in
      let e = each_entry-aggregate l true true in
      (
        λ h name r p. all_clear-lookup (λ q. q.cancel_live) l name r (ground arith) p,
        λ h. let c = lookup-all_clear (λ q. q.cancel_live) l d h in ground arith,
      )

  pub aggregate_ready_iff :
      ((aggregate_results m).1 ≡ true) ↔ NoneCancels (λ r. r.cancel_ready) m.check_results
  unfolding aggregate_results each get
  aggregate_ready_iff =
      let l = entries m.check_results.items in
      let e = each_entry-aggregate l true true in
      (
        λ h name r p. all_clear-lookup (λ q. q.cancel_ready) l name r (ground arith) p,
        λ h. let c = lookup-all_clear (λ q. q.cancel_ready) l d h in ground arith,
      )
