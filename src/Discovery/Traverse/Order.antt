-- ===== src/Discovery/Traverse/Order.antt =====
-- The order of the queue: depths never fall along it, and span two levels at most.
use health.Base.{List, ℕ, ◌∷◌, All, String, ◌≤◌, [], ◌++◌, suc, arith, All-append}
use health.Discovery.Traverse.{queue_items, QueueItem}

-- Depths do not fall along the queue.
abbrev pub IsSorted : List QueueItem → Type 0
IsSorted [] = Unit
IsSorted (i ∷ q) = All (λ j. i.depth ≤ j.depth) q × IsSorted q

-- No item is more than one level below the first.
abbrev pub IsNarrow : List QueueItem → Type 0
IsNarrow [] = Unit
IsNarrow (i ∷ q) = All (λ j. j.depth ≤ suc i.depth) q

All-weaken :
    {A : Type 0} (P Q : A → Type 0) (xs : List A) → ((x : A) → P x → Q x) → All P xs → All Q xs
All-weaken P Q [] f h = tt
All-weaken P Q (x ∷ xs) f h = (f x h.0, All-weaken P Q xs f h.1)

pub queue_items-All :
    (P : ℕ → Type 0) (n : ℕ) (deps : List String)
    → P n
    → All (λ (j : QueueItem). P j.depth) (queue_items n deps)
unfolding queue_items
queue_items-All P n [] p = tt
queue_items-All P n (dep ∷ deps) p = (p, queue_items-All P n deps p)

queue_items-IsSorted : (n : ℕ) (deps : List String) → IsSorted (queue_items n deps)
unfolding queue_items
queue_items-IsSorted n [] = tt
queue_items-IsSorted n (dep ∷ deps) =
    (queue_items-All (λ m. n ≤ m) n deps (omega arith), queue_items-IsSorted n deps)

append-IsSorted :
    (n : ℕ) (q : List QueueItem) (deps : List String)
    → IsSorted q
    → All (λ (j : QueueItem). j.depth ≤ n) q
    → IsSorted (q ++ queue_items n deps)
append-IsSorted n [] deps s b = queue_items-IsSorted n deps
append-IsSorted n (i ∷ q) deps s b = (
  All-append (λ (j : QueueItem). i.depth ≤ j.depth) q (queue_items n deps) s.0
      (queue_items-All (λ m. i.depth ≤ m) n deps b.0),
  append-IsSorted n q deps s.1 b.1,
)

-- What is left after the first item.
pub IsNarrow-tail :
    (i : QueueItem) (q : List QueueItem) → IsSorted (i ∷ q) → IsNarrow (i ∷ q) → IsNarrow q
IsNarrow-tail i [] s n = tt
IsNarrow-tail i (j ∷ q) s n =
    All-weaken (λ (k : QueueItem). k.depth ≤ suc i.depth) (λ k. k.depth ≤ suc j.depth) q
      (λ k h. omega (arith, s.0.0, h)) n.1

-- The dependencies of the first item go to the end.
pub visit-IsSorted :
    (i : QueueItem) (q : List QueueItem) (deps : List String)
    → IsSorted (i ∷ q)
    → IsNarrow (i ∷ q)
    → IsSorted (q ++ queue_items (suc i.depth) deps)
visit-IsSorted i q deps s n = append-IsSorted (suc i.depth) q deps s.1 n

pub visit-IsNarrow :
    (i : QueueItem) (q : List QueueItem) (deps : List String)
    → IsSorted (i ∷ q)
    → IsNarrow (i ∷ q)
    → IsNarrow (q ++ queue_items (suc i.depth) deps)
visit-IsNarrow i [] [] s n = unfold queue_items in tt
visit-IsNarrow i [] (dep ∷ deps) s n =
    unfold queue_items in
    queue_items-All (λ m. m ≤ suc (suc i.depth)) (suc i.depth) deps (omega arith)
visit-IsNarrow i (j ∷ q) deps s n =
    All-append (λ (k : QueueItem). k.depth ≤ suc j.depth) q (queue_items (suc i.depth) deps)
      (IsNarrow-tail i (j ∷ q) s n)
      (queue_items-All (λ m. m ≤ suc j.depth) (suc i.depth) deps (omega (arith, s.0.0)))

-- A lower bound of the queue stays one.
pub visit-All :
    (d : ℕ) (i : QueueItem) (q : List QueueItem) (deps : List String)
    → All (λ (j : QueueItem). d ≤ j.depth) (i ∷ q)
    → All (λ (j : QueueItem). d ≤ j.depth) (q ++ queue_items (suc i.depth) deps)
visit-All d i q deps h =
    All-append (λ (j : QueueItem). d ≤ j.depth) q (queue_items (suc i.depth) deps) h.1
      (queue_items-All (λ m. d ≤ m) (suc i.depth) deps (omega (arith, h.0)))
