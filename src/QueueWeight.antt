-- ===== src/QueueWeight.antt =====
-- kojin-core/src/queue_weight.rs: the polling order of weighted queues.
use kojin.Prelude.{
  ℕ, zero, suc, ◌+◌, String, ◌≡◌, refl, List, [], ◌∷◌, ◌++◌, arith, replicate, count, count-append,
  ◌==◌, string_key, if◌then◌else◌,
}

pub data QueueWeight : Type 0 where
  high medium low : QueueWeight

pub weight : QueueWeight → ℕ
weight high = 6
weight medium = 3
weight low = 1

pub record WeightedQueue : Type 0 where
  pub name : String
  pub weight : QueueWeight

pub new : String → QueueWeight → WeightedQueue
new name w = record { name = name; weight = w }

-- The inner loop pushes the name `weight` times.
pub build_weighted_order : List WeightedQueue → List String
unfolding weight
build_weighted_order [] = []
build_weighted_order (wq ∷ queues) =
    replicate (weight wq.weight) wq.name ++ build_weighted_order queues

-- The sum of the weights under one name.
pub weight_of : String → List WeightedQueue → ℕ
unfolding weight
weight_of q [] = 0
weight_of q (wq ∷ queues) = (if wq.name == q then weight wq.weight else 0) + weight_of q queues

count-replicate :
    (q name : String) (n : ℕ)
    → count (λ x. x == q) (replicate n name) ≡ (if name == q then n else 0)
count-replicate q name zero = ground arith
count-replicate q name (suc n) = ground (arith, count-replicate q name n)

-- A queue is polled exactly as often in one round of the order as its weights add up to, also where
-- its name is listed more than once.
count-build_weighted_order :
    (q : String) (queues : List WeightedQueue)
    → count (λ x. x == q) (build_weighted_order queues) ≡ weight_of q queues
unfolding build_weighted_order weight_of
count-build_weighted_order q [] = refl
count-build_weighted_order q (wq ∷ queues) = omega (
  arith,
  count-append (λ x. x == q) (replicate (weight wq.weight) wq.name) (build_weighted_order queues),
  count-replicate q wq.name (weight wq.weight),
  count-build_weighted_order q queues,
)
