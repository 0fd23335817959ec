-- ===== src/MemoryBroker/Fifo.antt =====
-- The broker in memory is first in, first out within a queue.
use mathlib.Core.List.{append_assoc, append-nil}
use kojin.Prelude.{
  ◌≡◌, refl, ◌∙◌, ap, String, ℕ, zero, suc, Option, some, arith, List, ◌++◌, ◌∷◌, [], string_key,
  nat_key, All, length, same_refl,
}
use kojin.Error.{TaskResult, ok}
use kojin.Message.{TaskMessage}
use kojin.MemoryBroker.{MemoryBroker, queue_at, pop_front, try_pop, dequeue, enqueue}
use kojin.MemoryBroker.Contract.{waiting, queue_at-push_back}
use kojin.MemoryBroker.Polling.{after_pop, waiting-after_pop}

module _ {J : Type 0} where
  pub enqueue_all : List (TaskMessage J) → MemoryBroker J → MemoryBroker J
  enqueue_all [] b = b
  enqueue_all (m ∷ ms) b = enqueue_all ms (enqueue m b).1

  drained : TaskResult (Option (TaskMessage J)) → List (TaskMessage J) → List (TaskMessage J)
  drained (ok (some m)) ms = m ∷ ms
  drained _ ms = ms

  -- What `n` calls of `dequeue` on one queue return, with no other task in between.
  pub drain : ℕ → String → MemoryBroker J → List (TaskMessage J)
  unfolding drained
  drain zero q b = []
  drain (suc n) q b = let (r, b') = dequeue (q ∷ []) [] b in drained r (drain n q b')

  pub waiting-enqueue :
      (q : String) (m : TaskMessage J) (b : MemoryBroker J)
      → m.queue ≡ q
      → waiting (enqueue m b).1 q ≡ waiting b q ++ m ∷ []
  unfolding enqueue
  waiting-enqueue q m b e =
      ground (arith, queue_at-push_back m.queue q m b.queues, string_key.same_iff m.queue q)

  waiting-enqueue_all :
      (q : String) (ms : List (TaskMessage J)) (b : MemoryBroker J)
      → All (λ m. m.queue ≡ q) ms
      → waiting (enqueue_all ms b) q ≡ waiting b q ++ ms
  unfolding enqueue_all
  waiting-enqueue_all q [] b h = rw append-nil
  waiting-enqueue_all q (m ∷ ms) b h =
      waiting-enqueue_all q ms (enqueue m b).1 h.1
      ∙ ap (λ l. l ++ ms) (waiting-enqueue q m b h.0)
      ∙ append_assoc (waiting b q) (m ∷ []) ms

  pub dequeue_first :
      (q : String) (m : TaskMessage J) (rest : List (TaskMessage J)) (b : MemoryBroker J)
      → waiting b q ≡ m ∷ rest
      → dequeue (q ∷ []) [] b ≡ (ok (some m), after_pop q m rest b)
  unfolding dequeue try_pop pop_front queue_at
  dequeue_first q m rest b h = ground arith

  pub waiting-after_pop_self :
      (q : String) (m : TaskMessage J) (rest : List (TaskMessage J)) (b : MemoryBroker J)
      → waiting (after_pop q m rest b) q ≡ rest
  waiting-after_pop_self q m rest b = rw (waiting-after_pop q m rest b q, same_refl q)

  drain-waiting :
      (q : String) (ms : List (TaskMessage J)) (b : MemoryBroker J)
      → waiting b q ≡ ms
      → drain (length ms) q b ≡ ms
  unfolding drain
  drain-waiting q [] b h = refl
  drain-waiting q (m ∷ ms) b h =
      rw (dequeue_first q m ms b h)
        (ap (◌∷◌ m) (drain-waiting q ms (after_pop q m ms b) (waiting-after_pop_self q m ms b)))

  -- Messages that are enqueued on one empty queue come out in the order in which they went in.
  pub drain-enqueue_all :
      (q : String) (ms : List (TaskMessage J)) (b : MemoryBroker J)
      → All (λ m. m.queue ≡ q) ms
      → waiting b q ≡ []
      → drain (length ms) q (enqueue_all ms b) ≡ ms
  drain-enqueue_all q ms b h e =
      drain-waiting q ms (enqueue_all ms b) (waiting-enqueue_all q ms b h ∙ rw e)
