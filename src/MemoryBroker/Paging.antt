-- ===== src/MemoryBroker/Paging.antt =====
-- Reading the dead-letter queue of the broker in memory page by page.
use kojin.Prelude.{
  ◌≡◌, refl, sym, ap, ◌∙◌, String, ℕ, zero, suc, ◌+◌, ◌*◌, ◌≤◌, arith, List, ◌++◌, ◌∷◌, [], length,
  take, drop,
}
use kojin.Error.{TaskResult, ok, err}
use kojin.Message.{TaskMessage}
use kojin.MemoryBroker.{MemoryBroker, queue_at, dlq_messages, dlq_len}
use native.Mathlib.Nat.{zero-add, suc-add, zero-mul}

module _ {ℓ} {A : Type ℓ} where
  take-nil : (m : ℕ) → ◌≡◌ {A = List A} (take m []) []
  take-nil zero = refl
  take-nil (suc m) = refl

  drop-nil : (m : ℕ) → ◌≡◌ {A = List A} (drop m []) []
  drop-nil zero = refl
  drop-nil (suc m) = refl

  take-add : (n m : ℕ) (xs : List A) → take (n + m) xs ≡ take n xs ++ take m (drop n xs)
  take-add zero m xs = rw zero-add
  take-add (suc n) m [] = rw (suc-add, take-nil m)
  take-add (suc n) m (x ∷ xs) = rw (suc-add, take-add n m xs)

  drop-drop : (n m : ℕ) (xs : List A) → drop m (drop n xs) ≡ drop (n + m) xs
  drop-drop zero m xs = rw zero-add
  drop-drop (suc n) m [] = rw (suc-add, drop-nil m)
  drop-drop (suc n) m (x ∷ xs) = rw (suc-add, drop-drop n m xs)

  take-all : (n : ℕ) (xs : List A) → length xs ≤ n → take n xs ≡ xs
  take-all zero [] h = refl
  take-all zero (x ∷ xs) h = absurd (omega arith)
  take-all (suc n) [] h = refl
  take-all (suc n) (x ∷ xs) h = ap (◌∷◌ x) (take-all n xs (omega arith))

module _ {J : Type 0} where
  page_of : TaskResult (List (TaskMessage J)) → List (TaskMessage J)
  page_of (ok page) = page
  page_of (err e) = []

  -- The pages of `limit` messages from `offset` on, one after the other.
  pub read_pages : String → ℕ → ℕ → ℕ → MemoryBroker J → List (TaskMessage J)
  unfolding page_of
  read_pages q limit zero offset b = []
  read_pages q limit (suc pages) offset b =
      page_of (dlq_messages q offset limit b).0 ++ read_pages q limit pages (offset + limit) b

  read_pages-take :
      (q : String) (limit pages offset : ℕ) (b : MemoryBroker J)
      → read_pages q limit pages offset b ≡ take (pages * limit) (drop offset (queue_at q b.dlq))
  unfolding read_pages dlq_messages
  read_pages-take q limit zero offset b = rw zero-mul
  read_pages-take q limit (suc pages) offset b =
      let l = queue_at q b.dlq in
      ap (λ rest. take limit (drop offset l) ++ rest)
        (read_pages-take q limit pages (offset + limit) b
          ∙ ap (take (pages * limit)) (sym (drop-drop offset limit l)))
      ∙ sym (take-add limit (pages * limit) (drop offset l))
      ∙ ap (λ n. take n (drop offset l)) (omega arith)

  -- Pages of any size, as many as the count that `dlq_len` returns calls for, are the dead-letter
  -- queue in its order, with no message left out or read twice.
  pub read_pages-eq-dlq :
      (q : String) (limit pages n : ℕ) (b : MemoryBroker J)
      → (dlq_len q b).0 ≡ ok n
      → n ≤ pages * limit
      → read_pages q limit pages 0 b ≡ queue_at q b.dlq
  unfolding dlq_len
  read_pages-eq-dlq q limit pages n b counted h =
      read_pages-take q limit pages 0 b ∙ take-all (pages * limit) (queue_at q b.dlq) (ground arith)
