-- ===== src/Canvas/Drawn.antt =====
-- Some of the messages of a workflow, in any order: what a worker may have executed of it.
use kojin.Prelude.{suc, ◌≤◌, ◌≡◌, List, [], ◌∷◌, ◌++◌, All, length, arith}

-- `order` is drawn from the list, each element at most as often as it is there.
pub data Drawn {A : Type 0} : List A → List A → Type 0 where
  none_drawn : {l : List A} → Drawn [] l
  drawn :
      {order : List A} (pre : List A) (x : A) (post : List A)
      → Drawn order (pre ++ post)
      → Drawn (x ∷ order) (pre ++ x ∷ post)

module _ {A : Type 0} where
  All-middle :
      (P : A → Type 0) (pre : List A) (x : A) (post : List A)
      → All P (pre ++ x ∷ post)
      → P x × All P (pre ++ post)
  All-middle P [] x post h = h
  All-middle P (y ∷ pre) x post h =
      let (at, rest) = All-middle P pre x post h.1 in (at, (h.0, rest))

  pub Drawn-All : (P : A → Type 0) (order l : List A) → Drawn order l → All P l → All P order
  Drawn-All P [] l none_drawn h = tt
  Drawn-All P (x ∷ order) l (drawn pre y post d) h =
      let (at, rest) = All-middle P pre x post h in (at, Drawn-All P order (pre ++ post) d rest)

  length-middle :
      (pre : List A) (x : A) (post : List A) → length (pre ++ x ∷ post) ≡ suc (length (pre ++ post))
  length-middle [] x post = omega arith
  length-middle (y ∷ pre) x post = omega (arith, length-middle pre x post)

  pub Drawn-length : (order l : List A) → Drawn order l → length order ≤ length l
  Drawn-length [] l none_drawn = omega arith
  Drawn-length (x ∷ order) l (drawn pre y post d) =
      omega (arith, Drawn-length order (pre ++ post) d, length-middle pre x post)
