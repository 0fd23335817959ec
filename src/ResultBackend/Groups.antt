-- ===== src/ResultBackend/Groups.antt =====
-- The members of a group complete one after the other, in whatever order.
use kojin.Prelude.{ℕ, ◌+◌, ◌<◌, ◌^◌, String, ◌≡◌, some, List, [], ◌∷◌, ◌++◌, same_refl, string_key}
use kojin.Error.{TaskResult, ok}
use kojin.Message.{TaskId}
use kojin.ResultBackend.{ResultBackend, View, IsResultBackend}

module _ {J R : Type 0} (b : ResultBackend J R) where
  -- What the calls of `complete_group_member` return, and the state after them.
  unfoldable pub complete_all : String → List (TaskId × J) → R → List (TaskResult ℕ) × R
  complete_all g [] r = ([], r)
  complete_all g ((i, a) ∷ members) r =
      let (c, r') = b.complete_group_member g i a r in
      let (cs, r'') = complete_all g members r' in (c ∷ cs, r'')

unfoldable pub counts_from : {A : Type 0} → ℕ → List A → List (TaskResult ℕ)
counts_from n [] = []
counts_from n (x ∷ xs) = ok (n + 1) ∷ counts_from (n + 1) xs

module _ {J R : Type 0} {b : ResultBackend J R} {v : View J R} (lawful : IsResultBackend b v) where
  pub group_self :
      (g : String) (i : TaskId) (a : J) (r : R) (n : ℕ) (results : List J)
      → v.group r g ≡ some (n, results)
      → n + 1 < 2 ^ 32
      → v.group (b.complete_group_member g i a r).1 g ≡ some (n + 1, results ++ a ∷ [])
  group_self g i a r n results h fits =
      rw (lawful.complete_group g i a r n results h fits g, same_refl g)
