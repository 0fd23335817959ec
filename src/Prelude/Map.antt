-- ===== src/Prelude/Map.antt =====
-- `HashMap` and `DashMap`: an association list behind the laws of `get`. A key stands in it at most
-- as often as it was inserted, and `insert` drops the old entry. The order of entries is that of
-- insertion, the last one first; the maps of the program promise no order.
use mathlib.Core.Path.{◌≡◌, refl}
use mathlib.Core.Bool.{Bool}
use mathlib.Core.Option.{Option, none, some}
use mathlib.Core.List.{List, [], ◌∷◌}
use native.Mathlib.Omega.{arith}
use kojin.Prelude.Tests.{Key, ◌==◌, same_refl, if◌then◌else◌}

abbrev pub Map {ℓ κ} : Type ℓ → Type κ → Type (ℓ ⊔ κ)
Map K V = List (K × V)

-- HashMap::new()
abbrev pub empty {ℓ κ} : {K : Type ℓ} {V : Type κ} → Map K V
empty = []

abbrev pub keep {κ} : {V : Type κ} → (V → Bool) → Option V → Option V
keep p none = none
keep p (some v) = if p v then some v else none

module _ {ℓ κ} {K : Type ℓ} {V : Type κ} ⦃e : Key K⦄ where
  -- map.get(&k)
  unfoldable pub get : K → Map K V → Option V
  get k [] = none
  get k ((j, v) ∷ m) = if j == k then some v else get k m

  -- map.remove(&k)
  unfoldable pub remove : K → Map K V → Map K V
  remove k [] = []
  remove k ((j, v) ∷ m) = let rest = remove k m in if j == k then rest else (j, v) ∷ rest

  -- map.insert(k, v)
  unfoldable pub insert : K → V → Map K V → Map K V
  unfolding remove
  insert k v m = (k, v) ∷ remove k m

  pub get-remove : (k j : K) (m : Map K V) → get j (remove k m) ≡ (if k == j then none else get j m)
  unfolding get remove
  get-remove k j [] = ground arith
  get-remove k j ((i, v) ∷ m) =
      ground (arith, get-remove k j m, e.same_iff i k, e.same_iff i j, e.same_iff k j)

  pub get-insert :
      (k j : K) (v : V) (m : Map K V) → get j (insert k v m) ≡ (if k == j then some v else get j m)
  unfolding get insert
  get-insert k j v m = ground (arith, get-remove k j m)

  pub get-insert_self : (k : K) (v : V) (m : Map K V) → get k (insert k v m) ≡ some v
  get-insert_self k v m = ground (arith, get-insert k k v m, same_refl k)

  -- map.retain(|_, v| p(v))
  unfoldable pub retain : (V → Bool) → Map K V → Map K V
  retain p [] = []
  retain p ((k, v) ∷ m) = let rest = retain p m in if p v then (k, v) ∷ rest else rest

  -- No key stands twice: what a map built by `insert` and `remove` keeps.
  abbrev pub Distinct : Map K V → Type κ
  Distinct [] = Unit
  Distinct ((k, v) ∷ m) = (get k m ≡ none) × Distinct m

  pub get-retain :
      (p : V → Bool) (k : K) (m : Map K V) → Distinct m → get k (retain p m) ≡ keep p (get k m)
  unfolding get retain
  get-retain p k [] d = refl
  get-retain p k ((j, v) ∷ m) d = ground (arith, get-retain p k m d.1, e.same_iff j k)

  pub remove-Distinct : (k : K) (m : Map K V) → Distinct m → Distinct (remove k m)
  unfolding remove
  remove-Distinct k [] d = tt
  remove-Distinct k ((j, v) ∷ m) d = ground (arith, remove-Distinct k m d.1, get-remove k j m)

  pub insert-Distinct : (k : K) (v : V) (m : Map K V) → Distinct m → Distinct (insert k v m)
  unfolding insert
  insert-Distinct k v m d = (ground (arith, get-remove k k m, same_refl k), remove-Distinct k m d)

  pub retain-Distinct : (p : V → Bool) (m : Map K V) → Distinct m → Distinct (retain p m)
  unfolding retain
  retain-Distinct p [] d = tt
  retain-Distinct p ((k, v) ∷ m) d = ground (arith, retain-Distinct p m d.1, get-retain p k m d.1)
