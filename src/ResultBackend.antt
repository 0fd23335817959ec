-- ===== src/ResultBackend.antt =====
-- kojin-core/src/result_backend.rs: the trait `ResultBackend`, as the record of its operations over
-- a state `R`.
pub mod Groups
use kojin.Prelude.{
  ℕ, ◌+◌, ◌<◌, ◌^◌, String, ◌≡◌, Option, none, some, List, [], ◌∷◌, ◌++◌, ◌==◌, nat_key, string_key,
  if◌then◌else◌,
}
use kojin.Error.{KojinError, err, ok, result_backend, timeout}
use kojin.Message.{TaskId}
use kojin.Broker.{Action}

pub record ResultBackend (J R : Type 0) : Type 0 where
  pub store : TaskId → J → Action R (Unit {0})
  pub get : TaskId → Action R (Option J)
  -- The second argument is what other tasks do during each sleep of the polling loop.
  pub wait : TaskId → ℕ → List (R → R) → Action R J
  pub delete : TaskId → Action R (Unit {0})
  pub init_group : String → ℕ → Action R (Unit {0})
  pub complete_group_member : String → TaskId → J → Action R ℕ
  pub get_group_results : String → Action R (List J)

-- The bodies that the trait gives to the group operations.
abbrev not_supported : String
not_supported = "group operations not supported by this backend"

unfoldable pub default_init_group : {R : Type 0} → String → ℕ → Action R Unit
default_init_group group_id total r = (err (result_backend not_supported), r)

unfoldable pub default_complete_group_member : {J R : Type 0} → String → TaskId → J → Action R ℕ
default_complete_group_member group_id id result r = (err (result_backend not_supported), r)

unfoldable pub default_get_group_results : {J R : Type 0} → String → Action R (List J)
default_get_group_results group_id r = (err (result_backend not_supported), r)

-- What a client can see of a result backend: the result of a task, and the number of completed
-- members of a group with their results.
pub record View (J R : Type 0) : Type 0 where
  pub result : R → TaskId → Option J
  pub group : R → String → Option (ℕ × List J)

module _ {J R : Type 0} (v : View J R) where
  abbrev pub SameResults : R → R → Type 0
  SameResults r r' = (j : TaskId) → v.result r' j ≡ v.result r j

  abbrev pub SameGroups : R → R → Type 0
  SameGroups r r' = (g : String) → v.group r' g ≡ v.group r g

  abbrev pub ResultSet : TaskId → Option J → R → R → Type 0
  ResultSet i o r r' = (j : TaskId) → v.result r' j ≡ (if i == j then o else v.result r j)

  abbrev pub GroupSet : String → ℕ → List J → R → R → Type 0
  GroupSet g n results r r' =
      (h : String) → v.group r' h ≡ (if g == h then some (n, results) else v.group r h)

-- The contract of the trait, for a backend that supports groups. A count is a `u32`; nothing is
-- promised of a completion that it cannot count.
pub record IsResultBackend {J R : Type 0} (b : ResultBackend J R) (v : View J R) : Type 0 where
  pub store_ok : (i : TaskId) (a : J) (r : R) → (b.store i a r).0 ≡ ok tt
  pub store_result : (i : TaskId) (a : J) (r : R) → ResultSet v i (some a) r (b.store i a r).1
  pub store_group : (i : TaskId) (a : J) (r : R) → SameGroups v r (b.store i a r).1
  pub get_lem : (i : TaskId) (r : R) → b.get i r ≡ (ok (v.result r i), r)
  pub wait_found :
      (i : TaskId) (limit : ℕ) (a : J) (sleeps : List (R → R)) (r : R)
      → v.result r i ≡ some a
      → b.wait i limit sleeps r ≡ (ok a, r)
  pub wait_over :
      (i : TaskId) (limit : ℕ) (r : R)
      → v.result r i ≡ none
      → b.wait i limit [] r ≡ (err (timeout limit), r)
  pub wait_on :
      (i : TaskId) (limit : ℕ) (act : R → R) (sleeps : List (R → R)) (r : R)
      → v.result r i ≡ none
      → b.wait i limit (act ∷ sleeps) r ≡ b.wait i limit sleeps (act r)
  pub delete_result : (i : TaskId) (r : R) → ResultSet v i none r (b.delete i r).1
  pub delete_group : (i : TaskId) (r : R) → SameGroups v r (b.delete i r).1
  pub init_ok : (g : String) (n : ℕ) (r : R) → (b.init_group g n r).0 ≡ ok tt
  pub init_group : (g : String) (n : ℕ) (r : R) → GroupSet v g 0 [] r (b.init_group g n r).1
  pub init_result : (g : String) (n : ℕ) (r : R) → SameResults v r (b.init_group g n r).1
  pub complete_ok :
      (g : String) (i : TaskId) (a : J) (r : R) (n : ℕ) (results : List J)
      → v.group r g ≡ some (n, results)
      → n + 1 < 2 ^ 32
      → (b.complete_group_member g i a r).0 ≡ ok (n + 1)
  pub complete_group :
      (g : String) (i : TaskId) (a : J) (r : R) (n : ℕ) (results : List J)
      → v.group r g ≡ some (n, results)
      → n + 1 < 2 ^ 32
      → GroupSet v g (n + 1) (results ++ a ∷ []) r (b.complete_group_member g i a r).1
  pub complete_unknown :
      (g : String) (i : TaskId) (a : J) (r : R)
      → v.group r g ≡ none
      → (e : KojinError) × (b.complete_group_member g i a r ≡ (err e, r))
  pub complete_result :
      (g : String) (i : TaskId) (a : J) (r : R)
      → SameResults v r (b.complete_group_member g i a r).1
  pub results_same : (g : String) (r : R) → (b.get_group_results g r).1 ≡ r
  pub results_lem :
      (g : String) (r : R) (n : ℕ) (results : List J)
      → v.group r g ≡ some (n, results)
      → b.get_group_results g r ≡ (ok results, r)
