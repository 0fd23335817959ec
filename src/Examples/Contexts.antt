-- ===== src/Examples/Contexts.antt =====
-- A context with a number and a text.
use kojin.Prelude.{ℕ, zero, suc, ◌≡◌, ◌≢◌, String, is_some, some, List, [], ◌∷◌, nat_key}
use kojin.Context.{BoxAny, new, insert, data_of, contains}
use kojin.Context.Typed.{insert_all, data_of-insert}

abbrev Stored : ℕ → Type 0
Stored zero = ℕ
Stored (suc n) = String

abbrev entries : List (BoxAny Stored)
entries =
    record { type_id = 0; value = 4 }
    ∷ record { type_id = 1; value = "url" }
    ∷ record { type_id = 0; value = 5 }
    ∷ []

data_of-insert_example :
    (contains 0 (insert_all Stored entries new)
      ≡ is_some (data_of {El = Stored} 0 (insert_all Stored entries new)))
    × (data_of {El = Stored} 0 (insert 0 6 (insert_all Stored entries new)) ≡ some 6)
    × ((u : ℕ)
        → 0 ≢ u
        → data_of {El = Stored} u (insert 0 6 (insert_all Stored entries new))
          ≡ data_of {El = Stored} u (insert_all Stored entries new))
data_of-insert_example = data_of-insert Stored entries 0 6
