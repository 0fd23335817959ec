-- ===== src/Examples/Databases.antt =====
-- The result backend on PostgreSQL at a concrete database.
use kojin.Prelude.{ℕ, ◌≡◌, refl, Bool, true, false, List, [], ◌∷◌, arith, String}
use kojin.Error.{ok}
use kojin.Message.{TaskId}
use kojin.ResultBackend.Groups.{complete_all}
use kojin.Postgres
use kojin.Postgres.{
  postgres_result_backend, init_group, complete_upsert, complete_count, get_group_results,
}
use kojin.Postgres.Tables.{Database, count_members}
use kojin.Postgres.Groups.{counts_of, complete_all-distinct, is_in, is_done}
use kojin.Postgres.Race.{complete_race}
use kojin.Examples.Sample.{unary, unary-ShowsApart}

abbrev empty : Database ℕ
empty = record {
  kojin_results = [];
  kojin_groups = [];
  has_results = true;
  has_groups = true;
  has_index = true;
  now = 0;
  utc_now = 0;
  faults = [];
}

abbrev never : String → String → Bool
never s t = false

-- The first member completes twice.
abbrev members : List (TaskId × ℕ)
members = (1, 10) ∷ (2, 20) ∷ (1, 11) ∷ []

complete_all-distinct_example :
    (complete_all
      (postgres_result_backend never unary Postgres.new)
      "g"
      members
      (init_group never unary Postgres.new "g" 2 empty).1).0
    ≡ counts_of never unary Postgres.new "g" [] 0 members
unfolding count_members
complete_all-distinct_example =
    complete_all-distinct never unary Postgres.new "g" 2 members empty refl refl (omega arith)

distinct_test :
    counts_of {J = ℕ} never unary Postgres.new "g" [] 0 members ≡ ok 1 ∷ ok 2 ∷ ok 2 ∷ []
unfolding counts_of is_in unary
distinct_test = refl

abbrev raced : Database ℕ
raced =
    (complete_upsert never unary Postgres.new "g" 2 20
      (complete_upsert never unary Postgres.new "g" 1 10 empty).1).1

complete_race_example :
    ((complete_count never unary Postgres.new "g" raced).0 ≡ ok 2)
    × ((complete_count never unary Postgres.new "g"
          (complete_count never unary Postgres.new "g" raced).1).0
        ≡ ok 2)
    × ((complete_count never unary Postgres.new "g"
          (complete_upsert never unary Postgres.new "g" 1 10 empty).1).0
        ≡ ok 1)
unfolding count_members is_done
complete_race_example =
    complete_race never unary Postgres.new "g" 1 2 10 20 0 empty refl
      (λ e. absurd (omega (arith, unary-ShowsApart 1 2 e))) refl refl refl (omega arith)
