-- ===== src/Examples/RedisGroups.antt =====
-- The result backend on Redis at a concrete server.
use Prim.Native.String.{[] as nil, ◌∷◌ as ◌∷ₛ◌}
use kojin.Prelude.{
  ℕ, zero, suc, ◌+◌, ◌≡◌, refl, ap, String, List, [], ◌∷◌, string_key, if_same, arith,
}
use kojin.Error.{ok}
use kojin.Message.{TaskId}
use kojin.ResultBackend.Groups.{complete_all, counts_from}
use kojin.Redis.ResultBackend.{
  Json, RedisResultBackend, redis_result_backend, init_group, get_group_results,
}
use kojin.Redis.ResultBackend.Groups.{RoundTrips, GroupsDocumented, Texts, complete_all-counted}
use kojin.Examples.Sample.{unary}
use kojin.Examples.RedisServer.{redis, put, empty}

count : String → ℕ
count nil = 0
count (c ∷ₛ s) = suc (count s)

count-unary : (n : ℕ) → count (unary n) ≡ n
unfolding count unary
count-unary zero = refl
count-unary (suc n) = ap suc (count-unary n)

abbrev json : Json ℕ
json = record { to_text = λ n. ok (unary n); from_text = λ s. ok (count s) }

json-RoundTrips : RoundTrips json
json-RoundTrips = record { value = λ n. (unary n, refl, ap ok (count-unary n)) }

redis-GroupsDocumented : GroupsDocumented redis (λ w. w.lists) (λ w. w.numbers)
redis-GroupsDocumented = record {
  pool_get_lem = λ w. refl;
  invoke_lem = λ script w small. refl;
  incr_lem = λ k w. (
    record w { numbers = put k (w.numbers k + 1) w.numbers },
    refl,
    if_same k k (w.numbers k + 1) (w.numbers k) refl,
    λ j. refl,
  );
  rpush_lists = λ k x w j. refl;
  rpush_counter = λ k x w j. refl;
  set_ex_lem = λ k x ttl w. (w, refl, (λ j apart. refl), (λ j apart. refl));
  lrange_lem = λ k w. refl;
}

abbrev backend : RedisResultBackend
backend = record { keys = record { prefix = "kojin" }; ttl = 60 }

abbrev members : List (TaskId × ℕ)
members = (2, 20) ∷ (1, 10) ∷ []

complete_all-counted_example :
    let (counts, w') =
      complete_all
        (redis_result_backend redis json unary backend)
        "g"
        members
        (init_group redis json unary backend "g" 2 empty).1 in
    (counts ≡ ok 1 ∷ ok 2 ∷ [])
    × ((get_group_results redis json unary backend "g" w').0 ≡ ok (20 ∷ 10 ∷ []))
unfolding counts_from Texts
complete_all-counted_example =
    complete_all-counted redis json unary backend (λ w. w.lists) (λ w. w.numbers)
      redis-GroupsDocumented json-RoundTrips "g" 2 members empty [] (omega arith) tt
