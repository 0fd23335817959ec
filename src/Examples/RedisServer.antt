-- ===== src/Examples/RedisServer.antt =====
-- A concrete Redis server, on which the documented behaviour can be seen to hold.
use kojin.Prelude.{
  ℕ, ◌+◌, Bool, true, false, ◌≡◌, refl, sym, ap, ◌∙◌, String, Option, none, some, List, [], ◌∷◌,
  ◌++◌, take, length, if◌then◌else◌, ◌==◌, string_key, if_same, if_apart, arith,
}
use kojin.Remote.{Reply, done}
use kojin.Redis.Commands.{
  Commands, View, Scored, due, not_due, ScriptsDocumented, ListsDocumented, DedupDocumented,
}

pub record Redis : Type 0 where
  pub lists : String → List String
  pub sorted : String → Scored
  pub flags : String → Bool
  pub numbers : String → ℕ

abbrev pub put : {A : Type 0} → String → A → (String → A) → String → A
put k a f j = if k == j then a else f j

abbrev split_last : List String → Option (List String × String)
split_last [] = none
split_last (x ∷ xs) = elim (split_last xs) [
  | none ↦ some ([], x)
  | some (front, last) ↦ some (x ∷ front, last)
]

split_last-snoc : (l : List String) (x : String) → split_last (l ++ x ∷ []) ≡ some (l, x)
split_last-snoc [] x = refl
split_last-snoc (y ∷ l) x = rw (split_last-snoc l x) refl

abbrev remove_one : String → List String → List String
remove_one x [] = []
remove_one x (y ∷ l) = if y == x then l else y ∷ remove_one x l

abbrev push_to : String → String → Redis → Redis
push_to k x w = record w { lists = put k (x ∷ w.lists k) w.lists }

abbrev shift :
    Option (List String × String) → String → String → Redis → Reply (Option String) × Redis
shift none s d w = (done none, w)
shift (some (front, last)) s d w =
    let taken = put s front w.lists in
    (done (some last), record w { lists = put d (last ∷ taken d) taken })

abbrev set_flag : Bool → String → Redis → Reply Bool × Redis
set_flag true k w = (done false, w)
set_flag false k w = (done true, record w { flags = put k true w.flags })

abbrev pub redis : Commands Redis
redis = record {
  build_pool = λ url size w. (done tt, w);
  pool_get = λ w. (done tt, w);
  set_nx = λ k ttl w. set_flag (w.flags k) k w;
  set_ex = λ k s ttl w. (done tt, w);
  get = λ k w. (done none, w);
  del = λ k w. (done tt, w);
  lpush = λ k x w. (done tt, push_to k x w);
  blmove = λ s d t w. shift (split_last (w.lists s)) s d w;
  lrange = λ k from to w. (done (w.lists k), w);
  lrem = λ k n x w. (done tt, record w { lists = put k (remove_one x (w.lists k)) w.lists });
  llen = λ k w. (done (length (w.lists k)), w);
  zadd = λ k x score w. (done tt, record w { sorted = put k ((x, score) ∷ w.sorted k) w.sorted });
  keys = λ p w. (done [], w);
  invoke = λ script w. (done (script w).0, (script w).1);
  zrangebyscore = λ k max limit w. take limit (due max (w.sorted k));
  zremrangebyscore = λ k max w. record w { sorted = put k (not_due max (w.sorted k)) w.sorted };
  script_lpush = push_to;
  script_incr = λ k w. (w.numbers k + 1, record w { numbers = put k (w.numbers k + 1) w.numbers });
  script_rpush = λ k x w. record w { lists = put k (w.lists k ++ x ∷ []) w.lists };
  utc_now = λ w. 10;
  now_v7 = λ w. "w";
}

abbrev pub redis_view : View Redis
redis_view = record { lists = λ w k. w.lists k; sorted = λ w k. w.sorted k }

-- A push, seen under the key that is asked for.
push_to-lists :
    (k x : String) (w : Redis) (j : String)
    → (push_to k x w).lists j ≡ (if k == j then x ∷ w.lists j else w.lists j)
push_to-lists k x w j = ground (arith, string_key.same_iff k j)

pub redis-ScriptsDocumented : ScriptsDocumented redis redis_view
redis-ScriptsDocumented = record {
  pool_get_lem = λ w. refl;
  invoke_lem = λ script w. refl;
  zrangebyscore_lem = λ k max limit w. refl;
  zrem_sorted = λ k max w j. refl;
  zrem_lists = λ k max w j. refl;
  lpush_lists = λ k x w j. push_to-lists k x w j;
  lpush_sorted = λ k x w j. refl;
}

pub redis-ListsDocumented : ListsDocumented redis redis_view
redis-ListsDocumented = record {
  pool_get_lem = λ w. refl;
  lpush_lem = λ k x w. (push_to k x w, refl, λ j. push_to-lists k x w j);
  blmove_lem = λ s d x front t w apart h.
      let taken = put s front w.lists in
      (
        record w { lists = put d (x ∷ taken d) taken },
        ap (λ o. shift o s d w) (ap split_last h ∙ split_last-snoc front x),
        if_apart d s (x ∷ taken d) (taken s) (λ e. apart (sym e))
            ∙ if_same s s front (w.lists s) refl,
        if_same d d (x ∷ taken d) (taken d) refl
            ∙ ap (λ l. x ∷ l) (if_apart s d front (w.lists d) apart),
      );
  lrange_lem = λ k w. refl;
  lrem_lem = λ k x rest w h. (
    record w { lists = put k (remove_one x (w.lists k)) w.lists },
    refl,
    if_same k k (remove_one x (w.lists k)) (w.lists k) refl
        ∙ ap (remove_one x) h
        ∙ if_same x x rest (x ∷ remove_one x rest) refl,
    λ j apart. if_apart k j (remove_one x (w.lists k)) (w.lists j) apart,
  );
}

pub redis-DedupDocumented : DedupDocumented redis redis_view (λ w. w.flags)
redis-DedupDocumented = record {
  on_lists = redis-ListsDocumented;
  lrem_keeps = λ k x w j. refl;
  set_nx_lem = λ k ttl w h. (w, ap (λ f. set_flag f k w) h, λ j. refl);
}

abbrev pub empty : Redis
empty = record { lists = λ k. []; sorted = λ k. []; flags = λ k. false; numbers = λ k. 0 }
