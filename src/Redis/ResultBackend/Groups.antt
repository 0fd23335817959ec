-- ===== src/Redis/ResultBackend/Groups.antt =====
-- How the result backend on Redis (kojin-redis/src/result_backend.rs) counts the members of a group and
-- collects their results.
use mathlib.Core.List.{append-nil, append_assoc}
use kojin.Prelude.{
  ℕ, ◌+◌, ◌^◌, ◌<◌, ◌≡◌, ◌≢◌, refl, sym, subst, ap, ◌∙◌, String, List, [], ◌∷◌, ◌++◌, map, length,
  if◌then◌else◌, ◌==◌, string_key, if_same, arith,
}
use kojin.Prelude.Int.{pos, negsuc}
use kojin.Prelude.Text.{to_decimal}
use kojin.Error.{ok}
use kojin.Message.{TaskId}
use kojin.Remote.{done}
use kojin.Action.{continue}
use kojin.ResultBackend.Groups.{complete_all, counts_from}
use kojin.Redis.Keys.{group_total, group_completed, group_results}
use kojin.Redis.Keys.Apart.{of_total, of_completed, of_results, key_of, key_of_inj}
use kojin.Redis.Commands.{Commands}
use kojin.Redis.ResultBackend.{
  Json, RedisResultBackend, group_complete_script, complete_group_member, init_group, read_values,
  get_group_results, redis_result_backend,
}

-- What is written is read back.
pub record RoundTrips {J : Type 0} (json : Json J) : Type 0 where
  pub value : (a : J) → (s : String) × (json.to_text a ≡ ok s) × (json.from_text s ≡ ok a)

-- What Redis documents of scripts, INCR, RPUSH and SET, where no call fails and the pool has a free
-- connection: a key that is not there counts as 0, or as no item. The number that a script returns is
-- read as a `u32`.
pub record GroupsDocumented {W : Type 0} (redis : Commands W) (lists : W → String → List String)
    (counter : W → String → ℕ) : Type 0 where
  pub pool_get_lem : (w : W) → redis.pool_get w ≡ (done tt, w)
  pub invoke_lem :
      (script : W → ℕ × W) (w : W)
      → (script w).0 < 2 ^ 32
      → redis.invoke script w ≡ (done (script w).0, (script w).1)
  pub incr_lem :
      (key : String) (w : W)
      → (w' : W) × (redis.script_incr key w ≡ (counter w key + 1, w'))
        × (counter w' key ≡ counter w key + 1)
        × ((other : String) → lists w' other ≡ lists w other)
  pub rpush_lists :
      (key item : String) (w : W) (other : String)
      → lists (redis.script_rpush key item w) other
        ≡ (if key == other then lists w key ++ item ∷ [] else lists w other)
  pub rpush_counter :
      (key item : String) (w : W) (other : String)
      → counter (redis.script_rpush key item w) other ≡ counter w other
  pub set_ex_lem :
      (key item : String) (ttl : ℕ) (w : W)
      → (w' : W) × (redis.set_ex key item ttl w ≡ (done tt, w'))
        × ((other : String) → key ≢ other → counter w' other ≡ counter w other)
        × ((other : String) → key ≢ other → lists w' other ≡ lists w other)
  pub lrange_lem :
      (key : String) (w : W) → redis.lrange key (pos 0) (negsuc 0) w ≡ (done (lists w key), w)

module _ {J W : Type 0} (redis : Commands W) (json : Json J) (to_string : TaskId → String)
    (b : RedisResultBackend) where
  -- The texts are those of the values.
  unfoldable pub Texts : List String → List J → Type 0
  Texts [] [] = Unit
  Texts [] (a ∷ values) = ⊥
  Texts (s ∷ texts) [] = ⊥
  Texts (s ∷ texts) (a ∷ values) = (json.from_text s ≡ ok a) × Texts texts values

  read_values-Texts :
      (texts : List String) (values : List J)
      → Texts texts values
      → read_values redis json to_string b texts ≡ ok values
  unfolding Texts read_values
  read_values-Texts [] [] h = refl
  read_values-Texts [] (a ∷ values) h = absurd h
  read_values-Texts (s ∷ texts) [] h = absurd h
  read_values-Texts (s ∷ texts) (a ∷ values) (e, h) = rw (e, read_values-Texts texts values h) refl

  Texts-append :
      (texts : List String) (values : List J) (s : String) (a : J)
      → Texts texts values
      → json.from_text s ≡ ok a
      → Texts (texts ++ s ∷ []) (values ++ a ∷ [])
  unfolding Texts
  Texts-append [] [] s a h e = (e, tt)
  Texts-append [] (c ∷ values) s a h e = absurd h
  Texts-append (t ∷ texts) [] s a h e = absurd h
  Texts-append (t ∷ texts) (c ∷ values) s a (d, h) e = (d, Texts-append texts values s a h e)

  module _ (lists : W → String → List String) (counter : W → String → ℕ)
      (documented : GroupsDocumented redis lists counter) (reads : RoundTrips json)
      (g : String) where
    abbrev completed : W → ℕ
    completed w = counter w (group_completed b.keys g)

    abbrev stored : W → List String
    stored w = lists w (group_results b.keys g)

    complete_one :
        (i : TaskId) (a : J) (w : W) (values : List J)
        → completed w + 1 < 2 ^ 32
        → Texts (stored w) values
        → (w' : W) × (complete_group_member redis json to_string b g i a w
            ≡ (ok (completed w + 1), w'))
          × (completed w' ≡ completed w + 1)
          × Texts (stored w') (values ++ a ∷ [])
    unfolding complete_group_member group_complete_script
    complete_one i a w values fits h =
        let (s, written, read) = reads.value a in
        let (w1, call, count, same) = documented.incr_lem (group_completed b.keys g) w in
        let key = group_results b.keys g in
        let w2 = redis.script_rpush key s w1 in
        let script = group_complete_script redis (group_completed b.keys g) key s in
        let ran : script w ≡ (completed w + 1, w2) = rw call refl in
        (
          w2,
          rw
              (
                documented.pool_get_lem w,
                continue,
                written,
                documented.invoke_lem script w (omega (arith, ap (λ (r : ℕ × W). r.0) ran)),
              )
              (ap (λ (r : ℕ × W). (ok r.0, r.1)) ran),
          documented.rpush_counter key s w1 (group_completed b.keys g) ∙ count,
          subst (λ (texts : List String). Texts texts (values ++ a ∷ []))
              (sym (
                documented.rpush_lists key s w1 key
                ∙ if_same key key (lists w1 key ++ s ∷ []) (lists w1 key) refl
                ∙ ap (λ l. l ++ s ∷ []) (same key)))
              (Texts-append (stored w) values s a h read),
        )

    complete_all_from :
        (members : List (TaskId × J)) (w : W) (values : List J)
        → completed w + length members < 2 ^ 32
        → Texts (stored w) values
        → let (counts, w') =
            complete_all (redis_result_backend redis json to_string b) g members w in
          (counts ≡ counts_from (completed w) members)
          × Texts (stored w') (values ++ map (λ m. m.1) members)
    unfolding complete_all counts_from
    complete_all_from [] w values fits h =
        (refl, subst (Texts (stored w)) (sym (append-nil values)) h)
    complete_all_from ((i, a) ∷ members) w values fits h =
        let (w1, call, count, h1) = complete_one i a w values (omega arith) h in
        let (counts, h2) =
          complete_all_from members w1 (values ++ a ∷ []) (omega (arith, count)) h1 in
        rw call (
          ap (λ cs. ok (completed w + 1) ∷ cs) (counts ∙ ap (λ n. counts_from n members) count),
          subst
              (λ (l : List J).
                Texts
                  (stored
                    (complete_all (redis_result_backend redis json to_string b) g members w1).1)
                  l)
              (append_assoc values (a ∷ []) (map (λ m. m.1) members)) h2,
        )

    not_completed : group_total b.keys g ≢ group_completed b.keys g
    unfolding key_of
    not_completed e = cc ((key_of_inj b.keys of_total of_completed g g e).0)

    not_results : group_total b.keys g ≢ group_results b.keys g
    unfolding key_of
    not_results e = cc ((key_of_inj b.keys of_total of_results g g e).0)

    init_group-same :
        (total : ℕ) (w : W)
        → (w' : W) × (init_group redis json to_string b g total w ≡ (ok tt, w'))
          × (completed w' ≡ completed w)
          × (stored w' ≡ stored w)
    unfolding init_group
    init_group-same total w =
        let (w', call, counters, items) =
          documented.set_ex_lem (group_total b.keys g) (to_decimal total) b.ttl w in
        (
          w',
          rw (documented.pool_get_lem w, continue, call) refl,
          counters _ not_completed,
          items _ not_results,
        )

    get_group_results-Texts :
        (w : W) (values : List J)
        → Texts (stored w) values
        → (get_group_results redis json to_string b g w).0 ≡ ok values
    unfolding get_group_results
    get_group_results-Texts w values h =
        rw (documented.pool_get_lem w, continue, documented.lrange_lem (group_results b.keys g) w)
          (read_values-Texts (stored w) values h)

    -- Calls of `complete_group_member` return one more than the call before, whichever members
    -- complete in whatever order, and afterwards `get_group_results` has the results in the order of
    -- the calls, behind those that were there before. Setting up the group first changes none of this:
    -- the count goes on from where it was, also for a group id that has been used before. No call
    -- fails, what is written is read back, and the count fits in a `u32`.
    pub complete_all-counted :
        (total : ℕ) (members : List (TaskId × J)) (w : W) (values : List J)
        → completed w + length members < 2 ^ 32
        → Texts (stored w) values
        → let (counts, w') =
            complete_all
              (redis_result_backend redis json to_string b)
              g
              members
              (init_group redis json to_string b g total w).1 in
          (counts ≡ counts_from (completed w) members)
          × ((get_group_results redis json to_string b g w').0
              ≡ ok (values ++ map (λ m. m.1) members))
    complete_all-counted total members w values fits h =
        let (w1, call, count, same) = init_group-same total w in
        let (counts, h1) =
          complete_all_from members w1 values (omega (arith, count))
            (subst (λ (l : List String). Texts l values) (sym same) h) in
        rw call (counts ∙ ap (λ n. counts_from n members) count, get_group_results-Texts _ _ h1)
