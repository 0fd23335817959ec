-- ===== src/Postgres/Groups.antt =====
-- How the result backend on PostgreSQL counts the members of a group.
use Prim.Native.String.{◌++◌ as ◌+++◌}
use kojin.Prelude.{
  zero, suc, ℕ, ◌+◌, ◌<◌, ◌^◌, ◌%◌, ◌≡◌, refl, ap, ap₂, ◌∙◌, String, Bool, true, false, List, [],
  ◌∷◌, arith, if◌then◌else◌, ◌==◌, string_key, length,
}
use kojin.Prelude.Text.{to_decimal}
use kojin.Error.{TaskResult, ok}
use kojin.Message.{TaskId}
use kojin.Action.{continue}
use kojin.ResultBackend.Groups.{complete_all}
use kojin.Postgres.{
  PostgresResultBackend, complete_upsert, complete_count, complete_group_member, init_from,
  init_group, postgres_result_backend,
}
use kojin.Postgres.Tables.{
  answer, Database, GroupRow, has_key, counts, upsert_member, count_members, insert_placeholder,
  execute, fetch,
}

module _ {J : Type 0} where
  -- Whether the row of a member counts.
  unfoldable pub is_done : String → String → List (GroupRow J) → Bool
  is_done g t [] = false
  is_done g t (row ∷ rows) = if has_key g t row then counts g row else is_done g t rows

  pub count_members-upsert_member :
      (g t : String) (v : J) (rows : List (GroupRow J))
      → count_members g (upsert_member g t v rows)
        ≡ (if is_done g t rows then 0 else 1) + count_members g rows
  unfolding count_members upsert_member is_done counts
  count_members-upsert_member g t v [] = ground (arith, string_key.same_iff g g)
  count_members-upsert_member g t v (row ∷ rows) =
      ground (arith, count_members-upsert_member g t v rows)

  pub is_done-upsert_member :
      (g t u : String) (v : J) (rows : List (GroupRow J))
      → is_done g u (upsert_member g t v rows) ≡ (if t == u then true else is_done g u rows)
  unfolding upsert_member is_done counts
  is_done-upsert_member g t u v [] = ground (arith, string_key.same_iff g g)
  is_done-upsert_member g t u v (row ∷ rows) = ground (
    arith,
    is_done-upsert_member g t u v rows,
    string_key.same_iff t u,
    string_key.same_iff row.task_id t,
    string_key.same_iff row.task_id u,
    string_key.same_iff row.group_id g,
  )

  count_members-insert_placeholder :
      (g h t : String) (rows : List (GroupRow J))
      → count_members g (insert_placeholder h t rows) ≡ count_members g rows
  unfolding count_members insert_placeholder counts
  count_members-insert_placeholder g h t [] = ground arith
  count_members-insert_placeholder g h t (row ∷ rows) =
      ground (arith, count_members-insert_placeholder g h t rows)

  -- Where no row counts, no member is done.
  is_done_none :
      (g u : String) (rows : List (GroupRow J))
      → count_members g rows ≡ 0
      → is_done g u rows ≡ false
  unfolding count_members is_done counts
  is_done_none g u [] h = refl
  is_done_none g u (row ∷ rows) h = ground (arith, is_done_none g u rows)

  -- Without a fault, a statement does its work.
  pub execute_lem :
      (statement : Database J → Database J) (db : Database J)
      → db.faults ≡ []
      → execute statement db ≡ (ok tt, statement db)
  unfolding execute answer
  execute_lem statement db h = ap (λ faults. answer faults tt db (statement db)) h

  pub fetch_lem :
      {A : Type 0} (query : Database J → A) (db : Database J)
      → db.faults ≡ []
      → fetch query db ≡ (ok (query db), db)
  unfolding fetch answer
  fetch_lem query db h = ap (λ faults. answer faults (query db) db db) h

  abbrev pub with_groups : Database J → List (GroupRow J) → Database J
  with_groups db rows = record db { kojin_groups = rows }

-- Whether a text is in a list.
unfoldable pub is_in : String → List String → Bool
is_in t [] = false
is_in t (s ∷ seen) = if s == t then true else is_in t seen

module _ {J : Type 0} (before : String → String → Bool) (to_string : TaskId → String)
    (b : PostgresResultBackend) (g : String) where
  -- The counts, if a member counts when it completes for the first time.
  unfoldable pub counts_of : List String → ℕ → List (TaskId × J) → List (TaskResult ℕ)
  unfolding is_in
  counts_of seen n [] = []
  counts_of seen n ((i, a) ∷ members) =
      let n' = (if is_in (to_string i) seen then 0 else 1) + n in
      ok n' ∷ counts_of (to_string i ∷ seen) n' members

  -- The state of a group of which the members `seen` have completed, `n` in number.
  record Counted (seen : List String) (n : ℕ) (db : Database J) : Type 0 where
    count : count_members g db.kojin_groups ≡ n
    done : (u : String) → is_done g u db.kojin_groups ≡ is_in u seen
    no_faults : db.faults ≡ []

  completed :
      (i : TaskId) (a : J) (db : Database J)
      → db.faults ≡ []
      → let db' = with_groups db (upsert_member g (to_string i) a db.kojin_groups) in
        complete_group_member before to_string b g i a db
        ≡ (ok (count_members g db'.kojin_groups % 2 ^ 32), db')
  unfolding complete_group_member complete_upsert complete_count
  completed i a db h =
      rw
        (
          execute_lem
              (λ (d : Database J). with_groups d (upsert_member g (to_string i) a d.kojin_groups))
              db h,
          continue,
        )
        (fetch_lem (λ (d : Database J). count_members g d.kojin_groups % 2 ^ 32)
          (with_groups db (upsert_member g (to_string i) a db.kojin_groups)) h)

  complete_one :
      (i : TaskId) (a : J) (seen : List String) (n : ℕ) (db : Database J)
      → Counted seen n db
      → n + 1 < 2 ^ 32
      → let n' = (if is_in (to_string i) seen then 0 else 1) + n in
        let (r, db') = complete_group_member before to_string b g i a db in
        (r ≡ ok n') × Counted (to_string i ∷ seen) n' db'
  unfolding is_in
  complete_one i a seen n db c small =
      let t = to_string i in
      let rows = upsert_member g t a db.kojin_groups in
      let counted : count_members g rows ≡ (if is_in t seen then 0 else 1) + n =
        count_members-upsert_member g t a db.kojin_groups
        ∙ ap₂ (λ (d : Bool) k. (if d then 0 else 1) + k) (c.done t) c.count in
      let fits : count_members g rows % 2 ^ 32 ≡ (if is_in t seen then 0 else 1) + n =
        ground (arith, counted) in
      rw (completed i a db c.no_faults) (
        ap ok fits,
        record {
          count = counted;
          done = λ u.
              is_done-upsert_member g t u a db.kojin_groups
              ∙ ap (λ (d : Bool). if t == u then true else d) (c.done u);
          no_faults = c.no_faults;
        },
      )

  complete_all-counts_of :
      (members : List (TaskId × J)) (seen : List String) (n : ℕ) (db : Database J)
      → Counted seen n db
      → n + length members < 2 ^ 32
      → (complete_all (postgres_result_backend before to_string b) g members db).0
        ≡ counts_of seen n members
  unfolding counts_of complete_all
  complete_all-counts_of [] seen n db c small = refl
  complete_all-counts_of ((i, a) ∷ members) seen n db c small =
      let (answered, c') = complete_one i a seen n db c (omega arith) in
      ap₂ (λ r rs. r ∷ rs) answered
        (complete_all-counts_of members (to_string i ∷ seen) _ _ c' (ground arith))

  init_from-count :
      (h : String) (i left : ℕ) (db : Database J)
      → db.faults ≡ []
      → (db' : Database J) × (init_from before to_string b h i left db ≡ (ok tt, db'))
        × (count_members g db'.kojin_groups ≡ count_members g db.kojin_groups)
        × (db'.faults ≡ [])
  unfolding init_from
  init_from-count h i zero db no_faults = (db, refl, refl, no_faults)
  init_from-count h i (suc left) db no_faults =
      let id = h +++ ":placeholder:" +++ to_decimal i in
      let db1 = with_groups db (insert_placeholder h id db.kojin_groups) in
      let (db', r, same, left_alone) = init_from-count h (i + 1) left db1 no_faults in
      (
        db',
        rw
            (
              execute_lem
                  (λ (d : Database J). with_groups d (insert_placeholder h id d.kojin_groups)) db
                  no_faults,
              continue,
            )
            r,
        same ∙ count_members-insert_placeholder g h id db.kojin_groups,
        left_alone,
      )

  -- After a group of which no member had completed has been set up, each call of
  -- `complete_group_member` returns how many different members have completed by then: a member that
  -- completes again is not counted again. No statement fails, and the count fits in a `u32`.
  pub complete_all-distinct :
      (total : ℕ) (members : List (TaskId × J)) (db : Database J)
      → db.faults ≡ []
      → count_members g db.kojin_groups ≡ 0
      → length members < 2 ^ 32
      → (complete_all
          (postgres_result_backend before to_string b)
          g
          members
          (init_group before to_string b g total db).1).0
        ≡ counts_of [] 0 members
  unfolding init_group
  complete_all-distinct total members db no_faults none_counts small =
      let (db', r, same, left_alone) = init_from-count g 0 total db no_faults in
      let start = same ∙ none_counts in
      rw r (
        complete_all-counts_of members [] 0 db'
          (record {
            count = start;
            done = λ u. unfold is_in in is_done_none g u db'.kojin_groups start;
            no_faults = left_alone;
          })
          (omega arith))
