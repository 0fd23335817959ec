-- ===== src/Postgres/Race.antt =====
-- Two workers that complete the last two members of a group at the same time.
use kojin.Prelude.{
  ℕ, ◌+◌, ◌%◌, ◌^◌, ◌<◌, ◌≡◌, ◌≢◌, ap, ap₂, ◌∙◌, String, Bool, true, false, [], arith,
  if◌then◌else◌, string_key, if_apart,
}
use kojin.Error.{ok}
use kojin.Message.{TaskId}
use kojin.Postgres.{PostgresResultBackend, complete_upsert, complete_count}
use kojin.Postgres.Tables.{Database, upsert_member, count_members}
use kojin.Postgres.Groups.{
  is_done, count_members-upsert_member, is_done-upsert_member, execute_lem, fetch_lem, with_groups,
}

module _ {J : Type 0} (before : String → String → Bool) (to_string : TaskId → String)
    (b : PostgresResultBackend) (g : String) where
  upserted :
      (i : TaskId) (a : J) (db : Database J)
      → db.faults ≡ []
      → complete_upsert before to_string b g i a db
        ≡ (ok tt, with_groups db (upsert_member g (to_string i) a db.kojin_groups))
  unfolding complete_upsert
  upserted i a db h =
      execute_lem
        (λ (d : Database J). with_groups d (upsert_member g (to_string i) a d.kojin_groups)) db h

  counted :
      (db : Database J)
      → db.faults ≡ []
      → complete_count before to_string b g db ≡ (ok (count_members g db.kojin_groups % 2 ^ 32), db)
  unfolding complete_count
  counted db h = fetch_lem (λ (d : Database J). count_members g d.kojin_groups % 2 ^ 32) db h

  -- The insert and the count of `complete_group_member` are two statements. When two members that
  -- have not completed are inserted before either of them is counted, both calls return the same
  -- count, that of both members; when the first one is counted before the second one is inserted, its
  -- call returns one less. No statement fails, and the count fits in a `u32`.
  pub complete_race :
      (i j : TaskId) (a c : J) (n : ℕ) (db : Database J)
      → db.faults ≡ []
      → to_string i ≢ to_string j
      → count_members g db.kojin_groups ≡ n
      → is_done g (to_string i) db.kojin_groups ≡ false
      → is_done g (to_string j) db.kojin_groups ≡ false
      → n + 2 < 2 ^ 32
      → let both =
          (complete_upsert before to_string b g j c
            (complete_upsert before to_string b g i a db).1).1 in
        let alone = (complete_upsert before to_string b g i a db).1 in
        ((complete_count before to_string b g both).0 ≡ ok (n + 2))
        × ((complete_count before to_string b g (complete_count before to_string b g both).1).0
            ≡ ok (n + 2))
        × ((complete_count before to_string b g alone).0 ≡ ok (n + 1))
  complete_race i j a c n db no_faults apart count new_i new_j small =
      let ti = to_string i in
      let tj = to_string j in
      let rows1 = upsert_member g ti a db.kojin_groups in
      let db1 = with_groups db rows1 in
      let rows2 = upsert_member g tj c rows1 in
      let db2 = with_groups db1 rows2 in
      let one : count_members g rows1 ≡ 1 + n =
        count_members-upsert_member g ti a db.kojin_groups
        ∙ ap₂ (λ (d : Bool) k. (if d then 0 else 1) + k) new_i count in
      let still : is_done g tj rows1 ≡ false =
        is_done-upsert_member g ti tj a db.kojin_groups
        ∙ if_apart ti tj true (is_done g tj db.kojin_groups) apart
        ∙ new_j in
      let two : count_members g rows2 ≡ 2 + n =
        count_members-upsert_member g tj c rows1
        ∙ ap₂ (λ (d : Bool) k. (if d then 0 else 1) + k) still one
        ∙ omega arith in
      let fits2 : count_members g rows2 % 2 ^ 32 ≡ n + 2 = omega (arith, two) in
      let fits1 : count_members g rows1 % 2 ^ 32 ≡ n + 1 = omega (arith, one) in
      rw (upserted i a db no_faults, upserted j c db1 no_faults)
        (
          rw (counted db2 no_faults) (ap ok fits2),
          rw (counted db2 no_faults, counted db2 no_faults) (ap ok fits2),
          rw (counted db1 no_faults) (ap ok fits1),
        )
