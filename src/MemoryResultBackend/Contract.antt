-- ===== src/MemoryResultBackend/Contract.antt =====
-- The result backend in memory keeps the contract of the trait.
use kojin.Prelude.{
  ℕ, ◌+◌, ◌%◌, ◌^◌, ◌<◌, String, ◌≡◌, refl, ap, Option, none, some, List, [], ◌∷◌, ◌++◌, arith,
  ◌==◌, nat_key, string_key, if◌then◌else◌,
}
use kojin.Prelude.Map
use kojin.Prelude.Map.{Map, get-insert, get-remove}
use kojin.Error.{err, ok, timeout}
use kojin.Message.{TaskId}
use kojin.ResultBackend.{View, GroupSet, IsResultBackend}
use kojin.MemoryResultBackend.{
  MemoryResultBackend, GroupState, memory_result_backend, group_not_found, store, get, poll, wait,
  delete, init_group, bump, complete_group_member, get_group_results,
}

module _ {J : Type 0} where
  abbrev pub tally : Option (GroupState J) → Option (ℕ × List J)
  tally none = none
  tally (some g) = some (g.completed, g.results)

module _ {J : Type 0} (to_string : TaskId → String) where
  abbrev pub view : View J (MemoryResultBackend J)
  view = record {
    result = λ b i. Map.get (to_string i) b.results;
    group = λ b g. tally (Map.get g b.groups);
  }

-- Ids are told apart by their texts.
abbrev pub ShowsApart : (TaskId → String) → Type 0
ShowsApart to_string = (i j : TaskId) → to_string i ≡ to_string j → i ≡ j

same_text :
    (to_string : TaskId → String)
    → ShowsApart to_string
    → (i j : TaskId) → (to_string i == to_string j) ≡ (i == j)
same_text to_string apart i j = ground (
  arith,
  string_key.same_iff (to_string i) (to_string j),
  apart i j,
  λ (e : i ≡ j). ap to_string e,
)

module _ {J : Type 0} where
  tally-some :
      (o : Option (GroupState J)) (n : ℕ) (results : List J)
      → tally o ≡ some (n, results)
      → (s : GroupState J) × (o ≡ some s) × (s.completed ≡ n) × (s.results ≡ results)
  tally-some none n results h = cc
  tally-some (some s) n results h = (s, refl, ground arith, ground arith)

  tally-none : (o : Option (GroupState J)) → tally o ≡ none → o ≡ none
  tally-none none h = refl
  tally-none (some s) h = cc

  completed_lem :
      (g : String) (i : TaskId) (a : J) (b : MemoryResultBackend J) (s : GroupState J)
      → Map.get g b.groups ≡ some s
      → complete_group_member g i a b
        ≡ (ok ((s.completed + 1) % 2 ^ 32), record b { groups = Map.insert g (bump a s) b.groups })
  unfolding complete_group_member
  completed_lem g i a b s e = rw (e, complete_group_member)

  tally-insert :
      (g h : String) (s : GroupState J) (groups : Map String (GroupState J))
      → tally (Map.get h (Map.insert g s groups))
        ≡ (if g == h then some (s.completed, s.results) else tally (Map.get h groups))
  tally-insert g h s groups = ground (arith, get-insert g h s groups)

module _ {J : Type 0} (to_string : TaskId → String) where
  open (view {J = J} to_string) use {result, group}

  complete_group :
      (g : String) (i : TaskId) (a : J) (b : MemoryResultBackend J) (n : ℕ) (results : List J)
      → group b g ≡ some (n, results)
      → n + 1 < 2 ^ 32
      → ((complete_group_member g i a b).0 ≡ ok (n + 1))
        × GroupSet
            (view to_string)
            g
            (n + 1)
            (results ++ a ∷ [])
            b
            (complete_group_member g i a b).1
  complete_group g i a b n results h fits =
      let (s, e, c, r) = tally-some (Map.get g b.groups) n results h in
      rw (completed_lem g i a b s e)
        (ground arith, λ k. ground (arith, tally-insert g k (bump a s) b.groups, c, r, fits))

  complete_unknown :
      (g : String) (i : TaskId) (a : J) (b : MemoryResultBackend J)
      → group b g ≡ none
      → complete_group_member g i a b ≡ (err (group_not_found g), b)
  unfolding complete_group_member
  complete_unknown g i a b h = rw (tally-none (Map.get g b.groups) h, complete_group_member)

  complete_result :
      (g : String) (i : TaskId) (a : J) (b : MemoryResultBackend J) (j : TaskId)
      → result (complete_group_member g i a b).1 j ≡ result b j
  unfolding complete_group_member
  complete_result g i a b j = ground arith

  results_same : (g : String) (b : MemoryResultBackend J) → (get_group_results g b).1 ≡ b
  unfolding get_group_results
  results_same g b = ground arith

  results_lem :
      (g : String) (b : MemoryResultBackend J) (n : ℕ) (results : List J)
      → group b g ≡ some (n, results)
      → get_group_results g b ≡ (ok results, b)
  unfolding get_group_results
  results_lem g b n results h = ground (arith, tally-some (Map.get g b.groups) n results h)

  wait_found :
      (i : TaskId) (limit : ℕ) (a : J)
      (sleeps : List (MemoryResultBackend J → MemoryResultBackend J)) (b : MemoryResultBackend J)
      → result b i ≡ some a
      → wait to_string i limit sleeps b ≡ (ok a, b)
  unfolding wait get poll
  wait_found i limit a [] b h = rw (h, poll) refl
  wait_found i limit a (act ∷ sleeps) b h = rw (h, poll) refl

  wait_over :
      (i : TaskId) (limit : ℕ) (b : MemoryResultBackend J)
      → result b i ≡ none
      → wait to_string i limit [] b ≡ (err (timeout limit), b)
  unfolding wait get poll
  wait_over i limit b h = rw (h, poll) refl

  wait_on :
      (i : TaskId) (limit : ℕ) (act : MemoryResultBackend J → MemoryResultBackend J)
      (sleeps : List (MemoryResultBackend J → MemoryResultBackend J)) (b : MemoryResultBackend J)
      → result b i ≡ none
      → wait to_string i limit (act ∷ sleeps) b ≡ wait to_string i limit sleeps (act b)
  unfolding wait get poll
  wait_on i limit act sleeps b h = rw (h, poll) refl

  -- If ids are told apart by their texts, every operation of the result backend in memory keeps the
  -- contract of the trait: a stored result is read back until it is replaced or deleted, a group
  -- starts at no completed member, each completion that a `u32` can count counts one and appends its
  -- result, a completion of an unknown group is an error that changes nothing, and results and groups
  -- do not disturb each other or other keys. `wait` returns the result if it is there, and otherwise
  -- polls again after the next sleep, or reports the timeout where no sleep is left.
  pub memory_result_backend-IsResultBackend :
      ShowsApart to_string
      → IsResultBackend (memory_result_backend to_string) (view {J = J} to_string)
  unfolding store get delete init_group
  memory_result_backend-IsResultBackend apart = record {
    store_ok = λ i a r. refl;
    store_result = λ i a r j.
        ground (
          arith,
          get-insert (to_string i) (to_string j) a r.results,
          same_text to_string apart i j,
        );
    store_group = λ i a r g. refl;
    get_lem = λ i r. refl;
    wait_found = wait_found;
    wait_over = wait_over;
    wait_on = wait_on;
    delete_result = λ i r j.
        ground
          (arith, get-remove (to_string i) (to_string j) r.results, same_text to_string apart i j);
    delete_group = λ i r g. refl;
    init_ok = λ g n r. refl;
    init_group = λ g n r h. tally-insert g h _ r.groups;
    init_result = λ g n r j. refl;
    complete_ok = λ g i a r n results h fits. (complete_group g i a r n results h fits).0;
    complete_group = λ g i a r n results h fits. (complete_group g i a r n results h fits).1;
    complete_unknown = λ g i a r h. (group_not_found g, complete_unknown g i a r h);
    complete_result = complete_result;
    results_same = results_same;
    results_lem = results_lem;
  }
