-- ===== src/Worker/Chord.antt =====
-- The members of a chord: which of them enqueues the callback, and with what.
use mathlib.Core.List.{append-nil, append_assoc}
use kojin.Prelude.{
  ℕ, ◌+◌, ◌≤◌, ◌<◌, ◌^◌, ◌≡◌, sym, ap, subst₂, ne→nat_beq, ◌∙◌, String, none, some, List, [], ◌∷◌,
  ◌++◌, map, length, arith, nat_beq, string_key, if◌then◌else◌, ◌==◌, Bool, true, false,
}
use kojin.Prelude.Map
use kojin.Error.{ok}
use kojin.TaskState.{started, success}
use kojin.Message.{Stamp, TaskMessage, Boxed, unbox}
use kojin.Broker
use kojin.Broker.{IsBroker}
use kojin.ResultBackend
use kojin.ResultBackend.{ResultBackend, IsResultBackend}
use kojin.ResultBackend.Groups.{group_self}
use kojin.Worker.{chain_next, Worker, World, Reading, run_before}
use kojin.Worker.Messages.{in_state, with_results}
use kojin.Worker.Execution.{
  enqueue_callback, group_completed, complete_group, continue_chain, finish, execute_task,
}
use kojin.Worker.Completion.{IsDue, dispatch_of, execute_task_succeeds}
use kojin.Worker.Success.{acknowledged, on_success-finish}

module _ {J C S R M : Type 0} (k : Worker J C S R M) (g : String) (n : ℕ) (cb : Boxed J) where
  -- One execution of a member of the chord that returns its result.
  pub record Turn : Type 0 where
    pub rd : Reading S
    pub message : TaskMessage J
    pub result : J
    pub in_group : message.group_id ≡ some g
    pub of_total : message.group_total ≡ some n
    pub calls_back : message.chord_callback ≡ some cb
    pub unchained : Map.get chain_next message.headers ≡ none
    pub due : IsDue rd.now message.eta
    pub done : dispatch_of k message ≡ ok result

  unfoldable pub run : List Turn → World S R M → World S R M
  run [] w = w
  run (t ∷ ts) w = run ts (execute_task k t.rd t.message w)

  -- What the callback adds to a queue.
  pub called_back : List J → String → List (TaskMessage J)
  called_back results q =
      let callback = with_results (ok results) k.serde (unbox cb) in
      if callback.queue == q then callback ∷ [] else []

module _ {J C S R M : Type 0} (k : Worker J C S R M) (backend : ResultBackend J R)
    (bv : Broker.View J S) (rv : ResultBackend.View J R) (lawful : IsBroker k.broker bv)
    (stores : IsResultBackend backend rv) (has : k.result_backend ≡ some backend)
    (hooks_pass : (m : TaskMessage J) (s : M) → (run_before k.middlewares m s).0 ≡ ok tt)
    (g : String) (n : ℕ) (cb : Boxed J) where
  -- The callback, with the results that are there, if this was the last member.
  abbrev fires : ℕ → List J → String → List (TaskMessage J)
  fires completed results q = if nat_beq completed n then called_back k g n cb results q else []

  pub record Counted (c : ℕ) (results : List J) (fired : String → List (TaskMessage J))
      (w w' : World S R M) : Type 0 where
    pub group : rv.group w'.backend g ≡ some (c, results)
    pub waiting : (q : String) → bv.waiting w'.broker q ≡ bv.waiting w.broker q ++ fired q

  finish_member :
      (stamp : Stamp) (m : TaskMessage J) (result : J) (w : World S R M)
      → m.group_id ≡ some g
      → Map.get chain_next m.headers ≡ none
      → let r = (backend.store m.id result w.backend).1 in
        let (completed, r') = backend.complete_group_member g m.id result r in
        finish k stamp (some backend) m result w
        ≡ group_completed k backend g m completed (record w { backend = r' })
  unfolding finish complete_group continue_chain
  finish_member stamp m result w in_group unchained =
      rw (unchained, in_group, continue_chain, complete_group)

  group_completed_member :
      (m : TaskMessage J) (c : ℕ) (w : World S R M)
      → m.group_total ≡ some n
      → m.chord_callback ≡ some cb
      → group_completed k backend g m (ok c) w
        ≡ (if nat_beq c n then enqueue_callback k backend g (some cb) w else w)
  unfolding group_completed
  group_completed_member m c w total calls_back = rw (total, calls_back)

  enqueue_callback_member :
      (c : ℕ) (results : List J) (w : World S R M)
      → rv.group w.backend g ≡ some (c, results)
      → Counted c results
          (called_back k g n cb results)
          w
          (enqueue_callback k backend g (some cb) w)
  unfolding enqueue_callback called_back
  enqueue_callback_member c results w h = rw (stores.results_lem g w.backend c results h) (record {
    group = h;
    waiting = λ q. ground (
      arith,
      (lawful.enqueue_waits (with_results (ok results) k.serde (unbox cb)) w.broker).waiting q,
      append-nil (bv.waiting w.broker q),
    );
  })

  callback_if :
      (last : Bool) (c : ℕ) (results : List J) (w : World S R M)
      → rv.group w.backend g ≡ some (c, results)
      → Counted c results
          (λ q. if last then called_back k g n cb results q else [])
          w
          (if last then enqueue_callback k backend g (some cb) w else w)
  callback_if true c results w h = enqueue_callback_member c results w h
  callback_if false c results w h = record {
    group = h;
    waiting = λ q. sym (append-nil (bv.waiting w.broker q));
  }

  completed_member :
      (m : TaskMessage J) (c : ℕ) (results : List J) (w : World S R M)
      → m.group_total ≡ some n
      → m.chord_callback ≡ some cb
      → rv.group w.backend g ≡ some (c, results)
      → Counted c results (fires c results) w (group_completed k backend g m (ok c) w)
  completed_member m c results w total calls_back h =
      rw (group_completed_member m c w total calls_back) (callback_if (nat_beq c n) c results w h)

  -- One member: its group counts one more, and the callback waits if it was the last.
  member_turn :
      (t : Turn k g n cb) (c : ℕ) (results : List J) (w : World S R M)
      → rv.group w.backend g ≡ some (c, results)
      → c + 1 < 2 ^ 32
      → Counted
          (c + 1)
          (results ++ t.result ∷ [])
          (fires (c + 1) (results ++ t.result ∷ []))
          w
          (execute_task k t.rd t.message w)
  member_turn t c results w h counts =
      let m = t.message in
      let (s, p) =
        execute_task_succeeds k t.rd w m t.result t.due
          (hooks_pass (in_state started m) w.middleware) t.done in
      let w1 : World S R M = record w { middleware = s } in
      let w2 = acknowledged k (in_state started m) t.result w1 in
      let m2 = in_state success (in_state started m) in
      let r = (backend.store m.id t.result w.backend).1 in
      let h1 : rv.group r g ≡ some (c, results) =
        stores.store_group m.id t.result w.backend g ∙ h in
      let r' = (backend.complete_group_member g m.id t.result r).1 in
      let turned =
        completed_member m2 (c + 1) (results ++ t.result ∷ []) (record w2 { backend = r' })
          t.of_total t.calls_back (group_self stores g m.id t.result r c results h1 counts) in
      rw
        (
          p,
          on_success-finish k backend t.rd.stamp (in_state started m) t.result w1 has,
          finish_member t.rd.stamp m2 t.result w2 t.in_group t.unchained,
        )
        (rw (stores.complete_ok g m.id t.result r c results h1 counts) (record {
          group = turned.group;
          waiting = λ q.
              turned.waiting q
              ∙ ap (λ l. l ++ fires (c + 1) (results ++ t.result ∷ []) q)
                  ((lawful.ack_queues m.id w.broker).waiting q);
        }))

  not_yet :
      (c : ℕ) (results : List J) (q : String) (l : List (TaskMessage J))
      → c < n
      → l ≡ l ++ fires c results q
  not_yet c results q l h = rw (ne→nat_beq c n (omega arith)) (sym (append-nil l))

  -- Members of a chord of `n` are executed in any order, from a state in which fewer than `n` are
  -- complete to one in which at most `n` are. Only the last of the `n` enqueues the callback: if
  -- it is not among them every queue is as it was, and otherwise the queue of the callback has
  -- gained the callback, with the results of all members, in the order of their completion, in
  -- its header, and nothing else is enqueued. The size of the group is a `u32`.
  pub run_members :
      (ts : List (Turn k g n cb)) (c : ℕ) (results : List J) (w : World S R M)
      → rv.group w.backend g ≡ some (c, results)
      → c < n
      → c + length ts ≤ n
      → n < 2 ^ 32
      → Counted
          (c + length ts)
          (results ++ map (λ t. t.result) ts)
          (fires (c + length ts) (results ++ map (λ t. t.result) ts))
          w
          (run k g n cb ts w)
  unfolding run
  run_members [] c results w h c-lt fits small =
      subst₂ (λ d l. Counted d l (fires d l) w w) (omega arith) (sym (append-nil results))
        (record { group = h; waiting = λ q. not_yet c results q (bv.waiting w.broker q) c-lt })
  run_members (t ∷ []) c results w h c-lt fits small = member_turn t c results w h (omega arith)
  run_members (t ∷ t' ∷ ts) c results w h c-lt fits small =
      let first = member_turn t c results w h (omega arith) in
      let results' = results ++ t.result ∷ [] in
      let w' = execute_task k t.rd t.message w in
      let rest =
        run_members (t' ∷ ts) (c + 1) results' w' first.group (omega arith) (omega arith) small in
      let same : (q : String) → bv.waiting w.broker q ≡ bv.waiting w'.broker q = λ q.
        not_yet (c + 1) results' q (bv.waiting w.broker q) (omega arith) ∙ sym (first.waiting q) in
      subst₂ (λ d l. Counted d l (fires d l) w (run k g n cb (t' ∷ ts) w')) (omega arith)
        (append_assoc results (t.result ∷ []) (map (λ u. u.result) (t' ∷ ts)))
        (record { group = rest.group; waiting = λ q. rw (same q) (rest.waiting q) })
