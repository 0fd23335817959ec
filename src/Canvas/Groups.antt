-- ===== src/Canvas/Groups.antt =====
-- Submitted groups and chords: the messages of the members, and the state of the group.
use mathlib.Core.List.{append-nil, append_assoc}
use kojin.Prelude.{
  ℕ, ◌+◌, ◌<◌, ◌^◌, ◌≡◌, refl, sym, ◌∙◌, String, Option, none, some, List, [], ◌∷◌, ◌++◌, map,
  length, string_key, if◌then◌else◌, ◌==◌, arith,
}
use kojin.Error.{TaskResult, ok, ◌>>=◌}
use kojin.Message.{TaskMessage, Boxed, box}
use kojin.Signature.{Signature, into_message, of_message}
use kojin.Serde.{Serde}
use kojin.Broker
use kojin.Broker.{Broker, IsBroker}
use kojin.ResultBackend
use kojin.ResultBackend.{ResultBackend, IsResultBackend}
use kojin.Canvas.{
  Canvas, group, chord, step, end, Canvases, WorkflowHandle, Submission, Fresh, flatten_chain,
  flatten_group, correlated, member_message, submit, submit_all, total_of, apply_group,
  submit_chord, apply_chord, apply_inner, apply,
}

-- The messages of one queue.
unfoldable pub on_queue : {J : Type 0} → String → List (TaskMessage J) → List (TaskMessage J)
on_queue q [] = []
on_queue q (m ∷ ms) = if m.queue == q then m ∷ on_queue q ms else on_queue q ms

module _ {J : Type 0} (fresh : Fresh) (total : ℕ) (callback : Option (Boxed J)) where
  -- The messages of the members, with the stamps from `i` on.
  unfoldable pub messages : ℕ → List (Signature J) → List (TaskMessage J)
  messages i [] = []
  messages i (sig ∷ sigs) =
      member_message fresh total callback (fresh.stamp i) sig ∷ messages (i + 1) sigs

  -- What the worker goes by when a member has completed.
  pub record IsMember (sig : Signature J) (m : TaskMessage J) : Type 0 where
    pub made_from : of_message m ≡ sig
    pub in_group : m.group_id ≡ some fresh.group_id
    pub of_total : m.group_total ≡ some total
    pub calls_back : m.chord_callback ≡ callback
    pub correlation : m.correlation_id ≡ some fresh.correlation_id

  -- The members in order, one message for each.
  pub data AreMembers : List (Signature J) → List (TaskMessage J) → Type 0 where
    none_left : AreMembers [] []
    one_more :
        {sig : Signature J} {sigs : List (Signature J)} {m : TaskMessage J}
        {ms : List (TaskMessage J)}
        → IsMember sig m
        → AreMembers sigs ms
        → AreMembers (sig ∷ sigs) (m ∷ ms)

  pub messages-AreMembers : (i : ℕ) (sigs : List (Signature J)) → AreMembers sigs (messages i sigs)
  unfolding messages member_message correlated into_message of_message
  messages-AreMembers i [] = none_left
  messages-AreMembers i (sig ∷ sigs) =
      one_more
        (record {
          made_from = refl;
          in_group = refl;
          of_total = refl;
          calls_back = refl;
          correlation = refl;
        })
        (messages-AreMembers (i + 1) sigs)

module _ {J S R : Type 0} (broker : Broker J S) (backend : ResultBackend J R) (serde : Serde J)
    (bv : Broker.View J S) (rv : ResultBackend.View J R) (lawful : IsBroker broker bv)
    (stores : IsResultBackend backend rv) (fresh : Fresh) where
  -- The messages `ms` were submitted, in order, and nothing else was done.
  record Submitted (ms : List (TaskMessage J)) (s : Submission S R)
      (done : TaskResult (Unit {0}) × Submission S R) : Type 0 where
    accepted : done.0 ≡ ok tt
    ids : done.1.task_ids ≡ s.task_ids ++ map (λ m. m.id) ms
    waiting : (q : String) → bv.waiting done.1.broker q ≡ bv.waiting s.broker q ++ on_queue q ms
    same_backend : done.1.backend ≡ s.backend

  waiting_more :
      (m : TaskMessage J) (ms : List (TaskMessage J)) (b : S) (q : String)
      → bv.waiting (broker.enqueue m b).1 q ++ on_queue q ms ≡ bv.waiting b q ++ on_queue q (m ∷ ms)
  unfolding on_queue
  waiting_more m ms b q = ground (
    arith,
    (lawful.enqueue_waits m b).waiting q,
    append_assoc (bv.waiting b q) (m ∷ []) (on_queue q ms),
  )

  submit_all-Submitted :
      (total : ℕ) (callback : Option (Boxed J)) (i : ℕ) (sigs : List (Signature J))
      (s : Submission S R)
      → Submitted
          (messages fresh total callback i sigs)
          s
          (submit_all broker backend serde fresh total callback i sigs s)
  unfolding submit_all messages on_queue
  submit_all-Submitted total callback i [] s = record {
    accepted = refl;
    ids = sym (append-nil s.task_ids);
    waiting = λ q. sym (append-nil (bv.waiting s.broker q));
    same_backend = refl;
  }
  submit_all-Submitted total callback i (sig ∷ sigs) s =
      let m = member_message fresh total callback (fresh.stamp i) sig in
      let ms = messages fresh total callback (i + 1) sigs in
      let s' : Submission S R = record s {
        broker = (broker.enqueue m s.broker).1;
        task_ids = s.task_ids ++ m.id ∷ [];
      } in
      let rest = submit_all-Submitted total callback (i + 1) sigs s' in
      unfold submit in
      rw (lawful.enqueue_ok m s.broker, submit_all)
        (record {
          accepted = rest.accepted;
          ids = rest.ids ∙ append_assoc s.task_ids (m.id ∷ []) (map (λ m. m.id) ms);
          waiting = λ q. rest.waiting q ∙ waiting_more m ms s.broker q;
          same_backend = rest.same_backend;
        })

  -- A group of `sigs` is under way: no member is complete, and a message for each of them waits.
  pub record Started (callback : Option (Boxed J)) (sigs : List (Signature J)) (b : S) (r : R)
      (out : TaskResult WorkflowHandle × S × R) : Type 0 where
    pub members : List (TaskMessage J)
    pub are_members : AreMembers fresh (length sigs) callback sigs members
    pub handle :
        out.0 ≡ ok (record { id = fresh.correlation_id; task_ids = map (λ m. m.id) members })
    pub waiting : (q : String) → bv.waiting out.1 q ≡ bv.waiting b q ++ on_queue q members
    pub group : ResultBackend.GroupSet rv fresh.group_id 0 [] r out.2

  total_small : (sigs : List (Signature J)) → length sigs < 2 ^ 32 → total_of sigs ≡ length sigs
  unfolding total_of
  total_small sigs h = omega arith

  -- What is left of `apply` after the group has been set up.
  abbrev inited : List (Signature J) → S → R → Submission S R
  inited sigs b r = record {
    broker = b;
    backend = (backend.init_group fresh.group_id (length sigs) r).1;
    task_ids = [];
  }

  submit_all-Started :
      (callback : Option (Boxed J)) (i : ℕ) (sigs : List (Signature J)) (b : S) (r : R)
      → let (done, s) =
          submit_all broker backend serde fresh (length sigs) callback i sigs (inited sigs b r) in
        Started callback sigs b r (
          done >>= (λ u. ok (record { id = fresh.correlation_id; task_ids = s.task_ids })),
          s.broker,
          s.backend,
        )
  submit_all-Started callback i sigs b r =
      let all = submit_all-Submitted (length sigs) callback i sigs (inited sigs b r) in
      record {
        members = messages fresh (length sigs) callback i sigs;
        are_members = messages-AreMembers fresh (length sigs) callback i sigs;
        handle = rw (all.accepted, all.ids) refl;
        waiting = all.waiting;
        group = rw all.same_backend (stores.init_group fresh.group_id (length sigs) r);
      }

  -- A submitted group is under way: its handle has the id of a message for each of its single tasks,
  -- in order, which carries the task, the correlation id of the handle and the id and the size of the
  -- group; the queues have gained exactly these messages, each its own queue in order, and the group
  -- has no completed member.
  pub apply-group :
      (members : Canvases J) (b : S) (r : R)
      → length (flatten_group members) < 2 ^ 32
      → Started none
          (flatten_group members)
          b
          r
          (apply broker backend serde fresh (group members) b r)
  unfolding apply apply_inner apply_group
  apply-group members b r small =
      let sigs = flatten_group members in
      rw (stores.init_ok fresh.group_id (total_of sigs) r, apply_group)
        (rw (total_small sigs small) (submit_all-Started none 0 sigs b r))

  -- A submitted chord is under way like a group, and each of its messages carries the message of the
  -- first task of the callback. A callback without a task is excluded: the chord is then set up and
  -- its members are not submitted.
  pub apply-chord :
      (members : Canvases J) (callback : Canvas J) (sig : Signature J) (more : List (Signature J))
      (b : S) (r : R)
      → length (flatten_group members) < 2 ^ 32
      → flatten_chain (step callback end) ≡ sig ∷ more
      → Started
          (some (box (into_message (fresh.stamp 0) sig)))
          (flatten_group members)
          b
          r
          (apply broker backend serde fresh (chord members callback) b r)
  unfolding apply apply_inner apply_chord submit_chord
  apply-chord members callback sig more b r small flat =
      let sigs = flatten_group members in
      rw (stores.init_ok fresh.group_id (total_of sigs) r, apply_chord)
        (rw (flat, submit_chord)
          (rw (total_small sigs small)
            (submit_all-Started (some (box (into_message (fresh.stamp 0) sig))) 1 sigs b r)))

  -- The queues have gained the messages `ms`.
  pub record Gained (ms : List (TaskMessage J)) (b : S) (out : TaskResult WorkflowHandle × S × R)
      : Type 0 where
    pub waiting : (q : String) → bv.waiting out.1 q ≡ bv.waiting b q ++ on_queue q ms

  -- The messages that a chord enqueues, written out: the stamps of the members follow that of the
  -- callback.
  pub apply-chord_gains :
      (members : Canvases J) (callback : Canvas J) (sig : Signature J) (more : List (Signature J))
      (b : S) (r : R)
      → length (flatten_group members) < 2 ^ 32
      → flatten_chain (step callback end) ≡ sig ∷ more
      → let sigs = flatten_group members in
        let cb = some (box (into_message (fresh.stamp 0) sig)) in
        Gained
          (messages fresh (length sigs) cb 1 sigs)
          b
          (apply broker backend serde fresh (chord members callback) b r)
  unfolding apply apply_inner apply_chord submit_chord
  apply-chord_gains members callback sig more b r small flat =
      let sigs = flatten_group members in
      let cb = some (box (into_message (fresh.stamp 0) sig)) in
      rw (stores.init_ok fresh.group_id (total_of sigs) r, apply_chord)
        (rw (flat, submit_chord)
          (rw (total_small sigs small) (record {
            waiting = (submit_all-Submitted (length sigs) cb 1 sigs (inited sigs b r)).waiting;
          })))
