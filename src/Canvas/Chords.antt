-- ===== src/Canvas/Chords.antt =====
-- A submitted chord, up to its callback. Its members are the messages that `apply` enqueues.
use kojin.Prelude.{
  All, ℕ, ◌+◌, Option, ap₂, ◌++◌, String, ap, none, ◌<◌, ◌≤◌, ◌^◌, ◌≡◌, refl, ◌∙◌, sym, some, List,
  [], ◌∷◌, map, length, arith, string_key, if◌then◌else◌, nat_beq, same_refl, nat_key,
}
use kojin.Error.{ok}
use kojin.Message.{TaskMessage, Boxed, box}
use kojin.Signature.{Signature, into_message, of_message}
use kojin.Broker
use kojin.Broker.{IsBroker}
use kojin.ResultBackend
use kojin.ResultBackend.{ResultBackend, IsResultBackend}
use kojin.Worker.{chain_next, Worker, World, Reading, run_before}
use kojin.Worker.Chord.{Turn, run, called_back, run_members}
use kojin.Canvas.{Canvas, Canvases, Fresh, chord, step, end, flatten_chain, flatten_group, apply}
use kojin.Canvas.Groups.{
  AreMembers, none_left, one_more, messages, messages-AreMembers, on_queue, apply-chord,
  apply-chord_gains,
}
use kojin.Prelude.Map
use kojin.Canvas.Drawn.{Drawn, Drawn-All, Drawn-length}
use kojin.Worker.Execution.{execute_task}
use kojin.Worker.Completion.{IsDue, dispatch_of}

-- The callback message of a chord, boxed.
abbrev pub callback_of : {J : Type 0} → Fresh → Signature J → Boxed J
callback_of fresh sig = box (into_message (fresh.stamp 0) sig)

module _ {J C S R M : Type 0} (k : Worker J C S R M) (backend : ResultBackend J R) where
  -- The world after a workflow has been submitted from `w`.
  abbrev pub submitted : Fresh → Canvas J → World S R M → World S R M
  submitted fresh canvas w =
      let (done, b, r) = apply k.broker backend k.serde fresh canvas w.broker w.backend in
      record w { broker = b; backend = r }

module _ {J C S R M : Type 0} (k : Worker J C S R M) where
  -- An execution of a message that returns a result.
  pub record Execution (m : TaskMessage J) : Type 0 where
    pub rd : Reading S
    pub result : J
    pub due : IsDue rd.now m.eta
    pub done : dispatch_of k m ≡ ok result

  unfoldable pub execute_all :
      (order : List (TaskMessage J)) → All Execution order → World S R M → World S R M
  execute_all [] es w = w
  execute_all (m ∷ order) (e, es) w = execute_all order es (execute_task k e.rd m w)

  unfoldable pub results_of : (order : List (TaskMessage J)) → All Execution order → List J
  results_of [] es = []
  results_of (m ∷ order) (e, es) = e.result ∷ results_of order es

  module _ (g : String) (n : ℕ) (cb : Boxed J) where
    record Joins (m : TaskMessage J) : Type 0 where
      in_group : m.group_id ≡ some g
      of_total : m.group_total ≡ some n
      calls_back : m.chord_callback ≡ some cb
      unchained : Map.get chain_next m.headers ≡ none

    turns :
        (order : List (TaskMessage J))
        → All Execution order
        → All Joins order
        → List (Turn k g n cb)
    turns [] es js = []
    turns (m ∷ order) (e, es) (j, js) =
        record {
          rd = e.rd;
          message = m;
          result = e.result;
          in_group = j.in_group;
          of_total = j.of_total;
          calls_back = j.calls_back;
          unchained = j.unchained;
          due = e.due;
          done = e.done;
        }
        ∷ turns order es js

    run-turns :
        (order : List (TaskMessage J)) (es : All Execution order) (js : All Joins order)
        (w : World S R M)
        → run k g n cb (turns order es js) w ≡ execute_all order es w
    unfolding execute_all turns run
    run-turns [] es js w = refl
    run-turns (m ∷ order) (e, es) (j, js) w = run-turns order es js (execute_task k e.rd m w)

    results-turns :
        (order : List (TaskMessage J)) (es : All Execution order) (js : All Joins order)
        → map (λ t. t.result) (turns order es js) ≡ results_of order es
    unfolding turns results_of
    results-turns [] es js = refl
    results-turns (m ∷ order) (e, es) (j, js) = ap (λ l. e.result ∷ l) (results-turns order es js)

    length-turns :
        (order : List (TaskMessage J)) (es : All Execution order) (js : All Joins order)
        → length (turns order es js) ≡ length order
    unfolding turns
    length-turns [] es js = refl
    length-turns (m ∷ order) (e, es) (j, js) = omega (arith, length-turns order es js)

length-messages :
    {J : Type 0} (fresh : Fresh) (n : ℕ) (cb : Option (Boxed J)) (i : ℕ) (sigs : List (Signature J))
    → length (messages fresh n cb i sigs) ≡ length sigs
unfolding messages
length-messages fresh n cb i [] = refl
length-messages fresh n cb i (sig ∷ sigs) = omega (arith, length-messages fresh n cb (i + 1) sigs)

-- The task starts no chain of its own.
abbrev pub Unchained : {J : Type 0} → Signature J → Type 0
Unchained sig = Map.get chain_next sig.headers ≡ none

module _ {J C S R M : Type 0} (k : Worker J C S R M) (fresh : Fresh) (n : ℕ) (cb : Boxed J) where
  AreMembers-Joins :
      (sigs : List (Signature J)) (ms : List (TaskMessage J))
      → AreMembers fresh n (some cb) sigs ms
      → All Unchained sigs
      → All (Joins k fresh.group_id n cb) ms
  unfolding of_message
  AreMembers-Joins [] [] none_left us = tt
  AreMembers-Joins [] (m ∷ ms) are us = elim are [ ]
  AreMembers-Joins (sig ∷ sigs) [] are us = elim are [ ]
  AreMembers-Joins (sig ∷ sigs) (m ∷ ms) (one_more is rest) us = (
    record {
      in_group = is.in_group;
      of_total = is.of_total;
      calls_back = is.calls_back;
      unchained = ap (λ (s : Signature J). Map.get chain_next s.headers) is.made_from ∙ us.0;
    },
    AreMembers-Joins sigs ms rest us.1,
  )

module _ {J C S R M : Type 0} (k : Worker J C S R M) (backend : ResultBackend J R)
    (bv : Broker.View J S) (rv : ResultBackend.View J R) (lawful : IsBroker k.broker bv)
    (stores : IsResultBackend backend rv) (has : k.result_backend ≡ some backend)
    (hooks_pass : (m : TaskMessage J) (s : M) → (run_before k.middlewares m s).0 ≡ ok tt) where
  -- Any of the messages that a submitted chord has enqueued for its members are executed, in any
  -- order, each at most once, when it is due and with a result, on a broker and a result backend that
  -- keep their contracts and with hooks that let every message pass. Then the queues have gained the messages of all
  -- members and, exactly if as many were executed as the chord has, its callback, with the results in
  -- the order of the executions; the group counts the executions and has their results. The chord has a
  -- member, its size is a `u32`, its callback begins with a task, and no member starts a chain.
  pub apply-called_back :
      (fresh : Fresh) (members : Canvases J) (callback : Canvas J) (sig : Signature J)
      (more : List (Signature J)) (w : World S R M) (order : List (TaskMessage J))
      (es : All (Execution k) order)
      → let sigs = flatten_group members in
        let n = length sigs in
        let cb = callback_of fresh sig in
        0 < n
        → n < 2 ^ 32
        → flatten_chain (step callback end) ≡ sig ∷ more
        → All Unchained sigs
        → Drawn order (messages fresh n (some cb) 1 sigs)
        → let w' = execute_all k order es (submitted k backend fresh (chord members callback) w) in
          (rv.group w'.backend fresh.group_id ≡ some (length order, results_of k order es))
          × ((q : String)
              → bv.waiting w'.broker q
                ≡ (bv.waiting w.broker q ++ on_queue q (messages fresh n (some cb) 1 sigs))
                  ++ (if nat_beq (length order) n
                      then called_back k fresh.group_id n cb (results_of k order es) q
                      else []))
  apply-called_back fresh members callback sig more w order es some_member small flat us picked =
      let sigs = flatten_group members in
      let n = length sigs in
      let g = fresh.group_id in
      let cb = callback_of fresh sig in
      let ms = messages fresh n (some cb) 1 sigs in
      let w1 = submitted k backend fresh (chord members callback) w in
      let joins =
        Drawn-All (Joins k g n cb) order ms picked (
          AreMembers-Joins k fresh n cb sigs ms (messages-AreMembers fresh n (some cb) 1 sigs)
            us) in
      let ts = turns k g n cb order es joins in
      let begun =
        apply-chord k.broker backend k.serde bv rv lawful stores fresh members callback sig more
          w.broker w.backend small flat in
      let gained =
        apply-chord_gains k.broker backend k.serde bv rv lawful stores fresh members callback sig
          more w.broker w.backend small flat in
      let zero_done : rv.group w1.backend g ≡ some (0, []) =
        begun.group g ∙ rw (same_refl g) refl in
      let fits : 0 + length ts ≤ n = omega (
        arith,
        Drawn-length order ms picked,
        length-turns k g n cb order es joins,
        length-messages fresh n (some cb) 1 sigs,
      ) in
      let ended =
        run_members k backend bv rv lawful stores has hooks_pass g n cb ts 0 [] w1 zero_done
          some_member fits small in
      let count : 0 + length ts ≡ length order =
        omega (arith, length-turns k g n cb order es joins) in
      let results = results-turns k g n cb order es joins in
      let final = run-turns k g n cb order es joins w1 in
      (
        ap (λ (x : World S R M). rv.group x.backend g) (sym final)
            ∙ ended.group
            ∙ ap₂ (λ (c : ℕ) l. some (c, l)) count results,
        λ q.
            ap (λ (x : World S R M). bv.waiting x.broker q) (sym final)
            ∙ ended.waiting q
            ∙ ap₂ (λ l fired. l ++ fired) (gained.waiting q)
                (ap₂ (λ (c : ℕ) l. if nat_beq c n then called_back k g n cb l q else []) count
                  results),
      )
