-- ===== src/Canvas.antt =====
-- kojin-core/src/canvas.rs: workflows, their flattening, and how `apply` submits them. New ids and
-- the clock are arguments; the error in `remaining_json` stands for the panic of its `expect`.
pub mod Chains
pub mod Groups
pub mod Drawn
pub mod Chords
use kojin.Prelude.{
  ℕ, ◌+◌, ◌%◌, ◌^◌, String, Option, none, some, List, [], ◌∷◌, ◌++◌, length, string_key,
}
use kojin.Error.{TaskResult, ok, err, other, ◌>>=◌}
use kojin.Message.{TaskId, Stamp, TaskMessage, Boxed, box}
use kojin.Signature.{Signature, into_message}
use kojin.Broker.{Action, Broker}
use kojin.ResultBackend.{ResultBackend}
use kojin.Serde.{Serde}
use kojin.Worker.{chain_next}
use kojin.Worker.Messages.{set_header}

mutual
  pub data Canvas (J : Type 0) : Type 0 where
    single : Signature J → Canvas J
    chain : Canvases J → Canvas J
    group : Canvases J → Canvas J
    chord : Canvases J → Canvas J → Canvas J

  -- `Vec<Canvas>`
  pub data Canvases (J : Type 0) : Type 0 where
    end : Canvases J
    step : Canvas J → Canvases J → Canvases J

pub record WorkflowHandle : Type 0 where
  pub id : String
  pub task_ids : List TaskId

-- The states behind the two interfaces, and the vector of submitted ids.
pub record Submission (S R : Type 0) : Type 0 where
  pub broker : S
  pub backend : R
  pub task_ids : List TaskId

-- The ids of the workflow and of its group, and the stamp of each message in the order in which the
-- messages are made.
pub record Fresh : Type 0 where
  pub correlation_id : String
  pub group_id : String
  pub stamp : ℕ → Stamp

module _ {J : Type 0} where
  unfoldable mutual
    pub flatten_step : Canvas J → List (Signature J)
    flatten_step (single sig) = sig ∷ []
    flatten_step (chain inner) = flatten_chain inner
    flatten_step (group members) = []
    flatten_step (chord members callback) = []

    pub flatten_chain : Canvases J → List (Signature J)
    flatten_chain end = []
    flatten_chain (step c cs) = flatten_step c ++ flatten_chain cs

  unfoldable pub flatten_member : Canvas J → List (Signature J)
  flatten_member (single sig) = sig ∷ []
  flatten_member _ = []

  unfoldable pub flatten_group : Canvases J → List (Signature J)
  unfolding flatten_member
  flatten_group end = []
  flatten_group (step c cs) = flatten_member c ++ flatten_group cs

  pub singles : List (Signature J) → Canvases J
  singles [] = end
  singles (sig ∷ sigs) = step (single sig) (singles sigs)

  -- The macros `chain!` and `group!`, the function `chord`, and the operator | of signatures.
  pub chain_macro : List (Signature J) → Canvas J
  unfolding singles
  chain_macro sigs = chain (singles sigs)

  pub group_macro : List (Signature J) → Canvas J
  unfolding singles
  group_macro sigs = group (singles sigs)

  pub chord_of : List (Signature J) → Signature J → Canvas J
  unfolding singles
  chord_of group_items callback = chord (singles group_items) (single callback)

  pub bitor : Signature J → Signature J → Canvas J
  bitor sig rhs = chain (step (single sig) (step (single rhs) end))

  -- sigs.len() as u32
  pub total_of : List (Signature J) → ℕ
  total_of sigs = length sigs % 2 ^ 32

  unfoldable pub correlated : String → TaskMessage J → TaskMessage J
  correlated c m = record m { fields = record m.fields { correlation_id = some c } }

  -- The header with the remaining steps, which a last step goes without.
  pub store_rest : Serde J → List (Signature J) → TaskMessage J → TaskResult (TaskMessage J)
  store_rest serde [] m = ok m
  store_rest serde (sig ∷ rest) m = elim (serde.signatures_to_string (sig ∷ rest)) [
    | err e ↦ err (other "failed to serialize chain steps")
    | ok json ↦ ok (set_header chain_next json m)
  ]

  -- A member of a group, and of a chord if there is a callback.
  unfoldable pub member_message : Fresh → ℕ → Option (Boxed J) → Stamp → Signature J → TaskMessage J
  unfolding correlated
  member_message fresh total callback stamp sig =
      let m = correlated fresh.correlation_id (into_message stamp sig) in
      record m {
        fields = record m.fields { group_id = some fresh.group_id; group_total = some total };
        chord_callback = callback;
      }

module _ {J S R : Type 0} (broker : Broker J S) (backend : ResultBackend J R) (serde : Serde J)
    (fresh : Fresh) where
  -- task_ids.push(msg.id); broker.enqueue(msg).await?
  pub submit : TaskMessage J → Action (Submission S R) Unit
  submit m s =
      let (r, b) = broker.enqueue m s.broker in
      (r, record s { broker = b; task_ids = s.task_ids ++ m.id ∷ [] })

  pub submit_first : TaskResult (TaskMessage J) → Action (Submission S R) Unit
  unfolding submit
  submit_first (err e) s = (err e, s)
  submit_first (ok m) s = submit m s

  pub apply_chain : List (Signature J) → Action (Submission S R) Unit
  unfolding submit_first store_rest correlated
  apply_chain [] s = (ok tt, s)
  apply_chain (sig ∷ rest) s =
      submit_first
        (store_rest serde rest (correlated fresh.correlation_id (into_message (fresh.stamp 0) sig)))
        s

  -- The loop over the members; `i` counts the messages made so far.
  pub submit_all : ℕ → Option (Boxed J) → ℕ → List (Signature J) → Action (Submission S R) Unit
  unfolding submit member_message
  submit_all total callback i [] s = (ok tt, s)
  submit_all total callback i (sig ∷ sigs) s =
      let (r, s') = submit (member_message fresh total callback (fresh.stamp i) sig) s in
      let rest = submit_all total callback (i + 1) sigs s' in
      elim r [ ok u ↦ rest | err e ↦ (err e, s') ]

  abbrev init : ℕ → Action (Submission S R) Unit
  init total s =
      let (r, b) = backend.init_group fresh.group_id total s.backend in
      (r, record s { backend = b })

  pub apply_group : List (Signature J) → Action (Submission S R) Unit
  unfolding submit_all total_of
  apply_group sigs s =
      let (r, s') = init (total_of sigs) s in
      elim r [ ok u ↦ submit_all (total_of sigs) none 0 sigs s' | err e ↦ (err e, s') ]

  -- Without a callback task the members are not submitted.
  pub submit_chord : List (Signature J) → List (Signature J) → Action (Submission S R) Unit
  unfolding submit_all total_of
  submit_chord sigs [] s = (ok tt, s)
  submit_chord sigs (callback ∷ more) s =
      submit_all (total_of sigs) (some (box (into_message (fresh.stamp 0) callback))) 1 sigs s

  pub apply_chord : List (Signature J) → List (Signature J) → Action (Submission S R) Unit
  unfolding submit_chord total_of
  apply_chord sigs callback_sigs s =
      let (r, s') = init (total_of sigs) s in
      elim r [ ok u ↦ submit_chord sigs callback_sigs s' | err e ↦ (err e, s') ]

  pub apply_inner : Canvas J → Action (Submission S R) Unit
  unfolding apply_chain apply_group apply_chord submit correlated flatten_chain flatten_group
  apply_inner (single sig) s =
      submit (correlated fresh.correlation_id (into_message (fresh.stamp 0) sig)) s
  apply_inner (chain steps) s = apply_chain (flatten_chain steps) s
  apply_inner (group members) s = apply_group (flatten_group members) s
  apply_inner (chord members callback) s =
      apply_chord (flatten_group members) (flatten_chain (step callback end)) s

  -- What `apply` returns, over fresh `task_ids`.
  pub apply : Canvas J → S → R → TaskResult WorkflowHandle × S × R
  unfolding apply_inner
  apply canvas b r =
      let (done, s) = apply_inner canvas (record { broker = b; backend = r; task_ids = [] }) in
      (
        done >>= (λ u. ok (record { id = fresh.correlation_id; task_ids = s.task_ids })),
        s.broker,
        s.backend,
      )
