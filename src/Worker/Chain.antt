-- ===== src/Worker/Chain.antt =====
-- The steps of a chain, one after the other.
use kojin.Prelude.{◌≡◌, refl, ap, ◌∙◌, String, Option, none, some, List, [], ◌∷◌, arith, string_key}
use kojin.Prelude.Map
use kojin.Prelude.Map.{Map, get-insert, get-insert_self}
use kojin.Error.{ok}
use kojin.Message.{Stamp, TaskMessage}
use kojin.Signature.{Signature, into_message, of_message}
use kojin.Serde.{Serde, RoundTrips}
use kojin.Worker.{chain_next, chain_input}
use kojin.Worker.Messages.{pass_input, pass_correlation, pass_rest, next_message}

-- The header of a message holds the steps that are to follow it.
abbrev pub Follows : {J : Type 0} → Serde J → List (Signature J) → Option String → Type 0
Follows serde [] header = header ≡ none
Follows serde (sig ∷ rest) header =
    (text : String) × (header ≡ some text) × (serde.signatures_from_str text ≡ ok (sig ∷ rest))

-- A signature that does not itself speak of a chain.
abbrev pub IsPlain : {J : Type 0} → Signature J → Type 0
IsPlain sig = Map.get chain_next sig.headers ≡ none

module _ {J : Type 0} (serde : Serde J) (trips : RoundTrips serde) where
  -- What the next message of a chain is: the task of the first remaining step, under the
  -- correlation id `corr` and with the result of the message before it, and followed by the other
  -- steps.
  pub record IsNext (corr : Option String) (result : J) (sig : Signature J)
      (rest : List (Signature J)) (next : TaskMessage J) : Type 0 where
    pub task_name : next.task_name ≡ sig.task_name
    pub queue : next.queue ≡ sig.queue
    pub payload : next.payload ≡ sig.payload
    pub max_retries : next.max_retries ≡ sig.max_retries
    pub retries : next.retries ≡ 0
    pub correlation : next.correlation_id ≡ corr
    pub eta : next.eta ≡ sig.eta
    pub ungrouped : next.group_id ≡ none
    pub input :
        (text : String) × (serde.value_to_string result ≡ ok text)
        × (Map.get chain_input next.headers ≡ some text)
    pub follows : Follows serde rest (Map.get chain_next next.headers)

  -- The next message, for each way in which the two optional parts can be.
  abbrev built :
      (stamp : Stamp) (text : String) (sig : Signature J) (corr : Option String)
      (rest : List (Signature J))
      → TaskMessage J
  built stamp text sig corr rest =
      pass_rest serde rest (pass_correlation corr (pass_input (ok text) (into_message stamp sig)))

  built_fields :
      (stamp : Stamp) (text : String) (sig : Signature J) (corr : Option String)
      (rest : List (Signature J))
      → let next = built stamp text sig corr rest in
        (of_message (record next { fields = record next.fields { headers = sig.headers } }) ≡ sig)
        × (next.retries ≡ 0)
        × (next.correlation_id ≡ corr)
        × (next.group_id ≡ none)
  unfolding into_message of_message pass_rest pass_correlation pass_input
  built_fields stamp text sig none [] = (refl, refl, refl, refl)
  built_fields stamp text sig (some c) [] = (refl, refl, refl, refl)
  built_fields stamp text sig none (s ∷ rest) = ground (arith, trips.signatures (s ∷ rest))
  built_fields stamp text sig (some c) (s ∷ rest) = ground (arith, trips.signatures (s ∷ rest))

  last_headers :
      (text : String) (headers : Map String String)
      → Map.get chain_next headers ≡ none
      → let set = Map.insert chain_input text headers in
        (Map.get chain_input set ≡ some text) × (Map.get chain_next set ≡ none)
  last_headers text headers h =
      (get-insert_self chain_input text headers, get-insert chain_input chain_next text headers ∙ h)

  inner_headers :
      (text t : String) (headers : Map String String) (s : Signature J) (rest : List (Signature J))
      → serde.signatures_from_str t ≡ ok (s ∷ rest)
      → let set = Map.insert chain_next t (Map.insert chain_input text headers) in
        (Map.get chain_input set ≡ some text) × Follows serde (s ∷ rest) (Map.get chain_next set)
  inner_headers text t headers s rest from =
      let inputs = Map.insert chain_input text headers in
      (
        get-insert chain_next chain_input t inputs ∙ get-insert_self chain_input text headers,
        (t, get-insert_self chain_next t inputs, from),
      )

  built_headers :
      (stamp : Stamp) (text : String) (sig : Signature J) (corr : Option String)
      (rest : List (Signature J))
      → IsPlain sig
      → let next = built stamp text sig corr rest in
        (Map.get chain_input next.headers ≡ some text)
        × Follows serde rest (Map.get chain_next next.headers)
  unfolding into_message pass_rest pass_correlation pass_input
  built_headers stamp text sig none [] h = last_headers text sig.headers h
  built_headers stamp text sig (some c) [] h = last_headers text sig.headers h
  built_headers stamp text sig none (s ∷ rest) h =
      let (t, to, from) = trips.signatures (s ∷ rest) in
      rw (to, pass_rest) (inner_headers text t sig.headers s rest from)
  built_headers stamp text sig (some c) (s ∷ rest) h =
      let (t, to, from) = trips.signatures (s ∷ rest) in
      rw (to, pass_rest) (inner_headers text t sig.headers s rest from)

  -- Whatever the clock and the id generator say.
  pub next_message-IsNext :
      (stamp : Stamp) (m : TaskMessage J) (result : J) (sig : Signature J)
      (rest : List (Signature J))
      → IsPlain sig
      → IsNext m.correlation_id result sig rest (next_message serde stamp m result sig rest)
  unfolding next_message
  next_message-IsNext stamp m result sig rest plain =
      let (text, to) = trips.value result in
      let (same, retries, correlation, ungrouped) =
        built_fields stamp text sig m.correlation_id rest in
      let (input, follows) = built_headers stamp text sig m.correlation_id rest plain in
      rw to (record {
        task_name = unfold of_message in ap (λ (s : Signature J). s.task_name) same;
        queue = unfold of_message in ap (λ (s : Signature J). s.queue) same;
        payload = unfold of_message in ap (λ (s : Signature J). s.payload) same;
        max_retries = unfold of_message in ap (λ (s : Signature J). s.max_retries) same;
        retries = retries;
        correlation = correlation;
        eta = unfold of_message in ap (λ (s : Signature J). s.eta) same;
        ungrouped = ungrouped;
        input = (text, to, input);
        follows = follows;
      })
