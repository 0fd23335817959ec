-- ===== src/Examples/Codec.antt =====
-- A concrete stand-in for serde_json over numbers, with the round trips that the model asks of it:
-- numbers in unary, texts with a mark before each character, the rest from these two.
use Prim.Native.Char.{code}
use Prim.Native.String.{[] as nil, ◌∷◌ as ◌∷ₛ◌}
use kojin.Prelude.{
  ℕ, zero, suc, ◌≡◌, refl, String, Option, none, some, List, [], ◌∷◌, length, nat_beq,
  if◌then◌else◌,
}
use kojin.Error.{TaskResult, ok, err, serialization}
use kojin.Signature.{Signature}
use kojin.Serde.{Serde, RoundTrips}

-- Writes a value in front of a text, and reads one off the front.
pub record Coder (A : Type 0) : Type 0 where
  pub put : A → String → String
  pub read : String → Option (A × String)
  pub read-put : (a : A) (rest : String) → read (put a rest) ≡ some (a, rest)

abbrev then_map :
    {A B : Type 0} → Option (A × String) → (A → String → Option (B × String)) → Option (B × String)
then_map none f = none
then_map (some (a, rest)) f = f a rest

pub put_nat : ℕ → String → String
put_nat zero rest = "0" ∷ₛ rest
put_nat (suc n) rest = "1" ∷ₛ put_nat n rest

read_nat : String → Option (ℕ × String)
read_nat nil = none
read_nat (c ∷ₛ s) =
    let more = read_nat s in
    if nat_beq (code c) b'0' then some (0, s) else then_map more (λ n rest. some (suc n, rest))

read_nat-put_nat : (n : ℕ) (rest : String) → read_nat (put_nat n rest) ≡ some (n, rest)
unfolding put_nat read_nat
read_nat-put_nat zero rest = refl
read_nat-put_nat (suc n) rest = rw (read_nat-put_nat n rest)

put_text : String → String → String
put_text nil rest = "0" ∷ₛ rest
put_text (c ∷ₛ s) rest = "1" ∷ₛ c ∷ₛ put_text s rest

read_text : String → Option (String × String)
read_text nil = none
read_text (t ∷ₛ nil) = some (nil, nil)
read_text (t ∷ₛ c ∷ₛ s) =
    let more = read_text s in
    if nat_beq (code t) b'0'
    then some (nil, c ∷ₛ s)
    else then_map more (λ text rest. some (c ∷ₛ text, rest))

read_text-put_text : (s rest : String) → read_text (put_text s rest) ≡ some (s, rest)
unfolding put_text read_text
read_text-put_text nil nil = refl
read_text-put_text nil (c ∷ₛ rest) = refl
read_text-put_text (c ∷ₛ s) rest = rw (read_text-put_text s rest)

pub nat_coder : Coder ℕ
nat_coder = record { put = put_nat; read = read_nat; read-put = read_nat-put_nat }

text_coder : Coder String
text_coder = record { put = put_text; read = read_text; read-put = read_text-put_text }

module _ {A B : Type 0} (a : Coder A) (b : Coder B) where
  put_pair : A × B → String → String
  put_pair (x, y) rest = a.put x (b.put y rest)

  read_pair : String → Option ((A × B) × String)
  read_pair s = then_map (a.read s) (λ x s'. then_map (b.read s') (λ y s''. some ((x, y), s'')))

  pair_coder : Coder (A × B)
  pair_coder = record { put = put_pair; read = read_pair; read-put = read-put_pair }
    where
      read-put_pair : (p : A × B) (rest : String) → read_pair (put_pair p rest) ≡ some (p, rest)
      read-put_pair (x, y) rest =
          unfold put_pair read_pair in rw (a.read-put x (b.put y rest), b.read-put y rest)

module _ {A : Type 0} (a : Coder A) where
  put_option : Option A → String → String
  put_option none rest = put_nat 0 rest
  put_option (some x) rest = put_nat 1 (a.put x rest)

  option_of : ℕ → String → Option (Option A × String)
  option_of zero s = some (none, s)
  option_of (suc n) s = then_map (a.read s) (λ x s'. some (some x, s'))

  read_option : String → Option (Option A × String)
  read_option s = then_map (read_nat s) option_of

  read_option-put_option :
      (o : Option A) (rest : String) → read_option (put_option o rest) ≡ some (o, rest)
  unfolding put_option read_option option_of
  read_option-put_option none rest = rw (read_nat-put_nat 0 rest)
  read_option-put_option (some x) rest =
      rw (read_nat-put_nat 1 (a.put x rest)) (rw (a.read-put x rest))

  option_coder : Coder (Option A)
  option_coder = record { put = put_option; read = read_option; read-put = read_option-put_option }

  put_all : List A → String → String
  put_all [] rest = rest
  put_all (x ∷ xs) rest = a.put x (put_all xs rest)

  read_all : ℕ → String → Option (List A × String)
  read_all zero s = some ([], s)
  read_all (suc n) s =
      then_map (a.read s) (λ x s'. then_map (read_all n s') (λ xs s''. some (x ∷ xs, s'')))

  read_all-put_all :
      (xs : List A) (rest : String) → read_all (length xs) (put_all xs rest) ≡ some (xs, rest)
  unfolding put_all read_all
  read_all-put_all [] rest = refl
  read_all-put_all (x ∷ xs) rest =
      rw (a.read-put x (put_all xs rest)) (rw (read_all-put_all xs rest))

  pub put_list : List A → String → String
  put_list xs rest = put_nat (length xs) (put_all xs rest)

  pub read_list : String → Option (List A × String)
  read_list s = then_map (read_nat s) read_all

  read_list-put_list :
      (xs : List A) (rest : String) → read_list (put_list xs rest) ≡ some (xs, rest)
  unfolding put_list read_list
  read_list-put_list xs rest =
      rw (read_nat-put_nat (length xs) (put_all xs rest)) (read_all-put_all xs rest)

  list_coder : Coder (List A)
  list_coder = record { put = put_list; read = read_list; read-put = read_list-put_list }

-- A signature as the pairs of its fields.
abbrev Parts : Type 0
Parts =
    ((String × String) × (ℕ × ℕ))
    × ((Option ℕ × List (String × String)) × (Option ℕ × Option String))

to_parts : Signature ℕ → Parts
to_parts s = (
  ((s.task_name, s.queue), (s.payload, s.max_retries)),
  ((s.eta, s.headers), (s.priority, s.dedup_key)),
)

of_parts : Parts → Signature ℕ
of_parts p = record {
  task_name = p.0.0.0;
  queue = p.0.0.1;
  payload = p.0.1.0;
  max_retries = p.0.1.1;
  eta = p.1.0.0;
  headers = p.1.0.1;
  priority = p.1.1.0;
  dedup_key = p.1.1.1;
}

parts_coder : Coder Parts
parts_coder =
    pair_coder (pair_coder (pair_coder text_coder text_coder) (pair_coder nat_coder nat_coder)) (
      pair_coder
        (pair_coder (option_coder nat_coder) (list_coder (pair_coder text_coder text_coder)))
        (pair_coder (option_coder nat_coder) (option_coder text_coder)))

pub signature_coder : Coder (Signature ℕ)
signature_coder = record {
  put = λ s. parts_coder.put (to_parts s);
  read = λ text. then_map (parts_coder.read text) (λ p rest. some (of_parts p, rest));
  read-put = read-put_signature;
}
  where
    read-put_signature :
        (s : Signature ℕ) (rest : String)
        → then_map
            (parts_coder.read (parts_coder.put (to_parts s) rest))
            (λ p rest'. some (of_parts p, rest'))
          ≡ some (s, rest)
    read-put_signature s rest =
        rw (parts_coder.read-put (to_parts s) rest) (unfold to_parts of_parts in refl)

pub read_whole : Option (List (Signature ℕ) × String) → TaskResult (List (Signature ℕ))
read_whole none = err (serialization "unexpected end")
read_whole (some (sigs, rest)) = ok sigs

unfoldable pub number_serde : Serde ℕ
number_serde = record {
  signatures_to_string = λ sigs. ok (put_list signature_coder sigs nil);
  value_to_string = λ n. ok (put_nat n nil);
  values_to_string = λ ns. ok (put_list nat_coder ns nil);
  signatures_from_str = λ text. read_whole (read_list signature_coder text);
}

pub number_serde-RoundTrips : RoundTrips number_serde
unfolding number_serde read_whole
number_serde-RoundTrips = record {
  signatures = λ sigs.
      (put_list signature_coder sigs nil, refl, rw (read_list-put_list signature_coder sigs nil));
  value = λ n. (put_nat n nil, refl);
  values = λ ns. (put_list nat_coder ns nil, refl);
}
