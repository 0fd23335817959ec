-- ===== src/Redis/Keys/Apart.antt =====
-- Keys of different things have different names.
use Prim.Native.Char.{Char, code}
use Prim.Native.String.{[] as nil, ◌∷◌ as ◌∷ₛ◌, ◌++◌ as ◌+++◌}
use text.Mathlib.TextLemmas.{
  append_assoc, nil-append, cons-append, append_cancel_left, append_cancel_right,
}
use kojin.Prelude.{ℕ, ◌+◌, ◌*◌, String, ◌≡◌, refl, sym, ap, ap₂, ◌∙◌, nat_beq, if◌then◌else◌}
use kojin.Redis.Keys.{
  KeyBuilder, queue, processing, dlq, message, result, group_total, group_completed, group_results,
  dedup,
}

-- What a named key is about.
pub data Sort : Type 0 where
  of_queue of_processing of_dlq of_message of_result of_total of_completed of_results of_dedup :
      Sort

unfoldable pub key_of : KeyBuilder → Sort → String → String
unfolding queue processing dlq message result group_total group_completed group_results dedup
key_of k of_queue name = queue k name
key_of k of_processing name = processing k name
key_of k of_dlq name = dlq k name
key_of k of_message name = message k name
key_of k of_result name = result k name
key_of k of_total name = group_total k name
key_of k of_completed name = group_completed k name
key_of k of_results name = group_results k name
key_of k of_dedup name = dedup k name

-- What follows the prefix.
abbrev tail_of : Sort → String → String
tail_of of_queue name = ":queue:" +++ name
tail_of of_processing name = ":processing:" +++ name
tail_of of_dlq name = ":dlq:" +++ name
tail_of of_message name = ":msg:" +++ name
tail_of of_result name = ":result:" +++ name
tail_of of_total name = ":group:" +++ name +++ ":total"
tail_of of_completed name = ":group:" +++ name +++ ":completed"
tail_of of_results name = ":group:" +++ name +++ ":results"
tail_of of_dedup name = ":dedup:" +++ name

key_of-tail_of :
    (k : KeyBuilder) (s : Sort) (name : String) → key_of k s name ≡ k.prefix +++ tail_of s name
unfolding key_of queue processing dlq message result group_total group_completed group_results dedup
key_of-tail_of k of_queue name = refl
key_of-tail_of k of_processing name = refl
key_of-tail_of k of_dlq name = refl
key_of-tail_of k of_message name = refl
key_of-tail_of k of_result name = refl
key_of-tail_of k of_total name = refl
key_of-tail_of k of_completed name = refl
key_of-tail_of k of_results name = refl
key_of-tail_of k of_dedup name = refl

-- The second and the third character tell the sorts apart, but for those of a group, which the last
-- character does.
mark : String → ℕ
mark (a ∷ₛ b ∷ₛ c ∷ₛ s) = code b * 1000 + code c
mark _ = 0

last : String → ℕ
last nil = 0
last (c ∷ₛ nil) = code c
last (c ∷ₛ d ∷ₛ s) = last (d ∷ₛ s)

three-append : (a b c : Char) (s t : String) → (a ∷ₛ b ∷ₛ c ∷ₛ s) +++ t ≡ a ∷ₛ b ∷ₛ c ∷ₛ (s +++ t)
three-append a b c s t =
    cons-append a (b ∷ₛ c ∷ₛ s) t
    ∙ ap (◌∷ₛ◌ a) (cons-append b (c ∷ₛ s) t ∙ ap (◌∷ₛ◌ b) (cons-append c s t))

mark-append :
    (a b c : Char) (s t : String) → mark ((a ∷ₛ b ∷ₛ c ∷ₛ s) +++ t) ≡ code b * 1000 + code c
unfolding mark
mark-append a b c s t = rw (three-append a b c s t) refl

-- A text in front of one that is not empty does not change its last character.
last-cons_append :
    (c : Char) (s : String) (d : Char) (t : String)
    → last (c ∷ₛ (s +++ d ∷ₛ t)) ≡ last (s +++ d ∷ₛ t)
unfolding last
last-cons_append c nil d t = rw (nil-append (d ∷ₛ t)) refl
last-cons_append c (e ∷ₛ s) d t = rw (cons-append e s (d ∷ₛ t)) refl

last-append : (s : String) (d : Char) (t : String) → last (s +++ d ∷ₛ t) ≡ last (d ∷ₛ t)
last-append nil d t = rw (nil-append (d ∷ₛ t)) refl
last-append (c ∷ₛ s) d t =
    ap last (cons-append c s (d ∷ₛ t)) ∙ last-cons_append c s d t ∙ last-append s d t

last_group :
    (name : String) (d : Char) (t : String) → last (":group:" +++ name +++ d ∷ₛ t) ≡ last (d ∷ₛ t)
last_group name d t =
    ap last (sym (append_assoc ":group:" name (d ∷ₛ t))) ∙ last-append (":group:" +++ name) d t

by_last : ℕ → Sort
by_last l = if nat_beq l b'l' then of_total else if nat_beq l b'd' then of_completed else of_results

by_mark : ℕ → ℕ → Sort
by_mark m l =
    if nat_beq m 113117
    then of_queue
    else if nat_beq m 112114
    then of_processing
    else if nat_beq m 100108
    then of_dlq
    else if nat_beq m 109115
    then of_message
    else if nat_beq m 114101
    then of_result
    else if nat_beq m 100101
    then of_dedup
    else by_last l

sort_of : String → Sort
sort_of s = by_mark (mark s) (last s)

sort_of-tail_of : (s : Sort) (name : String) → sort_of (tail_of s name) ≡ s
unfolding sort_of by_mark by_last last
sort_of-tail_of of_queue name =
    ap (λ m. by_mark m (last (":queue:" +++ name))) (mark-append _ _ _ _ name)
sort_of-tail_of of_processing name =
    ap (λ m. by_mark m (last (":processing:" +++ name))) (mark-append _ _ _ _ name)
sort_of-tail_of of_dlq name =
    ap (λ m. by_mark m (last (":dlq:" +++ name))) (mark-append _ _ _ _ name)
sort_of-tail_of of_message name =
    ap (λ m. by_mark m (last (":msg:" +++ name))) (mark-append _ _ _ _ name)
sort_of-tail_of of_result name =
    ap (λ m. by_mark m (last (":result:" +++ name))) (mark-append _ _ _ _ name)
sort_of-tail_of of_dedup name =
    ap (λ m. by_mark m (last (":dedup:" +++ name))) (mark-append _ _ _ _ name)
sort_of-tail_of of_total name =
    ap₂ by_mark (mark-append _ _ _ _ (name +++ ":total")) (last_group name _ _)
sort_of-tail_of of_completed name =
    ap₂ by_mark (mark-append _ _ _ _ (name +++ ":completed")) (last_group name _ _)
sort_of-tail_of of_results name =
    ap₂ by_mark (mark-append _ _ _ _ (name +++ ":results")) (last_group name _ _)

tail_of_inj : (s : Sort) (name name' : String) → tail_of s name ≡ tail_of s name' → name ≡ name'
tail_of_inj of_queue name name' e = append_cancel_left ":queue:" name name' e
tail_of_inj of_processing name name' e = append_cancel_left ":processing:" name name' e
tail_of_inj of_dlq name name' e = append_cancel_left ":dlq:" name name' e
tail_of_inj of_message name name' e = append_cancel_left ":msg:" name name' e
tail_of_inj of_result name name' e = append_cancel_left ":result:" name name' e
tail_of_inj of_dedup name name' e = append_cancel_left ":dedup:" name name' e
tail_of_inj of_total name name' e =
    append_cancel_right name name' ":total" (append_cancel_left ":group:" _ _ e)
tail_of_inj of_completed name name' e =
    append_cancel_right name name' ":completed" (append_cancel_left ":group:" _ _ e)
tail_of_inj of_results name name' e =
    append_cancel_right name name' ":results" (append_cancel_left ":group:" _ _ e)

-- Under one prefix, two keys are the same only if they are of the same sort and for the same name,
-- whatever characters the names have, colons included.
pub key_of_inj :
    (k : KeyBuilder) (s s' : Sort) (name name' : String)
    → key_of k s name ≡ key_of k s' name'
    → (s ≡ s') × (name ≡ name')
key_of_inj k s s' name name' e =
    let tails : tail_of s name ≡ tail_of s' name' =
      append_cancel_left k.prefix (tail_of s name) (tail_of s' name')
        (sym (key_of-tail_of k s name) ∙ e ∙ key_of-tail_of k s' name') in
    let same : s ≡ s' =
      sym (sort_of-tail_of s name) ∙ ap sort_of tails ∙ sort_of-tail_of s' name' in
    (same, tail_of_inj s name name' (tails ∙ ap (λ r. tail_of r name') (sym same)))
