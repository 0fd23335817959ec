-- ===== src/Middleware/Dedup/Once.antt =====
-- A key passes the deduplication at most once within its time to live.
use kojin.Prelude.{
  ℕ, ◌+◌, ◌-◌, ◌≤◌, ◌<◌, ltb, String, ◌≡◌, refl, Option, none, some, List, [], ◌∷◌, All, arith,
  string_key, Bool-cases, inl, inr,
}
use kojin.Prelude.Map
use kojin.Prelude.Map.{
  get-insert, get-insert_self, get-retain, Distinct, insert-Distinct, retain-Distinct,
}
use kojin.Error.{ok, err, duplicate}
use kojin.Message.{TaskMessage}
use kojin.Middleware.Dedup.{DeduplicationMiddleware, cleanup, enter, before_key, before}

-- What happens to the middleware: a message is checked, or a cleanup runs, each at a time.
pub data Event (J : Type 0) : Type 0 where
  checked : ℕ → TaskMessage J → Event J
  cleaned : ℕ → Event J

module _ {J : Type 0} where
  abbrev pub time : Event J → ℕ
  time (checked now m) = now
  time (cleaned now) = now

  pub after : Event J → DeduplicationMiddleware → DeduplicationMiddleware
  after (checked now m) s = (before now m s).1
  after (cleaned now) s = cleanup now s

  unfoldable pub run : List (Event J) → DeduplicationMiddleware → DeduplicationMiddleware
  run [] s = s
  run (e ∷ es) s = run es (after e s)

abbrev pub Within : ℕ → ℕ → ℕ → Type 0
Within from ttl now = (from ≤ now) × (now < from + ttl)

-- The key was entered at `from`, and no entry stands twice.
record Entered (key : String) (from ttl : ℕ) (s : DeduplicationMiddleware) : Type 0 where
  same_ttl : s.ttl ≡ ttl
  at_key : Map.get key s.seen ≡ some from
  distinct : Distinct s.seen

module _ (key : String) (from ttl : ℕ) where
  cleanup-Entered :
      (now : ℕ) (s : DeduplicationMiddleware)
      → Within from ttl now
      → Entered key from ttl s
      → Entered key from ttl (cleanup now s)
  unfolding cleanup
  cleanup-Entered now s w h = record {
    same_ttl = h.same_ttl;
    at_key = ground (arith, get-retain (λ v. ltb (now - v) s.ttl) key s.seen h.distinct);
    distinct = retain-Distinct (λ v. ltb (now - v) s.ttl) s.seen h.distinct;
  }

  enter-Entered :
      (now : ℕ) (k : String) (o : Option ℕ) (s : DeduplicationMiddleware)
      → Map.get k s.seen ≡ o
      → Within from ttl now
      → Entered key from ttl s
      → Entered key from ttl (enter now k o s).1
  unfolding enter
  enter-Entered now k none s e w h = record {
    same_ttl = h.same_ttl;
    at_key = ground (arith, get-insert k key now s.seen, string_key.same_iff k key);
    distinct = insert-Distinct k now s.seen h.distinct;
  }
  enter-Entered now k (some v) s e w h = elim (Bool-cases (ltb (now - v) s.ttl)) [
    | inl fresh ↦ rw (fresh, enter) h
    | inr old ↦
        rw (old, enter)
          (record {
            same_ttl = h.same_ttl;
            at_key = ground (arith, get-insert k key now s.seen, string_key.same_iff k key);
            distinct = insert-Distinct k now s.seen h.distinct;
          })
  ]

  before_key-Entered :
      (now : ℕ) (o : Option String) (s : DeduplicationMiddleware)
      → Within from ttl now
      → Entered key from ttl s
      → Entered key from ttl (before_key now o s).1
  unfolding before_key
  before_key-Entered now none s w h = h
  before_key-Entered now (some k) s w h = enter-Entered now k (Map.get k s.seen) s refl w h

  run-Entered :
      {J : Type 0} (es : List (Event J)) (s : DeduplicationMiddleware)
      → All (λ e. Within from ttl (time e)) es
      → Entered key from ttl s
      → Entered key from ttl (run es s)
  unfolding run after before
  run-Entered [] s w h = h
  run-Entered (checked now m ∷ es) s w h =
      run-Entered es _ w.1 (before_key-Entered now m.dedup_key s w.0 h)
  run-Entered (cleaned now ∷ es) s w h = run-Entered es _ w.1 (cleanup-Entered now s w.0 h)

  Entered-rejects :
      {J : Type 0} (now : ℕ) (m : TaskMessage J) (s : DeduplicationMiddleware)
      → m.dedup_key ≡ some key
      → Within from ttl now
      → Entered key from ttl s
      → before now m s ≡ (err (duplicate key), s)
  unfolding before before_key enter
  Entered-rejects now m s k w h = rw (k, before_key) (rw (h.at_key, enter) (ground arith))

  enter_accepted :
      (o : Option ℕ) (s : DeduplicationMiddleware)
      → s.ttl ≡ ttl
      → Distinct s.seen
      → (enter from key o s).0 ≡ ok tt
      → Entered key from ttl (enter from key o s).1
  unfolding enter
  enter_accepted none s t d h = record {
    same_ttl = t;
    at_key = get-insert_self key from s.seen;
    distinct = insert-Distinct key from s.seen d;
  }
  enter_accepted (some v) s t d h = elim (Bool-cases (ltb (from - v) s.ttl)) [
    | inl fresh ↦ absurd (ground arith)
    | inr old ↦
        rw (old, enter)
          (record {
            same_ttl = t;
            at_key = get-insert_self key from s.seen;
            distinct = insert-Distinct key from s.seen d;
          })
  ]

  accepted-Entered :
      {J : Type 0} (m : TaskMessage J) (s : DeduplicationMiddleware)
      → m.dedup_key ≡ some key
      → s.ttl ≡ ttl
      → Distinct s.seen
      → (before from m s).0 ≡ ok tt
      → Entered key from ttl (before from m s).1
  unfolding before before_key enter
  accepted-Entered m s k t d h =
      rw (k, before_key) (enter_accepted (Map.get key s.seen) s t d (rw (k, before_key) at h))

-- Once a message with a key has passed, every message with that key is refused as a duplicate until
-- the time to live is over, and the refusal changes nothing, whatever other messages are checked and
-- whatever cleanups run in between.
pub passes_once :
    {J : Type 0} (key : String) (from now : ℕ) (m m' : TaskMessage J) (es : List (Event J))
    (s : DeduplicationMiddleware)
    → Distinct s.seen
    → m.dedup_key ≡ some key
    → m'.dedup_key ≡ some key
    → (before from m s).0 ≡ ok tt
    → All (λ e. Within from s.ttl (time e)) es
    → Within from s.ttl now
    → let s' = run es (before from m s).1 in before now m' s' ≡ (err (duplicate key), s')
passes_once key from now m m' es s d k k' passed ws w =
    Entered-rejects key from s.ttl now m' _ k' w
      (run-Entered key from s.ttl es _ ws (accepted-Entered key from s.ttl m s k refl d passed))
