-- ===== src/Agent/Sdd/Attempts.antt =====
-- What a run of the task amounts to, on every branch: how often it tests and repairs, and with what
-- result it ends.
use kojin.Prelude.{
  ℕ, zero, suc, ◌+◌, ◌≤◌, ◌<◌, ◌^◌, ◌≡◌, refl, ◌⊎◌, inl, inr, Bool, true, false, none, some, List,
  [], ◌∷◌, ◌++◌, length, length-append, Bool-cases, arith,
}
use native.Mathlib.Numerals.{add-one}
use kojin.Error.{KojinError, TaskResult, ok, err}
use kojin.Action.{continue}
use kojin.Agent.Runner.{RunOutput, ClaudeRunner, Output, System}
use kojin.Agent.Sdd.{
  SddTask, SddOutput, generate, verify, fix, output, attempts_from, run, no_runner, u32_add,
}

-- The two outcomes of a call.
TaskResult-cases :
    {A S : Type 0} (r : TaskResult A × S)
    → ((e : KojinError) × (s : S) × (r ≡ (err e, s))) ⊎ ((a : A) × (s : S) × (r ≡ (ok a, s)))
TaskResult-cases (ok a, s) = inr (a, s, refl)
TaskResult-cases (err e, s) = inl (e, s, refl)

module _ {F B W : Type 0} (sys : System F B W) (runner : ClaudeRunner F W) (t : SddTask F) where
  -- From the state `w` to `w'` the test command ran `n` times, all but the last time without
  -- success, and each failure was repaired by one run of the agent on its output; `o` is what the
  -- last test printed.
  pub data Tested (w : W) : ℕ → List (RunOutput F) → Output B → W → Type 0 where
    first : {o : Output B} {w' : W} → verify sys runner t w ≡ (ok o, w') → Tested w 1 [] o w'
    repaired :
        {n : ℕ} {fixes : List (RunOutput F)} {o o' : Output B} {f : RunOutput F} {w1 w2 w' : W}
        → Tested w n fixes o w1
        → o.success ≡ false
        → fix sys runner t o w1 ≡ (ok f, w2)
        → verify sys runner t w2 ≡ (ok o', w')
        → Tested w (suc n) (fixes ++ f ∷ []) o' w'

  -- How a run ends: an error is the error of the call that failed, and nothing is called after it.
  pub data Settled (w : W) : TaskResult (SddOutput F) → W → Type 0 where
    gen_failed :
        {e : KojinError} {w' : W} → generate sys runner t w ≡ (err e, w') → Settled w (err e) w'
    test_failed :
        {g : RunOutput F} {e : KojinError} {w1 w' : W}
        → generate sys runner t w ≡ (ok g, w1)
        → verify sys runner t w1 ≡ (err e, w')
        → Settled w (err e) w'
    fix_failed :
        {g : RunOutput F} {e : KojinError} {n : ℕ} {fixes : List (RunOutput F)} {o : Output B}
        {w1 w2 w' : W}
        → generate sys runner t w ≡ (ok g, w1)
        → Tested w1 n fixes o w2
        → n ≤ t.max_fix_attempts
        → o.success ≡ false
        → fix sys runner t o w2 ≡ (err e, w')
        → Settled w (err e) w'
    retest_failed :
        {g : RunOutput F} {e : KojinError} {n : ℕ} {fixes : List (RunOutput F)} {o : Output B}
        {f : RunOutput F} {w1 w2 w3 w' : W}
        → generate sys runner t w ≡ (ok g, w1)
        → Tested w1 n fixes o w2
        → n ≤ t.max_fix_attempts
        → o.success ≡ false
        → fix sys runner t o w2 ≡ (ok f, w3)
        → verify sys runner t w3 ≡ (err e, w')
        → Settled w (err e) w'
    settled :
        {g : RunOutput F} {n : ℕ} {fixes : List (RunOutput F)} {o : Output B} {w1 w' : W}
        {out : SddOutput F}
        → generate sys runner t w ≡ (ok g, w1)
        → Tested w1 n fixes o w'
        → (o.success ≡ true) ⊎ (n ≡ suc t.max_fix_attempts)
        → n ≤ suc t.max_fix_attempts
        → length fixes + 1 ≡ n
        → out ≡ record (output sys runner t o.success 0 g fixes o) { attempts = n }
        → Settled w (ok out) w'

  Tested-length :
      {w w' : W} {n : ℕ} {fixes : List (RunOutput F)} {o : Output B}
      → Tested w n fixes o w'
      → length fixes + 1 ≡ n
  Tested-length (first h) = omega arith
  Tested-length (repaired {n} {fixes} {o} {o'} {f} r s p q) =
      omega (arith, Tested-length r, length-append fixes (f ∷ []))

  -- The state before a test: nothing was tested yet, or the last failure was repaired.
  data Ready (w : W) : ℕ → List (RunOutput F) → W → Type 0 where
    fresh : Ready w 0 [] w
    again :
        {n : ℕ} {fixes : List (RunOutput F)} {o : Output B} {f : RunOutput F} {w1 w2 : W}
        → Tested w n fixes o w1
        → o.success ≡ false
        → fix sys runner t o w1 ≡ (ok f, w2)
        → Ready w n (fixes ++ f ∷ []) w2

  Ready-Tested :
      {w w1 w' : W} {n : ℕ} {fixes : List (RunOutput F)} {o : Output B}
      → Ready w n fixes w1
      → verify sys runner t w1 ≡ (ok o, w')
      → Tested w (suc n) fixes o w'
  Ready-Tested fresh v = first v
  Ready-Tested (again r s p) v = repaired r s p v

  Ready-failed :
      {w w1 w2 w' : W} {n : ℕ} {fixes : List (RunOutput F)} {g : RunOutput F} {e : KojinError}
      → generate sys runner t w ≡ (ok g, w1)
      → Ready w1 n fixes w2
      → n ≤ t.max_fix_attempts
      → verify sys runner t w2 ≡ (err e, w')
      → Settled w (err e) w'
  Ready-failed g fresh h v = test_failed g v
  Ready-failed g (again r s p) h v = retest_failed g r h s p v

  module _ (small : t.max_fix_attempts + 1 < 2 ^ 32) {w w1 : W} {g : RunOutput F}
      (gen : generate sys runner t w ≡ (ok g, w1)) where
    -- The loop ends after a test.
    ends :
        {fixes : List (RunOutput F)} {o : Output B} {w' : W} (passed : Bool) (attempt : ℕ)
        → Tested w1 (suc attempt) fixes o w'
        → o.success ≡ passed
        → attempt ≤ t.max_fix_attempts
        → (passed ≡ true) ⊎ (attempt ≡ t.max_fix_attempts)
        → Settled w (ok (output sys runner t passed attempt g fixes o)) w'
    ends {fixes} {o} passed attempt r p h last =
        let count : u32_add attempt 1 ≡ suc attempt = omega arith in
        settled gen r (ground arith) (omega arith) (Tested-length r) (ground arith)

    attempts_from-Settled :
        (left attempt : ℕ) (fixes : List (RunOutput F)) (w2 : W)
        → Ready w1 attempt fixes w2
        → left + attempt ≡ t.max_fix_attempts
        → let r = attempts_from sys runner t left attempt g fixes w2 in Settled w r.0 r.1
    unfolding attempts_from
    attempts_from-Settled zero attempt fixes w2 ready h =
        elim (TaskResult-cases (verify sys runner t w2)) [
          | inl (e, w', v) ↦ rw (v, continue) (Ready-failed gen ready (omega arith) v)
          | inr (o, w', v) ↦
              rw (v, continue)
                (ends o.success attempt (Ready-Tested ready v) refl (omega arith)
                  (inr (omega arith)))
        ]
    attempts_from-Settled (suc left) attempt fixes w2 ready h =
        elim (TaskResult-cases (verify sys runner t w2)) [
          | inl (e, w', v) ↦ rw (v, continue) (Ready-failed gen ready (omega arith) v)
          | inr (o, w', v) ↦
              rw (v, continue)
                (elim (Bool-cases o.success) [
                  | inl p ↦
                      rw p (ends true attempt (Ready-Tested ready v) p (omega arith) (inl refl))
                  | inr p ↦ rw p (elim (TaskResult-cases (fix sys runner t o w')) [
                    | inl (e, w3, x) ↦
                        rw (x, continue) (fix_failed gen (Ready-Tested ready v) (omega arith) p x)
                    | inr (f, w3, x) ↦
                        rw (x, continue)
                          (attempts_from-Settled left (attempt + 1) (fixes ++ f ∷ []) w3
                            (rw add-one (again (Ready-Tested ready v) p x)) (omega arith))
                  ])
                ])
        ]

-- A run without a runner in the context ends at once with an error. Any other run ends as the calls
-- it makes say, whatever the agent and the test command do: if no call fails it ends after the first
-- test that succeeds or after `max_fix_attempts + 1` tests, it says that it passed exactly if its
-- last test succeeded, and it reports the number of tests, the repairs between them in order, and
-- what the last test printed; the first call that fails ends it with that call's error. The number
-- of tests must fit in a `u32`.
pub run-Settled :
    {F B W : Type 0} (sys : System F B W) (runner : ClaudeRunner F W) (t : SddTask F) (w : W)
    → t.max_fix_attempts + 1 < 2 ^ 32
    → (run sys none t w ≡ (err no_runner, w))
      × Settled sys runner t w (run sys (some runner) t w).0 (run sys (some runner) t w).1
unfolding run
run-Settled sys runner t w small = (
  refl,
  elim (TaskResult-cases (generate sys runner t w)) [
    | inl (e, w1, p) ↦ rw (p, continue) (gen_failed p)
    | inr (g, w1, p) ↦
        rw (p, continue)
          (attempts_from-Settled sys runner t small p t.max_fix_attempts 0 [] w1 fresh
            (omega arith))
  ],
)
