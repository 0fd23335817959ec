-- ===== src/Backoff/Cap.antt =====
-- The saturating delay of kojin-core/src/backoff.rs against the formula that its doc comment gives.
use native.Mathlib.Nat.{pow-le-pow_right}
use kojin.Prelude.{ℕ, zero, suc, ◌*◌, ◌^◌, ◌≤◌, ◌≡◌, inl, inr, min, arith, ltb, Bool-cases}
use kojin.Backoff.{exponential, u64_max, shl_or_max, delay_for}

le-mul_self : (power b : ℕ) → power ≤ suc b * power
le-mul_self power b = grind arith

mul-mono_right : (b x y : ℕ) → x ≤ y → b * x ≤ b * y
mul-mono_right b x y h = grind arith

two_pow_mono : (r s : ℕ) → r ≤ s → 2 ^ r ≤ 2 ^ s
two_pow_mono r s h = pow-le-pow_right (omega arith) h

-- A shift that falls out of the word counts as the largest word, and so does the product with it.
capped_shift :
    (base_secs max_secs power : ℕ)
    → max_secs ≤ u64_max
    → u64_max ≤ power
    → min (min (base_secs * u64_max) u64_max) max_secs ≡ min (base_secs * power) max_secs
capped_shift zero max_secs power h p = omega arith
capped_shift (suc b) max_secs power h p = omega (arith, le-mul_self power b)

-- The delay is base * 2^retry, cut at `max_secs`, whatever the retry count and for every cap that
-- is a `u64`: the overflow guards never change it.
pub delay_for-eq-min :
    (base_secs max_secs retry : ℕ)
    → max_secs ≤ u64_max
    → delay_for (exponential base_secs max_secs) retry ≡ min (base_secs * 2 ^ retry) max_secs
unfolding delay_for
delay_for-eq-min b m r h = elim (Bool-cases (ltb r 64)) [
  | inl small ↦ rw (small, shl_or_max) (omega arith)
  | inr large ↦
      rw (large, shl_or_max)
        (capped_shift b m (2 ^ r) h (omega (arith, two_pow_mono 64 r (ground arith))))
]

-- A later retry never waits less.
delay_for_mono :
    (base_secs max_secs r s : ℕ)
    → max_secs ≤ u64_max
    → r ≤ s
    → delay_for (exponential base_secs max_secs) r ≤ delay_for (exponential base_secs max_secs) s
delay_for_mono b m r s h rs =
    rw (delay_for-eq-min b m r h, delay_for-eq-min b m s h)
      (omega (arith, mul-mono_right b (2 ^ r) (2 ^ s) (two_pow_mono r s rs)))
