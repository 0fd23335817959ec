-- ===== src/Prelude/Int.antt =====
-- Signed integers over the native numbers, as far as `i32` and `isize` need them.
use Prim.Native.Nat.{ℕ, ◌-◌, ◌%◌, ◌^◌}
use kojin.Prelude.Tests.{ltb, if◌then◌else◌}

-- `negsuc n` is -(n + 1).
pub data ℤ : Type 0 where
  pos : ℕ → ℤ
  negsuc : ℕ → ℤ

-- The two's complement of `bits` bits, for a number that may have more.
signed : ℕ → ℕ → ℤ
signed bits n =
    let low = n % 2 ^ bits in
    if ltb low (2 ^ (bits - 1)) then pos low else negsuc (2 ^ bits - 1 - low)

-- n as i32
unfoldable pub as_i32 : ℕ → ℤ
unfolding signed
as_i32 n = signed 32 n

-- n as isize, on a machine of 64 bits
unfoldable pub as_isize : ℕ → ℤ
unfolding signed
as_isize n = signed 64 n
