-- ===== src/Message/Hash.antt =====
-- kojin-core/src/message.rs: the FNV-1a hash behind `with_content_dedup`, with the bytes of a text
-- (`as_bytes`) and the lower-case hexadecimal of a number (`{:x}`) that it goes between.
use Prim.Native.Char.{code}
use Prim.Native.String.{◌++◌ as ◌+++◌}
use kojin.Prelude.{
  ℕ, zero, suc, ◌+◌, ◌*◌, ◌/◌, ◌%◌, ◌<◌, bit_xor, String, List, [], ◌∷◌, ◌++◌, arith, ltb,
  if◌then◌else◌,
}

abbrev pub u64_mod : ℕ
u64_mod = 0x10000000000000000

abbrev offset_basis : ℕ
offset_basis = 0xcbf29ce484222325

abbrev prime : ℕ
prime = 0x100000001b3

-- hash ^= byte as u64; hash = hash.wrapping_mul(0x100000001b3)
unfoldable pub fnv_step : ℕ → ℕ → ℕ
fnv_step hash byte = bit_xor hash byte * prime % u64_mod

-- The `for` loop.
fnv_loop : ℕ → List ℕ → ℕ
unfolding fnv_step
fnv_loop hash [] = hash
fnv_loop hash (byte ∷ bytes) = fnv_loop (fnv_step hash byte) bytes

unfoldable pub fnv1a_64 : List ℕ → ℕ
unfolding fnv_loop
fnv1a_64 bytes = fnv_loop offset_basis bytes

-- The UTF-8 bytes of a code point.
utf8 : ℕ → List ℕ
utf8 c =
    if ltb c 0x80
    then c ∷ []
    else if ltb c 0x800
    then (0xc0 + c / 64) ∷ (0x80 + c % 64) ∷ []
    else if ltb c 0x10000
    then (0xe0 + c / 4096) ∷ (0x80 + c / 64 % 64) ∷ (0x80 + c % 64) ∷ []
    else (0xf0 + c / 262144) ∷ (0x80 + c / 4096 % 64) ∷ (0x80 + c / 64 % 64) ∷ (0x80 + c % 64) ∷ []

unfoldable pub as_bytes : String → List ℕ
unfolding utf8
as_bytes String.[] = []
as_bytes (String.◌∷◌ c s) = utf8 (code c) ++ as_bytes s

abbrev digit_from : List String → ℕ → String
digit_from [] n = ""
digit_from (d ∷ ds) zero = d
digit_from (d ∷ ds) (suc n) = digit_from ds n

abbrev digits : List String
digits =
    "0" ∷ "1" ∷ "2" ∷ "3" ∷ "4" ∷ "5" ∷ "6" ∷ "7" ∷ "8" ∷ "9" ∷ "a" ∷ "b" ∷ "c" ∷ "d" ∷ "e" ∷ "f"
    ∷ []

-- A `u64` has at most sixteen hexadecimal digits.
hex_digits : ℕ → ℕ → String
hex_digits zero n = ""
hex_digits (suc places) n =
    let high = hex_digits places (n / 16) in
    if ltb n 16 then digit_from digits n else high +++ digit_from digits (n % 16)

unfoldable pub to_hex : ℕ → String
unfolding hex_digits
to_hex n = hex_digits 16 n

fnv_loop-lt : (hash : ℕ) (bytes : List ℕ) → hash < u64_mod → fnv_loop hash bytes < u64_mod
unfolding fnv_loop
fnv_loop-lt hash [] h = h
fnv_loop-lt hash (byte ∷ bytes) h =
    fnv_loop-lt (fnv_step hash byte) bytes (unfold fnv_step in omega arith)

-- The hash is a `u64`, whatever the input.
fnv1a_64-lt : (bytes : List ℕ) → fnv1a_64 bytes < u64_mod
unfolding fnv1a_64
fnv1a_64-lt bytes = fnv_loop-lt offset_basis bytes (omega arith)
