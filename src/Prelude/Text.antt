-- ===== src/Prelude/Text.antt =====
-- What the program uses of `str` and `String`: cutting, joining, searching and trimming of texts, and
-- the decimal form of a number.
use Prim.Native.Char.{Char, code}
use Prim.Native.String.{String, ◌++◌, count}
use Prim.Native.Nat.{ℕ, zero, suc, ◌+◌, ◌-◌, ◌*◌, ◌/◌, ◌%◌, ◌^◌}
use mathlib.Core.Bool.{Bool, true, false, ◌&&◌, ◌||◌}
use mathlib.Core.Option.{Option, none, some}
use mathlib.Core.List.{List, [], ◌∷◌}
use kojin.Prelude.Tests.{ltb, leb, nat_beq, if◌then◌else◌, ◌==◌, string_key}

-- parts.join(sep)
unfoldable pub join : String → List String → String
join sep [] = ""
join sep (x ∷ []) = x
join sep (x ∷ y ∷ rest) = x ++ sep ++ join sep (y ∷ rest)

-- text.chars().take(n)
unfoldable pub take_chars : ℕ → String → String
take_chars zero s = ""
take_chars (suc n) String.[] = ""
take_chars (suc n) (String.◌∷◌ c s) = String.◌∷◌ c (take_chars n s)

unfoldable pub is_empty : String → Bool
is_empty String.[] = true
is_empty (String.◌∷◌ c s) = false

prepend : Char → Option String → Option String
prepend c none = none
prepend c (some s) = some (String.◌∷◌ c s)

-- text.strip_suffix(suffix)
unfoldable pub strip_suffix : String → String → Option String
unfolding prepend
strip_suffix suffix String.[] = if suffix == "" then some "" else none
strip_suffix suffix (String.◌∷◌ c s) =
    let rest = prepend c (strip_suffix suffix s) in
    if suffix == String.◌∷◌ c s then some "" else rest

-- text.ends_with(suffix)
unfoldable pub ends_with : String → String → Bool
unfolding strip_suffix
ends_with suffix s = elim (strip_suffix suffix s) [ none ↦ false | some p ↦ true ]

-- text.strip_prefix(prefix)
unfoldable pub strip_prefix : String → String → Option String
strip_prefix String.[] s = some s
strip_prefix (String.◌∷◌ c p) String.[] = none
strip_prefix (String.◌∷◌ c p) (String.◌∷◌ d s) =
    let rest = strip_prefix p s in if nat_beq (code c) (code d) then rest else none

-- text.contains(part)
unfoldable pub contains : String → String → Bool
unfolding strip_prefix
contains part String.[] = is_empty part
contains part (String.◌∷◌ c s) =
    let later = contains part s in
    elim (strip_prefix part (String.◌∷◌ c s)) [ none ↦ later | some rest ↦ true ]

-- text.contains(c)
unfoldable pub contains_char : ℕ → String → Bool
contains_char c String.[] = false
contains_char c (String.◌∷◌ d s) = nat_beq (code d) c || contains_char c s

-- text.rsplit(sep).next(), for a separator of one character
unfoldable pub last_segment : ℕ → String → String
unfolding contains_char
last_segment sep String.[] = ""
last_segment sep (String.◌∷◌ c s) =
    let later = last_segment sep s in
    if contains_char sep s then later else if nat_beq (code c) sep then s else String.◌∷◌ c s

-- char::is_whitespace, on code points
is_whitespace : ℕ → Bool
is_whitespace c =
    (leb 9 c && leb c 13)
    || nat_beq c 0x20
    || nat_beq c 0x85
    || nat_beq c 0xa0
    || nat_beq c 0x1680
    || (leb 0x2000 c && leb c 0x200a)
    || nat_beq c 0x2028
    || nat_beq c 0x2029
    || nat_beq c 0x202f
    || nat_beq c 0x205f
    || nat_beq c 0x3000

trim_start : String → String
unfolding is_whitespace
trim_start String.[] = ""
trim_start (String.◌∷◌ c s) =
    let rest = trim_start s in if is_whitespace (code c) then rest else String.◌∷◌ c s

trim_end : String → String
unfolding is_whitespace is_empty
trim_end String.[] = ""
trim_end (String.◌∷◌ c s) =
    let rest = trim_end s in
    if is_whitespace (code c) && is_empty rest then "" else String.◌∷◌ c rest

-- text.trim()
unfoldable pub trim : String → String
unfolding trim_start trim_end
trim s = trim_start (trim_end s)

digit_from : List String → ℕ → String
digit_from [] n = ""
digit_from (d ∷ ds) zero = d
digit_from (d ∷ ds) (suc n) = digit_from ds n

digit : ℕ → String
unfolding digit_from
digit = digit_from ("0" ∷ "1" ∷ "2" ∷ "3" ∷ "4" ∷ "5" ∷ "6" ∷ "7" ∷ "8" ∷ "9" ∷ [])

-- A number with `places` digits at most; a `u64` has twenty.
decimal : ℕ → ℕ → String
unfolding digit
decimal zero n = ""
decimal (suc places) n =
    let high = decimal places (n / 10) in if ltb n 10 then digit n else high ++ digit (n % 10)

-- n.to_string()
unfoldable pub to_decimal : ℕ → String
unfolding decimal
to_decimal n = decimal 20 n

digits_from : ℕ → String → Option ℕ
digits_from acc String.[] = some acc
digits_from acc (String.◌∷◌ c s) =
    let acc' = acc * 10 + (code c - b'0') in
    let rest = digits_from acc' s in
    if leb b'0' (code c) && leb (code c) b'9' && ltb acc' (2 ^ 64) then rest else none

some_digits : String → Option ℕ
unfolding digits_from
some_digits String.[] = none
some_digits (String.◌∷◌ c s) = digits_from 0 (String.◌∷◌ c s)

-- text.parse::<usize>().ok(): decimal digits, with or without a plus sign, that fit.
unfoldable pub parse_usize : String → Option ℕ
unfolding some_digits
parse_usize String.[] = none
parse_usize (String.◌∷◌ c s) =
    if nat_beq (code c) b'+' then some_digits s else some_digits (String.◌∷◌ c s)

-- `skip` characters of a match that was found are still to be left out.
remove_from : String → ℕ → String → String
unfolding strip_prefix
remove_from part skip String.[] = ""
remove_from part (suc skip) (String.◌∷◌ c s) = remove_from part skip s
remove_from part zero (String.◌∷◌ c s) =
    let rest = remove_from part (count part - 1) s in
    let kept = String.◌∷◌ c (remove_from part zero s) in
    elim (strip_prefix part (String.◌∷◌ c s)) [ none ↦ kept | some t ↦ rest ]

-- text.replace(part, ""), for a part that is not empty
unfoldable pub remove_all : String → String → String
unfolding remove_from
remove_all part s = remove_from part zero s
