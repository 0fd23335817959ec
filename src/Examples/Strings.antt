-- ===== src/Examples/Strings.antt =====
-- The functions on texts at known values.
use kojin.Prelude.{◌≡◌, refl, none, some, true, [], ◌∷◌}
use kojin.Prelude.Text.{
  join, take_chars, strip_suffix, contains, last_segment, trim, to_decimal, parse_usize, is_empty,
  strip_prefix,
}

join_test : join "," ("a" ∷ "b" ∷ "c" ∷ []) ≡ "a,b,c"
unfolding join
join_test = refl

take_chars_test : take_chars 2 "abc" ≡ "ab"
unfolding take_chars
take_chars_test = refl

strip_suffix_test : strip_suffix ".fifo" "jobs.fifo" ≡ some "jobs"
unfolding strip_suffix
strip_suffix_test = refl

contains_test : contains "bc" "abcd" ≡ true
unfolding contains strip_prefix is_empty
contains_test = refl

last_segment_test : last_segment b'/' "https://host/1/jobs" ≡ "jobs"
unfolding last_segment
last_segment_test = refl

trim_test : trim "  a b\n" ≡ "a b"
unfolding trim
trim_test = refl

to_decimal_test : to_decimal 1205 ≡ "1205"
unfolding to_decimal
to_decimal_test = refl

parse_usize_test : parse_usize "+042" ≡ some 42
unfolding parse_usize
parse_usize_test = refl

parse_usize_refused : parse_usize "18446744073709551616" ≡ none
unfolding parse_usize
parse_usize_refused = refl
