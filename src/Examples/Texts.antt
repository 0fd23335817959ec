-- ===== src/Examples/Texts.antt =====
-- The content hash and the names of keys at known values.
use kojin.Prelude.{String, ◌≡◌, refl}
use kojin.Redis.Keys.Apart.{of_total, key_of_inj}
use kojin.Redis.Keys.{group_total}
use kojin.Message.Hash.{fnv1a_64, fnv_step, as_bytes, to_hex}

fnv1a_64_a : fnv1a_64 (as_bytes "a") ≡ 0xaf63dc4c8601ec8c
unfolding fnv1a_64 as_bytes fnv_step
fnv1a_64_a = refl

to_hex_test : to_hex 0xaf63dc4c8601ec8c ≡ "af63dc4c8601ec8c"
unfolding to_hex
to_hex_test = refl

to_hex_zero : to_hex 0 ≡ "0"
unfolding to_hex
to_hex_zero = refl

abbrev default_name : String
default_name = "default"

key_of_inj_example : (of_total ≡ of_total) × (default_name ≡ default_name)
key_of_inj_example =
    key_of_inj (record { prefix = "kojin" }) of_total of_total default_name default_name refl

group_total_test : group_total (record { prefix = "kojin" }) "g1" ≡ "kojin:group:g1:total"
unfolding group_total
group_total_test = refl
