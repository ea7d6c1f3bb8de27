-- ===== src/Storage/Varint/Tests.antt =====
-- The theorems on crates/adabt-storage/src/varint.rs, at concrete inputs.
use a_da_bt.Prelude.{ℕ, ◌^◌, ◌-◌, ◌≤◌, ◌<◌, ◌≡◌, refl, List, [], ◌∷◌, ◌++◌, length, arith}
use a_da_bt.Storage.Varint.{value, too_long, overflows, truncated, read_u64, write_u64, encoded_len}
use a_da_bt.Storage.Varint.RoundTrip.{read_u64-write_u64}
use a_da_bt.Storage.Varint.Bounds.{read_u64-Accepted}

write_300 : write_u64 300 ≡ 172 ∷ 2 ∷ []
unfolding write_u64
write_300 = refl

write_max : length (write_u64 (2 ^ 64 - 1)) ≡ 10
unfolding write_u64
write_max = refl

abbrev nine : List ℕ
nine = 255 ∷ 255 ∷ 255 ∷ 255 ∷ 255 ∷ 255 ∷ 255 ∷ 255 ∷ 255 ∷ []

read_too_big : read_u64 (nine ++ 2 ∷ []) ≡ overflows
unfolding read_u64
read_too_big = refl

read_too_long : read_u64 (nine ++ 129 ∷ 1 ∷ []) ≡ too_long
unfolding read_u64
read_too_long = refl

read_cut : read_u64 nine ≡ truncated
unfolding read_u64
read_cut = refl

read_u64-write_u64_example :
    (read_u64 (write_u64 (2 ^ 64 - 1) ++ 7 ∷ []) ≡ value (2 ^ 64 - 1) (encoded_len (2 ^ 64 - 1)))
    × (length (write_u64 (2 ^ 64 - 1)) ≡ encoded_len (2 ^ 64 - 1))
    × (encoded_len (2 ^ 64 - 1) ≤ 10)
read_u64-write_u64_example = read_u64-write_u64 (2 ^ 64 - 1) (7 ∷ []) (omega arith)

abbrev three : List ℕ
three = 172 ∷ 2 ∷ 9 ∷ []

accepted_three : (300 < 2 ^ 64) × (2 ≤ 10) × (2 ≤ length three)
unfolding read_u64
accepted_three = read_u64-Accepted three 300 2 refl
