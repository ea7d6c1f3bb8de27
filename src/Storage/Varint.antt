-- ===== src/Storage/Varint.antt =====
-- crates/adabt-storage/src/varint.rs: LEB128 integers. A byte is a number below 256, a buffer a list.
pub mod Groups
pub mod Length
pub mod Bounds
pub mod RoundTrip
mod Tests
use a_da_bt.Prelude.{
  ℕ, zero, suc, ◌+◌, ◌*◌, ◌/◌, ◌%◌, ◌^◌, Bool, ◌&&◌, ◌||◌, List, [], ◌∷◌, leb, ltb, ◌==◌,
  if◌then◌else◌,
}

-- The loop of `write_u64`. Each turn takes 7 bits, so 10 turns are enough for 64.
unfoldable pub write_loop : ℕ → ℕ → List ℕ
write_loop zero v = []
write_loop (suc fuel) v =
    let byte = v % 128 in
    let rest = write_loop fuel (v / 128) in if v / 128 == 0 then byte ∷ [] else (byte + 128) ∷ rest

-- What is appended to `out`.
unfoldable pub write_u64 : ℕ → List ℕ
unfolding write_loop
write_u64 v = write_loop 10 v

pub data Decoded : Type 0 where
  value : ℕ → ℕ → Decoded
  too_long overflows truncated : Decoded

-- The loop of `read_u64`, at position i. `result |= payload << shift` is a sum, since `result` has
-- no bit at `shift` or above; `<<` drops what passes 64 bits.
unfoldable pub read_loop : List ℕ → ℕ → ℕ → ℕ → Decoded
read_loop [] i shift result = truncated
read_loop (byte ∷ bytes) i shift result =
    let payload = byte % 128 in
    let joined = result + payload * 2 ^ shift % 2 ^ 64 in
    let rest = read_loop bytes (suc i) (shift + 7) joined in
    if leb 10 i
    then too_long
    else if leb 64 shift || (shift == 63 && ltb 1 payload)
    then overflows
    else if ltb byte 128
    then value joined (suc i)
    else rest

unfoldable pub read_u64 : List ℕ → Decoded
unfolding read_loop
read_u64 bytes = read_loop bytes 0 0 0

-- The loop of `encoded_len`: after the first shift, at most 9 more leave something.
unfoldable pub len_loop : ℕ → ℕ → ℕ
len_loop zero v = 0
len_loop (suc fuel) v = let rest = len_loop fuel (v / 128) in if v == 0 then 0 else suc rest

unfoldable pub encoded_len : ℕ → ℕ
unfolding len_loop
encoded_len v = suc (len_loop 9 (v / 128))
