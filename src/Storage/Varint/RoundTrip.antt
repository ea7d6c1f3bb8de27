-- ===== src/Storage/Varint/RoundTrip.antt =====
-- crates/adabt-storage/src/varint.rs: what is written is read back, and has the length foretold.
use a_da_bt.Prelude.{
  ℕ, zero, suc, ◌+◌, ◌*◌, ◌/◌, ◌%◌, ◌^◌, ◌≤◌, ◌<◌, ◌≡◌, refl, sym, ap, ◌∙◌, true, false, List, ◌++◌,
  ltb, ◌==◌, lt→ltb, subst, arith, length, Bool-cases, inl, inr,
}
use a_da_bt.Storage.Varint.{
  write_loop, write_u64, value, read_loop, read_u64, len_loop, encoded_len,
}
use a_da_bt.Storage.Varint.Groups.{power_next, groups, read_turn}
use a_da_bt.Storage.Varint.Length.{write_last, write_more, len-write_loop, len_loop_bound}

-- Reading what the writer wrote from position i on.
ReadsBack : ℕ → ℕ → ℕ → List ℕ → ℕ → Type 0
ReadsBack fuel i v rest result =
    read_loop (write_loop fuel v ++ rest) i (7 * i) result
    ≡ value (result + v * 2 ^ (7 * i)) (i + length (write_loop fuel v))

reads_last :
    (fuel i v : ℕ) (rest : List ℕ) (result : ℕ)
    → i ≤ 9
    → v * 2 ^ (7 * i) < 2 ^ 64
    → (v / 128 == 0) ≡ true
    → ReadsBack (suc fuel) i v rest result
unfolding ReadsBack
reads_last fuel i v rest result hi fits h =
    let same : v % 128 ≡ v = ground arith in
    let small : v < 128 = ground arith in
    rw (write_last fuel v h, same)
      (read_turn v i rest result hi (rw same fits)
        ∙ rw (same, lt→ltb v 128 small) (ap (value (result + v * 2 ^ (7 * i))) (omega arith)))

value_ext : {a b m n : ℕ} → a ≡ b → m ≡ n → value a m ≡ value b n
value_ext h k = rw (h, k)

Reads-more :
    (fuel i v : ℕ) (rest : List ℕ) (result : ℕ)
    → i ≤ 9
    → v * 2 ^ (7 * i) < 2 ^ 64
    → (v / 128 == 0) ≡ false
    → ReadsBack fuel (suc i) (v / 128) rest (result + v % 128 * 2 ^ (7 * i))
    → ReadsBack (suc fuel) i v rest result
unfolding ReadsBack
Reads-more fuel i v rest result hi fits h ih =
    let low : (v % 128 + 128) % 128 ≡ v % 128 = omega arith in
    let more : ltb (v % 128 + 128) 128 ≡ false = ground arith in
    let next : 2 ^ (7 * suc i) ≡ 2 ^ (7 * i) * 128 = power_next i in
    let total : v % 128 * 2 ^ (7 * i) + v / 128 * 2 ^ (7 * suc i) ≡ v * 2 ^ (7 * i) =
      ap (λ (P : ℕ). v % 128 * 2 ^ (7 * i) + v / 128 * P) next ∙ groups v (2 ^ (7 * i)) in
    let group_fits : v % 128 * 2 ^ (7 * i) < 2 ^ 64 = omega arith in
    rw (write_more fuel v h) (
      read_turn (v % 128 + 128) i (write_loop fuel (v / 128) ++ rest) result hi (rw low group_fits)
      ∙ rw (low, more) (ih ∙ value_ext (omega arith) (omega arith)))

-- At position 9 only one bit is left, so no further group follows.
no_more : (v : ℕ) → v * 2 ^ (7 * 9) < 2 ^ 64 → (v / 128 == 0) ≡ true
no_more v h = let small : v < 2 = omega arith in ground arith

next_fits : (i v : ℕ) → v * 2 ^ (7 * i) < 2 ^ 64 → v / 128 * 2 ^ (7 * suc i) < 2 ^ 64
next_fits i v h = let total = groups v (2 ^ (7 * i)) in rw (power_next i) (omega arith)

reads_all :
    (fuel i v : ℕ) (rest : List ℕ) (result : ℕ)
    → fuel + i ≡ 9
    → v * 2 ^ (7 * i) < 2 ^ 64
    → ReadsBack (suc fuel) i v rest result
reads_all zero i v rest result h fits =
    let nine : i ≡ 9 = omega arith in
    reads_last zero i v rest result (omega arith) fits
      (no_more v (subst (λ (j : ℕ). v * 2 ^ (7 * j) < 2 ^ 64) nine fits))
reads_all (suc fuel) i v rest result h fits = elim (Bool-cases (v / 128 == 0)) [
  | inl e ↦ reads_last (suc fuel) i v rest result (omega arith) fits e
  | inr e ↦ Reads-more (suc fuel) i v rest result (omega arith) fits e (
      reads_all fuel (suc i) (v / 128) rest (result + v % 128 * 2 ^ (7 * i)) (omega arith)
        (next_fits i v fits))
]

written : (v : ℕ) → write_u64 v ≡ write_loop 10 v
unfolding write_u64
written v = refl

foretold : (v : ℕ) → encoded_len v ≡ suc (len_loop 9 (v / 128))
unfolding encoded_len
foretold v = refl

reads : (bytes : List ℕ) → read_u64 bytes ≡ read_loop bytes 0 (7 * 0) 0
unfolding read_u64
reads bytes = refl

read_whole :
    (v : ℕ) (rest : List ℕ)
    → v < 2 ^ 64
    → read_loop (write_loop 10 v ++ rest) 0 (7 * 0) 0 ≡ value v (length (write_loop 10 v))
unfolding ReadsBack
read_whole v rest h =
    reads_all 9 0 v rest 0 refl (omega arith) ∙ value_ext (omega arith) (omega arith)

-- Every 64-bit number is read back from what the writer appended, whatever follows it in the
-- buffer; the reader consumes just what was written, which is the length foretold, at most 10.
pub read_u64-write_u64 :
    (v : ℕ) (rest : List ℕ)
    → v < 2 ^ 64
    → (read_u64 (write_u64 v ++ rest) ≡ value v (encoded_len v))
      × (length (write_u64 v) ≡ encoded_len v)
      × (encoded_len v ≤ 10)
read_u64-write_u64 v rest h =
    let len : length (write_u64 v) ≡ encoded_len v =
      ap length (written v) ∙ len-write_loop 9 v ∙ sym (foretold v) in
    let read : read_u64 (write_u64 v ++ rest) ≡ value v (encoded_len v) =
      reads (write_u64 v ++ rest)
      ∙ ap (λ w. read_loop (w ++ rest) 0 (7 * 0) 0) (written v)
      ∙ read_whole v rest h
      ∙ ap (value v) (sym (ap length (written v)) ∙ len) in
    (read, len, rw (foretold v) (omega (arith, len_loop_bound 9 (v / 128))))
