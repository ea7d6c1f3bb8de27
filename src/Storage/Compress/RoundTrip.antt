-- ===== src/Storage/Compress/RoundTrip.antt =====
-- crates/adabt-storage/src/compress.rs: what is stored for a record, and that it is restored.
use a_da_bt.Prelude.{
  ℕ, ◌≤◌, ◌<◌, ◌≡◌, refl, true, false, List, some, length, ltb, leb, arith, leb→le, Bool-cases, inl,
  inr,
}
use a_da_bt.Prelude.Int.{pos}
use a_da_bt.Core.Float.{FloatOps, canon_f64, of_int}
use a_da_bt.Storage.Compress.{
  Lz4, min_input, one_bits, min_saving_bits, Encoding, raw, lz4, bit, from_bit, worth_it,
  maybe_compress, decompress,
}

bit_back : (e : Encoding) → from_bit (bit e) ≡ some e
unfolding from_bit bit
bit_back raw = refl
bit_back lz4 = refl

not_above :
    (out inp s zero_bits least : ℕ)
    → (inp ≤ out → s ≤ zero_bits)
    → zero_bits < least
    → leb least s ≡ true
    → out ≤ inp
not_above out inp s zero_bits least none gap h = elim (Bool-cases (leb out inp)) [
  | inl e ↦ leb→le out inp e
  | inr e ↦
      let low : s ≤ zero_bits = none (ground (arith, e)) in
      let high : least ≤ s = leb→le least s h in absurd (omega (arith, low, high, gap))
]

not_short : (n : ℕ) → ltb n min_input ≡ false → 64 ≤ n
not_short n h = ground arith

module _ ⦃fl : FloatOps⦄ (z : Lz4) (input : List ℕ) where
  -- The share that compression saves of the record, in floats.
  abbrev pub saved : ℕ
  saved =
      fl.sub one_bits (
        fl.div (of_int (pos (length (z.compress_prepend_size input))))
          (of_int (pos (length input))))

  -- What is asked of an encoding and the bytes stored.
  pub record Kept (r : Encoding × List ℕ) : Type 0 where
    pub encoding_back : from_bit (bit r.0) ≡ some r.0
    pub restored : decompress z r.0 r.1 ≡ some input
    pub not_longer : length r.1 ≤ length input
    pub short_raw : length input < 64 → r ≡ (raw, input)

  raw-Kept : Kept (raw, input)
  unfolding decompress
  raw-Kept = record {
    encoding_back = bit_back raw;
    restored = refl;
    not_longer = omega arith;
    short_raw = λ h. refl;
  }

  -- A saving that is not above 0 is not worth it.
  worth_it-shorter :
      (length input ≤ length (z.compress_prepend_size input) → canon_f64 saved ≤ canon_f64 0)
      → worth_it z (length (z.compress_prepend_size input)) (length input) ≡ true
      → length (z.compress_prepend_size input) ≤ length input
  unfolding worth_it canon_f64
  worth_it-shorter none h =
      not_above (length (z.compress_prepend_size input)) (length input) (canon_f64 saved)
        (canon_f64 0) (canon_f64 min_saving_bits) none (omega arith) h

  -- Where the LZ4 library restores what it compressed from this record, and the floats' `1 - c / i`
  -- is not above 0 for an output that is not shorter, what is stored for the record, with its
  -- encoding read back from the encoding's bit, restores the record and is never longer than it; a
  -- record below 64 bytes is stored as it is.
  pub maybe_compress-Kept :
      z.decompress_size_prepended (z.compress_prepend_size input) ≡ some input
      → (length input ≤ length (z.compress_prepend_size input) → canon_f64 saved ≤ canon_f64 0)
      → Kept (maybe_compress z input)
  unfolding maybe_compress decompress
  maybe_compress-Kept back none = elim (Bool-cases (ltb (length input) min_input)) [
    | inl s ↦ rw (maybe_compress, s) raw-Kept
    | inr l ↦
        elim (Bool-cases (worth_it z (length (z.compress_prepend_size input)) (length input))) [
          | inl w ↦
              rw (maybe_compress, l, w)
                (record {
                  encoding_back = bit_back lz4;
                  restored = back;
                  not_longer = worth_it-shorter none w;
                  short_raw = λ h. absurd (omega (arith, h, not_short (length input) l));
                })
          | inr w ↦ rw (maybe_compress, l, w) raw-Kept
        ]
  ]
