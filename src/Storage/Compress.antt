-- ===== src/Storage/Compress.antt =====
-- crates/adabt-storage/src/compress.rs: records are compressed where it is worth it.
pub mod RoundTrip
mod Tests
use a_da_bt.Prelude.{
  ℕ, zero, suc, ◌-◌, ◌≡◌, Bool, List, Option, some, none, length, ltb, leb, if◌then◌else◌,
}
use a_da_bt.Prelude.Int.{pos}
use a_da_bt.Core.Float.{FloatOps, canon_f64, of_int}

-- The functions of the crate `lz4_flex` that the code calls.
pub record Lz4 : Type 0 where
  pub compress_prepend_size : List ℕ → List ℕ
  pub decompress_size_prepended : List ℕ → Option (List ℕ)

abbrev pub min_input : ℕ
min_input = 64

-- 1.0 and 0.12
abbrev pub one_bits : ℕ
one_bits = 0x3ff0_0000_0000_0000

abbrev pub min_saving_bits : ℕ
min_saving_bits = 0x3fbe_b851_eb85_1eb8

pub data Encoding : Type 0 where
  raw lz4 : Encoding

unfoldable pub bit : Encoding → ℕ
bit raw = 0
bit lz4 = 1

unfoldable pub from_bit : ℕ → Option Encoding
from_bit zero = some raw
from_bit (suc zero) = some lz4
from_bit (suc (suc b)) = none

module _ ⦃fl : FloatOps⦄ (z : Lz4) where
  -- `1.0 - compressed / input`, and `>=`.
  unfoldable pub worth_it : ℕ → ℕ → Bool
  unfolding canon_f64 of_int
  worth_it compressed input =
      leb (canon_f64 min_saving_bits)
        (canon_f64 (fl.sub one_bits (fl.div (of_int (pos compressed)) (of_int (pos input)))))

  unfoldable pub maybe_compress : List ℕ → Encoding × List ℕ
  unfolding worth_it
  maybe_compress input =
      let compressed = z.compress_prepend_size input in
      if ltb (length input) min_input
      then (raw, input)
      else if worth_it (length compressed) (length input)
      then (lz4, compressed)
      else (raw, input)

  -- `none` is the error of corrupt data.
  unfoldable pub decompress : Encoding → List ℕ → Option (List ℕ)
  decompress raw input = some input
  decompress lz4 input = z.decompress_size_prepended input
