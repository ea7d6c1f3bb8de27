-- ===== src/Storage/Tlv/Scalars.antt =====
-- crates/adabt-storage/src/codec.rs: numbers and texts of the tag-length-value form are read back.
use a_da_bt.Prelude.{
  ℕ, ◌^◌, ◌<◌, ◌≡◌, refl, ap, String, List, ◌∷◌, ◌++◌, Option, some, length, arith,
}
use a_da_bt.Prelude.Int.{ℤ, pos, negsuc}
use a_da_bt.Core.Value.{Value, i64, u64, f64, decimal, timestamp, str, bytes}
use a_da_bt.Storage.Varint.{write_u64}
use a_da_bt.Storage.LittleEndian.{le, read_le-le}
use a_da_bt.Storage.Utf8.{utf8}
use a_da_bt.Storage.Reader.{put_bytes, put_str, read_byte}
use a_da_bt.Storage.Reader.Laws.{read_varint-write_u64, read_blob-put_bytes, read_string-put_str}
use a_da_bt.Storage.Tlv.{zigzag, unzigzag, to_bits, of_bits, read_decimal, read_tagged}

-- The range of a signed integer with `m` as 2 ^ (width - 1).
abbrev pub IntFits : ℕ → ℤ → Type 0
IntFits m (pos n) = n < m
IntFits m (negsuc n) = n < m

pub unzigzag-zigzag : (z : ℤ) → unzigzag (zigzag z) ≡ z
unfolding unzigzag zigzag
unzigzag-zigzag (pos n) = ground arith
unzigzag-zigzag (negsuc n) = ground arith

zigzag_bound : (z : ℤ) → IntFits (2 ^ 63) z → zigzag z < 2 ^ 64
unfolding zigzag
zigzag_bound (pos n) h = omega arith
zigzag_bound (negsuc n) h = omega arith

pub of_bits-to_bits_64 : (z : ℤ) → IntFits (2 ^ 63) z → of_bits 64 (to_bits 64 z) ≡ z
unfolding of_bits to_bits
of_bits-to_bits_64 (pos n) h = ground arith
of_bits-to_bits_64 (negsuc n) h = ground arith

pub of_bits-to_bits_128 : (z : ℤ) → IntFits (2 ^ 127) z → of_bits 128 (to_bits 128 z) ≡ z
unfolding of_bits to_bits
of_bits-to_bits_128 (pos n) h = ground arith
of_bits-to_bits_128 (negsuc n) h = ground arith

bits_64 : (z : ℤ) → IntFits (2 ^ 63) z → to_bits 64 z < 256 ^ 8
unfolding to_bits
bits_64 (pos n) h = omega arith
bits_64 (negsuc n) h = omega arith

bits_128 : (z : ℤ) → IntFits (2 ^ 127) z → to_bits 128 z < 256 ^ 16
unfolding to_bits
bits_128 (pos n) h = omega arith
bits_128 (negsuc n) h = omega arith

module _ (read : List ℕ → Option (Value × List ℕ)) (tail : List ℕ) where
  pub tagged_i64 :
      (z : ℤ)
      → IntFits (2 ^ 63) z
      → read_tagged read 3 (write_u64 (zigzag z) ++ tail) ≡ some (i64 z, tail)
  unfolding read_tagged
  tagged_i64 z h =
      rw (read_varint-write_u64 (zigzag z) tail (zigzag_bound z h))
        (ap (λ n. some (i64 n, tail)) (unzigzag-zigzag z))

  pub tagged_u64 :
      (n : ℕ) → n < 2 ^ 64 → read_tagged read 4 (write_u64 n ++ tail) ≡ some (u64 n, tail)
  unfolding read_tagged
  tagged_u64 n h = rw (read_varint-write_u64 n tail h) refl

  pub tagged_f64 : (n : ℕ) → n < 2 ^ 64 → read_tagged read 5 (le 8 n ++ tail) ≡ some (f64 n, tail)
  unfolding read_tagged
  tagged_f64 n h = rw (read_le-le 8 n tail h) refl

  pub tagged_str :
      (s : String)
      → length (utf8 s) < 2 ^ 64
      → read_tagged read 6 (put_str s ++ tail) ≡ some (str s, tail)
  unfolding read_tagged
  tagged_str s h = rw (read_string-put_str s tail h) refl

  pub tagged_bytes :
      (b : List ℕ)
      → length b < 2 ^ 64
      → read_tagged read 7 (put_bytes b ++ tail) ≡ some (bytes b, tail)
  unfolding read_tagged
  tagged_bytes b h = rw (read_blob-put_bytes b tail h) refl

  pub tagged_timestamp :
      (z : ℤ)
      → IntFits (2 ^ 63) z
      → read_tagged read 11 (le 8 (to_bits 64 z) ++ tail) ≡ some (timestamp z, tail)
  unfolding read_tagged
  tagged_timestamp z h =
      rw (read_le-le 8 (to_bits 64 z) tail (bits_64 z h))
        (ap (λ n. some (timestamp n, tail)) (of_bits-to_bits_64 z h))

  pub tagged_decimal :
      (z : ℤ) (scale : ℕ)
      → IntFits (2 ^ 127) z
      → read_tagged read 10 (scale ∷ (le 16 (to_bits 128 z) ++ tail)) ≡ some (decimal z scale, tail)
  unfolding read_tagged read_decimal read_byte
  tagged_decimal z scale h =
      rw (read_le-le 16 (to_bits 128 z) tail (bits_128 z h))
        (ap (λ n. some (decimal n scale, tail)) (of_bits-to_bits_128 z h))
