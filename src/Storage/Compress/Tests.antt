-- ===== src/Storage/Compress/Tests.antt =====
-- The theorem on crates/adabt-storage/src/compress.rs, at a record of 64 equal bytes, with a
-- stand-in for the library that knows runs only.
use a_da_bt.Prelude.{ℕ, zero, suc, ◌≡◌, refl, arith, List, [], ◌∷◌, Option, some, none, length}
use a_da_bt.Core.Float.{FloatOps}
use a_da_bt.Storage.Compress.{Lz4, lz4, maybe_compress}
use a_da_bt.Storage.Compress.RoundTrip.{Kept, maybe_compress-Kept}

-- 2 / 64 and 1 - 2 / 64, what the test divides and subtracts.
instance abbrev saving : FloatOps
saving = record {
  powi10 = λ n. 0;
  add = λ a b. 0;
  sub = λ a b. 0x3fef_0000_0000_0000;
  mul = λ a b. 0;
  div = λ a b. 0x3fa0_0000_0000_0000;
}

abbrev repeated : ℕ → ℕ → List ℕ
repeated zero x = []
repeated (suc n) x = x ∷ repeated n x

abbrev pack : List ℕ → List ℕ
pack [] = []
pack (x ∷ xs) = suc (length xs) ∷ x ∷ []

abbrev unpack : List ℕ → Option (List ℕ)
unpack [] = some []
unpack (n ∷ []) = none
unpack (n ∷ x ∷ rest) = some (repeated n x)

abbrev runs : Lz4
runs = record { compress_prepend_size = pack; decompress_size_prepended = unpack }

abbrev input : List ℕ
input = repeated 64 7

packed : maybe_compress runs input ≡ (lz4, 64 ∷ 7 ∷ [])
unfolding maybe_compress
packed = refl

maybe_compress-Kept_example : Kept runs input (maybe_compress runs input)
maybe_compress-Kept_example = maybe_compress-Kept runs input refl (λ h. absurd (omega (arith, h)))
