-- ===== src/Storage/Tlv/Append.antt =====
-- crates/adabt-storage/src/codec.rs: what is written behind a value leaves its encoding alone.
use a_da_bt.Prelude.{ℕ, ◌≡◌, refl, ap, ◌∙◌, true, false, List, [], ◌∷◌, ◌++◌}
use mathlib.Core.List.{append_assoc}
use a_da_bt.Core.Value.{
  Value, null, bool, i64, u64, f64, decimal, timestamp, str, bytes, list, map, Items, nil, cons,
  Fields, end, field,
}
use a_da_bt.Storage.Varint.{write_u64}
use a_da_bt.Storage.LittleEndian.{le}
use a_da_bt.Storage.Reader.{put_bytes, put_str}
use a_da_bt.Storage.Tlv.{
  zigzag, to_bits, count_items, count_fields, write_value, write_items, write_fields, encode_value,
}

-- A piece behind its tag.
behind :
    (t : ℕ) (piece tail more : List ℕ)
    → (t ∷ (piece ++ tail)) ++ more ≡ t ∷ (piece ++ (tail ++ more))
behind t piece tail more = ap (λ l. t ∷ l) (append_assoc piece tail more)

mutual
  unfolding write_value

  write_value-append :
      (v : Value) (tail more : List ℕ) → write_value v tail ++ more ≡ write_value v (tail ++ more)
  write_value-append null tail more = refl
  write_value-append (bool true) tail more = refl
  write_value-append (bool false) tail more = refl
  write_value-append (i64 z) tail more = behind 3 (write_u64 (zigzag z)) tail more
  write_value-append (u64 n) tail more = behind 4 (write_u64 n) tail more
  write_value-append (f64 n) tail more = behind 5 (le 8 n) tail more
  write_value-append (decimal z scale) tail more =
      ap (λ l. 10 ∷ l) (behind scale (le 16 (to_bits 128 z)) tail more)
  write_value-append (timestamp z) tail more = behind 11 (le 8 (to_bits 64 z)) tail more
  write_value-append (str s) tail more = behind 6 (put_str s) tail more
  write_value-append (bytes b) tail more = behind 7 (put_bytes b) tail more
  write_value-append (list vs) tail more =
      behind 8 (write_u64 (count_items vs)) (write_items vs tail) more
      ∙ ap (λ l. 8 ∷ (write_u64 (count_items vs) ++ l)) (write_items-append vs tail more)
  write_value-append (map fs) tail more =
      behind 9 (write_u64 (count_fields fs)) (write_fields fs tail) more
      ∙ ap (λ l. 9 ∷ (write_u64 (count_fields fs) ++ l)) (write_fields-append fs tail more)

  write_items-append :
      (vs : Items) (tail more : List ℕ)
      → write_items vs tail ++ more ≡ write_items vs (tail ++ more)
  write_items-append nil tail more = refl
  write_items-append (cons v vs) tail more =
      write_value-append v (write_items vs tail) more
      ∙ ap (write_value v) (write_items-append vs tail more)

  write_fields-append :
      (fs : Fields) (tail more : List ℕ)
      → write_fields fs tail ++ more ≡ write_fields fs (tail ++ more)
  write_fields-append end tail more = refl
  write_fields-append (field k v fs) tail more =
      append_assoc (put_str k) (write_value v (write_fields fs tail)) more
      ∙ ap (λ l. put_str k ++ l)
          (write_value-append v (write_fields fs tail) more
            ∙ ap (write_value v) (write_fields-append fs tail more))

pub encode_value-append : (v : Value) (more : List ℕ) → encode_value v ++ more ≡ write_value v more
unfolding encode_value
encode_value-append v more = write_value-append v [] more
