-- ===== src/Storage/Tlv/Deep.antt =====
-- crates/adabt-storage/src/codec.rs: values nested too deep are written and cannot be read back.
use a_da_bt.Prelude.{
  ℕ, zero, suc, ◌<◌, ◌≡◌, refl, ap, String, false, List, Option, some, none, arith, Bool-cases, inl,
  inr, leb, leb→le,
}
use a_da_bt.Core.Value.{
  Value, null, bool, i64, u64, f64, decimal, timestamp, str, bytes, list, map, Items, nil, cons,
  Fields, end, field,
}
use a_da_bt.Core.Order.{◌>>=◌}
use a_da_bt.Storage.Reader.{read_byte, read_string}
use a_da_bt.Storage.Reader.Laws.{bind_is, read_string-put_str}
use a_da_bt.Storage.Tlv.{
  count_items, count_fields, write_value, write_items, write_fields, insert_field, read_items,
  read_fields, read_tagged, read_value, max_depth, decode_value,
}
use a_da_bt.Storage.Tlv.Fits.{
  ValueFits, ItemsFit, FieldsFit, depth, depth_items, depth_fields, length-write_items,
  length-write_fields,
}
use a_da_bt.Storage.Tlv.RoundTrip.{
  read_fields_step, read_items_step, read_list_step, read_map_step, read_value-write_value,
}

read_items_stuck :
    (read : List ℕ → Option (Value × List ℕ)) (n : ℕ) (xs : List ℕ)
    → read xs ≡ none
    → read_items read (suc n) xs ≡ none
unfolding read_items
read_items_stuck read n xs h = rw h refl

read_fields_stuck :
    (read : List ℕ → Option (Value × List ℕ)) (n : ℕ) (m : Fields) (k : String) (xs a : List ℕ)
    → read_string xs ≡ some (k, a)
    → read a ≡ none
    → read_fields read (suc n) xs m ≡ none
unfolding read_fields
read_fields_stuck read n m k xs a h1 h2 = bind_is (read_string xs) _ (k, a) _ h1 (rw h2 refl)

above : (a b : ℕ) → leb a b ≡ false → b < a
above a b h = ground arith

-- A value too deep for the levels left is not a scalar, unless no level is left.
mutual
  unfolding write_value read_value read_byte read_tagged depth count_items count_fields

  read_value_deep :
      (v : Value) (levels : ℕ) (tail : List ℕ)
      → ValueFits v
      → levels < depth v
      → read_value levels (write_value v tail) ≡ none
  read_value_deep v zero tail fits deep = refl
  read_value_deep (list vs) (suc levels) tail fits deep =
      read_list_step (read_value levels) (count_items vs) (write_items vs tail) none fits.0
        (omega (arith, length-write_items vs tail))
        (read_items_deep vs levels tail fits.1 (omega arith))
  read_value_deep (map fs) (suc levels) tail fits deep =
      read_map_step (read_value levels) (count_fields fs) (write_fields fs tail) none fits.0
        (omega (arith, length-write_fields fs tail))
        (read_fields_deep fs levels tail end fits.2 (omega arith))
  read_value_deep null (suc levels) tail fits deep = absurd (omega arith)
  read_value_deep (bool b) (suc levels) tail fits deep = absurd (omega arith)
  read_value_deep (i64 z) (suc levels) tail fits deep = absurd (omega arith)
  read_value_deep (u64 n) (suc levels) tail fits deep = absurd (omega arith)
  read_value_deep (f64 n) (suc levels) tail fits deep = absurd (omega arith)
  read_value_deep (decimal z scale) (suc levels) tail fits deep = absurd (omega arith)
  read_value_deep (timestamp z) (suc levels) tail fits deep = absurd (omega arith)
  read_value_deep (str s) (suc levels) tail fits deep = absurd (omega arith)
  read_value_deep (bytes b) (suc levels) tail fits deep = absurd (omega arith)

  read_items_deep :
      (vs : Items) (levels : ℕ) (tail : List ℕ)
      → ItemsFit vs
      → levels < depth_items vs
      → read_items (read_value levels) (count_items vs) (write_items vs tail) ≡ none
  read_items_deep nil levels tail fits deep = absurd (omega arith)
  read_items_deep (cons v vs) levels tail fits deep = elim (Bool-cases (leb (depth v) levels)) [
    | inl ok ↦
        read_items_step (read_value levels) (count_items vs) v (write_items (cons v vs) tail)
          (write_items vs tail) none
          (read_value-write_value v levels (write_items vs tail) fits.0
            (leb→le (depth v) levels ok))
          (ap (λ o. o >>= λ p. some (cons v p.0, p.1))
            (read_items_deep vs levels tail fits.1 (omega (arith, leb→le (depth v) levels ok))))
    | inr bad ↦
        read_items_stuck (read_value levels) (count_items vs) (write_items (cons v vs) tail)
          (read_value_deep v levels (write_items vs tail) fits.0 (above (depth v) levels bad))
  ]

  read_fields_deep :
      (fs : Fields) (levels : ℕ) (tail : List ℕ) (acc : Fields)
      → FieldsFit fs
      → levels < depth_fields fs
      → read_fields (read_value levels) (count_fields fs) (write_fields fs tail) acc ≡ none
  read_fields_deep end levels tail acc fits deep = absurd (omega arith)
  read_fields_deep (field k v fs) levels tail acc fits deep =
      elim (Bool-cases (leb (depth v) levels)) [
        | inl ok ↦
            read_fields_step (read_value levels) (count_fields fs) k v acc
              (write_fields (field k v fs) tail) (write_value v (write_fields fs tail))
              (write_fields fs tail) none
              (read_string-put_str k (write_value v (write_fields fs tail)) fits.0)
              (read_value-write_value v levels (write_fields fs tail) fits.1
                (leb→le (depth v) levels ok))
              (read_fields_deep fs levels tail (insert_field k v acc) fits.2
                (omega (arith, leb→le (depth v) levels ok)))
        | inr bad ↦
            read_fields_stuck (read_value levels) (count_fields fs) acc k
              (write_fields (field k v fs) tail) (write_value v (write_fields fs tail))
              (read_string-put_str k (write_value v (write_fields fs tail)) fits.0)
              (read_value_deep v levels (write_fields fs tail) fits.1 (above (depth v) levels bad))
      ]

-- A value nested in more than 64 containers is encoded like any other, and no decoding of its
-- encoding gives a value.
pub deep-decode_value :
    (v : Value) (rest : List ℕ)
    → ValueFits v
    → suc max_depth < depth v
    → decode_value (write_value v rest) ≡ none
unfolding decode_value
deep-decode_value v rest fits deep = read_value_deep v (suc max_depth) rest fits deep
