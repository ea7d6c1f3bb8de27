-- ===== src/Storage/Tlv/Fits.antt =====
-- crates/adabt-storage/src/codec.rs: what the types of a value hold, how deep it is nested, and how
-- long its tag-length-value form is at least.
use Prim.Native.String.{compare as compare_str}
use a_da_bt.Prelude.{
  ℕ, suc, ◌+◌, ◌^◌, max, ◌≤◌, ◌<◌, ◌≡◌, String, true, false, List, Ordering, length, length-append,
  arith,
}
use a_da_bt.Core.Value.{
  Value, null, bool, i64, u64, f64, decimal, timestamp, str, bytes, list, map, Items, nil, cons,
  Fields, end, field,
}
use a_da_bt.Storage.Varint.{write_u64}
use a_da_bt.Storage.Utf8.{utf8}
use a_da_bt.Storage.Reader.{put_bytes, put_str}
use a_da_bt.Storage.Tlv.{count_items, count_fields, write_value, write_items, write_fields}
use a_da_bt.Storage.Tlv.Scalars.{IntFits}

-- Every name of the entries is below `k`.
abbrev pub KeysBelow : Fields → String → Type 0
KeysBelow end k = Unit {0}
KeysBelow (field j v fs) k = (compare_str j k ≡ Ordering.lt) × KeysBelow fs k

-- Every name of the second entries is above each of the first.
abbrev pub Between : Fields → Fields → Type 0
Between acc end = Unit {0}
Between acc (field k v fs) = KeysBelow acc k × Between acc fs

-- In key order, as a `BTreeMap` holds its entries.
abbrev pub Ascending : Fields → Type 0
Ascending end = Unit {0}
Ascending (field k v fs) = Between (field k v end) fs × Ascending fs

-- What the types of the code hold.
abbrev mutual
  pub ValueFits : Value → Type 0
  ValueFits null = Unit {0}
  ValueFits (bool b) = Unit {0}
  ValueFits (i64 z) = IntFits (2 ^ 63) z
  ValueFits (u64 n) = n < 2 ^ 64
  ValueFits (f64 n) = n < 2 ^ 64
  ValueFits (decimal z scale) = IntFits (2 ^ 127) z
  ValueFits (timestamp z) = IntFits (2 ^ 63) z
  ValueFits (str s) = length (utf8 s) < 2 ^ 64
  ValueFits (bytes b) = length b < 2 ^ 64
  ValueFits (list vs) = (count_items vs < 2 ^ 64) × ItemsFit vs
  ValueFits (map fs) = (count_fields fs < 2 ^ 64) × Ascending fs × FieldsFit fs

  pub ItemsFit : Items → Type 0
  ItemsFit nil = Unit {0}
  ItemsFit (cons v vs) = ValueFits v × ItemsFit vs

  pub FieldsFit : Fields → Type 0
  FieldsFit end = Unit {0}
  FieldsFit (field k v fs) = (length (utf8 k) < 2 ^ 64) × ValueFits v × FieldsFit fs

-- The levels of a value: 1 for a scalar, and one more for each container around.
unfoldable mutual
  pub depth : Value → ℕ
  depth (list vs) = suc (depth_items vs)
  depth (map fs) = suc (depth_fields fs)
  depth _ = 1

  pub depth_items : Items → ℕ
  depth_items nil = 0
  depth_items (cons v vs) = max (depth v) (depth_items vs)

  pub depth_fields : Fields → ℕ
  depth_fields end = 0
  depth_fields (field k v fs) = max (depth v) (depth_fields fs)

mutual
  unfolding write_value put_str put_bytes

  pub length-write_value :
      (v : Value) (tail : List ℕ) → length tail + 1 ≤ length (write_value v tail)
  length-write_value null tail = omega arith
  length-write_value (bool true) tail = omega arith
  length-write_value (bool false) tail = omega arith
  length-write_value (i64 z) tail = omega (arith, length-append {0})
  length-write_value (u64 n) tail = omega (arith, length-append {0})
  length-write_value (f64 n) tail = omega (arith, length-append {0})
  length-write_value (decimal z scale) tail = omega (arith, length-append {0})
  length-write_value (timestamp z) tail = omega (arith, length-append {0})
  length-write_value (str s) tail = omega (arith, length-append {0})
  length-write_value (bytes b) tail = omega (arith, length-append {0})
  length-write_value (list vs) tail = omega (
    arith,
    length-append (write_u64 (count_items vs)) (write_items vs tail),
    length-write_items vs tail,
  )
  length-write_value (map fs) tail = omega (
    arith,
    length-append (write_u64 (count_fields fs)) (write_fields fs tail),
    length-write_fields fs tail,
  )

  pub length-write_items :
      (vs : Items) (tail : List ℕ) → length tail + count_items vs ≤ length (write_items vs tail)
  length-write_items nil tail = omega arith
  length-write_items (cons v vs) tail =
      omega (arith, length-write_value v (write_items vs tail), length-write_items vs tail)

  pub length-write_fields :
      (fs : Fields) (tail : List ℕ) → length tail + count_fields fs ≤ length (write_fields fs tail)
  length-write_fields end tail = omega arith
  length-write_fields (field k v fs) tail = omega (
    arith,
    length-append (put_str k) (write_value v (write_fields fs tail)),
    length-write_value v (write_fields fs tail),
    length-write_fields fs tail,
  )
