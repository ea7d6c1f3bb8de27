-- ===== src/Storage/Tlv.antt =====
-- crates/adabt-storage/src/codec.rs: the tag-length-value form of a value.
pub mod Scalars
pub mod Fits
pub mod RoundTrip
pub mod Append
pub mod Deep
mod Tests
use Prim.Native.String.{compare as compare_str}
use a_da_bt.Prelude.{
  ℕ, zero, suc, ◌+◌, ◌-◌, ◌*◌, ◌/◌, ◌%◌, ◌^◌, String, Bool, true, false, List, [], ◌∷◌, ◌++◌,
  Option, some, none, Ordering, length, ltb, ◌==◌, if◌then◌else◌,
}
use a_da_bt.Prelude.Int.{ℤ, pos, negsuc}
use a_da_bt.Core.Value.{
  Value, null, bool, i64, u64, f64, decimal, timestamp, str, bytes, list, map, Items, nil, cons,
  Fields, end, field,
}
use a_da_bt.Core.Order.{◌>>=◌}
use a_da_bt.Storage.Varint.{write_u64}
use a_da_bt.Storage.LittleEndian.{le, take_front, read_le}
use a_da_bt.Storage.Utf8.{utf8}
use a_da_bt.Storage.Reader.{put_bytes, put_str, read_byte, read_varint, read_blob, read_string}

-- `((v << 1) ^ (v >> 63)) as u64`: the sign moves to the lowest bit, and the bits of a negative
-- number are complemented.
unfoldable pub zigzag : ℤ → ℕ
zigzag (pos n) = 2 * n
zigzag (negsuc n) = 2 * n + 1

unfoldable pub unzigzag : ℕ → ℤ
unzigzag v = if v % 2 == 0 then pos (v / 2) else negsuc (v / 2)

-- The bit pattern of an integer of a width, and back.
unfoldable pub to_bits : ℕ → ℤ → ℕ
to_bits w (pos n) = n
to_bits w (negsuc n) = 2 ^ w - 1 - n

unfoldable pub of_bits : ℕ → ℕ → ℤ
of_bits w v = if ltb v (2 ^ (w - 1)) then pos v else negsuc (2 ^ w - 1 - v)

abbrev pub max_depth : ℕ
max_depth = 64

unfoldable pub count_items : Items → ℕ
count_items nil = 0
count_items (cons v vs) = suc (count_items vs)

unfoldable pub count_fields : Fields → ℕ
count_fields end = 0
count_fields (field k v fs) = suc (count_fields fs)

-- What is appended for a value, in front of what is appended after it.
unfoldable mutual
  unfolding zigzag to_bits count_items count_fields

  pub write_value : Value → List ℕ → List ℕ
  write_value null tail = 0 ∷ tail
  write_value (decimal units scale) tail = 10 ∷ scale ∷ (le 16 (to_bits 128 units) ++ tail)
  write_value (timestamp t) tail = 11 ∷ (le 8 (to_bits 64 t) ++ tail)
  write_value (bool false) tail = 1 ∷ tail
  write_value (bool true) tail = 2 ∷ tail
  write_value (i64 n) tail = 3 ∷ (write_u64 (zigzag n) ++ tail)
  write_value (u64 n) tail = 4 ∷ (write_u64 n ++ tail)
  write_value (f64 bits) tail = 5 ∷ (le 8 bits ++ tail)
  write_value (str s) tail = 6 ∷ (put_str s ++ tail)
  write_value (bytes b) tail = 7 ∷ (put_bytes b ++ tail)
  write_value (list vs) tail = 8 ∷ (write_u64 (count_items vs) ++ write_items vs tail)
  write_value (map fs) tail = 9 ∷ (write_u64 (count_fields fs) ++ write_fields fs tail)

  pub write_items : Items → List ℕ → List ℕ
  write_items nil tail = tail
  write_items (cons v vs) tail = write_value v (write_items vs tail)

  pub write_fields : Fields → List ℕ → List ℕ
  write_fields end tail = tail
  write_fields (field k v fs) tail = put_str k ++ write_value v (write_fields fs tail)

unfoldable pub encode_value : Value → List ℕ
encode_value v = write_value v []

-- `BTreeMap::insert`
unfoldable pub insert_field : String → Value → Fields → Fields
insert_field k v end = field k v end
insert_field k v (field j w fs) = elim (compare_str j k) [
  | Ordering.lt ↦ field j w (insert_field k v fs)
  | Ordering.eq ↦ field j v fs
  | Ordering.gt ↦ field k v (field j w fs)
]

-- The loops of `read_tlv_value`, given how it reads a value one level down.
unfoldable pub read_items :
    (List ℕ → Option (Value × List ℕ)) → ℕ → List ℕ → Option (Items × List ℕ)
read_items read zero xs = some (nil, xs)
read_items read (suc n) xs = do
  (v, a) ← read xs
  (vs, rest) ← read_items read n a
  some (cons v vs, rest)

unfoldable pub read_fields :
    (List ℕ → Option (Value × List ℕ)) → ℕ → List ℕ → Fields → Option (Fields × List ℕ)
read_fields read zero xs m = some (m, xs)
read_fields read (suc n) xs m = do
  (k, a) ← read_string xs
  (v, b) ← read a
  read_fields read n b (insert_field k v m)

abbrev pub only_if {ℓ} : {A : Type ℓ} → Bool → Option A → Option A
only_if true o = o
only_if false o = none

-- The branches of the tag that read a list and a map. A count above the bytes left is refused.
unfoldable pub read_list : (List ℕ → Option (Value × List ℕ)) → List ℕ → Option (Value × List ℕ)
read_list read xs = do
  (n, a) ← read_varint xs
  (vs, rest) ← if ltb (length a) n then none else read_items read n a
  some (list vs, rest)

unfoldable pub read_map : (List ℕ → Option (Value × List ℕ)) → List ℕ → Option (Value × List ℕ)
read_map read xs = do
  (n, a) ← read_varint xs
  (fs, rest) ← if ltb (length a) n then none else read_fields read n a end
  some (map fs, rest)

unfoldable pub read_decimal : List ℕ → Option (Value × List ℕ)
read_decimal xs = do
  (scale, a) ← read_byte xs
  (units, rest) ← read_le 16 a
  some (decimal (of_bits 128 units) scale, rest)

unfoldable pub read_tagged :
    (List ℕ → Option (Value × List ℕ)) → ℕ → List ℕ → Option (Value × List ℕ)
read_tagged read tag xs =
    if tag == 0
    then some (null, xs)
    else if tag == 1
    then some (bool false, xs)
    else if tag == 2
    then some (bool true, xs)
    else if tag == 3
    then (do (n, rest) ← read_varint xs; some (i64 (unzigzag n), rest))
    else if tag == 4
    then (do (n, rest) ← read_varint xs; some (u64 n, rest))
    else if tag == 5
    then (do (bits, rest) ← read_le 8 xs; some (f64 bits, rest))
    else if tag == 6
    then (do (s, rest) ← read_string xs; some (str s, rest))
    else if tag == 7
    then (do (b, rest) ← read_blob xs; some (bytes b, rest))
    else if tag == 8
    then read_list read xs
    else if tag == 9
    then read_map read xs
    else if tag == 10
    then read_decimal xs
    else if tag == 11
    then (do (t, rest) ← read_le 8 xs; some (timestamp (of_bits 64 t), rest))
    else none

-- `read_tlv_value` with the levels left, `max_depth - depth + 1`.
unfoldable pub read_value : ℕ → List ℕ → Option (Value × List ℕ)
read_value zero xs = none
read_value (suc levels) xs = do (tag, a) ← read_byte xs; read_tagged (read_value levels) tag a

-- The value, and the bytes behind it.
unfoldable pub decode_value : List ℕ → Option (Value × List ℕ)
decode_value buf = read_value (suc max_depth) buf
