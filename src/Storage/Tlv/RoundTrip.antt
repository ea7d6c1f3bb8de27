-- ===== src/Storage/Tlv/RoundTrip.antt =====
-- crates/adabt-storage/src/codec.rs: a value is read back from its tag-length-value form.
use Prim.Native.String.{compare as compare_str}
use a_da_bt.Prelude.{
  ℕ, zero, suc, ◌^◌, ◌≤◌, ◌<◌, ◌≡◌, refl, sym, ap, ◌∙◌, String, true, false, List, ◌++◌, Option,
  some, Ordering, length, ltb, arith,
}
use a_da_bt.Core.Value.{
  Value, null, bool, i64, u64, f64, decimal, timestamp, str, bytes, list, map, Items, nil, cons,
  Fields, end, field,
}
use a_da_bt.Core.Order.{◌>>=◌}
use a_da_bt.Storage.Varint.{write_u64}
use a_da_bt.Storage.Reader.{read_byte, read_string}
use a_da_bt.Storage.Reader.Laws.{bind_is, read_varint-write_u64, read_string-put_str}
use a_da_bt.Storage.Tlv.{
  count_items, count_fields, write_value, write_items, write_fields, insert_field, read_items,
  read_fields, read_list, read_map, read_tagged, read_value, max_depth, decode_value,
}
use a_da_bt.Storage.Tlv.Fits.{
  KeysBelow, Between, Ascending, ValueFits, ItemsFit, FieldsFit, depth, depth_items, depth_fields,
  length-write_items, length-write_fields,
}
use a_da_bt.Storage.Tlv.Scalars.{
  tagged_i64, tagged_u64, tagged_f64, tagged_str, tagged_bytes, tagged_timestamp, tagged_decimal,
}

-- One list of entries behind another.
join : Fields → Fields → Fields
join end fs = fs
join (field k v acc) fs = field k v (join acc fs)

join_assoc : (acc mid fs : Fields) → join (join acc mid) fs ≡ join acc (join mid fs)
unfolding join
join_assoc end mid fs = refl
join_assoc (field k v acc) mid fs = ap (field k v) (join_assoc acc mid fs)

join_end : (acc : Fields) → join acc end ≡ acc
unfolding join
join_end end = refl
join_end (field k v acc) = ap (field k v) (join_end acc)

insert_field_last :
    (k : String) (v : Value) (acc : Fields)
    → KeysBelow acc k
    → insert_field k v acc ≡ join acc (field k v end)
unfolding insert_field join
insert_field_last k v end below = refl
insert_field_last k v (field j w acc) below =
    rw (insert_field, below.0) (ap (field j w) (insert_field_last k v acc below.1))

KeysBelow-join :
    (acc : Fields) (k j : String) (v : Value)
    → KeysBelow acc j
    → compare_str k j ≡ Ordering.lt
    → KeysBelow (join acc (field k v end)) j
unfolding join
KeysBelow-join end k j v below h = (h, tt)
KeysBelow-join (field i w acc) k j v below h = (below.0, KeysBelow-join acc k j v below.1 h)

Between-join :
    (acc fs : Fields) (k : String) (v : Value)
    → Between acc fs
    → Between (field k v end) fs
    → Between (join acc (field k v end)) fs
Between-join acc end k v b c = tt
Between-join acc (field j w fs) k v b c =
    (KeysBelow-join acc k j v b.0 c.0.0, Between-join acc fs k v b.1 c.1)

pub read_fields_step :
    (read : List ℕ → Option (Value × List ℕ)) (n : ℕ) (k : String) (v : Value) (acc : Fields)
    → (xs a b : List ℕ) (r : Option (Fields × List ℕ)) → read_string xs ≡ some (k, a)
    → read a ≡ some (v, b)
    → read_fields read n b (insert_field k v acc) ≡ r
    → read_fields read (suc n) xs acc ≡ r
unfolding read_fields
read_fields_step read n k v acc xs a b r h1 h2 h3 =
    bind_is (read_string xs) _ (k, a) _ h1 (bind_is (read a) _ (v, b) _ h2 h3)

pub read_items_step :
    (read : List ℕ → Option (Value × List ℕ)) (n : ℕ) (v : Value) (xs a : List ℕ)
    → (r : Option (Items × List ℕ)) → read xs ≡ some (v, a)
    → (read_items read n a >>= λ p. some (cons v p.0, p.1)) ≡ r
    → read_items read (suc n) xs ≡ r
unfolding read_items
read_items_step read n v xs a r h k = bind_is (read xs) _ (v, a) _ h k

-- What the containers answer, given what their loops do on a count that the bytes can hold.
pub read_list_step :
    (read : List ℕ → Option (Value × List ℕ)) (n : ℕ) (body : List ℕ) (r : Option (Items × List ℕ))
    → n < 2 ^ 64
    → n ≤ length body
    → read_items read n body ≡ r
    → read_list read (write_u64 n ++ body) ≡ (r >>= λ p. some (list p.0, p.1))
unfolding read_list
read_list_step read n body r small enough h =
    let room : ltb (length body) n ≡ false = ground arith in
    rw (read_varint-write_u64 n body small, room, h) refl

pub read_map_step :
    (read : List ℕ → Option (Value × List ℕ)) (n : ℕ) (body : List ℕ) (r : Option (Fields × List ℕ))
    → n < 2 ^ 64
    → n ≤ length body
    → read_fields read n body end ≡ r
    → read_map read (write_u64 n ++ body) ≡ (r >>= λ p. some (map p.0, p.1))
unfolding read_map
read_map_step read n body r small enough h =
    let room : ltb (length body) n ≡ false = ground arith in
    rw (read_varint-write_u64 n body small, room, h) refl

Between-end : (fs : Fields) → Between end fs
Between-end end = tt
Between-end (field k v fs) = (tt, Between-end fs)

mutual
  unfolding write_value read_value read_byte read_tagged depth read_items read_fields count_items
      count_fields join

  pub read_value-write_value :
      (v : Value) (levels : ℕ) (tail : List ℕ)
      → ValueFits v
      → depth v ≤ levels
      → read_value levels (write_value v tail) ≡ some (v, tail)
  read_value-write_value null zero tail fits deep = absurd (omega arith)
  read_value-write_value null (suc levels) tail fits deep = refl
  read_value-write_value (bool true) zero tail fits deep = absurd (omega arith)
  read_value-write_value (bool true) (suc levels) tail fits deep = refl
  read_value-write_value (bool false) zero tail fits deep = absurd (omega arith)
  read_value-write_value (bool false) (suc levels) tail fits deep = refl
  read_value-write_value (i64 z) zero tail fits deep = absurd (omega arith)
  read_value-write_value (i64 z) (suc levels) tail fits deep =
      tagged_i64 (read_value levels) tail z fits
  read_value-write_value (u64 n) zero tail fits deep = absurd (omega arith)
  read_value-write_value (u64 n) (suc levels) tail fits deep =
      tagged_u64 (read_value levels) tail n fits
  read_value-write_value (f64 n) zero tail fits deep = absurd (omega arith)
  read_value-write_value (f64 n) (suc levels) tail fits deep =
      tagged_f64 (read_value levels) tail n fits
  read_value-write_value (decimal z scale) zero tail fits deep = absurd (omega arith)
  read_value-write_value (decimal z scale) (suc levels) tail fits deep =
      tagged_decimal (read_value levels) tail z scale fits
  read_value-write_value (timestamp z) zero tail fits deep = absurd (omega arith)
  read_value-write_value (timestamp z) (suc levels) tail fits deep =
      tagged_timestamp (read_value levels) tail z fits
  read_value-write_value (str s) zero tail fits deep = absurd (omega arith)
  read_value-write_value (str s) (suc levels) tail fits deep =
      tagged_str (read_value levels) tail s fits
  read_value-write_value (bytes b) zero tail fits deep = absurd (omega arith)
  read_value-write_value (bytes b) (suc levels) tail fits deep =
      tagged_bytes (read_value levels) tail b fits
  read_value-write_value (list vs) zero tail fits deep = absurd (omega arith)
  read_value-write_value (list vs) (suc levels) tail fits deep =
      read_list_step (read_value levels) (count_items vs) (write_items vs tail) (some (vs, tail))
        fits.0 (omega (arith, length-write_items vs tail))
        (read_items-write_items vs levels tail fits.1 (omega arith))
  read_value-write_value (map fs) zero tail fits deep = absurd (omega arith)
  read_value-write_value (map fs) (suc levels) tail fits deep =
      read_map_step (read_value levels) (count_fields fs) (write_fields fs tail) (some (fs, tail))
        fits.0 (omega (arith, length-write_fields fs tail))
        (read_fields-write_fields fs levels tail end fits.2 fits.1 (Between-end fs) (omega arith))

  read_items-write_items :
      (vs : Items) (levels : ℕ) (tail : List ℕ)
      → ItemsFit vs
      → depth_items vs ≤ levels
      → read_items (read_value levels) (count_items vs) (write_items vs tail) ≡ some (vs, tail)
  read_items-write_items nil levels tail fits deep = refl
  read_items-write_items (cons v vs) levels tail fits deep =
      read_items_step (read_value levels) (count_items vs) v (write_items (cons v vs) tail)
        (write_items vs tail) (some (cons v vs, tail))
        (read_value-write_value v levels (write_items vs tail) fits.0 (omega arith))
        (ap (λ o. o >>= λ p. some (cons v p.0, p.1))
          (read_items-write_items vs levels tail fits.1 (omega arith)))

  read_fields-write_fields :
      (fs : Fields) (levels : ℕ) (tail : List ℕ) (acc : Fields)
      → FieldsFit fs
      → Ascending fs
      → Between acc fs
      → depth_fields fs ≤ levels
      → read_fields (read_value levels) (count_fields fs) (write_fields fs tail) acc
        ≡ some (join acc fs, tail)
  read_fields-write_fields end levels tail acc fits up between deep =
      ap (λ m. some (m, tail)) (sym (join_end acc))
  read_fields-write_fields (field k v fs) levels tail acc fits up between deep =
      read_fields_step (read_value levels) (count_fields fs) k v acc
        (write_fields (field k v fs) tail) (write_value v (write_fields fs tail))
        (write_fields fs tail) (some (join acc (field k v fs), tail))
        (read_string-put_str k (write_value v (write_fields fs tail)) fits.0)
        (read_value-write_value v levels (write_fields fs tail) fits.1 (omega arith))
        (ap (read_fields (read_value levels) (count_fields fs) (write_fields fs tail))
            (insert_field_last k v acc between.0)
          ∙ read_fields-write_fields fs levels tail (join acc (field k v end)) fits.2 up.1
              (Between-join acc fs k v between.1 up.0) (omega arith)
          ∙ ap (λ m. some (m, tail)) (join_assoc acc (field k v end) fs))

-- Every value whose numbers and lengths are in the ranges of their types, whose maps are in key
-- order, and which is nested in at most 64 containers, is read back from its encoding, and the
-- reader stops where the encoding ends.
pub decode_value-write_value :
    (v : Value) (rest : List ℕ)
    → ValueFits v
    → depth v ≤ suc max_depth
    → decode_value (write_value v rest) ≡ some (v, rest)
unfolding decode_value
decode_value-write_value v rest fits deep = read_value-write_value v (suc max_depth) rest fits deep
