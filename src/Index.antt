-- ===== src/Index.antt =====
-- crates/adabt-index/src/lib.rs: the bookkeeping of the hash and the B-tree index.
-- The map is the list of its entries, one to a key. Keys are compared as the key map compares them.
pub mod Ids
pub mod Maps
pub mod Steps
pub mod Removal
pub mod Insertion
pub mod Answers
pub mod Values
mod Tests
use a_da_bt.Prelude.{
  ℕ, zero, suc, ◌+◌, ◌-◌, String, Bool, true, false, List, [], ◌∷◌, Option, some, none, length, ltb,
  ◌==◌, if◌then◌else◌,
}
use a_da_bt.Core.Value.{Value, str, bytes, list, map, Items, nil, cons, Fields, end, field, is_null}
use a_da_bt.Core.Float.{FloatOps}
use a_da_bt.Core.Order.{value_eq}
use a_da_bt.Core.Record.{Record, Slot, found, vacant, next_slot, get}
use a_da_bt.Storage.Utf8.{utf8}

-- What the key map reads of a key: its equality and its size.
pub record Keys (K : Type 0) : Type 0 where
  pub same : K → K → Bool
  pub key_bytes : K → ℕ

-- The size of a `Value` itself is the compiler's.
module _ (value_size : ℕ) where
  unfoldable mutual
    pub value_bytes : Value → ℕ
    value_bytes (str s) = value_size + length (utf8 s)
    value_bytes (bytes b) = value_size + length b
    value_bytes (list items) = value_size + items_bytes items
    value_bytes (map m) = value_size + fields_bytes m
    value_bytes _ = value_size

    pub items_bytes : Items → ℕ
    items_bytes nil = 0
    items_bytes (cons v vs) = value_bytes v + items_bytes vs

    pub fields_bytes : Fields → ℕ
    fields_bytes end = 0
    fields_bytes (field k v fs) = length (utf8 k) + value_bytes v + fields_bytes fs

abbrev pub id_bytes : ℕ
id_bytes = 8

abbrev pub node_overhead : ℕ
node_overhead = 48

-- What `binary_search` answers on ascending ids.
unfoldable pub search : List ℕ → ℕ → Slot
search [] id = vacant 0
search (x ∷ xs) id =
    let rest = next_slot (search xs id) in
    if ltb x id then rest else if x == id then found 0 else vacant 0

unfoldable pub insert_at : List ℕ → ℕ → ℕ → List ℕ
insert_at ids zero id = id ∷ ids
insert_at [] (suc i) id = id ∷ []
insert_at (x ∷ ids) (suc i) id = x ∷ insert_at ids i id

unfoldable pub remove_at : List ℕ → ℕ → List ℕ
remove_at [] i = []
remove_at (x ∷ ids) zero = ids
remove_at (x ∷ ids) (suc i) = x ∷ remove_at ids i

abbrev pub is_empty : List ℕ → Bool
is_empty [] = true
is_empty (x ∷ xs) = false

abbrev pub unwrap_or_default : Option (List ℕ) → List ℕ
unwrap_or_default none = []
unwrap_or_default (some ids) = ids

module _ {K : Type 0} ⦃keys : Keys K⦄ where
  unfoldable pub get_key : List (K × List ℕ) → K → Option (List ℕ)
  get_key [] key = none
  get_key ((j, ids) ∷ m) key =
      let rest = get_key m key in if keys.same j key then some ids else rest

  -- Writes through the slot that `entry_or_default` or `get_mut` hands out.
  unfoldable pub put_key : List (K × List ℕ) → K → List ℕ → List (K × List ℕ)
  put_key [] key ids = (key, ids) ∷ []
  put_key ((j, js) ∷ m) key ids =
      let rest = (j, js) ∷ put_key m key ids in if keys.same j key then (j, ids) ∷ m else rest

  unfoldable pub remove_key : List (K × List ℕ) → K → List (K × List ℕ)
  remove_key [] key = []
  remove_key ((j, js) ∷ m) key =
      let rest = (j, js) ∷ remove_key m key in if keys.same j key then m else rest

pub record Core (K : Type 0) : Type 0 where
  pub field_name : String
  pub map : List (K × List ℕ)
  pub entries : ℕ
  pub bytes : ℕ

abbrev pub new : {K : Type 0} → String → Core K
new name = record { field_name = name; map = []; entries = 0; bytes = 0 }

module _ {K : Type 0} ⦃keys : Keys K⦄ where
  -- The entry behind the search, on the slot that the map has for the key.
  unfoldable pub insert_into : Core K → K → ℕ → List ℕ → Core K
  unfolding put_key search insert_at
  insert_into c key id slot =
      let grown =
        if is_empty slot then c.bytes + (keys.key_bytes key + node_overhead) else c.bytes in
      elim (search slot id) [
        | found i ↦ record c { map = put_key c.map key slot; bytes = grown }
        | vacant i ↦ record c {
          map = put_key c.map key (insert_at slot i id);
          entries = c.entries + 1;
          bytes = grown + id_bytes;
        }
      ]

  unfoldable pub insert : Core K → K → ℕ → Core K
  unfolding get_key insert_into
  insert c key id = insert_into c key id (unwrap_or_default (get_key c.map key))

  -- A slot that is left empty goes, with its key.
  unfoldable pub settle : Core K → K → List ℕ → Core K
  unfolding put_key remove_key
  settle c key slot =
      if is_empty slot
      then record c {
        map = remove_key c.map key;
        bytes = c.bytes - (keys.key_bytes key + node_overhead);
      }
      else record c { map = put_key c.map key slot }

  unfoldable pub remove_from : Core K → K → ℕ → List ℕ → Core K
  unfolding settle search remove_at
  remove_from c key id slot = elim (search slot id) [
    | found i ↦
        settle (record c { entries = c.entries - 1; bytes = c.bytes - id_bytes }) key
          (remove_at slot i)
    | vacant i ↦ settle c key slot
  ]

  unfoldable pub remove : Core K → K → ℕ → Core K
  unfolding get_key remove_from
  remove c key id = elim (get_key c.map key) [ none ↦ c | some slot ↦ remove_from c key id slot ]

  unfoldable pub lookup : Core K → K → List ℕ
  unfolding get_key
  lookup c key = unwrap_or_default (get_key c.map key)

  unfoldable pub memory_bytes : Core K → ℕ
  memory_bytes c = length (utf8 c.field_name) + c.bytes

-- Over the values of records.
module _ ⦃fl : FloatOps⦄ (value_size : ℕ) where
  abbrev pub value_keys : Keys Value
  value_keys = record { same = value_eq; key_bytes = value_bytes value_size }

  unfoldable pub with_value :
      (Core Value → Value → ℕ → Core Value) → Core Value → ℕ → Option Value → Core Value
  with_value f c id none = c
  with_value f c id (some v) = if is_null v then c else f c v id

  unfoldable pub index_record : Core Value → ℕ → Record → Core Value
  unfolding get with_value insert is_null
  index_record c id rec = with_value (insert ⦃keys = value_keys⦄) c id (get rec c.field_name)

  unfoldable pub unindex_record : Core Value → ℕ → Record → Core Value
  unfolding get with_value remove is_null
  unindex_record c id rec = with_value (remove ⦃keys = value_keys⦄) c id (get rec c.field_name)

  unfoldable pub index_all : Core Value → List (ℕ × Record) → Core Value
  unfolding index_record
  index_all c [] = c
  index_all c ((id, rec) ∷ records) = index_all (index_record c id rec) records

  unfoldable pub build : String → List (ℕ × Record) → Core Value
  unfolding index_all
  build name records = index_all (new name) records
