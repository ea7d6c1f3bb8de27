-- ===== src/Core/Record/Fields.antt =====
-- crates/adabt-core/src/record.rs: the vector of a record walked by name, without positions.
use Prim.Native.String.{compare as compare_str}
use a_da_bt.Prelude.{
  ◌≡◌, refl, ap, ◌∙◌, String, Option, some, none, List, [], ◌∷◌, Ordering, get_elem?, inl, inr,
}
use a_da_bt.Core.Value.{Value}
use a_da_bt.Core.Names.{Ordering-cases}
use a_da_bt.Core.Record.{
  Record, Slot, found, vacant, next_slot, slot_in, slot, assign, insert_at, remove_at, set_field,
  get, remove, second,
}

unfoldable pub lookup : List (String × Value) → String → Option Value
lookup [] n = none
lookup ((k, v) ∷ fs) n = elim (compare_str k n) [
  | Ordering.lt ↦ lookup fs n
  | Ordering.eq ↦ some v
  | Ordering.gt ↦ none
]

unfoldable pub put : List (String × Value) → String → Value → List (String × Value)
put [] n v = (n, v) ∷ []
put ((k, w) ∷ fs) n v = elim (compare_str k n) [
  | Ordering.lt ↦ (k, w) ∷ put fs n v
  | Ordering.eq ↦ (k, v) ∷ fs
  | Ordering.gt ↦ (n, v) ∷ (k, w) ∷ fs
]

unfoldable pub drop_name : List (String × Value) → String → List (String × Value)
drop_name [] n = []
drop_name ((k, w) ∷ fs) n = elim (compare_str k n) [
  | Ordering.lt ↦ (k, w) ∷ drop_name fs n
  | Ordering.eq ↦ fs
  | Ordering.gt ↦ (k, w) ∷ fs
]

module _ (k n : String) (w : Value) (fs : List (String × Value)) where
  pub lookup_lt : compare_str k n ≡ Ordering.lt → lookup ((k, w) ∷ fs) n ≡ lookup fs n
  unfolding lookup
  lookup_lt e = rw (lookup, e)

  pub lookup_eq : compare_str k n ≡ Ordering.eq → lookup ((k, w) ∷ fs) n ≡ some w
  unfolding lookup
  lookup_eq e = rw (lookup, e)

  pub lookup_gt : compare_str k n ≡ Ordering.gt → lookup ((k, w) ∷ fs) n ≡ none
  unfolding lookup
  lookup_gt e = rw (lookup, e)

  pub put_lt :
      (v : Value) → compare_str k n ≡ Ordering.lt → put ((k, w) ∷ fs) n v ≡ (k, w) ∷ put fs n v
  unfolding put
  put_lt v e = rw (put, e)

  pub put_eq : (v : Value) → compare_str k n ≡ Ordering.eq → put ((k, w) ∷ fs) n v ≡ (k, v) ∷ fs
  unfolding put
  put_eq v e = rw (put, e)

  pub put_gt :
      (v : Value) → compare_str k n ≡ Ordering.gt → put ((k, w) ∷ fs) n v ≡ (n, v) ∷ (k, w) ∷ fs
  unfolding put
  put_gt v e = rw (put, e)

  pub drop_name_lt :
      compare_str k n ≡ Ordering.lt → drop_name ((k, w) ∷ fs) n ≡ (k, w) ∷ drop_name fs n
  unfolding drop_name
  drop_name_lt e = rw (drop_name, e)

  pub drop_name_eq : compare_str k n ≡ Ordering.eq → drop_name ((k, w) ∷ fs) n ≡ fs
  unfolding drop_name
  drop_name_eq e = rw (drop_name, e)

  pub drop_name_gt : compare_str k n ≡ Ordering.gt → drop_name ((k, w) ∷ fs) n ≡ (k, w) ∷ fs
  unfolding drop_name
  drop_name_gt e = rw (drop_name, e)

-- What is done at a slot.
abbrev read_at : List (String × Value) → Slot → Option Value
read_at fs s = elim s [ found i ↦ second (get_elem? fs i) | vacant i ↦ none ]

abbrev write_at : List (String × Value) → String → Value → Slot → List (String × Value)
unfolding assign insert_at
write_at fs n v s = elim s [ found i ↦ assign fs i v | vacant i ↦ insert_at fs i n v ]

abbrev clear_at : List (String × Value) → Slot → List (String × Value)
unfolding remove_at
clear_at fs s = elim s [ found i ↦ remove_at fs i | vacant i ↦ fs ]

read_at-next :
    (f : String × Value) (fs : List (String × Value)) (s : Slot)
    → read_at (f ∷ fs) (next_slot s) ≡ read_at fs s
read_at-next f fs (found i) = refl
read_at-next f fs (vacant i) = refl

write_at-next :
    (k n : String) (w v : Value) (fs : List (String × Value)) (s : Slot)
    → write_at ((k, w) ∷ fs) n v (next_slot s) ≡ (k, w) ∷ write_at fs n v s
unfolding write_at
write_at-next k n w v fs (found i) = refl
write_at-next k n w v fs (vacant i) = refl

clear_at-next :
    (f : String × Value) (fs : List (String × Value)) (s : Slot)
    → clear_at (f ∷ fs) (next_slot s) ≡ f ∷ clear_at fs s
unfolding clear_at
clear_at-next f fs (found i) = refl
clear_at-next f fs (vacant i) = refl

read-lookup : (fs : List (String × Value)) (n : String) → read_at fs (slot_in fs n) ≡ lookup fs n
unfolding slot_in lookup
read-lookup [] n = refl
read-lookup ((k, v) ∷ fs) n = elim (Ordering-cases (compare_str k n)) [
  | inl e ↦
      rw (read_at, slot_in, lookup, e) (read_at-next (k, v) fs (slot_in fs n) ∙ read-lookup fs n)
  | inr (inl e) ↦ rw (read_at, slot_in, lookup, e)
  | inr (inr e) ↦ rw (read_at, slot_in, lookup, e)
]

write-put :
    (fs : List (String × Value)) (n : String) (v : Value)
    → write_at fs n v (slot_in fs n) ≡ put fs n v
unfolding slot_in put write_at
write-put [] n v = refl
write-put ((k, w) ∷ fs) n v = elim (Ordering-cases (compare_str k n)) [
  | inl e ↦
      rw (write_at, slot_in, put, e)
        (write_at-next k n w v fs (slot_in fs n) ∙ ap (λ l. (k, w) ∷ l) (write-put fs n v))
  | inr (inl e) ↦ rw (write_at, slot_in, put, e)
  | inr (inr e) ↦ rw (write_at, slot_in, put, e)
]

clear-drop_name :
    (fs : List (String × Value)) (n : String) → clear_at fs (slot_in fs n) ≡ drop_name fs n
unfolding slot_in drop_name clear_at
clear-drop_name [] n = refl
clear-drop_name ((k, w) ∷ fs) n = elim (Ordering-cases (compare_str k n)) [
  | inl e ↦
      rw (clear_at, slot_in, drop_name, e)
        (clear_at-next (k, w) fs (slot_in fs n) ∙ ap (λ l. (k, w) ∷ l) (clear-drop_name fs n))
  | inr (inl e) ↦ rw (clear_at, slot_in, drop_name, e)
  | inr (inr e) ↦ rw (clear_at, slot_in, drop_name, e)
]

pub get-lookup : (r : Record) (n : String) → get r n ≡ lookup r.fields n
unfolding get slot
get-lookup r n = read-lookup r.fields n

slot-set_field :
    (r : Record) (n : String) (v : Value) (s : Slot)
    → slot r n ≡ s
    → (set_field r n v).fields ≡ write_at r.fields n v s
unfolding set_field write_at
slot-set_field r n v (found i) e = rw (set_field, e)
slot-set_field r n v (vacant i) e = rw (set_field, e)

pub set_field-put :
    (r : Record) (n : String) (v : Value) → (set_field r n v).fields ≡ put r.fields n v
unfolding slot
set_field-put r n v = slot-set_field r n v (slot r n) refl ∙ write-put r.fields n v

slot-remove :
    (r : Record) (n : String) (s : Slot)
    → slot r n ≡ s
    → ((remove r n).0 ≡ read_at r.fields s) × ((remove r n).1.fields ≡ clear_at r.fields s)
unfolding remove clear_at
slot-remove r n (found i) e = (rw (remove, e), rw (remove, e))
slot-remove r n (vacant i) e = (rw (remove, e), rw (remove, e))

pub remove-drop_name :
    (r : Record) (n : String)
    → ((remove r n).0 ≡ lookup r.fields n) × ((remove r n).1.fields ≡ drop_name r.fields n)
unfolding slot
remove-drop_name r n =
    let (gone, left) = slot-remove r n (slot r n) refl in
    (gone ∙ read-lookup r.fields n, left ∙ clear-drop_name r.fields n)
