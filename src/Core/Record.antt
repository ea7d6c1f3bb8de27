-- ===== src/Core/Record.antt =====
-- crates/adabt-core/src/record.rs: a record is a vector of named values, sorted by name.
pub mod Fields
pub mod Ordered
pub mod Lookup
pub mod Laws
use Prim.Native.String.{compare as compare_str}
use a_da_bt.Prelude.{ℕ, suc, String, Option, some, none, List, [], ◌∷◌, Ordering, get_elem?}
use a_da_bt.Core.Value.{Value}

pub record Record : Type 0 where
  pub fields : List (String × Value)

-- `Ok(i)` and `Err(i)` of a binary search.
pub data Slot : Type 0 where
  found : ℕ → Slot
  vacant : ℕ → Slot

abbrev pub next_slot : Slot → Slot
next_slot (found i) = found (suc i)
next_slot (vacant i) = vacant (suc i)

-- What `binary_search_by` answers on a sorted vector: where the name is, or where it would go.
unfoldable pub slot_in : List (String × Value) → String → Slot
slot_in [] name = vacant 0
slot_in ((k, v) ∷ fs) name = elim (compare_str k name) [
  | Ordering.lt ↦ next_slot (slot_in fs name)
  | Ordering.eq ↦ found 0
  | Ordering.gt ↦ vacant 0
]

unfoldable pub slot : Record → String → Slot
unfolding slot_in
slot r name = slot_in r.fields name

-- `fields[i].1 = v`
unfoldable pub assign : List (String × Value) → ℕ → Value → List (String × Value)
assign [] i v = []
assign ((k, w) ∷ fs) ℕ.zero v = (k, v) ∷ fs
assign ((k, w) ∷ fs) (suc i) v = (k, w) ∷ assign fs i v

-- `fields.insert(i, (name, v))`
unfoldable pub insert_at : List (String × Value) → ℕ → String → Value → List (String × Value)
insert_at fs ℕ.zero name v = (name, v) ∷ fs
insert_at [] (suc i) name v = (name, v) ∷ []
insert_at (f ∷ fs) (suc i) name v = f ∷ insert_at fs i name v

unfoldable pub remove_at : List (String × Value) → ℕ → List (String × Value)
remove_at [] i = []
remove_at (f ∷ fs) ℕ.zero = fs
remove_at (f ∷ fs) (suc i) = f ∷ remove_at fs i

abbrev pub empty : Record
empty = record { fields = [] }

unfoldable pub set_field : Record → String → Value → Record
unfolding slot assign insert_at
set_field r name v = elim (slot r name) [
  | found i ↦ record { fields = assign r.fields i v }
  | vacant i ↦ record { fields = insert_at r.fields i name v }
]

abbrev pub second : Option (String × Value) → Option Value
second none = none
second (some (k, v)) = some v

unfoldable pub get : Record → String → Option Value
unfolding slot
get r name = elim (slot r name) [ found i ↦ second (get_elem? r.fields i) | vacant i ↦ none ]

-- The value removed, if any, and the record left.
unfoldable pub remove : Record → String → Option Value × Record
unfolding slot remove_at
remove r name = elim (slot r name) [
  | found i ↦ (second (get_elem? r.fields i), record { fields = remove_at r.fields i })
  | vacant i ↦ (none, r)
]

-- The loop of `project`, over the names still to be copied.
unfoldable pub project_into : Record → List String → Record → Record
unfolding get set_field
project_into r [] out = out
project_into r (n ∷ names) out =
    project_into r names (elim (get r n) [ some v ↦ set_field out n v | none ↦ out ])

unfoldable pub project : Record → List String → Record
unfolding project_into
project r names = project_into r names empty

-- `FromIterator`: later entries of one name win.
unfoldable pub from_iter_into : List (String × Value) → Record → Record
unfolding set_field
from_iter_into [] r = r
from_iter_into ((k, v) ∷ entries) r = from_iter_into entries (set_field r k v)

unfoldable pub from_iter : List (String × Value) → Record
unfolding from_iter_into
from_iter entries = from_iter_into entries empty
