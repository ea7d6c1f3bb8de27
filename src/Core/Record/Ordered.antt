-- ===== src/Core/Record/Ordered.antt =====
-- crates/adabt-core/src/record.rs: the order of a record's vector, which every change keeps.
use Prim.Native.String.{compare as compare_str}
use a_da_bt.Prelude.{◌≡◌, String, List, [], ◌∷◌, Ordering, inl, inr, All}
use a_da_bt.Core.Value.{Value}
use a_da_bt.Core.Names.{Ordering-cases, gt_lt, compare_str_trans}
use a_da_bt.Core.Record.{Record}
use a_da_bt.Core.Record.Fields.{
  put, drop_name, put_lt, put_eq, put_gt, drop_name_lt, drop_name_eq, drop_name_gt,
}

-- Every name of the vector comes after the given one.
abbrev pub After : String → String × Value → Type 0
After k f = compare_str k f.0 ≡ Ordering.lt

abbrev pub Sorted : List (String × Value) → Type 0
Sorted [] = Unit
Sorted ((k, v) ∷ fs) = All (After k) fs × Sorted fs

-- The invariant of a record: its names are strictly increasing.
abbrev pub IsSorted : Record → Type 0
IsSorted r = Sorted r.fields

pub After-trans :
    (j k : String) (fs : List (String × Value))
    → compare_str j k ≡ Ordering.lt
    → All (After k) fs
    → All (After j) fs
After-trans j k [] h all = tt
After-trans j k ((k', w) ∷ fs) h all =
    (compare_str_trans j k k' h all.0, After-trans j k fs h all.1)

put-After :
    (j n : String) (v : Value) (fs : List (String × Value))
    → compare_str j n ≡ Ordering.lt
    → All (After j) fs
    → All (After j) (put fs n v)
unfolding put
put-After j n v [] h all = (h, tt)
put-After j n v ((k, w) ∷ fs) h all = elim (Ordering-cases (compare_str k n)) [
  | inl e ↦ rw (put_lt k n w fs v e) (all.0, put-After j n v fs h all.1)
  | inr (inl e) ↦ rw (put_eq k n w fs v e) all
  | inr (inr e) ↦ rw (put_gt k n w fs v e) (h, all)
]

pub put-Sorted :
    (fs : List (String × Value)) (n : String) (v : Value) → Sorted fs → Sorted (put fs n v)
unfolding put
put-Sorted [] n v sorted = (tt, tt)
put-Sorted ((k, w) ∷ fs) n v (above, sorted) = elim (Ordering-cases (compare_str k n)) [
  | inl e ↦ rw (put_lt k n w fs v e) (put-After k n v fs e above, put-Sorted fs n v sorted)
  | inr (inl e) ↦ rw (put_eq k n w fs v e) (above, sorted)
  | inr (inr e) ↦
      let before = gt_lt k n e in
      rw (put_gt k n w fs v e) ((before, After-trans n k fs before above), (above, sorted))
]

drop_name-After :
    (j n : String) (fs : List (String × Value)) → All (After j) fs → All (After j) (drop_name fs n)
unfolding drop_name
drop_name-After j n [] all = tt
drop_name-After j n ((k, w) ∷ fs) all = elim (Ordering-cases (compare_str k n)) [
  | inl e ↦ rw (drop_name_lt k n w fs e) (all.0, drop_name-After j n fs all.1)
  | inr (inl e) ↦ rw (drop_name_eq k n w fs e) all.1
  | inr (inr e) ↦ rw (drop_name_gt k n w fs e) all
]

pub drop_name-Sorted :
    (fs : List (String × Value)) (n : String) → Sorted fs → Sorted (drop_name fs n)
unfolding drop_name
drop_name-Sorted [] n sorted = tt
drop_name-Sorted ((k, w) ∷ fs) n (above, sorted) = elim (Ordering-cases (compare_str k n)) [
  | inl e ↦
      rw (drop_name_lt k n w fs e) (drop_name-After k n fs above, drop_name-Sorted fs n sorted)
  | inr (inl e) ↦ rw (drop_name_eq k n w fs e) sorted
  | inr (inr e) ↦ rw (drop_name_gt k n w fs e) (above, sorted)
]
