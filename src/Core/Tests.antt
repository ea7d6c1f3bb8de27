-- ===== src/Core/Tests.antt =====
-- The theorems on values and records of crates/adabt-core, at concrete inputs.
use text.Mathlib.Text.{◌==◌ as str_eq}
use a_da_bt.Prelude.{
  ◌+◌, ◌^◌, ◌≡◌, refl, ◌↔◌, true, some, none, [], ◌∷◌, Ordering, arith, if◌then◌else◌,
}
use a_da_bt.Prelude.Int.{pos, negsuc}
use a_da_bt.Core.Value.{Value, u64, f64, i64, str, decimal, list, cons, nil}
use a_da_bt.Core.Float.{of_int}
use a_da_bt.Core.FloatTests.{no_floats}
use a_da_bt.Core.Order.{cmp, value_eq}
use a_da_bt.Core.Order.Laws.{cmp_laws, equality_is_not_transitive}
use a_da_bt.Core.Arith.{rescale}
use a_da_bt.Core.Arith.Rescale.{rescale-rescale}
use a_da_bt.Core.Names.{contains}
use a_da_bt.Core.Record.{Record, get, set_field, remove, project, from_iter}
use a_da_bt.Core.Record.Ordered.{IsSorted}
use a_da_bt.Core.Record.Laws.{set_field_lem, remove_lem, project_lem, from_iter_lem, last_of}

abbrev numbers : Value
numbers = list (cons (u64 7) (cons (decimal (pos 70) 1) nil))

abbrev words : Value
words = list (cons (u64 7) (cons (str "x") nil))

cmp_laws_example :
    (value_eq numbers numbers ≡ true)
    × (value_eq numbers words ≡ value_eq words numbers)
    × ((cmp numbers words ≡ Ordering.lt) ↔ (cmp words numbers ≡ Ordering.gt))
cmp_laws_example = cmp_laws numbers words

-- 2^53 and 2^53 + 1 round to one float.
equality_is_not_transitive_example :
    (value_eq (u64 (2 ^ 53)) (f64 (of_int (pos (2 ^ 53)))) ≡ true)
    × (value_eq (f64 (of_int (pos (2 ^ 53)))) (u64 (2 ^ 53 + 1)) ≡ true)
    × (cmp (u64 (2 ^ 53)) (u64 (2 ^ 53 + 1)) ≡ Ordering.lt)
unfolding of_int
equality_is_not_transitive_example =
    equality_is_not_transitive (2 ^ 53) (2 ^ 53 + 1) (omega arith) (omega arith) refl

rescale-rescale_example : rescale (negsuc 1249) 1 3 ≡ some (negsuc 124999)
unfolding rescale
rescale-rescale_example = rescale-rescale (negsuc 124999) (negsuc 1249) 3 1 refl refl

abbrev row : Record
row = record { fields = ("a", i64 (pos 5)) ∷ ("s", str "hello") ∷ [] }

row-IsSorted : IsSorted row
row-IsSorted = ((refl, tt), (tt, tt))

set_field_lem_example :
    IsSorted (set_field row "b" (u64 1))
    × (get (set_field row "b" (u64 1)) "s" ≡ (if str_eq "s" "b" then some (u64 1) else get row "s"))
set_field_lem_example = set_field_lem row "b" "s" (u64 1) row-IsSorted

remove_lem_example :
    ((remove row "a").0 ≡ get row "a")
    × IsSorted (remove row "a").1
    × (get (remove row "a").1 "s" ≡ (if str_eq "s" "a" then none else get row "s"))
remove_lem_example = remove_lem row "a" "s" row-IsSorted

project_lem_example :
    IsSorted (project row ("s" ∷ "z" ∷ "s" ∷ []))
    × (get (project row ("s" ∷ "z" ∷ "s" ∷ [])) "s"
        ≡ (if contains ("s" ∷ "z" ∷ "s" ∷ []) "s" then get row "s" else none))
project_lem_example = project_lem row ("s" ∷ "z" ∷ "s" ∷ []) "s"

from_iter_lem_example :
    IsSorted (from_iter (("b", u64 1) ∷ ("a", u64 2) ∷ ("b", u64 3) ∷ []))
    × (get (from_iter (("b", u64 1) ∷ ("a", u64 2) ∷ ("b", u64 3) ∷ [])) "b"
        ≡ last_of (("b", u64 1) ∷ ("a", u64 2) ∷ ("b", u64 3) ∷ []) "b")
from_iter_lem_example = from_iter_lem (("b", u64 1) ∷ ("a", u64 2) ∷ ("b", u64 3) ∷ []) "b"
