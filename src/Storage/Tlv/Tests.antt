-- ===== src/Storage/Tlv/Tests.antt =====
-- The theorems on the values of crates/adabt-storage/src/codec.rs at small ones.
use a_da_bt.Prelude.{ℕ, zero, suc, ◌<◌, ◌≤◌, ◌≡◌, refl, [], ◌∷◌, some, none, arith}
use a_da_bt.Prelude.Int.{pos, negsuc}
use a_da_bt.Core.Value.{Value, null, i64, str, decimal, timestamp, list, map, nil, cons, end, field}
use a_da_bt.Storage.Utf8.{utf8}
use a_da_bt.Storage.Tlv.{write_value, max_depth, decode_value, count_items, count_fields}
use a_da_bt.Storage.Tlv.Fits.{ValueFits, depth}
use a_da_bt.Storage.Tlv.RoundTrip.{decode_value-write_value}
use a_da_bt.Storage.Tlv.Deep.{deep-decode_value}

abbrev sample : Value
sample = map (
    field "age" (i64 (negsuc 4)) (
      field "tags" (list (cons (str "é") (cons (decimal (negsuc 9) 2) nil)))
        (field "when" (timestamp (pos 3)) end)))

sample_fits : ValueFits sample
unfolding utf8 count_items count_fields
sample_fits = (
  omega arith,
  (((refl, tt), ((refl, tt), tt)), (((refl, tt), tt), (tt, tt))),
  (
    omega arith,
    omega arith,
    (omega arith, (omega arith, (omega arith, (omega arith, tt))), (omega arith, omega arith, tt)),
  ),
)

sample_shallow : depth sample ≤ suc max_depth
unfolding depth
sample_shallow = omega arith

decode_value-write_value_example :
    decode_value (write_value sample (7 ∷ [])) ≡ some (sample, 7 ∷ [])
decode_value-write_value_example =
    decode_value-write_value sample (7 ∷ []) sample_fits sample_shallow

-- A value in so many lists.
abbrev in_lists : ℕ → Value
in_lists zero = null
in_lists (suc n) = list (cons (in_lists n) nil)

in_lists_fits : (n : ℕ) → ValueFits (in_lists n)
unfolding count_items
in_lists_fits zero = tt
in_lists_fits (suc n) = (omega arith, (in_lists_fits n, tt))

deep_lists : suc max_depth < depth (in_lists 65)
unfolding depth
deep_lists = omega arith

deep-decode_value_example : decode_value (write_value (in_lists 65) []) ≡ none
deep-decode_value_example = deep-decode_value (in_lists 65) [] (in_lists_fits 65) deep_lists
