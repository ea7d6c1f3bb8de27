-- ===== src/Index/Values.antt =====
-- crates/adabt-index/src/lib.rs: an index on a field whose values compare lawfully.
use text.Mathlib.TextEquality.{path_by_compare}
use a_da_bt.Prelude.{ℕ, ◌≡◌, ap, String, true, false, List, [], ◌∷◌, arith}
use a_da_bt.Core.Float.{FloatOps}
use a_da_bt.Core.Value.{Value, str, rank}
use a_da_bt.Core.Order.{value_eq, cmp, cmp_flat}
use a_da_bt.Core.Order.Laws.{cmp_laws}
use a_da_bt.Index.{Keys, value_bytes, value_keys, Core, lookup}
use a_da_bt.Index.Ids.{contains_id, ascending_from}
use a_da_bt.Index.Maps.{Lawful, sum}
use a_da_bt.Index.Steps.{ids_weight, bytes_weight}
use a_da_bt.Index.Answers.{Change, added, dropped, is_filed, Answers}

-- `value` names the values of a field by a type of their own.
module _ ⦃fl : FloatOps⦄ (value_size : ℕ) {K : Type 0} (value : K → Value) where
  abbrev pub keys_by : Keys K
  keys_by = record {
    same = λ j k. value_eq (value j) (value k);
    key_bytes = λ k. value_bytes value_size (value k);
  }

  abbrev of_values : Keys Value
  of_values = value_keys value_size

  unfoldable pub entry_values : List (K × List ℕ) → List (Value × List ℕ)
  entry_values [] = []
  entry_values ((k, ids) ∷ m) = (value k, ids) ∷ entry_values m

  abbrev core_values : Core K → Core Value
  core_values c = record {
    field_name = c.field_name;
    map = entry_values c.map;
    entries = c.entries;
    bytes = c.bytes;
  }

  unfoldable pub change_values : List (Change K) → List (Change Value)
  change_values [] = []
  change_values (added k id ∷ vs) = added (value k) id ∷ change_values vs
  change_values (dropped k id ∷ vs) = dropped (value k) id ∷ change_values vs

  -- What an index on the field answers after the changes.
  pub record ValueAnswers (vs : List (Change K)) (c : Core Value) : Type 0 where
    pub filed_ids :
        (x : K) (y : ℕ)
        → contains_id (lookup ⦃keys = of_values⦄ c (value x)) y
          ≡ is_filed ⦃keys = keys_by⦄ vs x y false
    pub in_order : (x : K) → ascending_from 0 (lookup ⦃keys = of_values⦄ c (value x)) ≡ true
    pub entry_count : c.entries ≡ sum (ids_weight ⦃keys = of_values⦄) c.map
    pub byte_count : c.bytes ≡ sum (bytes_weight ⦃keys = of_values⦄) c.map

-- Texts compare lawfully.
module _ ⦃fl : FloatOps⦄ (value_size : ℕ) where
  text_same : (j k : String) → value_eq (str j) (str k) ≡ true → j ≡ k
  unfolding value_eq cmp cmp_flat rank
  text_same j k t = path_by_compare j k (ground (arith, t))

  pub texts-Lawful : Lawful (keys_by value_size str)
  texts-Lawful = record {
    same_refl = λ k. (cmp_laws (str k) (str k)).0;
    same_sym = λ j k. (cmp_laws (str j) (str k)).1;
    same_same = λ j k x t. ap (λ z. value_eq (str z) (str x)) (text_same j k t);
    same_bytes = λ j k t. ap (λ z. value_bytes value_size (str z)) (text_same j k t);
  }
