-- ===== src/Index/Tests.antt =====
-- Indexes of crates/adabt-index/src/lib.rs at concrete keys and records.
use a_da_bt.Prelude.{String, ◌≡◌, ◌+◌, ◌*◌, refl, List, [], ◌∷◌}
use a_da_bt.Prelude.Int.{pos}
use a_da_bt.Core.FloatTests.{no_floats}
use a_da_bt.Core.Value.{Value, str, null, i64, rank, exact_units}
use a_da_bt.Core.Order.{value_eq, cmp, cmp_flat, cmp_numeric, lift}
use a_da_bt.Core.Record.{Record}
use a_da_bt.Index.{
  Core, new, value_keys, value_bytes, insert, remove, lookup, unindex_record, build,
}
use a_da_bt.Storage.Utf8.{utf8}
use a_da_bt.Index.Values.{change_values}
use a_da_bt.Index.Answers.{Change, added, dropped, change_all}

abbrev changes : List (Change String)
changes = added "b" 7 ∷ added "b" 3 ∷ added "a" 5 ∷ added "b" 7 ∷ dropped "b" 3 ∷ added "b" 1 ∷ []

abbrev after : Core Value
after = change_all ⦃keys = value_keys 24⦄ (change_values 24 str changes) (new "name")

ids_of_b : lookup ⦃keys = value_keys 24⦄ after (str "b") ≡ 1 ∷ 7 ∷ []
unfolding change_all change_values insert remove lookup value_eq cmp cmp_flat rank
ids_of_b = refl

after_counters : (after.entries ≡ 3) × (after.bytes ≡ 2 * (25 + 48) + 3 * 8)
unfolding change_all change_values insert remove value_eq cmp cmp_flat rank value_bytes utf8
after_counters = (refl, refl)

emptied : (remove ⦃keys = value_keys 24⦄ after (str "a") 5).bytes ≡ 25 + 48 + 2 * 8
unfolding change_all change_values insert remove value_eq cmp cmp_flat rank value_bytes utf8
emptied = refl

abbrev three : Record
three = record { fields = ("k", i64 (pos 3)) ∷ [] }

abbrev no_key : Record
no_key = record { fields = ("k", null) ∷ [] }

built :
    lookup ⦃keys = value_keys 24⦄
      (build 24 "k" ((2, three) ∷ (9, no_key) ∷ (1, three) ∷ []))
      (i64 (pos 3))
    ≡ 1 ∷ 2 ∷ []
unfolding build insert lookup value_eq cmp cmp_flat cmp_numeric exact_units lift rank
built = refl

unbuilt : (unindex_record 24 (build 24 "k" ((2, three) ∷ [])) 2 three).bytes ≡ 0
unfolding build insert remove unindex_record value_eq cmp cmp_flat cmp_numeric exact_units lift rank
    value_bytes
unbuilt = refl
