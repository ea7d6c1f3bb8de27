-- ===== src/Opt/Registry/Tests.antt =====
-- The theorems on crates/adabt-opt/src/registry.rs, at the layouts that exclude each other.
use a_da_bt.Prelude.{String, not, List, some, ◌≢◌, ◌≡◌, refl, [], ◌∷◌, ◌||◌, ◌&&◌}
use a_da_bt.Core.Names.{contains}
use a_da_bt.Opt.Registry.{
  OptMeta, Registry, meta, names_it, conflicts_among, registered, validate_overrides,
}
use a_da_bt.Opt.Registry.Dependencies.{dependency_order}
use a_da_bt.Opt.Registry.Dependencies.Answers.{Means, dependency_order-Means}
use a_da_bt.Opt.Registry.Overrides.{reports, reports-validate_overrides}
use a_da_bt.Opt.Registry.Conflicts.{contains-conflicts_among}

abbrev row_store : OptMeta
row_store = record {
  name = "row_store";
  min_level = 1;
  prerequisites = [];
  conflicts_with = "column_store" ∷ [];
}

abbrev column_store : OptMeta
column_store = record {
  name = "column_store";
  min_level = 2;
  prerequisites = [];
  conflicts_with = [];
}

abbrev layouts : Registry
layouts = record { items = row_store ∷ column_store ∷ [] }

-- The side that declares nothing.
contains-conflicts_among_example :
    contains (conflicts_among layouts "column_store" ("row_store" ∷ [])) "row_store"
    ≡ contains ("row_store" ∷ []) "row_store"
      && (contains [] "row_store" || names_it "column_store" (meta layouts "row_store"))
unfolding meta
contains-conflicts_among_example =
    contains-conflicts_among layouts "column_store" column_store ("row_store" ∷ []) refl "row_store"

conflict_found : conflicts_among layouts "column_store" ("row_store" ∷ []) ≡ "row_store" ∷ []
unfolding conflicts_among meta
conflict_found = refl

abbrev overrides : List String
overrides = "row_store" ∷ "auto_indx" ∷ "auto_indx" ∷ []

reports-validate_overrides_example :
    ((n : String)
      → reports (validate_overrides layouts overrides) n
        ≡ contains overrides n && not (registered layouts n))
    × (validate_overrides layouts overrides ≢ some [])
reports-validate_overrides_example = reports-validate_overrides layouts overrides

typo_reported : validate_overrides layouts overrides ≡ some ("auto_indx" ∷ [])
unfolding validate_overrides
typo_reported = refl

abbrev indexes : OptMeta
indexes = record { name = "indexes"; min_level = 1; prerequisites = []; conflicts_with = [] }

abbrev covering : OptMeta
covering = record {
  name = "covering";
  min_level = 2;
  prerequisites = "indexes" ∷ [];
  conflicts_with = [];
}

abbrev dependent : Registry
dependent = record { items = covering ∷ indexes ∷ [] }

dependency_order-Means_example : Means dependent (dependency_order dependent)
dependency_order-Means_example = dependency_order-Means dependent
