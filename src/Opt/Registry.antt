-- ===== src/Opt/Registry.antt =====
-- crates/adabt-opt/src/registry.rs: the registry of optimizations, by their metadata.
pub mod Conflicts
pub mod Overrides
pub mod Dependencies
mod Tests
use text.Mathlib.Text.{◌==◌ as str_eq}
use Prim.Native.String.{compare as compare_str}
use a_da_bt.Prelude.{
  ℕ, String, Bool, true, false, not, ◌&&◌, List, [], ◌∷◌, ◌++◌, Option, some, none, Ordering, leb,
  if◌then◌else◌,
}
use a_da_bt.Core.Names.{contains}

-- The fields of `OptMeta` that the registry reads.
pub record OptMeta : Type 0 where
  pub name : String
  pub min_level : ℕ
  pub prerequisites : List String
  pub conflicts_with : List String

-- `order`, each name with the item that the map holds for it.
pub record Registry : Type 0 where
  pub items : List OptMeta

abbrev pub new : Registry
new = record { items = [] }

unfoldable pub find_meta : List OptMeta → String → Option OptMeta
find_meta [] name = none
find_meta (m ∷ ms) name =
    let rest = find_meta ms name in if str_eq m.name name then some m else rest

unfoldable pub meta : Registry → String → Option OptMeta
unfolding find_meta
meta r name = find_meta r.items name

abbrev pub is_some {ℓ} : {A : Type ℓ} → Option A → Bool
is_some (some a) = true
is_some none = false

unfoldable pub registered : Registry → String → Bool
unfolding meta
registered r name = is_some (meta r name)

-- `none` is the panic on a duplicate name.
unfoldable pub register : Registry → OptMeta → Option Registry
unfolding registered
register r opt =
    if registered r opt.name then none else some (record { items = r.items ++ opt ∷ [] })

unfoldable pub names_of : List OptMeta → List String
names_of [] = []
names_of (m ∷ ms) = m.name ∷ names_of ms

-- `is_some_and(|m| m.min_level <= level)`
unfoldable pub within_level : ℕ → Option OptMeta → Bool
within_level level (some m) = leb m.min_level level
within_level level none = false

unfoldable pub level_loop : Registry → ℕ → List String → List String
unfolding meta within_level
level_loop r level [] = []
level_loop r level (n ∷ ns) =
    let rest = level_loop r level ns in if within_level level (meta r n) then n ∷ rest else rest

unfoldable pub at_level : Registry → ℕ → List String
unfolding names_of level_loop
at_level r level = level_loop r level (names_of r.items)

-- The declared conflicts that are enabled.
unfoldable pub declared : List String → List String → List String
unfolding contains
declared enabled [] = []
declared enabled (c ∷ cs) =
    let rest = declared enabled cs in if contains enabled c then c ∷ rest else rest

-- Whether an enabled optimization names `name` as a conflict.
unfoldable pub names_it : String → Option OptMeta → Bool
unfolding contains
names_it name (some m) = contains m.conflicts_with name
names_it name none = false

-- The loop over the enabled ones that declare the conflict from their side.
unfoldable pub add_declaring : Registry → String → List String → List String → List String
unfolding meta names_it contains
add_declaring r name [] out = out
add_declaring r name (e ∷ es) out =
    add_declaring r name es
      (if names_it name (meta r e) && not (contains out e) then out ++ e ∷ [] else out)

-- `sort`
unfoldable pub insert_name : String → List String → List String
insert_name n [] = n ∷ []
insert_name n (m ∷ ms) = elim (compare_str n m) [
  | Ordering.gt ↦ m ∷ insert_name n ms
  | Ordering.lt ↦ n ∷ m ∷ ms
  | Ordering.eq ↦ n ∷ m ∷ ms
]

unfoldable pub sort : List String → List String
unfolding insert_name
sort [] = []
sort (n ∷ ns) = insert_name n (sort ns)

-- `conflicts_among` on the metadata of the name, if it is registered.
unfoldable pub conflicts_of : Registry → String → List String → Option OptMeta → List String
unfolding declared add_declaring sort
conflicts_of r name enabled none = []
conflicts_of r name enabled (some m) =
    sort (add_declaring r name enabled (declared enabled m.conflicts_with))

unfoldable pub conflicts_among : Registry → String → List String → List String
unfolding conflicts_of
conflicts_among r name enabled = conflicts_of r name enabled (meta r name)

-- The names that are not registered.
unfoldable pub unknown_names : Registry → List String → List String
unfolding registered
unknown_names r [] = []
unknown_names r (n ∷ ns) =
    let rest = unknown_names r ns in if not (registered r n) then n ∷ rest else rest

-- `dedup`: one of each run of equal names, after the name that was kept last.
unfoldable pub dedup_after : String → List String → List String
dedup_after last [] = []
dedup_after last (n ∷ ns) =
    let same = dedup_after last ns in
    let next = dedup_after n ns in if str_eq last n then same else n ∷ next

unfoldable pub dedup : List String → List String
unfolding dedup_after
dedup [] = []
dedup (n ∷ ns) = n ∷ dedup_after n ns

-- `is_empty`, and what follows it.
unfoldable pub report : List String → Option (List String)
unfolding sort dedup
report [] = none
report (n ∷ ns) = some (dedup (sort (n ∷ ns)))

-- The overrides are given by their names. `none` is `Ok`, `some` the names that the error lists.
unfoldable pub validate_overrides : Registry → List String → Option (List String)
unfolding unknown_names report
validate_overrides r overrides = report (unknown_names r overrides)
