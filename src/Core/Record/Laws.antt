-- ===== src/Core/Record/Laws.antt =====
-- crates/adabt-core/src/record.rs: a record is a finite map from names, kept sorted.
use text.Mathlib.Text.{◌==◌ as str_eq}
use a_da_bt.Prelude.{
  ◌≡◌, ◌||◌, refl, sym, ap, subst, ◌∙◌, String, Bool, true, false, Option, some, none, List, [],
  ◌∷◌, if◌then◌else◌, eq_iff,
}
use a_da_bt.Core.Value.{Value}
use a_da_bt.Core.Names.{contains, str_eq_sym}
use a_da_bt.Core.Record.{
  Record, set_field, get, remove, empty, project, project_into, from_iter, from_iter_into,
}
use a_da_bt.Core.Record.Ordered.{IsSorted, Sorted, put-Sorted, drop_name-Sorted}
use a_da_bt.Core.Record.Lookup.{lookup-put, lookup-drop_name}
use a_da_bt.Core.Record.Fields.{lookup, get-lookup, set_field-put, remove-drop_name}

-- On a record in order, `set` keeps it in order, and afterwards the field set has the value and
-- every other field what it had.
pub set_field_lem :
    (r : Record) (n m : String) (v : Value)
    → IsSorted r
    → IsSorted (set_field r n v)
      × (get (set_field r n v) m ≡ (if str_eq m n then some v else get r m))
set_field_lem r n m v sorted = (
  subst Sorted (sym (set_field-put r n v)) (put-Sorted r.fields n v sorted),
  get-lookup (set_field r n v) m
      ∙ ap (λ fs. lookup fs m) (set_field-put r n v)
      ∙ lookup-put r.fields n m v
      ∙ ap (λ o. if str_eq m n then some v else o) (sym (get-lookup r m)),
)

-- On a record in order, `remove` answers what the field had, keeps the record in order, and
-- afterwards the field is missing and every other field has what it had.
pub remove_lem :
    (r : Record) (n m : String)
    → IsSorted r
    → ((remove r n).0 ≡ get r n)
      × IsSorted (remove r n).1
      × (get (remove r n).1 m ≡ (if str_eq m n then none else get r m))
remove_lem r n m sorted =
    let (answer, left) = remove-drop_name r n in
    (
      answer ∙ sym (get-lookup r n),
      subst Sorted (sym left) (drop_name-Sorted r.fields n sorted),
      get-lookup (remove r n).1 m
          ∙ ap (λ fs. lookup fs m) left
          ∙ lookup-drop_name r.fields n m sorted
          ∙ ap (λ o. if str_eq m n then none else o) (sym (get-lookup r m)),
    )

-- The first answer, or else the second.
abbrev pub over : Option Value → Option Value → Option Value
over (some v) o = some v
over none o = o

over-none : (o : Option Value) → over o none ≡ o
over-none none = refl
over-none (some v) = refl

-- A turn of the loop of `project` as a field asked for sees it: is it the name copied, is it among
-- the rest, what the source has in it and what has been copied.
project_turn :
    (b named : Bool) (v : Value) (source target : Option Value)
    → (b ≡ true → source ≡ some v)
    → (if named then over source (if b then some v else target) else (if b then some v else target))
      ≡ (if b || named then over source target else target)
project_turn true true v source target h = rw (h refl)
project_turn true false v source target h = rw (h refl)
project_turn false true v source target h = refl
project_turn false false v source target h = refl

-- A name the source does not have.
project_skip :
    (b named : Bool) (source target : Option Value)
    → (b ≡ true → source ≡ none)
    → (if named then over source target else target)
      ≡ (if b || named then over source target else target)
project_skip true true source target h = refl
project_skip true false source target h = rw (h refl)
project_skip false named source target h = refl

step-IsSorted :
    (o : Option Value) (out : Record) (n : String)
    → IsSorted out
    → IsSorted (elim o [ some v ↦ set_field out n v | none ↦ out ])
step-IsSorted none out n sorted = sorted
step-IsSorted (some v) out n sorted = (set_field_lem out n n v sorted).0

project_into-IsSorted :
    (r : Record) (names : List String) (out : Record)
    → IsSorted out
    → IsSorted (project_into r names out)
unfolding project_into
project_into-IsSorted r [] out sorted = sorted
project_into-IsSorted r (n ∷ names) out sorted =
    project_into-IsSorted r names _ (step-IsSorted (get r n) out n sorted)

step_get :
    (r : Record) (n m : String) (named : Bool) (out : Record) (o : Option Value)
    → IsSorted out
    → get r n ≡ o
    → (if named
        then over (get r m) (get (elim o [ some v ↦ set_field out n v | none ↦ out ]) m)
        else get (elim o [ some v ↦ set_field out n v | none ↦ out ]) m)
      ≡ (if str_eq n m || named then over (get r m) (get out m) else get out m)
step_get r n m named out none sorted h =
    project_skip (str_eq n m) named (get r m) (get out m)
      (λ e. subst (λ z. get r z ≡ none) ((eq_iff n m).0 e) h)
step_get r n m named out (some v) sorted h =
    ap (λ t. if named then over (get r m) t else t)
      ((set_field_lem out n m v sorted).1
        ∙ ap (λ b. if b then some v else get out m) (str_eq_sym m n))
    ∙ project_turn (str_eq n m) named v (get r m) (get out m)
        (λ e. subst (λ z. get r z ≡ some v) ((eq_iff n m).0 e) h)

project_into-get :
    (r : Record) (names : List String) (out : Record) (m : String)
    → IsSorted out
    → get (project_into r names out) m
      ≡ (if contains names m then over (get r m) (get out m) else get out m)
unfolding project_into contains
project_into-get r [] out m sorted = refl
project_into-get r (n ∷ names) out m sorted =
    project_into-get r names _ m (step-IsSorted (get r n) out n sorted)
    ∙ step_get r n m (contains names m) out (get r n) sorted refl

get-empty : (m : String) → get empty m ≡ none
unfolding lookup
get-empty m = get-lookup empty m

kept_if :
    (b : Bool) (o t : Option Value)
    → t ≡ none
    → (if b then over o t else t) ≡ (if b then o else none)
kept_if true o t h = rw h (over-none o)
kept_if false o t h = h

-- The projection of a record on names is a record in order that has just the fields named, each
-- with its value; a name that the record lacks adds nothing, and a repeated name changes nothing.
pub project_lem :
    (r : Record) (names : List String) (m : String)
    → IsSorted (project r names)
      × (get (project r names) m ≡ (if contains names m then get r m else none))
unfolding project
project_lem r names m = (
  project_into-IsSorted r names empty tt,
  project_into-get r names empty m tt
      ∙ kept_if (contains names m) (get r m) (get empty m) (get-empty m),
)

-- The value of the last entry that has the name.
unfoldable pub last_of : List (String × Value) → String → Option Value
last_of [] m = none
last_of ((k, v) ∷ es) m = over (last_of es m) (if str_eq m k then some v else none)

over_set :
    (b : Bool) (v : Value) (later o : Option Value)
    → over later (if b then some v else o) ≡ over (over later (if b then some v else none)) o
over_set b v (some w) o = refl
over_set true v none o = refl
over_set false v none o = refl

from_iter_into_lem :
    (es : List (String × Value)) (r : Record) (m : String)
    → IsSorted r
    → IsSorted (from_iter_into es r) × (get (from_iter_into es r) m ≡ over (last_of es m) (get r m))
unfolding from_iter_into last_of
from_iter_into_lem [] r m sorted = (sorted, refl)
from_iter_into_lem ((k, v) ∷ es) r m sorted =
    let (kept, found) = set_field_lem r k m v sorted in
    let (kept_all, found_all) = from_iter_into_lem es (set_field r k v) m kept in
    (
      kept_all,
      found_all
          ∙ ap (λ o. over (last_of es m) o) found
          ∙ over_set (str_eq m k) v (last_of es m) (get r m),
    )

-- A record collected from entries is in order, and each field has the value of the last entry of
-- its name.
pub from_iter_lem :
    (es : List (String × Value)) (m : String)
    → IsSorted (from_iter es) × (get (from_iter es) m ≡ last_of es m)
unfolding from_iter
from_iter_lem es m =
    let (sorted, found) = from_iter_into_lem es empty m tt in
    (sorted, found ∙ ap (λ o. over (last_of es m) o) (get-empty m) ∙ over-none (last_of es m))
