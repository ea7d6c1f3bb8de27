-- ===== src/Engine/Unique/Tests.antt =====
-- Unique constraints of crates/adabt-engine/src/unique.rs at concrete names.
use a_da_bt.Prelude.{◌≡◌, refl, false, List, [], ◌∷◌, none, some, arith, take}
use a_da_bt.Storage.Utf8.{utf8}
use a_da_bt.Engine.Unique.{no_constraints, contains, add, remove, on, write, read}
use a_da_bt.Engine.Unique.Runs.{Change, declared, lifted, change_all, read-change_all}

abbrev changes : List Change
changes =
    declared "users" "email"
    ∷ declared "items" "code"
    ∷ declared "users" "email"
    ∷ declared "users" "name"
    ∷ lifted "items" "code"
    ∷ []

fields_of_users : on (change_all changes no_constraints) "users" ≡ "email" ∷ "name" ∷ []
unfolding change_all add remove on
fields_of_users = refl

lifted_is_gone : contains (change_all changes no_constraints) "items" "code" ≡ false
unfolding change_all add remove contains
lifted_is_gone = refl

no_file : read none ≡ no_constraints
unfolding read
no_file = refl

cut_file : read (some (take 30 (write (change_all changes no_constraints)))) ≡ no_constraints
unfolding read write change_all add remove utf8
cut_file = refl

read-change_all_example :
    read (some (write (change_all changes no_constraints))) ≡ change_all changes no_constraints
unfolding utf8
read-change_all_example =
    read-change_all changes
      (
        (omega arith, omega arith),
        (
          (omega arith, omega arith),
          ((omega arith, omega arith), ((omega arith, omega arith), tt)),
        ),
      )
      (omega arith)
