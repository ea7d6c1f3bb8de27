-- ===== src/Engine/Unique/Runs.antt =====
-- crates/adabt-engine/src/unique.rs: whatever is declared and lifted, the file keeps it.
use a_da_bt.Prelude.{ℕ, ◌+◌, ◌^◌, ◌<◌, ◌≡◌, String, List, [], ◌∷◌, some, length, arith}
use a_da_bt.Engine.Unique.{UniqueConstraints, no_constraints, add, remove, write, read}
use a_da_bt.Engine.Unique.RoundTrip.{Ascending, PairsFit, read-write}
use a_da_bt.Engine.Unique.Kept.{
  PairFits, insert_pair-Ascending, remove_pair-Ascending, insert_pair-fit, remove_pair-fit,
  length-insert_pair, length-remove_pair,
}

pub data Change : Type 0 where
  declared : String → String → Change
  lifted : String → String → Change

unfoldable pub change_all : List Change → UniqueConstraints → UniqueConstraints
change_all [] u = u
change_all (declared c f ∷ vs) u = change_all vs (add u c f).1
change_all (lifted c f ∷ vs) u = change_all vs (remove u c f).1

-- Only the names that are declared reach the file.
abbrev pub NamesFit : List Change → Type 0
NamesFit [] = Unit {0}
NamesFit (declared c f ∷ vs) = PairFits (c, f) × NamesFit vs
NamesFit (lifted c f ∷ vs) = NamesFit vs

record Storable (u : UniqueConstraints) (room : ℕ) : Type 0 where
  in_order : Ascending u.fields
  names_fit : PairsFit u.fields
  count_fits : length u.fields + room < 2 ^ 32

change_all-Storable :
    (vs : List Change) (u : UniqueConstraints)
    → NamesFit vs
    → Storable u (length vs)
    → Storable (change_all vs u) 0
unfolding change_all add remove
change_all-Storable [] u h s = s
change_all-Storable (declared c f ∷ vs) u (p, h) s = change_all-Storable vs _ h (record {
  in_order = insert_pair-Ascending u.fields (c, f) s.in_order;
  names_fit = insert_pair-fit u.fields (c, f) p s.names_fit;
  count_fits = omega (arith, length-insert_pair u.fields (c, f), s.count_fits);
})
change_all-Storable (lifted c f ∷ vs) u h s = change_all-Storable vs _ h (record {
  in_order = remove_pair-Ascending u.fields (c, f) s.in_order;
  names_fit = remove_pair-fit u.fields (c, f) s.names_fit;
  count_fits = omega (arith, length-remove_pair u.fields (c, f), s.count_fits);
})

-- After fewer than 2 ^ 32 declarations and removals in any order, from no constraints and with
-- declared names shorter than 2 ^ 32 bytes, the set written to the file is read back as it was.
pub read-change_all :
    (vs : List Change)
    → NamesFit vs
    → length vs < 2 ^ 32
    → read (some (write (change_all vs no_constraints))) ≡ change_all vs no_constraints
read-change_all vs h n =
    let s =
      change_all-Storable vs no_constraints h
        (record { in_order = tt; names_fit = tt; count_fits = omega (arith, n) }) in
    read-write (change_all vs no_constraints) s.in_order s.names_fit (omega (arith, s.count_fits))
