-- ===== src/Index/Ids.antt =====
-- crates/adabt-index/src/lib.rs: the id lists stay ascending and hold what was put in.
use a_da_bt.Prelude.{
  ℕ, suc, ◌+◌, ◌≡◌, refl, sym, subst, Bool, true, false, not, ◌&&◌, ◌||◌, List, [], ◌∷◌, length,
  ltb, leb, ◌==◌, arith, Bool-cases, inl, inr,
}
use a_da_bt.Core.Record.{Slot, found, vacant, next_slot}
use a_da_bt.Index.{search, insert_at, remove_at, is_empty}

unfoldable pub contains_id : List ℕ → ℕ → Bool
contains_id [] id = false
contains_id (x ∷ xs) id = (x == id) || contains_id xs id

-- Strictly ascending, from `lo` on.
unfoldable pub ascending_from : ℕ → List ℕ → Bool
ascending_from lo [] = true
ascending_from lo (x ∷ xs) = leb lo x && ascending_from (suc x) xs

pub contains_below :
    (ids : List ℕ) (lo id : ℕ)
    → ascending_from lo ids ≡ true
    → ltb id lo ≡ true
    → contains_id ids id ≡ false
unfolding contains_id ascending_from
contains_below [] lo id h l = refl
contains_below (x ∷ xs) lo id h l = ground (arith, h, l, contains_below xs (suc x) id)

ascending_weaken :
    (ids : List ℕ) (lo hi : ℕ)
    → leb lo hi ≡ true
    → ascending_from hi ids ≡ true
    → ascending_from lo ids ≡ true
unfolding ascending_from
ascending_weaken [] lo hi l h = refl
ascending_weaken (x ∷ xs) lo hi l h = ground (arith, l, h)

-- What a search on ascending ids says.
pub data Searched (ids : List ℕ) (id lo : ℕ) : Slot → Type 0 where
  at_place :
      (i : ℕ)
      → contains_id ids id ≡ true
      → ((y : ℕ) → contains_id (remove_at ids i) y ≡ contains_id ids y && not (id == y))
      → ascending_from lo (remove_at ids i) ≡ true
      → length (remove_at ids i) + 1 ≡ length ids
      → Searched ids id lo (found i)
  at_gap :
      (i : ℕ)
      → contains_id ids id ≡ false
      → ((y : ℕ) → contains_id (insert_at ids i id) y ≡ (id == y) || contains_id ids y)
      → ascending_from lo (insert_at ids i id) ≡ true
      → length (insert_at ids i id) ≡ length ids + 1
      → is_empty (insert_at ids i id) ≡ false
      → Searched ids id lo (vacant i)

behind-Searched :
    (x : ℕ) (xs : List ℕ) (id lo : ℕ) (slot : Slot)
    → leb lo x ≡ true
    → ltb x id ≡ true
    → Searched xs id (suc x) slot
    → Searched (x ∷ xs) id lo (next_slot slot)
unfolding contains_id ascending_from insert_at remove_at
behind-Searched x xs id lo slot b l (at_place i c r a n) =
    at_place (suc i) (ground (arith, c)) (λ y. ground (arith, l, r y)) (ground (arith, b, a))
      (omega (arith, n))
behind-Searched x xs id lo slot b l (at_gap i c r a n e) =
    at_gap (suc i) (ground (arith, l, c)) (λ y. ground (arith, r y)) (ground (arith, b, a))
      (omega (arith, n)) refl

here-Searched :
    (x : ℕ) (xs : List ℕ) (lo : ℕ)
    → ascending_from lo (x ∷ xs) ≡ true
    → Searched (x ∷ xs) x lo (found 0)
unfolding contains_id ascending_from remove_at
here-Searched x xs lo h =
    let below = contains_below xs (suc x) x (ground (arith, h)) (ground arith) in
    at_place 0 (ground arith) (λ y. ground (arith, below))
      (ascending_weaken xs lo (suc x) (ground (arith, h)) (ground (arith, h))) (omega arith)

before-Searched :
    (x : ℕ) (xs : List ℕ) (id lo : ℕ)
    → ascending_from lo (x ∷ xs) ≡ true
    → leb lo id ≡ true
    → ltb id x ≡ true
    → Searched (x ∷ xs) id lo (vacant 0)
unfolding contains_id ascending_from insert_at
before-Searched x xs id lo h l b =
    let below = contains_below xs (suc x) id (ground (arith, h)) (ground (arith, b)) in
    at_gap 0 (ground (arith, below, b)) (λ y. refl) (ground (arith, h, l, b)) (omega arith) refl

pub search-Searched :
    (ids : List ℕ) (id lo : ℕ)
    → ascending_from lo ids ≡ true
    → leb lo id ≡ true
    → Searched ids id lo (search ids id)
unfolding search contains_id ascending_from insert_at
search-Searched [] id lo h l = at_gap 0 refl (λ y. refl) (ground (arith, l)) refl refl
search-Searched (x ∷ xs) id lo h l = elim (Bool-cases (ltb x id)) [
  | inl t ↦ subst (Searched (x ∷ xs) id lo) (sym (rw (t))) (
      behind-Searched x xs id lo (search xs id) (ground (arith, h)) t
        (search-Searched xs id (suc x) (ground (arith, h)) (ground (arith, t))))
  | inr f ↦ elim (Bool-cases (x == id)) [
    | inl e ↦
        let same : x ≡ id = ground (arith, e) in
        let answer : search (x ∷ xs) id ≡ found 0 = ground (arith, f, e) in
        subst (Searched (x ∷ xs) id lo) (sym answer)
          (subst (λ i. Searched (x ∷ xs) i lo (found 0)) same (here-Searched x xs lo h))
    | inr g ↦
        let answer : search (x ∷ xs) id ≡ vacant 0 = ground (arith, f, g) in
        subst (Searched (x ∷ xs) id lo) (sym answer)
          (before-Searched x xs id lo h l (ground (arith, f, g)))
  ]
]
