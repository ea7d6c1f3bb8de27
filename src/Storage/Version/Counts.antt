-- ===== src/Storage/Version/Counts.antt =====
-- crates/adabt-storage/src/version.rs: how often an id stands among the open snapshots.
use a_da_bt.Prelude.{
  ℕ, zero, suc, ◌+◌, ◌≡◌, ◌≢◌, refl, ap, Bool, true, false, Option, some, none, List, [], ◌∷◌, ◌++◌,
  ◌==◌, ==_iff, if◌then◌else◌, set, get_elem?, arith, inl, inr, ◌⊎◌,
}
use a_da_bt.Storage.Version.{position, init, last, swap_remove, remove_nth}

-- One where the numbers are the same.
abbrev pub one_if : ℕ → ℕ → ℕ
one_if x y = if x == y then 1 else 0

unfoldable pub count : ℕ → List ℕ → ℕ
count x [] = 0
count x (y ∷ ys) = one_if x y + count x ys

pub count-append : (x : ℕ) (xs ys : List ℕ) → count x (xs ++ ys) ≡ count x xs + count x ys
unfolding count
count-append x [] ys = omega arith
count-append x (y ∷ xs) ys = omega (arith, count-append x xs ys)

count-init :
    (x y : ℕ) (ys : List ℕ) → count x (y ∷ ys) ≡ count x (init (y ∷ ys)) + one_if x (last y ys)
unfolding count init last
count-init x y [] = omega arith
count-init x y (z ∷ ys) = omega (arith, count-init x z ys)

-- Overwriting at an index exchanges one element, or none out of range.
count-set :
    (x : ℕ) (ys : List ℕ) (i y z : ℕ)
    → get_elem? ys i ≡ some y
    → count x (set ys i z) + one_if x y ≡ count x ys + one_if x z
unfolding count
count-set x [] i y z h = absurd (cc)
count-set x (w ∷ ys) zero y z h = let same : w ≡ y = cc in rw same (omega arith)
count-set x (w ∷ ys) (suc i) y z h = omega (arith, count-set x ys i y z h)

-- Where an element of a list stands: before the last, or last.
init-cases :
    (y : ℕ) (ys : List ℕ) (i z : ℕ)
    → get_elem? (y ∷ ys) i ≡ some z
    → (get_elem? (init (y ∷ ys)) i ≡ some z)
      ⊎ ((z ≡ last y ys) × ((v : ℕ) → set (init (y ∷ ys)) i v ≡ init (y ∷ ys)))
unfolding init last
init-cases y [] zero z h = inr (cc, λ v. refl)
init-cases y [] (suc i) z h = absurd (cc)
init-cases y (w ∷ ys) zero z h = inl h
init-cases y (w ∷ ys) (suc i) z h = elim (init-cases w ys i z h) [
  | inl e ↦ inl e
  | inr (e, same) ↦ inr (e, λ v. ap (λ l. y ∷ l) (same v))
]

-- Removing by position takes one element away, whichever it is.
pub count-swap_remove :
    (x : ℕ) (xs : List ℕ) (i z : ℕ)
    → get_elem? xs i ≡ some z
    → count x (swap_remove xs i) + one_if x z ≡ count x xs
unfolding swap_remove
count-swap_remove x [] i z h = absurd (cc)
count-swap_remove x (y ∷ ys) i z h = elim (init-cases y ys i z h) [
  | inl e ↦ omega (arith, count-init x y ys, count-set x (init (y ∷ ys)) i z (last y ys) e)
  | inr (e, same) ↦ rw (same (last y ys), e) (omega (arith, count-init x y ys))
]

pub count-remove_nth :
    (x : ℕ) (xs : List ℕ) (i z : ℕ)
    → get_elem? xs i ≡ some z
    → count x (remove_nth xs i) + one_if x z ≡ count x xs
unfolding remove_nth count
count-remove_nth x [] i z h = absurd (cc)
count-remove_nth x (y ∷ ys) zero z h = let same : y ≡ z = cc in rw same (omega arith)
count-remove_nth x (y ∷ ys) (suc i) z h = omega (arith, count-remove_nth x ys i z h)

zero_is_not_suc : (j : ℕ) → suc j ≢ 0
zero_is_not_suc j h = ground arith

abbrev found_at : Bool → Option ℕ → Option ℕ
found_at b o = if b then some 0 else elim o [ some j ↦ some (suc j) | none ↦ none ]

first_position : (o : Option ℕ) (b : Bool) → found_at b o ≡ some 0 → b ≡ true
first_position none true h = refl
first_position none false h = absurd (cc)
first_position (some j) true h = refl
first_position (some j) false h = absurd (zero_is_not_suc j (cc))

no_position : (o : Option ℕ) (b : Bool) → found_at b o ≡ none → (b ≡ false) × (o ≡ none)
no_position none true h = absurd (cc)
no_position none false h = (refl, refl)
no_position (some j) true h = absurd (cc)
no_position (some j) false h = absurd (cc)

next_position :
    (o : Option ℕ) (i : ℕ) (b : Bool) → found_at b o ≡ some (suc i) → (b ≡ false) × (o ≡ some i)
next_position none i true h = absurd (cc)
next_position none i false h = absurd (cc)
next_position (some j) i true h = absurd (cc)
next_position (some j) i false h = (refl, cc)

pub get-position : (x : ℕ) (xs : List ℕ) (i : ℕ) → position x xs ≡ some i → get_elem? xs i ≡ some x
unfolding position
get-position x [] i h = absurd (cc)
get-position x (y ∷ ys) zero h =
    ap some ((==_iff y x).0 (first_position (position x ys) (y == x) h))
get-position x (y ∷ ys) (suc i) h =
    get-position x ys i (next_position (position x ys) i (y == x) h).1

pub count-position : (x : ℕ) (xs : List ℕ) → position x xs ≡ none → count x xs ≡ 0
unfolding position count
count-position x [] h = refl
count-position x (y ∷ ys) h =
    let (other, none_left) = no_position (position x ys) (y == x) h in
    let zero_here : one_if x y ≡ 0 = ground arith in omega (arith, count-position x ys none_left)
