-- ===== src/Storage/LittleEndian.antt =====
-- The fixed-width numbers of crates/adabt-storage: `to_le_bytes`, `from_le_bytes` and a reader that
-- takes a number from the front of a buffer.
use native.Mathlib.Nat.{pow-suc}
use a_da_bt.Prelude.{
  ℕ, zero, suc, ◌+◌, ◌*◌, ◌/◌, ◌%◌, ◌^◌, ◌<◌, ◌≡◌, refl, sym, ap, ◌∙◌, List, [], ◌∷◌, ◌++◌, Option,
  some, none, arith, length,
}

-- The bytes of a number, the low one first, in a width.
unfoldable pub le : ℕ → ℕ → List ℕ
le zero v = []
le (suc k) v = v % 256 ∷ le k (v / 256)

unfoldable pub from_le : List ℕ → ℕ
from_le [] = 0
from_le (b ∷ bs) = b + from_le bs * 256

unfoldable pub take_front : ℕ → List ℕ → Option (List ℕ × List ℕ)
take_front zero xs = some ([], xs)
take_front (suc n) [] = none
take_front (suc n) (x ∷ xs) = elim (take_front n xs) [
  | some (front, rest) ↦ some (x ∷ front, rest)
  | none ↦ none
]

unfoldable pub read_le : ℕ → List ℕ → Option (ℕ × List ℕ)
unfolding take_front from_le
read_le k xs = elim (take_front k xs) [
  | some (front, rest) ↦ some (from_le front, rest)
  | none ↦ none
]

pub length-le : (k v : ℕ) → length (le k v) ≡ k
unfolding le
length-le zero v = refl
length-le (suc k) v = ap suc (length-le k (v / 256))

pub from_le-le : (k v : ℕ) → v < 256 ^ k → from_le (le k v) ≡ v
unfolding le from_le
from_le-le zero v h = omega arith
from_le-le (suc k) v h =
    let below : v < 256 ^ k * 256 = omega (arith, pow-suc 256 k) in
    omega (arith, from_le-le k (v / 256) (omega arith))

pub take_front-append : (xs rest : List ℕ) → take_front (length xs) (xs ++ rest) ≡ some (xs, rest)
unfolding take_front
take_front-append [] rest = refl
take_front-append (x ∷ xs) rest = rw (take_front-append xs rest) refl

-- A number is read from where it was written.
pub read_le-le :
    (k v : ℕ) (rest : List ℕ) → v < 256 ^ k → read_le k (le k v ++ rest) ≡ some (v, rest)
unfolding read_le
read_le-le k v rest h =
    let taken : take_front k (le k v ++ rest) ≡ some (le k v, rest) =
      ap (λ n. take_front n (le k v ++ rest)) (sym (length-le k v))
      ∙ take_front-append (le k v) rest in
    rw (read_le, taken) (ap (λ n. some (n, rest)) (from_le-le k v h))
