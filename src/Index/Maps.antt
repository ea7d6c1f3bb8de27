-- ===== src/Index/Maps.antt =====
-- crates/adabt-index/src/lib.rs: the entries of the key map.
use a_da_bt.Prelude.{
  ℕ, ◌+◌, ◌≡◌, refl, sym, subst, ◌∙◌, Bool, true, false, List, [], ◌∷◌, some, none, arith,
  Bool-cases, inl, inr, if◌then◌else◌,
}
use a_da_bt.Index.{Keys, get_key, put_key, remove_key}

-- Keys that are the same are the same as the same keys, and have one size.
pub record Lawful {K : Type 0} (keys : Keys K) : Type 0 where
  pub same_refl : (k : K) → keys.same k k ≡ true
  pub same_sym : (j k : K) → keys.same j k ≡ keys.same k j
  pub same_same : (j k x : K) → keys.same j k ≡ true → keys.same j x ≡ keys.same k x
  pub same_bytes : (j k : K) → keys.same j k ≡ true → keys.key_bytes j ≡ keys.key_bytes k

if_true : {A : Type 0} {b : Bool} (x y : A) → b ≡ true → (if b then x else y) ≡ x
if_true x y h = rw h

if_false : {A : Type 0} {b : Bool} (x y : A) → b ≡ false → (if b then x else y) ≡ y
if_false x y h = rw h

unfoldable pub sum : {K : Type 0} → (K → List ℕ → ℕ) → List (K × List ℕ) → ℕ
sum weight [] = 0
sum weight ((j, ids) ∷ m) = weight j ids + sum weight m

module _ {K : Type 0} ⦃keys : Keys K⦄ where
  -- No key is there twice.
  abbrev pub Apart : List (K × List ℕ) → Type 0
  Apart [] = Unit {0}
  Apart ((j, ids) ∷ m) = (get_key m j ≡ none) × Apart m

module _ {K : Type 0} ⦃keys : Keys K⦄ (law : Lawful keys) where
  -- What differs from one of two keys is apart from what is the same as the other.
  same_apart : (j k x : K) → keys.same j k ≡ false → keys.same j x ≡ true → keys.same k x ≡ false
  same_apart j k x f t = elim (Bool-cases (keys.same k x)) [
    | inl e ↦ absurd (cc (f, t, law.same_sym k j, law.same_sym x j, law.same_same k x j e))
    | inr e ↦ e
  ]

  pub get-put :
      (m : List (K × List ℕ)) (k x : K) (ids : List ℕ)
      → get_key (put_key m k ids) x ≡ (if keys.same k x then some ids else get_key m x)
  unfolding get_key put_key
  get-put [] k x ids = refl
  get-put ((j, js) ∷ m) k x ids = elim (Bool-cases (keys.same j k)) [
    | inl t ↦ ground (arith, t, law.same_same j k x t)
    | inr f ↦ ground (arith, f, get-put m k x ids, same_apart j k x f)
  ]

  pub get-same :
      (m : List (K × List ℕ)) (j k : K) → keys.same j k ≡ true → get_key m j ≡ get_key m k
  unfolding get_key
  get-same [] j k t = refl
  get-same ((i, is) ∷ m) j k t =
      ground (arith, get-same m j k t, law.same_sym i j, law.same_sym i k, law.same_same j k i t)

  pub get-remove :
      (m : List (K × List ℕ)) (k x : K)
      → Apart m
      → get_key (remove_key m k) x ≡ (if keys.same k x then none else get_key m x)
  unfolding get_key remove_key
  get-remove [] k x a = ground arith
  get-remove ((j, js) ∷ m) k x a = elim (Bool-cases (keys.same j k)) [
    | inl t ↦ ground (arith, t, law.same_same j k x t, get-same m j x, a.0)
    | inr f ↦ ground (arith, f, get-remove m k x a.1, same_apart j k x f)
  ]

  pub put-Apart : (m : List (K × List ℕ)) (k : K) (ids : List ℕ) → Apart m → Apart (put_key m k ids)
  unfolding get_key put_key
  put-Apart [] k ids a = (refl, tt)
  put-Apart ((j, js) ∷ m) k ids a = elim (Bool-cases (keys.same j k)) [
    | inl t ↦ subst Apart (sym (if_true _ _ t)) a
    | inr f ↦
        subst Apart (sym (if_false _ _ f))
          (get-put m k j ids ∙ rw (law.same_sym k j, f, a.0), put-Apart m k ids a.1)
  ]

  pub remove-Apart : (m : List (K × List ℕ)) (k : K) → Apart m → Apart (remove_key m k)
  unfolding get_key remove_key
  remove-Apart [] k a = tt
  remove-Apart ((j, js) ∷ m) k a = elim (Bool-cases (keys.same j k)) [
    | inl t ↦ subst Apart (sym (if_true _ _ t)) a.1
    | inr f ↦
        subst Apart (sym (if_false _ _ f))
          (get-remove m k j a.1 ∙ rw (law.same_sym k j, f, a.0), remove-Apart m k a.1)
  ]

  -- A sum over the entries, to which same keys give the same.
  module _ (weight : K → List ℕ → ℕ)
      (even : (j k : K) (ids : List ℕ) → keys.same j k ≡ true → weight j ids ≡ weight k ids) where
    pub sum-put_new :
        (m : List (K × List ℕ)) (k : K) (ids : List ℕ)
        → get_key m k ≡ none
        → sum weight (put_key m k ids) ≡ sum weight m + weight k ids
    unfolding sum get_key put_key
    sum-put_new [] k ids h = omega arith
    sum-put_new ((j, js) ∷ m) k ids h = ground (arith, h, sum-put_new m k ids)

    pub sum-put :
        (m : List (K × List ℕ)) (k : K) (old ids : List ℕ)
        → get_key m k ≡ some old
        → sum weight (put_key m k ids) + weight k old ≡ sum weight m + weight k ids
    unfolding sum get_key put_key
    sum-put [] k old ids h = absurd (cc h)
    sum-put ((j, js) ∷ m) k old ids h =
        ground (arith, h, sum-put m k old ids, even j k js, even j k ids)

    pub sum-remove :
        (m : List (K × List ℕ)) (k : K) (old : List ℕ)
        → get_key m k ≡ some old
        → sum weight (remove_key m k) + weight k old ≡ sum weight m
    unfolding sum get_key remove_key
    sum-remove [] k old h = absurd (cc h)
    sum-remove ((j, js) ∷ m) k old h = ground (arith, h, sum-remove m k old, even j k js)
