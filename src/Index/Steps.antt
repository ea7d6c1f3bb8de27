-- ===== src/Index/Steps.antt =====
-- crates/adabt-index/src/lib.rs: what an insertion and a removal do to a sound index.
use a_da_bt.Prelude.{
  ℕ, ◌+◌, ◌*◌, ◌≡◌, refl, sym, subst, ap, ◌∙◌, Bool, true, false, not, ◌&&◌, ◌||◌, List, [], ◌∷◌,
  some, none, length, ◌==◌, arith, Bool-cases, inl, inr, if◌then◌else◌,
}
use a_da_bt.Index.{
  Keys, Core, get_key, put_key, remove_key, is_empty, id_bytes, node_overhead, unwrap_or_default,
  settle, lookup,
}
use a_da_bt.Index.Ids.{contains_id, ascending_from}
use a_da_bt.Index.Maps.{
  Lawful, Apart, get-put, get-same, get-remove, put-Apart, remove-Apart, sum, sum-put, sum-remove,
}

and_true : {b : Bool} → (b && true) ≡ b
and_true {b = true} = refl
and_true {b = false} = refl

abbrev pub Good : List ℕ → Type 0
Good ids = (ascending_from 0 ids ≡ true) × (is_empty ids ≡ false)

module _ {K : Type 0} ⦃keys : Keys K⦄ where
  abbrev pub ids_weight : K → List ℕ → ℕ
  ids_weight k ids = length ids

  abbrev pub bytes_weight : K → List ℕ → ℕ
  bytes_weight k ids = keys.key_bytes k + node_overhead + length ids * id_bytes

  -- The ids under a key ascend and are never none; the counters are the sums over the entries.
  pub record Sound (c : Core K) : Type 0 where
    pub apart : Apart c.map
    pub slots : (k : K) (ids : List ℕ) → get_key c.map k ≡ some ids → Good ids
    pub counted : c.entries ≡ sum ids_weight c.map
    pub weighed : c.bytes ≡ sum bytes_weight c.map

  -- What an operation on one key does to the ids under any key.
  abbrev pub Sets : Core K → K → List ℕ → Core K → Type 0
  Sets c k ids c' = (x : K) → lookup c' x ≡ (if keys.same k x then ids else lookup c x)

  abbrev pub Inserted : Core K → K → ℕ → Core K → Type 0
  Inserted c k id c' =
      (x : K) (y : ℕ)
      → contains_id (lookup c' x) y ≡ (keys.same k x && (id == y)) || contains_id (lookup c x) y

  abbrev pub Removed : Core K → K → ℕ → Core K → Type 0
  Removed c k id c' =
      (x : K) (y : ℕ)
      → contains_id (lookup c' x) y ≡ contains_id (lookup c x) y && not (keys.same k x && (id == y))

module _ {K : Type 0} ⦃keys : Keys K⦄ (law : Lawful keys) where
  pub ids_even :
      (j k : K) (ids : List ℕ) → keys.same j k ≡ true → ids_weight j ids ≡ ids_weight k ids
  ids_even j k ids t = refl

  pub bytes_even :
      (j k : K) (ids : List ℕ) → keys.same j k ≡ true → bytes_weight j ids ≡ bytes_weight k ids
  bytes_even j k ids t = omega (arith, law.same_bytes j k t)

  pub put-slots :
      (m : List (K × List ℕ)) (k : K) (ids : List ℕ)
      → Good ids
      → ((x : K) (js : List ℕ) → get_key m x ≡ some js → Good js)
      → (x : K) (js : List ℕ) → get_key (put_key m k ids) x ≡ some js
      → Good js
  put-slots m k ids g s x js h = elim (Bool-cases (keys.same k x)) [
    | inl t ↦ let same : ids ≡ js = cc (get-put law m k x ids, t, h) in subst Good same g
    | inr f ↦ s x js (cc (get-put law m k x ids, f, h))
  ]

  pub remove-slots :
      (m : List (K × List ℕ)) (k : K)
      → Apart m
      → ((x : K) (js : List ℕ) → get_key m x ≡ some js → Good js)
      → (x : K) (js : List ℕ) → get_key (remove_key m k) x ≡ some js
      → Good js
  remove-slots m k a s x js h = elim (Bool-cases (keys.same k x)) [
    | inl t ↦ absurd (cc (h, get-remove law m k x a, t))
    | inr f ↦ s x js (cc (h, get-remove law m k x a, f))
  ]

  pub put-Sets :
      (c : Core K) (k : K) (ids : List ℕ) (x : K)
      → unwrap_or_default (get_key (put_key c.map k ids) x)
        ≡ (if keys.same k x then ids else lookup c x)
  unfolding lookup
  put-Sets c k ids x = ap unwrap_or_default (get-put law c.map k x ids) ∙ ground arith

  pub settle_lem :
      (c : Core K) (k : K) (old ids : List ℕ)
      → Apart c.map
      → ((x : K) (js : List ℕ) → get_key c.map x ≡ some js → Good js)
      → get_key c.map k ≡ some old
      → ascending_from 0 ids ≡ true
      → c.entries + length old ≡ sum ids_weight c.map + length ids
      → c.bytes + length old * id_bytes ≡ sum bytes_weight c.map + length ids * id_bytes
      → Sound (settle c k ids) × Sets c k ids (settle c k ids)
  unfolding settle lookup
  settle_lem c k old [] a s h g n b = (
    record {
      apart = remove-Apart law c.map k a;
      slots = remove-slots c.map k a s;
      counted = omega (arith, n, sum-remove law ids_weight ids_even c.map k old h);
      weighed = omega (arith, b, sum-remove law bytes_weight bytes_even c.map k old h);
    },
    λ x. ap unwrap_or_default (get-remove law c.map k x a) ∙ ground arith,
  )
  settle_lem c k old (i ∷ is) a s h g n b = (
    record {
      apart = put-Apart law c.map k (i ∷ is) a;
      slots = put-slots c.map k (i ∷ is) (g, refl) s;
      counted = omega (arith, n, sum-put law ids_weight ids_even c.map k old (i ∷ is) h);
      weighed = omega (arith, b, sum-put law bytes_weight bytes_even c.map k old (i ∷ is) h);
    },
    λ x. ap unwrap_or_default (get-put law c.map k x (i ∷ is)) ∙ ground arith,
  )

  lookup-same : (c : Core K) (j k : K) → keys.same j k ≡ true → lookup c j ≡ lookup c k
  unfolding lookup
  lookup-same c j k t = ap unwrap_or_default (get-same law c.map j k t)

  pub lookup-some :
      (c : Core K) (k : K) (ids : List ℕ) → get_key c.map k ≡ some ids → lookup c k ≡ ids
  unfolding lookup
  lookup-some c k ids h = ap unwrap_or_default h

  pub Sets-Removed :
      (c c' : Core K) (k : K) (id : ℕ) (ids : List ℕ)
      → Sets c k ids c'
      → ((y : ℕ) → contains_id ids y ≡ contains_id (lookup c k) y && not (id == y))
      → Removed c k id c'
  Sets-Removed c c' k id ids sets r x y = elim (Bool-cases (keys.same k x)) [
    | inl t ↦ rw (sets x, t, sym (lookup-same c k x t), r y)
    | inr f ↦ rw (sets x, f, and_true)
  ]

  pub Sets-Inserted :
      (c c' : Core K) (k : K) (id : ℕ) (ids : List ℕ)
      → Sets c k ids c'
      → ((y : ℕ) → contains_id ids y ≡ (id == y) || contains_id (lookup c k) y)
      → Inserted c k id c'
  Sets-Inserted c c' k id ids sets r x y = elim (Bool-cases (keys.same k x)) [
    | inl t ↦ rw (sets x, t, sym (lookup-same c k x t), r y)
    | inr f ↦ rw (sets x, f)
  ]

  pub get-none : (c : Core K) (k : K) → get_key c.map k ≡ none → lookup c k ≡ []
  unfolding lookup
  get-none c k h = ap unwrap_or_default h

  pub Sets-kept : (c : Core K) (k : K) → Sets c k (lookup c k) c
  Sets-kept c k x = elim (Bool-cases (keys.same k x)) [
    | inl t ↦ rw t (sym (lookup-same c k x t))
    | inr f ↦ rw f
  ]

  pub none_absent :
      (c : Core K) (k : K) (id : ℕ) → get_key c.map k ≡ none → contains_id (lookup c k) id ≡ false
  unfolding contains_id
  none_absent c k id h = ap (λ ids. contains_id ids id) (get-none c k h)
