-- ===== src/Index/Answers.antt =====
-- crates/adabt-index/src/lib.rs: an index answers as the relation of keys and ids that it was told.
use a_da_bt.Prelude.{
  String, ℕ, ◌≡◌, refl, ap, ◌∙◌, Bool, true, false, not, ◌&&◌, ◌||◌, List, [], ◌∷◌, ◌==◌,
  Option-cases, inl, inr,
}
use a_da_bt.Index.{Keys, Core, get_key, unwrap_or_default, insert, remove, lookup}
use a_da_bt.Index.Ids.{contains_id, ascending_from}
use a_da_bt.Index.Maps.{Lawful, sum}
use a_da_bt.Index.{new}
use a_da_bt.Index.Steps.{ids_weight, bytes_weight, Sound}
use a_da_bt.Index.Removal.{remove_lem}
use a_da_bt.Index.Insertion.{insert_lem}

pub data Change (K : Type 0) : Type 0 where
  added : K → ℕ → Change K
  dropped : K → ℕ → Change K

module _ {K : Type 0} ⦃keys : Keys K⦄ where
  unfoldable pub change_all : List (Change K) → Core K → Core K
  change_all [] c = c
  change_all (added k id ∷ vs) c = change_all vs (insert c k id)
  change_all (dropped k id ∷ vs) c = change_all vs (remove c k id)

  -- Whether the id is filed under the key after the changes, where `b` says so of before.
  unfoldable pub is_filed : List (Change K) → K → ℕ → Bool → Bool
  is_filed [] x y b = b
  is_filed (added k id ∷ vs) x y b = is_filed vs x y ((keys.same k x && (id == y)) || b)
  is_filed (dropped k id ∷ vs) x y b = is_filed vs x y (b && not (keys.same k x && (id == y)))

  pub record Answers (vs : List (Change K)) (c : Core K) : Type 0 where
    pub filed_ids : (x : K) (y : ℕ) → contains_id (lookup c x) y ≡ is_filed vs x y false
    pub in_order : (x : K) → ascending_from 0 (lookup c x) ≡ true
    pub entry_count : c.entries ≡ sum ids_weight c.map
    pub byte_count : c.bytes ≡ sum bytes_weight c.map

module _ {K : Type 0} ⦃keys : Keys K⦄ (law : Lawful keys) where
  lookup-ascending : (c : Core K) (x : K) → Sound c → ascending_from 0 (lookup c x) ≡ true
  unfolding lookup ascending_from
  lookup-ascending c x sound = elim (Option-cases (get_key c.map x)) [
    | inl h ↦ ap (λ o. ascending_from 0 (unwrap_or_default o)) h
    | inr (ids, h) ↦ ap (λ o. ascending_from 0 (unwrap_or_default o)) h ∙ (sound.slots x ids h).0
  ]

  change_all-filed :
      (vs : List (Change K)) (c : Core K)
      → Sound c
      → Sound (change_all vs c)
        × ((x : K) (y : ℕ)
            → contains_id (lookup (change_all vs c) x) y
              ≡ is_filed vs x y (contains_id (lookup c x) y))
  unfolding change_all is_filed
  change_all-filed [] c sound = (sound, λ x y. refl)
  change_all-filed (added k id ∷ vs) c sound =
      let step = insert_lem law c k id sound in
      let rest = change_all-filed vs (insert c k id) step.0 in
      (rest.0, λ x y. rest.1 x y ∙ ap (is_filed vs x y) (step.1 x y))
  change_all-filed (dropped k id ∷ vs) c sound =
      let step = remove_lem law c k id sound in
      let rest = change_all-filed vs (remove c k id) step.0 in
      (rest.0, λ x y. rest.1 x y ∙ ap (is_filed vs x y) (step.1 x y))

  new-Sound : (name : String) → Sound (new {K = K} name)
  unfolding sum get_key
  new-Sound name = record {
    apart = tt;
    slots = λ k ids h. absurd (cc h);
    counted = refl;
    weighed = refl;
  }

  -- Where keys that are the same are the same as the same keys and have one size, an index that
  -- starts empty answers, after any insertions and removals in any order, with exactly the ids last
  -- inserted under the key, ascending and each once; its count of entries is that of the ids it
  -- holds, and its estimate is the sum of what its keys and ids take.
  pub change_all-new-Answers :
      (name : String) (vs : List (Change K)) → Answers vs (change_all vs (new name))
  unfolding lookup get_key contains_id
  change_all-new-Answers name vs =
      let r = change_all-filed vs (new name) (new-Sound name) in
      record {
        filed_ids = r.1;
        in_order = λ x. lookup-ascending (change_all vs (new name)) x r.0;
        entry_count = r.0.counted;
        byte_count = r.0.weighed;
      }
