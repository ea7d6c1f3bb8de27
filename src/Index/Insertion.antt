-- ===== src/Index/Insertion.antt =====
-- crates/adabt-index/src/lib.rs: an insertion.
use a_da_bt.Prelude.{
  ℕ, ◌+◌, ◌≡◌, refl, sym, subst, ap, true, ◌||◌, List, [], ◌∷◌, some, none, ◌==◌, arith,
  Option-cases, inl, inr,
}
use a_da_bt.Core.Record.{Slot, found, vacant}
use a_da_bt.Index.{
  Keys, Core, get_key, put_key, search, insert_at, id_bytes, insert_into, insert, lookup,
}
use a_da_bt.Index.Ids.{contains_id, ascending_from, Searched, at_place, at_gap, search-Searched}
use a_da_bt.Index.Maps.{Lawful, put-Apart, sum-put_new, sum-put}
use a_da_bt.Index.Steps.{
  ids_weight, bytes_weight, ids_even, bytes_even, Sound, Inserted, put-slots, put-Sets, lookup-some,
  Sets-Inserted, get-none,
}

there_kept :
    (ids : List ℕ) (id y : ℕ)
    → contains_id ids id ≡ true
    → contains_id ids y ≡ (id == y) || contains_id ids y
there_kept ids id y h = ground (arith, h)

module _ {K : Type 0} ⦃keys : Keys K⦄ (law : Lawful keys) where
  insert_filed :
      (c : Core K) (k : K) (id : ℕ) (old : List ℕ)
      → Sound c
      → get_key c.map k ≡ some old
      → (s : Slot) → Searched old id 0 s
      → search old id ≡ s
      → Sound (insert_into c k id old) × Inserted c k id (insert_into c k id old)
  unfolding insert_into lookup
  insert_filed c k id old sound h (found i) (at_place j there removed up n) e =
      let full = (sound.slots k old h).1 in
      let after = record c { map = put_key c.map k old; bytes = c.bytes } in
      let is : insert_into c k id old ≡ after = rw (insert_into, e, full) in
      subst (λ c'. Sound c' × Inserted c k id c') (sym is)
        (
          record {
            apart = put-Apart law c.map k old sound.apart;
            slots = put-slots law c.map k old (sound.slots k old h) sound.slots;
            counted =
                omega
                  (arith, sound.counted, sum-put law ids_weight (ids_even law) c.map k old old h);
            weighed =
                omega (
                  arith,
                  sound.weighed,
                  sum-put law bytes_weight (bytes_even law) c.map k old old h,
                );
          },
          Sets-Inserted law c after k id old (put-Sets law c k old)
              (λ y. rw (lookup-some law c k old h) (there_kept old id y there)),
        )
  insert_filed c k id old sound h (vacant i) (at_gap j absent added up n full) e =
      let ids = insert_at old i id in
      let after = record c {
        map = put_key c.map k ids;
        entries = c.entries + 1;
        bytes = c.bytes + id_bytes;
      } in
      let is : insert_into c k id old ≡ after = rw (insert_into, e, (sound.slots k old h).1) in
      subst (λ c'. Sound c' × Inserted c k id c') (sym is)
        (
          record {
            apart = put-Apart law c.map k ids sound.apart;
            slots = put-slots law c.map k ids (up, full) sound.slots;
            counted =
                omega (
                  arith,
                  n,
                  sound.counted,
                  sum-put law ids_weight (ids_even law) c.map k old ids h,
                );
            weighed = omega (
              arith,
              n,
              sound.weighed,
              sum-put law bytes_weight (bytes_even law) c.map k old ids h,
            );
          },
          Sets-Inserted law c after k id ids (put-Sets law c k ids)
              (λ y. rw (lookup-some law c k old h, added y)),
        )

  insert_fresh :
      (c : Core K) (k : K) (id : ℕ)
      → Sound c
      → get_key c.map k ≡ none
      → Sound (insert_into c k id []) × Inserted c k id (insert_into c k id [])
  unfolding insert_into search insert_at lookup contains_id ascending_from
  insert_fresh c k id sound h = (
    record {
      apart = put-Apart law c.map k (id ∷ []) sound.apart;
      slots = put-slots law c.map k (id ∷ []) (ground arith, refl) sound.slots;
      counted =
          omega
            (arith, sound.counted, sum-put_new law ids_weight (ids_even law) c.map k (id ∷ []) h);
      weighed =
          omega (
            arith,
            sound.weighed,
            sum-put_new law bytes_weight (bytes_even law) c.map k (id ∷ []) h,
          );
    },
    Sets-Inserted law c (insert_into c k id []) k id (id ∷ []) (put-Sets law c k (id ∷ []))
        (λ y. ap (λ ids. (id == y) || contains_id ids y) (sym (get-none law c k h))),
  )

  pub insert_lem :
      (c : Core K) (k : K) (id : ℕ)
      → Sound c
      → Sound (insert c k id) × Inserted c k id (insert c k id)
  unfolding insert
  insert_lem c k id sound = elim (Option-cases (get_key c.map k)) [
    | inl h ↦
        let is : insert c k id ≡ insert_into c k id [] = rw (insert, h) in
        subst (λ c'. Sound c' × Inserted c k id c') (sym is) (insert_fresh c k id sound h)
    | inr (old, h) ↦
        let is : insert c k id ≡ insert_into c k id old = rw (insert, h) in
        subst (λ c'. Sound c' × Inserted c k id c') (sym is)
          (insert_filed c k id old sound h (search old id)
            (search-Searched old id 0 (sound.slots k old h).0 (ground arith)) refl)
  ]
