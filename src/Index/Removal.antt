-- ===== src/Index/Removal.antt =====
-- crates/adabt-index/src/lib.rs: a removal.
use a_da_bt.Prelude.{
  ℕ, ◌-◌, ◌≡◌, refl, sym, subst, false, not, ◌&&◌, List, some, ◌==◌, arith, Option-cases, inl, inr,
}
use a_da_bt.Core.Record.{Slot, found, vacant}
use a_da_bt.Index.{
  Keys, Core, get_key, search, remove_at, id_bytes, settle, remove_from, remove, lookup,
}
use a_da_bt.Index.Ids.{contains_id, Searched, at_place, at_gap, search-Searched}
use a_da_bt.Index.Maps.{Lawful, sum-remove}
use a_da_bt.Index.Steps.{
  ids_weight, bytes_weight, ids_even, bytes_even, Sound, Removed, settle_lem, lookup-some,
  Sets-Removed, none_absent, Sets-kept,
}

absent_kept :
    (ids : List ℕ) (id y : ℕ)
    → contains_id ids id ≡ false
    → contains_id ids y ≡ contains_id ids y && not (id == y)
absent_kept ids id y h = ground (arith, h)

module _ {K : Type 0} ⦃keys : Keys K⦄ (law : Lawful keys) where
  remove_filed :
      (c : Core K) (k : K) (id : ℕ) (old : List ℕ)
      → Sound c
      → get_key c.map k ≡ some old
      → (s : Slot) → Searched old id 0 s
      → search old id ≡ s
      → Sound (remove_from c k id old) × Removed c k id (remove_from c k id old)
  unfolding remove_from lookup
  remove_filed c k id old sound h (found i) (at_place j there removed up n) e =
      let left = record c { entries = c.entries - 1; bytes = c.bytes - id_bytes } in
      let is : remove_from c k id old ≡ settle left k (remove_at old i) = rw (remove_from, e) in
      let r =
        settle_lem law left k old (remove_at old i) sound.apart sound.slots h up
          (omega (arith, sound.counted, n, sum-remove law ids_weight (ids_even law) c.map k old h))
          (omega (
            arith,
            sound.weighed,
            n,
            sum-remove law bytes_weight (bytes_even law) c.map k old h,
          )) in
      subst (λ c'. Sound c' × Removed c k id c') (sym is)
        (
          r.0,
          Sets-Removed law c (settle left k (remove_at old i)) k id (remove_at old i) r.1
              (λ y. rw (lookup-some law c k old h, removed y)),
        )
  remove_filed c k id old sound h (vacant i) (at_gap j absent added up n full) e =
      let is : remove_from c k id old ≡ settle c k old = rw (remove_from, e) in
      let r =
        settle_lem law c k old old sound.apart sound.slots h (sound.slots k old h).0
          (omega (arith, sound.counted)) (omega (arith, sound.weighed)) in
      subst (λ c'. Sound c' × Removed c k id c') (sym is)
        (
          r.0,
          Sets-Removed law c (settle c k old) k id old r.1
              (λ y. rw (lookup-some law c k old h) (absent_kept old id y absent)),
        )

  pub remove_lem :
      (c : Core K) (k : K) (id : ℕ)
      → Sound c
      → Sound (remove c k id) × Removed c k id (remove c k id)
  unfolding remove
  remove_lem c k id sound = elim (Option-cases (get_key c.map k)) [
    | inl h ↦
        let is : remove c k id ≡ c = rw (remove, h) in
        subst (λ c'. Sound c' × Removed c k id c') (sym is)
          (
            sound,
            Sets-Removed law c c k id (lookup c k) (Sets-kept law c k)
                (λ y. absent_kept (lookup c k) id y (none_absent law c k id h)),
          )
    | inr (old, h) ↦
        let is : remove c k id ≡ remove_from c k id old = rw (remove, h) in
        subst (λ c'. Sound c' × Removed c k id c') (sym is)
          (remove_filed c k id old sound h (search old id)
            (search-Searched old id 0 (sound.slots k old h).0 (ground arith)) refl)
  ]
