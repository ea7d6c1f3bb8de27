-- ===== src/Storage/Page/Header.antt =====
-- crates/adabt-storage/src/page.rs: the counters and the slots after a write.
use a_da_bt.Prelude.{ℕ, ◌+◌, ◌*◌, ◌^◌, ◌≤◌, ◌<◌, ◌≡◌, ◌≢◌, refl, ◌∙◌, List, arith, inl, inr, ◌⊎◌}
use a_da_bt.Storage.Page.{
  Page, header_size, slot_size, u16_at, set_u16_at, write, slice, slot_count, free_end, slot_at,
  set_slot,
}
use a_da_bt.Storage.Page.Bytes.{u16_back, u16_kept, slice_kept, u16-write_kept}

pub slot_at_kept :
    (p : Page) (at v j : ℕ) → at + 2 ≤ header_size → slot_at (set_u16_at p at v) j ≡ slot_at p j
unfolding slot_at
slot_at_kept p at v j h =
    rw
      (
        u16_kept p at v (header_size + j * slot_size) (inr (omega arith)),
        u16_kept p at v (header_size + j * slot_size + 2) (inr (omega arith)),
      )
      refl

pub slot_at-write :
    (p : Page) (off : ℕ) (payload : List ℕ) (j : ℕ)
    → header_size + j * slot_size + slot_size ≤ off
    → slot_at (write p off payload) j ≡ slot_at p j
unfolding slot_at
slot_at-write p off payload j h =
    rw
      (
        u16-write_kept p off payload (header_size + j * slot_size) (omega arith),
        u16-write_kept p off payload (header_size + j * slot_size + 2) (omega arith),
      )
      refl

module _ (p : Page) (i off len : ℕ) where
  -- The slot written.
  pub slot_at-set_slot : off < 2 ^ 16 → len < 2 ^ 16 → slot_at (set_slot p i off len) i ≡ (off, len)
  unfolding slot_at set_slot
  slot_at-set_slot ho hl =
      let at = header_size + i * slot_size in
      rw
        (
          u16_kept (set_u16_at p at off) (at + 2) len at (inl (omega arith)),
          u16_back p at off ho,
          u16_back (set_u16_at p at off) (at + 2) len hl,
        )
        refl

  apart : (j : ℕ) → i ≢ j → (j + 1 ≤ i) ⊎ (i + 1 ≤ j)
  apart j h = grind arith

  u16_set_slot :
      (k : ℕ)
      → (k + 2 ≤ header_size + i * slot_size) ⊎ (header_size + i * slot_size + 4 ≤ k)
      → u16_at (set_slot p i off len) k ≡ u16_at p k
  unfolding set_slot
  u16_set_slot k (inl h) =
      let at = header_size + i * slot_size in
      u16_kept (set_u16_at p at off) (at + 2) len k (inl (omega arith))
      ∙ u16_kept p at off k (inl h)
  u16_set_slot k (inr h) =
      let at = header_size + i * slot_size in
      u16_kept (set_u16_at p at off) (at + 2) len k (inr (omega arith))
      ∙ u16_kept p at off k (inr (omega arith))

  other_at : (j : ℕ) → (j + 1 ≤ i) ⊎ (i + 1 ≤ j) → slot_at (set_slot p i off len) j ≡ slot_at p j
  unfolding slot_at
  other_at j (inl h) =
      rw
        (
          u16_set_slot (header_size + j * slot_size) (inl (omega arith)),
          u16_set_slot (header_size + j * slot_size + 2) (inl (omega arith)),
        )
        refl
  other_at j (inr h) =
      rw
        (
          u16_set_slot (header_size + j * slot_size) (inr (omega arith)),
          u16_set_slot (header_size + j * slot_size + 2) (inr (omega arith)),
        )
        refl

  -- Any other slot.
  pub slot_at-set_slot_other : (j : ℕ) → i ≢ j → slot_at (set_slot p i off len) j ≡ slot_at p j
  slot_at-set_slot_other j h = other_at j (apart j h)

  pub slot_count-set_slot : slot_count (set_slot p i off len) ≡ slot_count p
  unfolding slot_count
  slot_count-set_slot = u16_set_slot 12 (inl (omega arith))

  pub free_end-set_slot : free_end (set_slot p i off len) ≡ free_end p
  unfolding free_end
  free_end-set_slot = u16_set_slot 14 (inl (omega arith))

  pub slice-set_slot :
      (o l : ℕ)
      → header_size + i * slot_size + slot_size ≤ o
      → slice (set_slot p i off len) o l ≡ slice p o l
  unfolding set_slot
  slice-set_slot o l h =
      let at = header_size + i * slot_size in
      slice_kept (set_u16_at p at off) (at + 2) len o l (omega arith)
      ∙ slice_kept p at off o l (omega arith)
