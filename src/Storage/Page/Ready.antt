-- ===== src/Storage/Page/Ready.antt =====
-- crates/adabt-storage/src/page.rs: the page between the writes of a payload and of its slot.
use a_da_bt.Prelude.{
  ℕ, ◌+◌, ◌-◌, ◌*◌, ◌%◌, ◌^◌, ◌≤◌, ◌<◌, ◌≡◌, ◌≢◌, ap, ◌∙◌, List, Option, some, none, length, arith,
  inl, inr,
}
use a_da_bt.Storage.Page.{
  Page, page_size, header_size, slot_size, set_u16_at, write, slice, slot_count, free_end,
  free_start, free_space, slot_at, take_slot, slot_need,
}
use a_da_bt.Storage.Page.Bytes.{
  u16_back, u16_kept, slice_kept, u16-write_kept, slice-write_kept, slice-write,
}
use a_da_bt.Storage.Page.Header.{slot_at_kept, slot_at-write}
use a_da_bt.Storage.Page.Read.{Reusable}

-- The page between the writes of the payload and of its slot.
pub record Ready (p q : Page) (off : ℕ) (payload : List ℕ) (slot : ℕ) : Type 0 where
  pub end_moved : free_end q ≡ off
  pub slots_kept :
      (j : ℕ) → header_size + j * slot_size + slot_size ≤ off → slot_at q j ≡ slot_at p j
  pub payload_there : slice q off (length payload) ≡ payload
  pub others_there : (o l : ℕ) → off + length payload ≤ o → slice q o l ≡ slice p o l
  pub room : header_size + slot * slot_size + slot_size ≤ off
  pub counted : slot < slot_count q
  pub slots_fit : header_size + slot_count q * slot_size ≤ off
  pub count_grows : slot_count p ≤ slot_count q
  pub fresh : (j : ℕ) → j < slot_count p → (slot_at p j).0 ≢ 0 → j ≢ slot
  pub new_only : (j : ℕ) → j < slot_count q → j ≢ slot → j < slot_count p

-- The page once the payload and the end of the free space are written.
abbrev pub written : Page → ℕ → List ℕ → Page
written p off payload = set_u16_at (write p off payload) 14 off

abbrev pub Enough : Page → Option ℕ → List ℕ → Type 0
Enough p o payload =
    (free_end p ≤ page_size) × (0 < length payload) × (length payload + slot_need o ≤ free_space p)

pub off_bounds :
    (p : Page) (o : Option ℕ) (payload : List ℕ)
    → Enough p o payload
    → (header_size + slot_count p * slot_size + slot_need o ≤ free_end p - length payload)
      × (free_end p - length payload + length payload ≡ free_end p)
unfolding free_space free_start
off_bounds p o payload (h, pos, fits) = (omega arith, omega arith)

module _ (p : Page) (off : ℕ) (payload : List ℕ) (low : header_size ≤ off) where
  free_end-written : off < 2 ^ 16 → free_end (written p off payload) ≡ off
  unfolding free_end
  free_end-written h = u16_back (write p off payload) 14 off h

  slot_count-written : slot_count (written p off payload) ≡ slot_count p
  unfolding slot_count
  slot_count-written =
      u16_kept (write p off payload) 14 off 12 (inl (omega arith))
      ∙ u16-write_kept p off payload 12 (omega arith)

  slot_at-written :
      (j : ℕ)
      → header_size + j * slot_size + slot_size ≤ off
      → slot_at (written p off payload) j ≡ slot_at p j
  slot_at-written j h =
      slot_at_kept (write p off payload) 14 off j (omega arith) ∙ slot_at-write p off payload j h

  slice-written : slice (written p off payload) off (length payload) ≡ payload
  slice-written =
      slice_kept (write p off payload) 14 off off (length payload) (omega arith)
      ∙ slice-write p off payload

  slice-written_other :
      (o l : ℕ) → off + length payload ≤ o → slice (written p off payload) o l ≡ slice p o l
  slice-written_other o l h =
      slice_kept (write p off payload) 14 off o l (omega arith)
      ∙ slice-write_kept p off payload o l h

-- The slot count written.
new_count :
    (p : Page) (n : ℕ) → n + 1 < 2 ^ 16 → slot_count (set_u16_at p 12 ((n + 1) % 2 ^ 16)) ≡ n + 1
unfolding slot_count
new_count p n h = u16_back p 12 ((n + 1) % 2 ^ 16) (omega arith) ∙ omega arith

end_kept : (p : Page) (v : ℕ) → free_end (set_u16_at p 12 v) ≡ free_end p
unfolding free_end
end_kept p v = u16_kept p 12 v 14 (inr (omega arith))

pub take_slot-Ready :
    (p : Page) (o : Option ℕ) (payload : List ℕ)
    → Reusable p o
    → Enough p o payload
    → Ready p
        (take_slot o (written p (free_end p - length payload) payload)).1
        (free_end p - length payload)
        payload
        (take_slot o (written p (free_end p - length payload) payload)).0
unfolding take_slot Reusable
take_slot-Ready p (some i) payload (below, is_dead) enough =
    let off = free_end p - length payload in
    let (room, whole) = off_bounds p (some i) payload enough in
    let low : header_size ≤ off = omega arith in
    let count = slot_count-written p off payload low in
    record {
      end_moved = free_end-written p off payload low (omega (arith, enough.0));
      slots_kept = slot_at-written p off payload low;
      payload_there = slice-written p off payload low;
      others_there = slice-written_other p off payload low;
      room = omega arith;
      counted = omega arith;
      slots_fit = omega arith;
      count_grows = omega arith;
      fresh = λ j h live same. live (ap (λ k. (slot_at p k).0) same ∙ is_dead);
      new_only = λ j h other. omega arith;
    }
take_slot-Ready p none payload reuse enough =
    let off = free_end p - length payload in
    let (room, whole) = off_bounds p none payload enough in
    let low : header_size ≤ off = omega arith in
    let base = written p off payload in
    let count = slot_count-written p off payload low in
    let small : slot_count base + 1 < 2 ^ 16 = omega (arith, enough.0) in
    let next = new_count base (slot_count base) small in
    record {
      end_moved = end_kept base _ ∙ free_end-written p off payload low (omega (arith, enough.0));
      slots_kept =
          λ j h. slot_at_kept base 12 _ j (omega arith) ∙ slot_at-written p off payload low j h;
      payload_there =
          slice_kept base 12 _ off (length payload) (omega arith) ∙ slice-written p off payload low;
      others_there = λ o l h.
          slice_kept base 12 _ o l (omega arith) ∙ slice-written_other p off payload low o l h;
      room = omega arith;
      counted = omega arith;
      slots_fit = omega arith;
      count_grows = omega arith;
      fresh = λ j h live same. omega arith;
      new_only = λ j h other. grind arith;
    }
