-- ===== src/Storage/Page/Seal.antt =====
-- crates/adabt-storage/src/page.rs: what is sealed is accepted, and reads the same.
use a_da_bt.Prelude.{
  ℕ, zero, suc, ◌+◌, ◌-◌, ◌*◌, ◌^◌, ◌≤◌, ◌<◌, ◌≡◌, refl, sym, ap, ◌∙◌, Bool, true, false, ◌||◌, not,
  ltb, leb, ◌==◌, if◌then◌else◌, arith,
}
use a_da_bt.Storage.Page.{
  Page, page_size, header_size, slot_size, u16_at, slot_count, free_end, slot_at, slice,
  checksum_mismatch, bad_header, outside, is_beyond, out_of_range, dead_slot, ok, err, panicked,
  get,
}
use a_da_bt.Storage.Page.Read.{IsSound, got, get-got}
use a_da_bt.Storage.Page.Checksum.{
  checksum_loop, compute_checksum, stored_checksum, store_checksum, seal, from_bytes,
}

store_behind : (p : Page) (c i : ℕ) → 4 ≤ i → store_checksum p c i ≡ p i
unfolding store_checksum
store_behind p c i h = let behind : ltb i 4 ≡ false = ground arith in rw behind refl

checksum_kept :
    (p : Page) (c i n h : ℕ)
    → 4 ≤ i
    → checksum_loop (store_checksum p c) i n h ≡ checksum_loop p i n h
unfolding checksum_loop
checksum_kept p c i zero h k = refl
checksum_kept p c i (suc n) h k =
    rw (store_behind p c i k) (checksum_kept p c (i + 1) n _ (omega arith))

checksum_bound : (p : Page) (i n h : ℕ) → h < 2 ^ 32 → checksum_loop p i n h < 2 ^ 32
unfolding checksum_loop
checksum_bound p i zero h k = k
checksum_bound p i (suc n) h k = checksum_bound p (i + 1) n _ (omega arith)

stored-store : (p : Page) (c : ℕ) → c < 2 ^ 32 → stored_checksum (store_checksum p c) ≡ c
unfolding stored_checksum store_checksum
stored-store p c h = omega arith

compute-store : (p : Page) (c : ℕ) → compute_checksum (store_checksum p c) ≡ compute_checksum p
unfolding compute_checksum
compute-store p c = checksum_kept p c 4 (page_size - 4) 0x811c_9dc5 (omega arith)

compute_bound : (p : Page) → compute_checksum p < 2 ^ 32
unfolding compute_checksum
compute_bound p = checksum_bound p 4 (page_size - 4) 0x811c_9dc5 (omega arith)

u16_behind : (p : Page) (c i : ℕ) → 4 ≤ i → u16_at (store_checksum p c) i ≡ u16_at p i
unfolding u16_at
u16_behind p c i h = rw (store_behind p c i h, store_behind p c (i + 1) (omega arith)) refl

slice_behind :
    (p : Page) (c off len : ℕ) → 4 ≤ off → slice (store_checksum p c) off len ≡ slice p off len
unfolding slice
slice_behind p c off zero h = refl
slice_behind p c off (suc len) h =
    rw (store_behind p c off h, slice_behind p c (off + 1) len (omega arith)) refl

count_behind : (p : Page) (c : ℕ) → slot_count (store_checksum p c) ≡ slot_count p
unfolding slot_count
count_behind p c = u16_behind p c 12 (omega arith)

end_behind : (p : Page) (c : ℕ) → free_end (store_checksum p c) ≡ free_end p
unfolding free_end
end_behind p c = u16_behind p c 14 (omega arith)

slot_behind : (p : Page) (c j : ℕ) → slot_at (store_checksum p c) j ≡ slot_at p j
unfolding slot_at
slot_behind p c j =
    rw
      (
        u16_behind p c (header_size + j * slot_size) (omega arith),
        u16_behind p c (header_size + j * slot_size + 2) (omega arith),
      )
      refl

accepted :
    (stored computed count end : ℕ) (p : Page)
    → stored ≡ computed
    → header_size + count * slot_size ≤ end
    → end ≤ page_size
    → (if not (stored == computed)
        then err checksum_mismatch
        else if ltb page_size (header_size + count * slot_size) || ltb page_size end
        then err bad_header
        else if ltb end (header_size + count * slot_size)
        then err bad_header
        else ok p)
      ≡ ok p
accepted stored computed count end p same low high =
    let g1 : not (stored == computed) ≡ false = ground arith in
    let g2 : (ltb page_size (header_size + count * slot_size) || ltb page_size end) ≡ false =
      ground arith in
    let g3 : ltb end (header_size + count * slot_size) ≡ false = ground arith in
    rw (g1, g2, g3) refl

from_bytes_ok :
    (p : Page)
    → stored_checksum p ≡ compute_checksum p
    → header_size + slot_count p * slot_size ≤ free_end p
    → free_end p ≤ page_size
    → from_bytes p ≡ ok p
unfolding from_bytes
from_bytes_ok p same low high =
    accepted (stored_checksum p) (compute_checksum p) (slot_count p) (free_end p) p same low high

slice_guarded :
    (p : Page) (c off len : ℕ) (b : Bool)
    → (b ≡ false → 4 ≤ off)
    → (if b then err outside else ok (slice (store_checksum p c) off len))
      ≡ (if b then err outside else ok (slice p off len))
slice_guarded p c off len true h = refl
slice_guarded p c off len false h = ap ok (slice_behind p c off len (h refl))

low_off : (off len : ℕ) → (ltb off header_size || ltb page_size (off + len)) ≡ false → 4 ≤ off
low_off off len h = ground arith

got_behind :
    (p : Page) (c count s : ℕ) (at : ℕ × ℕ) → got count s at (store_checksum p c) ≡ got count s at p
got_behind p c count s at =
    ap
      (λ r.
        if leb count s
        then err out_of_range
        else if is_beyond s
        then panicked
        else if at.0 == 0
        then err dead_slot
        else r)
      (slice_guarded p c at.0 at.1 (ltb at.0 header_size || ltb page_size (at.0 + at.1))
        (low_off at.0 at.1))

-- A sound page that is sealed is accepted from disk as it is, and each of its slots answers what it
-- did before the sealing, dead and missing ones too.
pub from_bytes-seal :
    (p : Page) (s : ℕ)
    → IsSound p
    → (from_bytes (seal p) ≡ ok (seal p)) × (get (seal p) s ≡ get p s)
unfolding seal
from_bytes-seal p s sound =
    let c = compute_checksum p in
    (
      from_bytes_ok (store_checksum p c)
          (stored-store p c (compute_bound p) ∙ sym (compute-store p c))
          (omega (arith, sound.0, count_behind p c, end_behind p c))
          (omega (arith, sound.1, end_behind p c)),
      get-got (store_checksum p c) s
          ∙ ap (λ n. got n s (slot_at (store_checksum p c) s) (store_checksum p c))
              (count_behind p c)
          ∙ ap (λ x. got (slot_count p) s x (store_checksum p c)) (slot_behind p c s)
          ∙ got_behind p c (slot_count p) s (slot_at p s)
          ∙ sym (get-got p s),
    )
