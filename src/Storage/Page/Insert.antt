-- ===== src/Storage/Page/Insert.antt =====
-- crates/adabt-storage/src/page.rs: an inserted payload is read back, and the others still are.
use a_da_bt.Prelude.{
  ℕ, ◌+◌, ◌-◌, ◌*◌, ◌≤◌, ◌<◌, ◌≡◌, ◌≢◌, refl, sym, ap, ◌∙◌, subst, true, false, List, Option, some,
  none, length, ltb, ◌==◌, ==_iff, arith, Bool-cases, inl, inr,
}
use a_da_bt.Storage.Page.{
  Page, page_size, header_size, slot_size, max_payload, slot_count, free_start, free_end,
  free_space, can_fit, scanned, slot_at, set_slot, empty_payload, too_large, no_space, ok,
  find_dead, take_slot, slot_need, place, insert, get,
}
use a_da_bt.Storage.Page.Header.{
  slot_at-set_slot, slot_at-set_slot_other, slot_count-set_slot, free_end-set_slot, slice-set_slot,
}
use a_da_bt.Storage.Page.Read.{
  IsSound, Reusable, if_err, if_panicked, get_ok, got_ok, find_dead-Reusable, ok-injective, by_eq,
}
use a_da_bt.Storage.Page.Ready.{Ready, written, Enough, off_bounds, take_slot-Ready}

ne_of_test : (a b : ℕ) → (a == b) ≡ false → a ≢ b
ne_of_test a b h e = ground arith

-- The page with its slot written as well.
module _ (p q : Page) (off : ℕ) (payload : List ℕ) (slot : ℕ) (r : Ready p q off payload slot)
    (whole : off + length payload ≡ free_end p) (inside : free_end p ≤ page_size)
    (slots_below : header_size + slot_count p * slot_size ≤ off) where
  abbrev placed : Page
  placed = set_slot q slot off (length payload)

  placed-slot_at : slot_at placed slot ≡ (off, length payload)
  placed-slot_at = slot_at-set_slot q slot off (length payload) (omega arith) (omega arith)

  placed-other : (s : ℕ) → s < slot_count p → s ≢ slot → slot_at placed s ≡ slot_at p s
  placed-other s below other =
      slot_at-set_slot_other q slot off (length payload) s (λ e. other (sym e))
      ∙ r.slots_kept s (omega arith)

  get-placed : get placed slot ≡ ok payload
  get-placed =
      let count = slot_count-set_slot q slot off (length payload) in
      get_ok placed slot off (length payload) (omega (arith, r.counted)) placed-slot_at
        (omega (arith, r.slots_fit, count, inside)) (omega arith) (omega arith)
      ∙ ap ok
          (slice-set_slot q slot off (length payload) off (length payload) r.room ∙ r.payload_there)

  placed-IsSound : IsSound p → IsSound placed
  placed-IsSound (slots_end, below, sound) =
      let end = free_end-set_slot q slot off (length payload) ∙ r.end_moved in
      let count = slot_count-set_slot q slot off (length payload) in
      (
        omega (arith, r.slots_fit),
        omega arith,
        λ s h live. elim (Bool-cases (s == slot)) [
          | inl e ↦
              let same : s ≡ slot = (==_iff s slot).0 e in
              let at : slot_at placed s ≡ (off, length payload) =
                ap (λ k. slot_at placed k) same ∙ placed-slot_at in
              let first = ap (λ x. x.0) at in
              let second = ap (λ x. x.1) at in (omega arith, omega arith)
          | inr e ↦
              let other : s ≢ slot = ne_of_test s slot e in
              let old : s < slot_count p = r.new_only s (omega arith) other in
              let at = placed-other s old other in
              let first = ap (λ x. x.0) at in
              let second = ap (λ x. x.1) at in
              let (low, high) = sound s old (λ z. live (first ∙ z)) in (omega arith, omega arith)
        ],
      )

  placed-get : IsSound p → (s : ℕ) (bytes : List ℕ) → get p s ≡ ok bytes → get placed s ≡ ok bytes
  placed-get (slots_end, below, sound) s bytes h =
      let (old, live, read) = got_ok p s bytes h in
      let count = slot_count-set_slot q slot off (length payload) in
      let (low, high) = sound s old live in
      let at = (slot_at p s).0 in
      let len = (slot_at p s).1 in
      get_ok placed s at len (omega (arith, r.count_grows))
        (placed-other s old (r.fresh s old live)) (omega (arith, r.slots_fit, count, inside))
        (omega arith) high
      ∙ ap ok (
          slice-set_slot q slot off (length payload) at len (omega (arith, r.room))
          ∙ r.others_there at len (omega arith)
          ∙ read)

by_ltb : (a b : ℕ) → ltb a b ≡ false → b ≤ a
by_ltb a b h = ground arith

positive : (n : ℕ) → n ≢ 0 → 0 < n
positive n h = grind arith

inserted :
    (p : Page) (payload : List ℕ) (r : ℕ × Page)
    → insert p payload ≡ ok r
    → (length payload ≢ 0)
      × (length payload + slot_need (find_dead p 0 (slot_count p)) ≤ free_space p)
      × (place p (find_dead p 0 (slot_count p)) payload ≡ r)
unfolding insert
inserted p payload r h =
    let (g1, h1) = if_err (length payload == 0) empty_payload _ r h in
    let (g2, h2) = if_err (ltb max_payload (length payload)) too_large _ r h1 in
    let (scan, h3) = if_panicked _ _ r h2 in
    let (g3, h4) = if_err _ no_space _ r h3 in
    let (end, h5) = if_panicked _ _ r h4 in
    (by_eq (length payload) g1, by_ltb _ _ g3, ok-injective h5)

can_fit_room :
    (p : Page) (len : ℕ) (o : Option ℕ)
    → can_fit p len ≡ true
    → ltb (free_space p) (len + slot_need o) ≡ false
unfolding can_fit
can_fit_room p len none h = ground arith
can_fit_room p len (some i) h = ground arith

scan_inside :
    (p : Page) (o : Option ℕ)
    → Reusable p o
    → header_size + slot_count p * slot_size ≤ page_size
    → ltb page_size (header_size + scanned o (slot_count p) * slot_size) ≡ false
unfolding Reusable
scan_inside p none r h = ground arith
scan_inside p (some i) r h = let low = r.0 in ground (arith, low)

can_fit_slots :
    (p : Page) (len : ℕ)
    → can_fit p len ≡ true
    → header_size + slot_count p * slot_size ≤ free_end p
unfolding can_fit free_space free_start
can_fit_slots p len h = ground arith

-- Where `can_fit` answers true, a payload that is not empty and fits a page is inserted, on a page
-- whose payload region does not begin past its end, as `from_bytes` sees to.
pub insert-can_fit :
    (p : Page) (payload : List ℕ)
    → 0 < length payload
    → length payload ≤ max_payload
    → can_fit p (length payload) ≡ true
    → free_end p ≤ page_size
    → (r : ℕ × Page) × (insert p payload ≡ ok r)
unfolding insert
insert-can_fit p payload pos small room inside =
    let g1 : (length payload == 0) ≡ false = ground arith in
    let g2 : ltb max_payload (length payload) ≡ false = ground arith in
    let reuse = find_dead p 0 (slot_count p) in
    let slots_end = can_fit_slots p (length payload) room in
    let g3 =
      scan_inside p reuse (find_dead-Reusable p 0 (slot_count p) (omega arith))
        (omega (arith, slots_end, inside)) in
    let g4 : ltb page_size (free_end p) ≡ false = ground arith in
    (
      place p reuse payload,
      rw (insert, g1, g2, g3, can_fit_room p (length payload) reuse room, g4) refl,
    )

module _ (p q : Page) (payload : List ℕ) (slot : ℕ) (sound : IsSound p)
    (h : insert p payload ≡ ok (slot, q)) where
  -- On a sound page, inserting answers with a slot that holds the payload, and keeps the page
  -- sound.
  pub get-insert : (get q slot ≡ ok payload) × IsSound q
  unfolding place
  get-insert =
      let reuse = find_dead p 0 (slot_count p) in
      let (some_bytes, fits, same) = inserted p payload (slot, q) h in
      let enough : Enough p reuse payload = (sound.1, positive (length payload) some_bytes, fits) in
      let ready =
        take_slot-Ready p reuse payload (find_dead-Reusable p 0 (slot_count p) (omega arith))
          enough in
      let (room, whole) = off_bounds p reuse payload enough in
      let low : header_size + slot_count p * slot_size ≤ free_end p - length payload =
        omega arith in
      let off = free_end p - length payload in
      let taken = take_slot reuse (written p off payload) in
      subst (λ r. (get r.1 r.0 ≡ ok payload) × IsSound r.1) same
        (
          get-placed p taken.1 off payload taken.0 ready whole sound.1 low,
          placed-IsSound p taken.1 off payload taken.0 ready whole sound.1 low sound,
        )

  -- On a sound page, every slot that can be read before an insertion reads the same after it.
  pub insert_keeps : (s : ℕ) (bytes : List ℕ) → get p s ≡ ok bytes → get q s ≡ ok bytes
  unfolding place
  insert_keeps s bytes held =
      let reuse = find_dead p 0 (slot_count p) in
      let (some_bytes, fits, same) = inserted p payload (slot, q) h in
      let enough : Enough p reuse payload = (sound.1, positive (length payload) some_bytes, fits) in
      let ready =
        take_slot-Ready p reuse payload (find_dead-Reusable p 0 (slot_count p) (omega arith))
          enough in
      let (room, whole) = off_bounds p reuse payload enough in
      let low : header_size + slot_count p * slot_size ≤ free_end p - length payload =
        omega arith in
      let off = free_end p - length payload in
      let taken = take_slot reuse (written p off payload) in
      subst (λ r. get r.1 s ≡ ok bytes) same
        (placed-get p taken.1 off payload taken.0 ready whole sound.1 low sound s bytes held)
