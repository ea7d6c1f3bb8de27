-- ===== src/Storage/Page/Delete.antt =====
-- crates/adabt-storage/src/page.rs: a deleted slot is dead, and the others are as they were.
use a_da_bt.Prelude.{
  ℕ, ◌+◌, ◌*◌, ◌≤◌, ◌<◌, ◌≡◌, ◌≢◌, refl, sym, ap, ◌∙◌, false, List, leb, ◌==◌, ==_iff, arith,
  Bool-cases, inl, inr, subst,
}
use a_da_bt.Storage.Page.{
  Page, page_size, header_size, slot_size, is_beyond, slot_count, slot_at, set_slot, dead_slot, ok,
  err, delete, get,
}
use a_da_bt.Storage.Page.Header.{
  slot_at-set_slot, slot_at-set_slot_other, slot_count-set_slot, free_end-set_slot, slice-set_slot,
}
use a_da_bt.Storage.Page.Read.{
  IsSound, if_err, if_panicked, got, get-got, get_ok, got_ok, ok-injective, by_leb,
}

deleted :
    (p q : Page) (slot : ℕ)
    → delete p slot ≡ ok q
    → (slot < slot_count p) × (set_slot p slot 0 0 ≡ q)
unfolding delete
deleted p q slot h =
    let (g, e) = if_err (leb (slot_count p) slot) dead_slot _ q h in
    let (inside, f) = if_panicked _ _ q e in
    let (live, k) = if_err _ dead_slot _ q f in (by_leb (slot_count p) slot g, ok-injective k)

got_dead :
    (p : Page) (count s : ℕ)
    → s < count
    → header_size + count * slot_size ≤ page_size
    → got count s (0, 0) p ≡ err dead_slot
got_dead p count s below slots_end =
    let g1 : leb count s ≡ false = ground arith in
    let g2 : is_beyond s ≡ false = ground arith in rw (g1, g2) refl

ne_of_test : (a b : ℕ) → (a == b) ≡ false → a ≢ b
ne_of_test a b h e = ground arith

module _ (p : Page) (slot : ℕ) (sound : IsSound p) (below : slot < slot_count p) where
  abbrev killed : Page
  killed = set_slot p slot 0 0

  get-killed : get killed slot ≡ err dead_slot
  get-killed =
      let count = slot_count-set_slot p slot 0 0 in
      get-got killed slot
      ∙ ap (λ x. got (slot_count killed) slot x killed)
          (slot_at-set_slot p slot 0 0 (omega arith) (omega arith))
      ∙ got_dead killed (slot_count killed) slot (omega arith)
          (omega (arith, count, sound.0, sound.1))

  killed-IsSound : IsSound killed
  killed-IsSound =
      let count = slot_count-set_slot p slot 0 0 in
      let end = free_end-set_slot p slot 0 0 in
      (
        omega (arith, sound.0),
        omega (arith, sound.1),
        λ s h live. elim (Bool-cases (s == slot)) [
          | inl e ↦
              let at = slot_at-set_slot p slot 0 0 (omega arith) (omega arith) in
              absurd
                (live (ap (λ k. (slot_at killed k).0) ((==_iff s slot).0 e) ∙ ap (λ x. x.0) at))
          | inr e ↦
              let other = ne_of_test s slot e in
              let at = slot_at-set_slot_other p slot 0 0 s (λ k. other (sym k)) in
              let first = ap (λ x. x.0) at in
              let second = ap (λ x. x.1) at in
              let (low, high) = sound.2 s (omega arith) (λ z. live (first ∙ z)) in
              (omega arith, omega arith)
        ],
      )

  killed-get : (s : ℕ) (bytes : List ℕ) → slot ≢ s → get p s ≡ ok bytes → get killed s ≡ ok bytes
  killed-get s bytes other h =
      let (old, live, read) = got_ok p s bytes h in
      let count = slot_count-set_slot p slot 0 0 in
      let (low, high) = sound.2 s old live in
      let at = (slot_at p s).0 in
      let len = (slot_at p s).1 in
      get_ok killed s at len (omega arith) (slot_at-set_slot_other p slot 0 0 s other)
        (omega (arith, count, sound.0, sound.1)) (omega (arith, sound.0)) high
      ∙ ap ok (slice-set_slot p slot 0 0 at len (omega (arith, sound.0)) ∙ read)

-- Deleting from a sound page leaves the slot dead, the page sound, and every other slot that could
-- be read reads the same.
pub get-delete :
    (p q : Page) (slot : ℕ)
    → IsSound p
    → delete p slot ≡ ok q
    → (get q slot ≡ err dead_slot)
      × IsSound q
      × ((s : ℕ) (bytes : List ℕ) → slot ≢ s → get p s ≡ ok bytes → get q s ≡ ok bytes)
get-delete p q slot sound h =
    let (below, same) = deleted p q slot h in
    subst
      (λ r.
        (get r slot ≡ err dead_slot)
        × IsSound r
        × ((s : ℕ) (bytes : List ℕ) → slot ≢ s → get p s ≡ ok bytes → get r s ≡ ok bytes))
      same
      (
        get-killed p slot sound below,
        killed-IsSound p slot sound below,
        λ s bytes other held. killed-get p slot sound below s bytes other held,
      )
