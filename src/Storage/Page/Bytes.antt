-- ===== src/Storage/Page/Bytes.antt =====
-- crates/adabt-storage/src/page.rs: what a read of a page's bytes gives after a write.
use a_da_bt.Prelude.{
  ℕ, zero, suc, ◌+◌, ◌-◌, ◌^◌, ◌≤◌, ◌<◌, ◌≡◌, refl, ap, ◌∙◌, true, false, ◌&&◌, List, [], ◌∷◌,
  length, ltb, leb, ◌==◌, arith, inl, inr, ◌⊎◌,
}
use a_da_bt.Storage.Page.{Page, u16_at, set_u16_at, byte_of, write, slice}

pub u16_back : (p : Page) (at v : ℕ) → v < 2 ^ 16 → u16_at (set_u16_at p at v) at ≡ v
unfolding u16_at set_u16_at
u16_back p at v h =
    let first : (at == at) ≡ true = ground arith in
    let second : (at + 1 == at) ≡ false = ground arith in
    let third : (at + 1 == at + 1) ≡ true = ground arith in rw (first, second, third) (omega arith)

byte_kept : (p : Page) (at v i : ℕ) → (i + 1 ≤ at) ⊎ (at + 2 ≤ i) → set_u16_at p at v i ≡ p i
unfolding set_u16_at
byte_kept p at v i h =
    let first : (i == at) ≡ false = ground arith in
    let second : (i == at + 1) ≡ false = ground arith in rw (first, second) refl

-- Two bytes apart from two others.
pub u16_kept :
    (p : Page) (at v i : ℕ)
    → (i + 2 ≤ at) ⊎ (at + 2 ≤ i)
    → u16_at (set_u16_at p at v) i ≡ u16_at p i
unfolding u16_at
u16_kept p at v i (inl h) =
    rw (byte_kept p at v i (inl (omega arith)), byte_kept p at v (i + 1) (inl (omega arith))) refl
u16_kept p at v i (inr h) =
    rw (byte_kept p at v i (inr (omega arith)), byte_kept p at v (i + 1) (inr (omega arith))) refl

pub slice_kept :
    (p : Page) (at v off len : ℕ)
    → at + 2 ≤ off
    → slice (set_u16_at p at v) off len ≡ slice p off len
unfolding slice
slice_kept p at v off zero h = refl
slice_kept p at v off (suc len) h =
    rw (byte_kept p at v off (inr h), slice_kept p at v (off + 1) len (omega arith)) refl

write_kept :
    (p : Page) (off : ℕ) (payload : List ℕ) (i : ℕ)
    → (i + 1 ≤ off) ⊎ (off + length payload ≤ i)
    → write p off payload i ≡ p i
unfolding write
write_kept p off payload i h =
    let outside : (leb off i && ltb i (off + length payload)) ≡ false = ground arith in
    rw outside refl

pub u16-write_kept :
    (p : Page) (off : ℕ) (payload : List ℕ) (i : ℕ)
    → i + 2 ≤ off
    → u16_at (write p off payload) i ≡ u16_at p i
unfolding u16_at
u16-write_kept p off payload i h =
    rw
      (
        write_kept p off payload i (inl (omega arith)),
        write_kept p off payload (i + 1) (inl (omega arith)),
      )
      refl

pub slice-write_kept :
    (p : Page) (at : ℕ) (payload : List ℕ) (off len : ℕ)
    → at + length payload ≤ off
    → slice (write p at payload) off len ≡ slice p off len
unfolding slice
slice-write_kept p at payload off zero h = refl
slice-write_kept p at payload off (suc len) h =
    rw
      (
        write_kept p at payload off (inr h),
        slice-write_kept p at payload (off + 1) len (omega arith),
      )
      refl

-- A written byte.
write_in :
    (p : Page) (off : ℕ) (payload : List ℕ) (i : ℕ)
    → i < length payload
    → write p off payload (off + i) ≡ byte_of payload i
unfolding write
write_in p off payload i h =
    let inside : (leb off (off + i) && ltb (off + i) (off + length payload)) ≡ true =
      ground arith in
    let at : off + i - off ≡ i = omega arith in rw (inside, at) refl

-- The slice of any map that agrees with a list from an offset on.
slice_list :
    (q : Page) (off : ℕ) (xs : List ℕ)
    → ((i : ℕ) → i < length xs → q (off + i) ≡ byte_of xs i)
    → slice q off (length xs) ≡ xs
unfolding slice byte_of
slice_list q off [] h = refl
slice_list q off (x ∷ xs) h =
    let first : q off ≡ x = ap q (omega arith) ∙ h 0 (omega arith) in
    rw (first, slice_list q (off + 1) xs (λ i lt. ap q (omega arith) ∙ h (suc i) (omega arith)))
      refl

pub slice-write :
    (p : Page) (off : ℕ) (payload : List ℕ)
    → slice (write p off payload) off (length payload) ≡ payload
slice-write p off payload = slice_list (write p off payload) off payload (write_in p off payload)
