-- ===== src/Storage/Page/Read.antt =====
-- crates/adabt-storage/src/page.rs: what an accepted read of a slot says.
use a_da_bt.Prelude.{
  ℕ, zero, suc, ◌+◌, ◌*◌, ◌≤◌, ◌<◌, ◌≡◌, ◌≢◌, refl, sym, ap, ◌∙◌, Bool, true, false, ◌||◌, List,
  Option, some, none, ltb, leb, ◌==◌, if◌then◌else◌, arith, Bool-cases, inl, inr,
}
use a_da_bt.Storage.Page.{
  Page, page_size, header_size, slot_size, slice, slot_count, free_end, slot_at, is_live, Error,
  is_beyond, out_of_range, dead_slot, outside, Result, ok, err, panicked, find_dead, get,
}

-- The slots end before the payload region, and every live slot points into that region, inside the
-- page.
abbrev pub IsSound : Page → Type 0
IsSound p =
    (header_size + slot_count p * slot_size ≤ free_end p)
    × (free_end p ≤ page_size)
    × ((s : ℕ)
        → s < slot_count p
        → (slot_at p s).0 ≢ 0
        → (free_end p ≤ (slot_at p s).0) × ((slot_at p s).0 + (slot_at p s).1 ≤ page_size))

pub by_leb : (a b : ℕ) → leb a b ≡ false → b < a
by_leb a b h = ground arith

pub by_eq : (a : ℕ) → (a == 0) ≡ false → a ≢ 0
by_eq a h e = ground arith

dead : (p : Page) (i : ℕ) → is_live p i ≡ false → (slot_at p i).0 ≡ 0
unfolding is_live
dead p i h = ground arith

pub if_err :
    {A : Type 0} (b : Bool) (e : Error) (x : Result A) (r : A)
    → (if b then err e else x) ≡ ok r
    → (b ≡ false) × (x ≡ ok r)
if_err true e x r h = absurd (cc)
if_err false e x r h = (refl, h)

pub if_panicked :
    {A : Type 0} (b : Bool) (x : Result A) (r : A)
    → (if b then panicked else x) ≡ ok r
    → (b ≡ false) × (x ≡ ok r)
if_panicked true x r h = absurd (cc)
if_panicked false x r h = (refl, h)

-- `get` over what it reads.
abbrev pub got : ℕ → ℕ → ℕ × ℕ → Page → Result (List ℕ)
got count s at p =
    if leb count s
    then err out_of_range
    else if is_beyond s
    then panicked
    else if at.0 == 0
    then err dead_slot
    else if ltb at.0 header_size || ltb page_size (at.0 + at.1)
    then err outside
    else ok (slice p at.0 at.1)

pub get-got : (p : Page) (s : ℕ) → get p s ≡ got (slot_count p) s (slot_at p s) p
unfolding get
get-got p s = refl

got_inside :
    (p : Page) (count s off len : ℕ)
    → s < count
    → header_size + count * slot_size ≤ page_size
    → header_size ≤ off
    → off + len ≤ page_size
    → got count s (off, len) p ≡ ok (slice p off len)
got_inside p count s off len below slots_end low high =
    let g0 : is_beyond s ≡ false = ground arith in
    let g1 : leb count s ≡ false = ground arith in
    let g2 : (off == 0) ≡ false = ground arith in
    let g3 : (ltb off header_size || ltb page_size (off + len)) ≡ false = ground arith in
    rw (g1, g0, g2, g3) refl

pub get_ok :
    (p : Page) (s off len : ℕ)
    → s < slot_count p
    → slot_at p s ≡ (off, len)
    → header_size + slot_count p * slot_size ≤ page_size
    → header_size ≤ off
    → off + len ≤ page_size
    → get p s ≡ ok (slice p off len)
get_ok p s off len below at slots_end low high =
    get-got p s
    ∙ ap (λ x. got (slot_count p) s x p) at
    ∙ got_inside p (slot_count p) s off len below slots_end low high

pub ok-injective : {A : Type 0} {x y : A} → ok x ≡ ok y → x ≡ y
ok-injective h = cc

pub got_ok :
    (p : Page) (s : ℕ) (bytes : List ℕ)
    → get p s ≡ ok bytes
    → (s < slot_count p) × ((slot_at p s).0 ≢ 0) × (slice p (slot_at p s).0 (slot_at p s).1 ≡ bytes)
got_ok p s bytes h =
    let (g1, h1) = if_err (leb (slot_count p) s) out_of_range _ bytes (sym (get-got p s) ∙ h) in
    let (g0, h0) = if_panicked (is_beyond s) _ bytes h1 in
    let (g2, h2) = if_err ((slot_at p s).0 == 0) dead_slot _ bytes h0 in
    let (g3, h3) = if_err _ outside _ bytes h2 in
    (by_leb (slot_count p) s g1, by_eq (slot_at p s).0 g2, ok-injective h3)

-- A slot to be reused is in range and dead.
unfoldable pub Reusable : Page → Option ℕ → Type 0
Reusable p none = Unit
Reusable p (some i) = (i < slot_count p) × ((slot_at p i).0 ≡ 0)

pub find_dead-Reusable : (p : Page) (i n : ℕ) → i + n ≡ slot_count p → Reusable p (find_dead p i n)
unfolding find_dead Reusable
find_dead-Reusable p i zero h = tt
find_dead-Reusable p i (suc n) h = elim (Bool-cases (is_live p i)) [
  | inl e ↦ rw e (find_dead-Reusable p (i + 1) n (omega arith))
  | inr e ↦ rw e (omega arith, dead p i e)
]
