-- ===== src/Storage/Page/Compact.antt =====
-- crates/adabt-storage/src/page.rs: `compact` and `fragmentation`.
use a_da_bt.Prelude.{
  ℕ, zero, suc, ◌+◌, ◌-◌, ◌*◌, ◌/◌, ◌%◌, ◌^◌, max, Bool, ◌&&◌, ◌||◌, List, [], ◌∷◌, length, leb,
  ltb, if◌then◌else◌,
}
use a_da_bt.Storage.Page.{
  Page, page_size, header_size, set_u16_at, write, slot_count, free_end, slot_at, set_slot, is_live,
  free_start, Result, ok, err, panicked, get,
}

-- `get` of a live slot, where it answers; `compact` has no slot beyond the page.
abbrev kept : ℕ → Bool → Result (List ℕ) → List (ℕ × List ℕ) → List (ℕ × List ℕ)
kept i live (ok bytes) rest = if live then (i, bytes) ∷ rest else rest
kept i live (err e) rest = rest
kept i live panicked rest = rest

-- The live payloads from slot `i`, of `n` slots left.
unfoldable pub live_payloads : Page → ℕ → ℕ → List (ℕ × List ℕ)
unfolding is_live get
live_payloads p i zero = []
live_payloads p i (suc n) = kept i (is_live p i) (get p i) (live_payloads p (i + 1) n)

unfoldable pub highest_live : List (ℕ × List ℕ) → ℕ
highest_live [] = 0
highest_live ((i, bytes) ∷ rest) = max (i + 1) (highest_live rest)

-- `bytes[HEADER_SIZE..].fill(0)`
unfoldable pub clear : Page → Page
clear p i = if ltb i header_size then p i else 0

-- The LSN's eight bytes, which `compact` reads before and writes again after clearing.
unfoldable pub lsn_from : Page → ℕ → ℕ → ℕ
lsn_from p i zero = 0
lsn_from p i (suc n) = p i + 256 * lsn_from p (i + 1) n

unfoldable pub lsn : Page → ℕ
unfolding lsn_from
lsn p = lsn_from p 4 8

unfoldable pub set_lsn : Page → ℕ → Page
set_lsn p v i = if leb 4 i && ltb i 12 then v / 2 ^ (8 * (i - 4)) % 256 else p i

-- The last loop of `compact`. Payloads that overlapped may need more room than there is.
unfoldable pub place_all : List (ℕ × List ℕ) → Page → Result Page
unfolding free_end write set_u16_at set_slot
place_all [] p = ok p
place_all ((i, bytes) ∷ rest) p =
    let off = free_end p - length bytes in
    let rest =
      place_all rest (set_slot (set_u16_at (write p off bytes) 14 off) i off (length bytes)) in
    if ltb (free_end p) (length bytes) then panicked else rest

unfoldable pub compact : Page → Result Page
unfolding free_start live_payloads slot_count highest_live clear set_u16_at lsn set_lsn place_all
compact p =
    let live = live_payloads p 0 (slot_count p) in
    let cleared = set_u16_at (set_u16_at (clear p) 12 (highest_live live)) 14 page_size in
    if ltb page_size (free_start p) then panicked else place_all live (set_lsn cleared (lsn p))

-- The lengths of the live slots from `i`, of `n` slots left.
unfoldable pub used_from : Page → ℕ → ℕ → ℕ
unfolding is_live slot_at
used_from p i zero = 0
used_from p i (suc n) =
    let rest = used_from p (i + 1) n in if is_live p i then (slot_at p i).1 + rest else rest

-- `saturating_sub`, behind a subtraction that is checked.
unfoldable pub fragmentation : Page → Result ℕ
unfolding free_start used_from slot_count free_end
fragmentation p =
    if ltb page_size (free_start p) || ltb page_size (free_end p)
    then panicked
    else ok (page_size - free_end p - used_from p 0 (slot_count p))
