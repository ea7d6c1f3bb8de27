-- ===== src/Storage/Page.antt =====
-- crates/adabt-storage/src/page.rs: slotted pages. The byte array is a map from offsets. Where an
-- operation on a page from disk would index past `page_size`, the code panics, and here it answers
-- `panicked`.
pub mod Bytes
pub mod Header
pub mod Read
pub mod Ready
pub mod Insert
pub mod Delete
pub mod Checksum
pub mod Compact
pub mod Seal
mod Tests
use a_da_bt.Prelude.{
  ℕ, zero, suc, ◌+◌, ◌-◌, ◌*◌, ◌/◌, ◌%◌, ◌^◌, max, Bool, true, false, not, ◌&&◌, ◌||◌, List, [],
  ◌∷◌, ◌++◌, Option, some, none, length, ltb, leb, ◌==◌, if◌then◌else◌,
}

abbrev pub page_size : ℕ
page_size = 8192

abbrev pub header_size : ℕ
header_size = 24

abbrev pub slot_size : ℕ
slot_size = 4

abbrev pub max_payload : ℕ
max_payload = page_size - header_size - slot_size

abbrev pub Page : Type 0
Page = ℕ → ℕ

-- `u16::from_le_bytes`, and `to_le_bytes` copied in.
unfoldable pub u16_at : Page → ℕ → ℕ
u16_at p at = p at + p (at + 1) * 256

unfoldable pub set_u16_at : Page → ℕ → ℕ → Page
set_u16_at p at v i = if i == at then v % 256 else if i == at + 1 then v / 256 % 256 else p i

-- The byte of a list at an index; 0 out of range, which is not read.
unfoldable pub byte_of : List ℕ → ℕ → ℕ
byte_of [] i = 0
byte_of (x ∷ xs) zero = x
byte_of (x ∷ xs) (suc i) = byte_of xs i

-- `bytes[off..off + payload.len()].copy_from_slice(payload)`
unfoldable pub write : Page → ℕ → List ℕ → Page
unfolding byte_of
write p off payload i =
    if leb off i && ltb i (off + length payload) then byte_of payload (i - off) else p i

-- `bytes[off..off + len]`
unfoldable pub slice : Page → ℕ → ℕ → List ℕ
slice p off zero = []
slice p off (suc len) = p off ∷ slice p (off + 1) len

unfoldable pub slot_count : Page → ℕ
unfolding u16_at
slot_count p = u16_at p 12

unfoldable pub free_end : Page → ℕ
unfolding u16_at
free_end p = u16_at p 14

unfoldable pub free_start : Page → ℕ
unfolding slot_count
free_start p = header_size + slot_count p * slot_size

-- `saturating_sub`
unfoldable pub free_space : Page → ℕ
unfolding free_end free_start
free_space p = free_end p - free_start p

-- An empty page.
unfoldable pub new : Page
unfolding set_u16_at
new = set_u16_at (λ i. 0) 14 page_size

unfoldable pub slot_at : Page → ℕ → ℕ × ℕ
unfolding u16_at
slot_at p i = (u16_at p (header_size + i * slot_size), u16_at p (header_size + i * slot_size + 2))

unfoldable pub set_slot : Page → ℕ → ℕ → ℕ → Page
unfolding set_u16_at
set_slot p i off len =
    let at = header_size + i * slot_size in set_u16_at (set_u16_at p at off) (at + 2) len

unfoldable pub is_live : Page → ℕ → Bool
unfolding slot_at
is_live p i = not ((slot_at p i).0 == 0)

-- The live slots from `i`, of `n` slots left.
unfoldable pub live_from : Page → ℕ → ℕ → List ℕ
unfolding is_live
live_from p i zero = []
live_from p i (suc n) = let rest = live_from p (i + 1) n in if is_live p i then i ∷ rest else rest

abbrev pub cost_of : ℕ → ℕ
cost_of len = len + slot_size

unfoldable pub can_fit : Page → ℕ → Bool
unfolding free_space
can_fit p len = leb (cost_of len) (free_space p)

pub data Error : Type 0 where
  empty_payload too_large no_space out_of_range dead_slot outside checksum_mismatch bad_header :
      Error

pub data Result (A : Type 0) : Type 0 where
  ok : A → Result A
  err : Error → Result A
  panicked : Result A

-- The slot's four bytes are not all in the page.
abbrev pub is_beyond : ℕ → Bool
is_beyond i = ltb page_size (header_size + i * slot_size + slot_size)

-- The iterator to its end.
unfoldable pub slots : Page → Result (List ℕ)
unfolding live_from slot_count free_start
slots p = if ltb page_size (free_start p) then panicked else ok (live_from p 0 (slot_count p))

unfoldable pub live_count : Page → Result ℕ
unfolding live_from slot_count free_start
live_count p =
    if ltb page_size (free_start p) then panicked else ok (length (live_from p 0 (slot_count p)))

-- `(0..slot_count).find(|i| !is_live(*i))`, from `i` with `n` left.
unfoldable pub find_dead : Page → ℕ → ℕ → Option ℕ
unfolding is_live
find_dead p i zero = none
find_dead p i (suc n) = let rest = find_dead p (i + 1) n in if is_live p i then rest else some i

-- The slot count goes up where no dead slot is reused.
unfoldable pub take_slot : Option ℕ → Page → ℕ × Page
unfolding slot_count set_u16_at
take_slot (some i) p = (i, p)
take_slot none p = (slot_count p, set_u16_at p 12 ((slot_count p + 1) % 2 ^ 16))

abbrev pub slot_need : Option ℕ → ℕ
slot_need (some i) = 0
slot_need none = slot_size

-- How many slots are read until a dead one is found, of `count`.
abbrev pub scanned : Option ℕ → ℕ → ℕ
scanned (some i) count = i + 1
scanned none count = count

-- `insert` behind its guards.
unfoldable pub place : Page → Option ℕ → List ℕ → ℕ × Page
unfolding free_end write set_u16_at take_slot set_slot
place p reuse payload =
    let off = free_end p - length payload in
    let (slot, q) = take_slot reuse (set_u16_at (write p off payload) 14 off) in
    (slot, set_slot q slot off (length payload))

unfoldable pub insert : Page → List ℕ → Result (ℕ × Page)
unfolding find_dead free_space free_end slot_count place
insert p payload =
    if length payload == 0
    then err empty_payload
    else if ltb max_payload (length payload)
    then err too_large
    else (let reuse = find_dead p 0 (slot_count p) in
        if ltb page_size (header_size + scanned reuse (slot_count p) * slot_size)
        then panicked
        else if ltb (free_space p) (length payload + slot_need reuse)
        then err no_space
        else if ltb page_size (free_end p)
        then panicked
        else ok (place p reuse payload))

unfoldable pub get : Page → ℕ → Result (List ℕ)
unfolding slot_count slot_at slice
get p slot =
    if leb (slot_count p) slot
    then err out_of_range
    else if is_beyond slot
    then panicked
    else (let (off, len) = slot_at p slot in
        if off == 0
        then err dead_slot
        else if ltb off header_size || ltb page_size (off + len)
        then err outside
        else ok (slice p off len))

unfoldable pub delete : Page → ℕ → Result Page
unfolding slot_count is_live set_slot
delete p slot =
    if leb (slot_count p) slot
    then err dead_slot
    else if is_beyond slot
    then panicked
    else if not (is_live p slot)
    then err dead_slot
    else ok (set_slot p slot 0 0)

pub data UpdateOutcome : Type 0 where
  in_place moved does_not_fit : UpdateOutcome

unfoldable pub update : Page → ℕ → List ℕ → Result (UpdateOutcome × Page)
unfolding slot_count is_live slot_at free_space free_end write set_u16_at set_slot
update p slot payload =
    if leb (slot_count p) slot
    then err dead_slot
    else if is_beyond slot
    then panicked
    else if not (is_live p slot)
    then err dead_slot
    else (let (off, len) = slot_at p slot in
        if leb (length payload) len
        then (if ltb page_size (off + length payload)
            then panicked
            else ok (in_place, set_slot (write p off payload) slot off (length payload)))
        else if leb (length payload) (free_space p)
        then (if ltb page_size (free_end p)
            then panicked
            else let new_off = free_end p - length payload in
              ok (
                moved,
                set_slot (set_u16_at (write p new_off payload) 14 new_off) slot new_off
                    (length payload),
              ))
        else ok (does_not_fit, p))
