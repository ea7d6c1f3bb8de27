-- ===== src/Storage/Page/Tests.antt =====
-- The theorems on crates/adabt-storage/src/page.rs, at a small page.
use a_da_bt.Prelude.{ℕ, ◌≡◌, ◌≢◌, refl, List, [], ◌∷◌, arith}
use a_da_bt.Storage.Page.{
  Page, new, insert, delete, get, slot_count, free_end, can_fit, slots, ok, err, dead_slot, Result,
  panicked,
}
use a_da_bt.Storage.Page.Read.{IsSound}
use a_da_bt.Storage.Page.Insert.{get-insert, insert_keeps, insert-can_fit}
use a_da_bt.Storage.Page.Delete.{get-delete}
use a_da_bt.Storage.Page.Checksum.{seal, from_bytes}
use a_da_bt.Storage.Page.Seal.{from_bytes-seal}
use a_da_bt.Storage.Page.Compact.{compact, fragmentation}

new-IsSound : IsSound new
unfolding new slot_count free_end
new-IsSound = (omega arith, omega arith, λ s h live. absurd (omega arith))

abbrev payload : List ℕ
payload = 10 ∷ 20 ∷ 30 ∷ []

abbrev second : List ℕ
second = 7 ∷ []

abbrev page_of : Result (ℕ × Page) → Page
page_of (ok r) = r.1
page_of (err e) = new
page_of panicked = new

abbrev one : Page
unfolding insert
one = page_of (insert new payload)

abbrev two : Page
unfolding insert
two = page_of (insert one second)

abbrev rest_of : Result Page → Page
rest_of (ok q) = q
rest_of (err e) = new
rest_of panicked = new

abbrev after : Page
unfolding delete
after = rest_of (delete two 0)

first_insert : insert new payload ≡ ok (0, one)
unfolding insert one new
first_insert = refl

later_insert : insert one second ≡ ok (1, two)
unfolding insert two one new
later_insert = refl

get-insert_example : (get one 0 ≡ ok payload) × IsSound one
get-insert_example = get-insert new one payload 0 new-IsSound first_insert

insert_keeps_example : get two 0 ≡ ok payload
insert_keeps_example =
    insert_keeps one two second 1 get-insert_example.1 later_insert 0 payload get-insert_example.0

insert-can_fit_example : (r : ℕ × Page) × (insert new payload ≡ ok r)
unfolding can_fit free_end new
insert-can_fit_example = insert-can_fit new payload (omega arith) (omega arith) refl (omega arith)

two-IsSound : IsSound two
two-IsSound = (get-insert one two second 1 get-insert_example.1 later_insert).1

later_read : get two 1 ≡ ok second
later_read = (get-insert one two second 1 get-insert_example.1 later_insert).0

first_delete : delete two 0 ≡ ok after
unfolding delete after two one new insert
first_delete = refl

abbrev first_slot : ℕ
first_slot = 0

zero_is_not_one : first_slot ≢ 1
zero_is_not_one h = omega arith

get-delete_example :
    (get after 0 ≡ err dead_slot)
    × IsSound after
    × ((s : ℕ) (bytes : List ℕ) → 0 ≢ s → get two s ≡ ok bytes → get after s ≡ ok bytes)
get-delete_example = get-delete two after 0 two-IsSound first_delete

second_is_kept : get after 1 ≡ ok second
second_is_kept = get-delete_example.2 1 second zero_is_not_one later_read

from_bytes-seal_example : (from_bytes (seal two) ≡ ok (seal two)) × (get (seal two) 1 ≡ get two 1)
from_bytes-seal_example = from_bytes-seal two 1 two-IsSound

live_slots : slots (rest_of (compact after)) ≡ ok (1 ∷ [])
unfolding slots compact after delete two one new insert
live_slots = refl

still_read : get (rest_of (compact after)) 1 ≡ ok second
unfolding get compact after delete two one new insert
still_read = refl

reclaimed : fragmentation after ≡ ok 3
unfolding fragmentation after delete two one new insert
reclaimed = refl
