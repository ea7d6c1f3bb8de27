-- ===== src/Storage/Page/Checksum.antt =====
-- crates/adabt-storage/src/page.rs: the checksum, `seal` and `from_bytes`.
use a_da_bt.Prelude.{
  ℕ, zero, suc, ◌+◌, ◌-◌, ◌*◌, ◌/◌, ◌%◌, ◌^◌, ◌||◌, not, ltb, ◌==◌, if◌then◌else◌,
}
use a_da_bt.Storage.Page.{
  Page, page_size, header_size, slot_size, slot_count, free_end, checksum_mismatch, bad_header,
  Result, ok, err,
}

-- `^` on 32 bits.
unfoldable pub xor_bits : ℕ → ℕ → ℕ → ℕ
xor_bits zero a b = 0
xor_bits (suc k) a b = (a + b) % 2 + 2 * xor_bits k (a / 2) (b / 2)

-- The loop of `compute_checksum` from an offset, over `n` bytes.
unfoldable pub checksum_loop : Page → ℕ → ℕ → ℕ → ℕ
unfolding xor_bits
checksum_loop p i zero h = h
checksum_loop p i (suc n) h = checksum_loop p (i + 1) n (xor_bits 32 h (p i) * 0x0100_0193 % 2 ^ 32)

unfoldable pub compute_checksum : Page → ℕ
unfolding checksum_loop
compute_checksum p = checksum_loop p 4 (page_size - 4) 0x811c_9dc5

unfoldable pub stored_checksum : Page → ℕ
stored_checksum p = p 0 + p 1 * 2 ^ 8 + p 2 * 2 ^ 16 + p 3 * 2 ^ 24

-- The page with a checksum's four bytes written.
unfoldable pub store_checksum : Page → ℕ → Page
store_checksum p c i = if ltb i 4 then c / 2 ^ (8 * i) % 256 else p i

unfoldable pub seal : Page → Page
unfolding compute_checksum store_checksum
seal p = store_checksum p (compute_checksum p)

unfoldable pub from_bytes : Page → Result Page
unfolding stored_checksum compute_checksum slot_count free_end
from_bytes p =
    let slots_end = header_size + slot_count p * slot_size in
    if not (stored_checksum p == compute_checksum p)
    then err checksum_mismatch
    else if ltb page_size slots_end || ltb page_size (free_end p)
    then err bad_header
    else if ltb (free_end p) slots_end
    then err bad_header
    else ok p
