-- ===== src/Storage/Directory.antt =====
-- crates/adabt-storage/src/directory.rs: the file that holds the page directory at a checkpoint.
-- Reading and replacing the file are left out: a file is the list of its bytes.
pub mod Parts
pub mod RoundTrip
mod Tests
use a_da_bt.Prelude.{
  ℕ, zero, suc, ◌+◌, ◌-◌, ◌*◌, ◌%◌, ◌^◌, Bool, true, false, ◌&&◌, not, List, [], ◌∷◌, ◌++◌, Option,
  some, none, length, ltb, ◌==◌, if◌then◌else◌, take, drop,
}
use a_da_bt.Core.Order.{◌>>=◌}
use a_da_bt.Storage.LittleEndian.{le, from_le, take_front, read_le}
use a_da_bt.Storage.Page.Checksum.{xor_bits}

-- "aDaBtDir"
abbrev pub magic : List ℕ
magic = 97 ∷ 68 ∷ 97 ∷ 66 ∷ 116 ∷ 68 ∷ 105 ∷ 114 ∷ []

abbrev pub format_version : ℕ
format_version = 1

pub record Stamp : Type 0 where
  pub identity : ℕ
  pub checkpoint_lsn : ℕ
  pub heap_bytes : ℕ

-- A record's id, its page and its slot.
abbrev pub Entry : Type 0
Entry = ℕ × ℕ × ℕ

pub record Snapshot : Type 0 where
  pub collections : List (ℕ × List Entry)
  pub free_space : List (ℕ × ℕ)

unfoldable pub checksum_loop : ℕ → List ℕ → ℕ
unfolding xor_bits
checksum_loop h [] = h
checksum_loop h (b ∷ bs) = checksum_loop (xor_bits 64 h b * 0x1000_0000_01b3 % 2 ^ 64) bs

unfoldable pub checksum : List ℕ → ℕ
unfolding checksum_loop
checksum bytes = checksum_loop 0xcbf2_9ce4_8422_2325 bytes

-- What the loops of `write` append, in front of what is appended after them.
unfoldable pub put_records : List Entry → List ℕ → List ℕ
unfolding le
put_records [] tail = tail
put_records ((id, page, slot) ∷ rs) tail =
    le 8 id ++ (le 4 page ++ (le 2 slot ++ put_records rs tail))

unfoldable pub put_collections : List (ℕ × List Entry) → List ℕ → List ℕ
unfolding put_records
put_collections [] tail = tail
put_collections ((cid, rs) ∷ cs) tail =
    le 4 cid ++ (le 4 (length rs % 2 ^ 32) ++ put_records rs (put_collections cs tail))

unfoldable pub put_free : List (ℕ × ℕ) → List ℕ
unfolding le
put_free [] = []
put_free ((page, free) ∷ fs) = le 4 page ++ (le 4 free ++ put_free fs)

unfoldable pub body : Stamp → Snapshot → List ℕ
unfolding put_collections put_free
body stamp s =
    magic
    ++ (le 4 format_version
        ++ (le 16 stamp.identity
            ++ (le 8 stamp.checkpoint_lsn
                ++ (le 8 stamp.heap_bytes
                    ++ (le 4 (length s.collections % 2 ^ 32)
                        ++ put_collections s.collections
                            (le 4 (length s.free_space % 2 ^ 32) ++ put_free s.free_space))))))

-- The file that `write` leaves.
unfoldable pub write : Stamp → Snapshot → List ℕ
unfolding body checksum
write stamp s = body stamp s ++ le 8 (checksum (body stamp s))

-- The loops of `read`, each on a count read before.
unfoldable pub read_records : ℕ → List ℕ → Option (List Entry × List ℕ)
unfolding read_le
read_records zero xs = some ([], xs)
read_records (suc n) xs = do
  (id, a) ← read_le 8 xs
  (page, b) ← read_le 4 a
  (slot, c) ← read_le 2 b
  (rs, rest) ← read_records n c
  some ((id, page, slot) ∷ rs, rest)

unfoldable pub read_collections : ℕ → List ℕ → Option (List (ℕ × List Entry) × List ℕ)
unfolding read_records
read_collections zero xs = some ([], xs)
read_collections (suc n) xs = do
  (cid, a) ← read_le 4 xs
  (count, b) ← read_le 4 a
  (rs, c) ← read_records count b
  (cs, rest) ← read_collections n c
  some ((cid, rs) ∷ cs, rest)

unfoldable pub read_free : ℕ → List ℕ → Option (List (ℕ × ℕ) × List ℕ)
unfolding read_le
read_free zero xs = some ([], xs)
read_free (suc n) xs = do
  (page, a) ← read_le 4 xs
  (free, b) ← read_le 4 a
  (fs, rest) ← read_free n b
  some ((page, free) ∷ fs, rest)

abbrev pub bytes_eq : List ℕ → List ℕ → Bool
bytes_eq [] [] = true
bytes_eq (x ∷ xs) (y ∷ ys) = x == y && bytes_eq xs ys
bytes_eq _ _ = false

abbrev pub stamp_eq : Stamp → Stamp → Bool
stamp_eq a b =
    a.identity == b.identity
    && (a.checkpoint_lsn == b.checkpoint_lsn && a.heap_bytes == b.heap_bytes)

abbrev pub only : Bool → Option (Unit {0})
only true = some tt
only false = none

-- Trailing bytes refuse the file.
abbrev pub at_end : List ℕ → Bool
at_end [] = true
at_end (x ∷ xs) = false

-- `read` behind the checksum.
unfoldable pub read_body : List ℕ → Stamp → Option Snapshot
unfolding read_collections read_free take_front
read_body xs stamp = do
  (m, a) ← take_front 8 xs
  u ← only (bytes_eq m magic)
  (version, b) ← read_le 4 a
  u ← only (version == format_version)
  (identity, c) ← read_le 16 b
  (lsn, d) ← read_le 8 c
  (heap, e) ← read_le 8 d
  u ←
      only
        (stamp_eq (record { identity = identity; checkpoint_lsn = lsn; heap_bytes = heap }) stamp)
  (count, f) ← read_le 4 e
  (collections, g) ← read_collections count f
  (pages, h) ← read_le 4 g
  (free, i) ← read_free pages h
  u ← only (at_end i)
  some (record { collections = collections; free_space = free })

unfoldable pub read : List ℕ → Stamp → Option Snapshot
unfolding read_body checksum
read bytes stamp =
    let xs = take (length bytes - 8) bytes in
    let tail = drop (length bytes - 8) bytes in
    if ltb (length bytes) 16
    then none
    else if not (checksum xs == from_le tail)
    then none
    else read_body xs stamp
