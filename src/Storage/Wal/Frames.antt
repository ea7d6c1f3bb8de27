-- ===== src/Storage/Wal/Frames.antt =====
-- crates/adabt-storage/src/wal.rs: the frames of a segment, each a length, a checksum and a payload,
-- and the segment's header.
pub mod Torn
pub mod Recover
use a_da_bt.Prelude.{
  ℕ, zero, suc, ◌+◌, ◌*◌, ◌%◌, ◌^◌, Bool, List, [], ◌∷◌, ◌++◌, Option, some, none, length, ltb, not,
  take, ◌==◌, if◌then◌else◌,
}
use a_da_bt.Core.Order.{◌>>=◌}
use a_da_bt.Storage.LittleEndian.{le, from_le, take_front, read_le}
use a_da_bt.Storage.Page.Checksum.{xor_bits}
use a_da_bt.Storage.Directory.{bytes_eq, only}
use a_da_bt.Storage.Wal.Entry.{WalEntry, encode_payload, decode_payload}

unfoldable pub checksum_loop : ℕ → List ℕ → ℕ
unfolding xor_bits
checksum_loop h [] = h
checksum_loop h (b ∷ bs) = checksum_loop (xor_bits 32 h b * 0x0100_0193 % 2 ^ 32) bs

unfoldable pub checksum : List ℕ → ℕ
unfolding checksum_loop
checksum bytes = checksum_loop 0x811c_9dc5 bytes

-- 64 * 1024 * 1024
abbrev pub max_entry : ℕ
max_entry = 0x400_0000

-- What `append` writes for a payload.
unfoldable pub frame : List ℕ → List ℕ
unfolding le checksum
frame p = le 4 (length p % 2 ^ 32) ++ (le 4 (checksum p) ++ p)

-- The tests on the frame at the front of a buffer, which both loops below make.
unfoldable pub front_frame : List ℕ → Option (List ℕ × List ℕ)
unfolding read_le take_front checksum
front_frame buf = do
  (len, a) ← read_le 4 buf
  (want, b) ← read_le 4 a
  u ← only (not (ltb max_entry len))
  (payload, rest) ← take_front len b
  u ← only (checksum payload == want)
  some (payload, rest)

-- The loop of `decode_frames`. A frame has 8 bytes or more, so as many turns as there are bytes are
-- enough.
unfoldable pub frames_loop : ℕ → List ℕ → List WalEntry
frames_loop zero buf = []
frames_loop (suc fuel) buf = elim (front_frame buf) [
  | none ↦ []
  | some (payload, rest) ↦ elim (decode_payload payload) [
    | none ↦ []
    | some e ↦ e ∷ frames_loop fuel rest
  ]
]

unfoldable pub decode_frames : List ℕ → List WalEntry
unfolding frames_loop
decode_frames buf = frames_loop (length buf) buf

-- The loop of `intact_prefix_len` behind the header.
unfoldable pub prefix_loop : ℕ → List ℕ → ℕ
prefix_loop zero buf = 0
prefix_loop (suc fuel) buf = elim (front_frame buf) [
  | none ↦ 0
  | some (payload, rest) ↦ 8 + length payload + prefix_loop fuel rest
]

unfoldable pub intact_prefix_len : List ℕ → ℕ
unfolding prefix_loop
intact_prefix_len body = prefix_loop (length body) body

-- "aDaBtWAL"
abbrev pub segment_magic : List ℕ
segment_magic = 97 ∷ 68 ∷ 97 ∷ 66 ∷ 116 ∷ 87 ∷ 65 ∷ 76 ∷ []

-- The first 32 bytes of a segment, whose checksum follows.
unfoldable pub header_fields : ℕ → ℕ → List ℕ
unfolding le
header_fields first_lsn nanos =
    segment_magic ++ (le 4 1 ++ (le 4 0 ++ (le 8 first_lsn ++ le 8 nanos)))

unfoldable pub segment_header : ℕ → ℕ → List ℕ
unfolding header_fields checksum
segment_header first_lsn nanos =
    header_fields first_lsn nanos ++ le 8 (checksum (header_fields first_lsn nanos))

-- `none` is a file that is no segment. The version and the padding are not looked at.
unfoldable pub read_segment_header : List ℕ → Option (ℕ × ℕ)
unfolding take_front read_le checksum
read_segment_header file = do
  (fields, a) ← take_front 32 file
  (stored, rest) ← read_le 8 a
  (magic, b) ← take_front 8 fields
  u ← only (bytes_eq magic segment_magic)
  u ← only (checksum fields == stored)
  (skipped, c) ← take_front 8 b
  (first_lsn, d) ← read_le 8 c
  (nanos, e) ← read_le 8 d
  some (first_lsn, nanos)
