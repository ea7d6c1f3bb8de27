-- ===== src/Storage/Reader.antt =====
-- The bounds-checked readers of crates/adabt-storage (`PayloadReader` of wal.rs, `Cursor` of
-- codec.rs) and what they read. A reader is the bytes it has left; `none` is the error that the
-- buffer is cut short or malformed.
pub mod Laws
use a_da_bt.Prelude.{ℕ, String, List, [], ◌∷◌, ◌++◌, Option, some, none, length, drop}
use a_da_bt.Core.Order.{◌>>=◌}
use a_da_bt.Storage.Varint.{write_u64, Decoded, value, read_u64}
use a_da_bt.Storage.LittleEndian.{take_front, read_le}
use a_da_bt.Storage.Utf8.{utf8, from_utf8}

unfoldable pub put_bytes : List ℕ → List ℕ
put_bytes b = write_u64 (length b) ++ b

-- `s.len()` is the number of its bytes.
unfoldable pub put_str : String → List ℕ
unfolding put_bytes
put_str s = put_bytes (utf8 s)

unfoldable pub read_byte : List ℕ → Option (ℕ × List ℕ)
read_byte [] = none
read_byte (b ∷ bytes) = some (b, bytes)

unfoldable pub after_varint : List ℕ → Decoded → Option (ℕ × List ℕ)
after_varint bytes (value v used) = some (v, drop used bytes)
after_varint bytes _ = none

unfoldable pub read_varint : List ℕ → Option (ℕ × List ℕ)
unfolding after_varint read_u64
read_varint bytes = after_varint bytes (read_u64 bytes)

unfoldable pub read_blob : List ℕ → Option (List ℕ × List ℕ)
unfolding read_varint take_front
read_blob bytes = do (n, rest) ← read_varint bytes; take_front n rest

unfoldable pub read_string : List ℕ → Option (String × List ℕ)
unfolding read_blob from_utf8
read_string bytes = do (b, rest) ← read_blob bytes; s ← from_utf8 b; some (s, rest)
