-- ===== src/Storage/Wal/Entry.antt =====
-- crates/adabt-storage/src/wal.rs: the payload of a log entry.
pub mod RoundTrip
use a_da_bt.Prelude.{ℕ, String, List, [], ◌∷◌, ◌++◌, Option, some, none, ◌==◌, if◌then◌else◌}
use a_da_bt.Core.Order.{◌>>=◌}
use a_da_bt.Storage.Varint.{write_u64}
use a_da_bt.Storage.LittleEndian.{le, read_le}
use a_da_bt.Storage.Reader.{put_bytes, put_str, read_byte, read_varint, read_blob, read_string}

pub data WalOp : Type 0 where
  insert update : String → ℕ → List ℕ → WalOp
  delete : String → ℕ → WalOp
  create_collection : String → List ℕ → WalOp
  drop_collection : String → WalOp
  set_cluster_field : String → Option String → WalOp
  commit : ℕ → WalOp
  checkpoint : ℕ → WalOp
  create_index drop_index : String → String → String → WalOp
  adopt_migration : String → String → WalOp
  alter_schema_in_place : String → List ℕ → WalOp

pub record WalEntry : Type 0 where
  pub lsn : ℕ
  pub nanos : ℕ
  pub txn : ℕ
  pub op : WalOp

unfoldable pub encode_option : Option String → List ℕ
unfolding put_str
encode_option (some f) = 1 ∷ put_str f
encode_option none = 0 ∷ []

unfoldable pub encode_op : WalOp → List ℕ
unfolding put_str put_bytes write_u64 encode_option
encode_op (insert c id b) = 1 ∷ (put_str c ++ (write_u64 id ++ put_bytes b))
encode_op (update c id b) = 2 ∷ (put_str c ++ (write_u64 id ++ put_bytes b))
encode_op (delete c id) = 3 ∷ (put_str c ++ write_u64 id)
encode_op (create_collection name schema) = 4 ∷ (put_str name ++ put_bytes schema)
encode_op (drop_collection name) = 5 ∷ put_str name
encode_op (commit txn) = 6 ∷ write_u64 txn
encode_op (checkpoint lsn) = 7 ∷ write_u64 lsn
encode_op (create_index c f k) = 8 ∷ (put_str c ++ (put_str f ++ put_str k))
encode_op (drop_index c f k) = 9 ∷ (put_str c ++ (put_str f ++ put_str k))
encode_op (adopt_migration target source) = 10 ∷ (put_str target ++ put_str source)
encode_op (alter_schema_in_place c schema) = 11 ∷ (put_str c ++ put_bytes schema)
encode_op (set_cluster_field c f) = 12 ∷ (put_str c ++ encode_option f)

unfoldable pub encode_payload : WalEntry → List ℕ
unfolding le encode_op
encode_payload e = le 8 e.lsn ++ (le 8 e.nanos ++ (le 8 e.txn ++ encode_op e.op))

-- The fields of the operations, in the order in which they are read.
unfoldable pub read_row : List ℕ → Option (String × ℕ × List ℕ)
unfolding read_string read_varint read_blob
read_row xs = do
  (c, a) ← read_string xs
  (id, b) ← read_varint a
  (bytes, rest) ← read_blob b
  some (c, id, bytes)

unfoldable pub read_id : List ℕ → Option (String × ℕ)
unfolding read_string read_varint
read_id xs = do (c, a) ← read_string xs; (id, rest) ← read_varint a; some (c, id)

unfoldable pub read_schema : List ℕ → Option (String × List ℕ)
unfolding read_string read_blob
read_schema xs = do (c, a) ← read_string xs; (schema, rest) ← read_blob a; some (c, schema)

unfoldable pub read_index : List ℕ → Option (String × String × String)
unfolding read_string
read_index xs = do
  (c, a) ← read_string xs
  (f, b) ← read_string a
  (k, rest) ← read_string b
  some (c, f, k)

unfoldable pub read_pair : List ℕ → Option (String × String)
unfolding read_string
read_pair xs = do (c, a) ← read_string xs; (f, rest) ← read_string a; some (c, f)

unfoldable pub read_present : ℕ → List ℕ → Option (Option String)
unfolding read_string
read_present b xs =
    if b == 0
    then some none
    else if b == 1
    then (do (f, rest) ← read_string xs; some (some f))
    else none

unfoldable pub read_cluster : List ℕ → Option (String × Option String)
unfolding read_string read_byte read_present
read_cluster xs = do
  (c, a) ← read_string xs
  (b, rest) ← read_byte a
  f ← read_present b rest
  some (c, f)

unfoldable pub decode_op : ℕ → List ℕ → Option WalOp
decode_op code xs =
    if code == 1
    then (do (c, id, b) ← read_row xs; some (insert c id b))
    else if code == 2
    then (do (c, id, b) ← read_row xs; some (update c id b))
    else if code == 3
    then (do (c, id) ← read_id xs; some (delete c id))
    else if code == 4
    then (do (c, schema) ← read_schema xs; some (create_collection c schema))
    else if code == 5
    then (do (c, rest) ← read_string xs; some (drop_collection c))
    else if code == 6
    then (do (txn, rest) ← read_varint xs; some (commit txn))
    else if code == 7
    then (do (lsn, rest) ← read_varint xs; some (checkpoint lsn))
    else if code == 8
    then (do (c, f, k) ← read_index xs; some (create_index c f k))
    else if code == 9
    then (do (c, f, k) ← read_index xs; some (drop_index c f k))
    else if code == 10
    then (do (target, source) ← read_pair xs; some (adopt_migration target source))
    else if code == 11
    then (do (c, schema) ← read_schema xs; some (alter_schema_in_place c schema))
    else if code == 12
    then (do (c, f) ← read_cluster xs; some (set_cluster_field c f))
    else none

-- What is left behind the fields is not looked at.
unfoldable pub decode_payload : List ℕ → Option WalEntry
unfolding read_byte
decode_payload xs = do
  (lsn, a) ← read_le 8 xs
  (nanos, b) ← read_le 8 a
  (txn, c) ← read_le 8 b
  (code, d) ← read_byte c
  op ← decode_op code d
  some (record { lsn = lsn; nanos = nanos; txn = txn; op = op })
