-- ===== src/Storage/Wal/Entry/RoundTrip.antt =====
-- crates/adabt-storage/src/wal.rs: the payload of a log entry is decoded to the entry.
use a_da_bt.Prelude.{
  ℕ, ◌^◌, ◌<◌, ◌≡◌, refl, ap, ◌∙◌, String, List, [], ◌∷◌, ◌++◌, Option, some, none, length,
}
use a_da_bt.Storage.Varint.{write_u64}
use a_da_bt.Storage.LittleEndian.{le, read_le, read_le-le}
use a_da_bt.Storage.Utf8.{utf8}
use a_da_bt.Storage.Reader.{put_bytes, put_str, read_byte, read_varint, read_blob, read_string}
use a_da_bt.Storage.Reader.Laws.{
  bind_is, read_varint-write_u64, read_string-put_str, read_varint_end, read_blob_end,
  read_string_end,
}
use a_da_bt.Storage.Wal.Entry.{
  WalOp, insert, update, delete, create_collection, drop_collection, set_cluster_field, commit,
  checkpoint, create_index, drop_index, adopt_migration, alter_schema_in_place, WalEntry,
  encode_option, encode_op, encode_payload, read_row, read_id, read_schema, read_index, read_pair,
  read_present, read_cluster, decode_op, decode_payload,
}

abbrev pub TextFits : String → Type 0
TextFits s = length (utf8 s) < 2 ^ 64

abbrev pub OptionFits : Option String → Type 0
OptionFits (some s) = TextFits s
OptionFits none = Unit {0}

-- What the types of the code hold.
abbrev pub OpFits : WalOp → Type 0
OpFits (insert c id b) = TextFits c × (id < 2 ^ 64) × (length b < 2 ^ 64)
OpFits (update c id b) = TextFits c × (id < 2 ^ 64) × (length b < 2 ^ 64)
OpFits (delete c id) = TextFits c × (id < 2 ^ 64)
OpFits (create_collection c b) = TextFits c × (length b < 2 ^ 64)
OpFits (drop_collection c) = TextFits c
OpFits (set_cluster_field c f) = TextFits c × OptionFits f
OpFits (commit n) = n < 2 ^ 64
OpFits (checkpoint n) = n < 2 ^ 64
OpFits (create_index c f k) = TextFits c × TextFits f × TextFits k
OpFits (drop_index c f k) = TextFits c × TextFits f × TextFits k
OpFits (adopt_migration c f) = TextFits c × TextFits f
OpFits (alter_schema_in_place c b) = TextFits c × (length b < 2 ^ 64)

pub record EntryFits (e : WalEntry) : Type 0 where
  pub lsn_fits : e.lsn < 2 ^ 64
  pub nanos_fits : e.nanos < 2 ^ 64
  pub txn_fits : e.txn < 2 ^ 64
  pub op_fits : OpFits e.op

read_row_lem :
    (c : String) (id : ℕ) (b : List ℕ)
    → TextFits c
    → id < 2 ^ 64
    → length b < 2 ^ 64
    → read_row (put_str c ++ (write_u64 id ++ put_bytes b)) ≡ some (c, id, b)
unfolding read_row
read_row_lem c id b hc hid hb =
    bind_is (read_string (put_str c ++ (write_u64 id ++ put_bytes b))) _
      (c, write_u64 id ++ put_bytes b) _ (read_string-put_str c _ hc)
      (bind_is (read_varint (write_u64 id ++ put_bytes b)) _ (id, put_bytes b) _
        (read_varint-write_u64 id _ hid)
        (bind_is (read_blob (put_bytes b)) _ (b, []) _ (read_blob_end b hb) refl))

read_id_lem :
    (c : String) (id : ℕ)
    → TextFits c
    → id < 2 ^ 64
    → read_id (put_str c ++ write_u64 id) ≡ some (c, id)
unfolding read_id
read_id_lem c id hc hid =
    bind_is (read_string (put_str c ++ write_u64 id)) _ (c, write_u64 id) _
      (read_string-put_str c _ hc)
      (bind_is (read_varint (write_u64 id)) _ (id, []) _ (read_varint_end id hid) refl)

read_schema_lem :
    (c : String) (b : List ℕ)
    → TextFits c
    → length b < 2 ^ 64
    → read_schema (put_str c ++ put_bytes b) ≡ some (c, b)
unfolding read_schema
read_schema_lem c b hc hb =
    bind_is (read_string (put_str c ++ put_bytes b)) _ (c, put_bytes b) _
      (read_string-put_str c _ hc)
      (bind_is (read_blob (put_bytes b)) _ (b, []) _ (read_blob_end b hb) refl)

read_pair_lem :
    (c f : String) → TextFits c → TextFits f → read_pair (put_str c ++ put_str f) ≡ some (c, f)
unfolding read_pair
read_pair_lem c f hc hf =
    bind_is (read_string (put_str c ++ put_str f)) _ (c, put_str f) _ (read_string-put_str c _ hc)
      (bind_is (read_string (put_str f)) _ (f, []) _ (read_string_end f hf) refl)

read_index_lem :
    (c f k : String)
    → TextFits c
    → TextFits f
    → TextFits k
    → read_index (put_str c ++ (put_str f ++ put_str k)) ≡ some (c, f, k)
unfolding read_index
read_index_lem c f k hc hf hk =
    bind_is (read_string (put_str c ++ (put_str f ++ put_str k))) _ (c, put_str f ++ put_str k) _
      (read_string-put_str c _ hc)
      (bind_is (read_string (put_str f ++ put_str k)) _ (f, put_str k) _
        (read_string-put_str f _ hf)
        (bind_is (read_string (put_str k)) _ (k, []) _ (read_string_end k hk) refl))

read_cluster_lem :
    (c : String) (f : Option String)
    → TextFits c
    → OptionFits f
    → read_cluster (put_str c ++ encode_option f) ≡ some (c, f)
unfolding read_cluster encode_option read_byte read_present
read_cluster_lem c none hc hf =
    bind_is (read_string (put_str c ++ 0 ∷ [])) _ (c, 0 ∷ []) _ (read_string-put_str c _ hc) refl
read_cluster_lem c (some f) hc hf =
    bind_is (read_string (put_str c ++ 1 ∷ put_str f)) _ (c, 1 ∷ put_str f) _
      (read_string-put_str c _ hc)
      (bind_is (read_present 1 (put_str f)) _ (some f) _
        (bind_is (read_string (put_str f)) _ (f, []) _ (read_string_end f hf) refl) refl)

-- The code of an operation, and what follows it.
op_parts :
    (op : WalOp)
    → OpFits op
    → (code : ℕ) × (xs : List ℕ) × (encode_op op ≡ code ∷ xs) × (decode_op code xs ≡ some op)
unfolding encode_op decode_op
op_parts (insert c id b) (hc, hid, hb) = (1, _, refl, rw (read_row_lem c id b hc hid hb) refl)
op_parts (update c id b) (hc, hid, hb) = (2, _, refl, rw (read_row_lem c id b hc hid hb) refl)
op_parts (delete c id) (hc, hid) = (3, _, refl, rw (read_id_lem c id hc hid) refl)
op_parts (create_collection c b) (hc, hb) = (4, _, refl, rw (read_schema_lem c b hc hb) refl)
op_parts (drop_collection c) hc = (5, _, refl, rw (read_string_end c hc) refl)
op_parts (commit n) h = (6, _, refl, rw (read_varint_end n h) refl)
op_parts (checkpoint n) h = (7, _, refl, rw (read_varint_end n h) refl)
op_parts (create_index c f k) (hc, hf, hk) = (8, _, refl, rw (read_index_lem c f k hc hf hk) refl)
op_parts (drop_index c f k) (hc, hf, hk) = (9, _, refl, rw (read_index_lem c f k hc hf hk) refl)
op_parts (adopt_migration c f) (hc, hf) = (10, _, refl, rw (read_pair_lem c f hc hf) refl)
op_parts (alter_schema_in_place c b) (hc, hb) = (11, _, refl, rw (read_schema_lem c b hc hb) refl)
op_parts (set_cluster_field c f) (hc, hf) = (12, _, refl, rw (read_cluster_lem c f hc hf) refl)

after_head :
    (e : WalEntry) (code : ℕ) (xs a b c : List ℕ) (p : List ℕ)
    → read_le 8 p ≡ some (e.lsn, a)
    → read_le 8 a ≡ some (e.nanos, b)
    → read_le 8 b ≡ some (e.txn, code ∷ xs)
    → decode_op code xs ≡ some e.op
    → decode_payload p ≡ some e
unfolding decode_payload read_byte
after_head e code xs a b c p h1 h2 h3 h4 =
    bind_is (read_le 8 p) _ (e.lsn, a) _ h1
      (bind_is (read_le 8 a) _ (e.nanos, b) _ h2
        (bind_is (read_le 8 b) _ (e.txn, code ∷ xs) _ h3
          (bind_is (decode_op code xs) _ e.op _ h4 refl)))

-- Every log entry, its numbers and lengths in the ranges of their types, is decoded from its
-- payload as it was, whichever of the twelve operations it holds.
pub decode_payload-encode_payload :
    (e : WalEntry) → EntryFits e → decode_payload (encode_payload e) ≡ some e
unfolding encode_payload
decode_payload-encode_payload e fits =
    let (code, xs, shape, decoded) = op_parts e.op fits.op_fits in
    after_head e code xs (le 8 e.nanos ++ (le 8 e.txn ++ encode_op e.op))
      (le 8 e.txn ++ encode_op e.op) (code ∷ xs) (encode_payload e)
      (read_le-le 8 e.lsn _ fits.lsn_fits) (read_le-le 8 e.nanos _ fits.nanos_fits)
      (ap (λ l. read_le 8 (le 8 e.txn ++ l)) shape ∙ read_le-le 8 e.txn (code ∷ xs) fits.txn_fits)
      decoded
