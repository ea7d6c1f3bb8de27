-- ===== src/Storage/Wal/Log/Refines.antt =====
-- crates/adabt-storage/src/wal.rs: the segmented log refines a plain list of entries.
use a_da_bt.Prelude.{
  ℕ, ◌+◌, ◌%◌, ◌^◌, max, ◌<◌, ◌≤◌, ◌≡◌, List, [], ◌∷◌, ◌++◌, length, ltb, leb, if◌then◌else◌, All,
}
use a_da_bt.Storage.Wal.Entry.{WalOp, WalEntry, encode_op, encode_payload}
use a_da_bt.Storage.Wal.Entry.RoundTrip.{OpFits}
use a_da_bt.Storage.Wal.Frames.{max_entry}
use a_da_bt.Storage.Wal.Buffer.{all_bytes}
use a_da_bt.Storage.Wal.Log.{
  Durability, strict, group_commit, relaxed, Segment, Wal, writer, append, sync, commit_log,
  discard_below, keep,
}
use a_da_bt.Storage.Wal.Log.Kept.{Holds, Chain, flatten}
use a_da_bt.Storage.Wal.Log.Parts.{Part}

-- What is asked of the log.
pub data Event : Type 0 where
  appends : (now later txn : ℕ) → WalOp → Event
  commits syncs : Event
  discards : (through : ℕ) → Event

unfoldable pub happen : Wal → Event → Wal
unfolding append commit_log sync discard_below
happen w (appends now later txn op) = (append w now later txn op).0
happen w commits = commit_log w
happen w syncs = sync w
happen w (discards through) = (discard_below w through).0

unfoldable pub happen_all : Wal → List Event → Wal
unfolding happen
happen_all w [] = w
happen_all w (e ∷ es) = happen_all (happen w e) es

-- The log as a list of entries that knows of no segment. `floor` is the highest number up to which
-- entries may have been discarded; the `unflushed` entries were appended since the last call that
-- flushes, the `undurable` ones since the last that syncs.
pub record Journal : Type 0 where
  pub next : ℕ
  pub entries : List WalEntry
  pub unflushed : List WalEntry
  pub undurable : List WalEntry
  pub floor : ℕ
  pub durability : Durability
  pub group_size : ℕ

abbrev pub entry_at : ℕ → ℕ → ℕ → WalOp → WalEntry
entry_at lsn now txn op = record { lsn = lsn; nanos = now; txn = txn; op = op }

abbrev pub accept : Journal → WalEntry → Journal
accept j e = record j {
  next = j.next + 1;
  entries = j.entries ++ e ∷ [];
  unflushed = j.unflushed ++ e ∷ [];
  undurable = j.undurable ++ e ∷ [];
}

abbrev pub all_flushed : Journal → Journal
all_flushed j = record j { unflushed = [] }

abbrev pub all_durable : Journal → Journal
all_durable j = record j { unflushed = []; undurable = [] }

-- `pending` counts in 32 bits.
unfoldable pub record_commit : Durability → Journal → Journal
record_commit strict j = all_durable j
record_commit group_commit j =
    if leb j.group_size (length j.undurable % 2 ^ 32) then all_durable j else all_flushed j
record_commit relaxed j = j

-- An entry too large uses its number up.
unfoldable pub record_event : Journal → Event → Journal
unfolding record_commit
record_event j (appends now later txn op) =
    if ltb max_entry (length (encode_payload (entry_at j.next now txn op)))
    then record j { next = j.next + 1 }
    else accept j (entry_at j.next now txn op)
record_event j commits = record_commit j.durability j
record_event j syncs = all_durable j
record_event j (discards through) = record j { floor = max j.floor through }

unfoldable pub record_all : Journal → List Event → Journal
unfolding record_event
record_all j [] = j
record_all j (e ∷ es) = record_all (record_event j e) es

-- What the types of the code hold, and a payload's length in 32 bits.
abbrev pub EventFits : Event → Type 0
EventFits (appends now later txn op) =
    (now < 2 ^ 64) × (txn < 2 ^ 64) × OpFits op × (24 + length (encode_op op) < 2 ^ 32)
EventFits commits = Unit {0}
EventFits syncs = Unit {0}
EventFits (discards through) = through + 1 < 2 ^ 64

-- The active segment with what its writer holds.
abbrev pub whole : Wal → Segment
whole w = record w.active { body = all_bytes (writer w) }

abbrev pub Whole : Segment → Type 0
Whole s = s.synced ≡ length s.body

-- What is not in the active file, or not known to be on stable storage, is among the late entries.
pub record Keeps (w : Wal) (j : Journal) (tail : List WalEntry) : Type 0 where
  pub same_durability : w.durability ≡ j.durability
  pub same_group : w.group_size ≡ j.group_size
  pub same_pending : w.pending ≡ length j.undurable % 2 ^ 32
  pub sealed_whole : All Whole w.sealed
  pub flushed : Part tail w.active.body j.unflushed (length w.active.body)
  pub durable : Part tail w.active.body j.undurable w.active.synced
  pub synced_below : w.active.synced ≤ length w.active.body

pub record Implements (w : Wal) (j : Journal) : Type 0 where
  pub groups : List (List WalEntry)
  pub tail : List WalEntry
  pub sealed_hold : Chain w.sealed groups w.active.first_lsn
  pub active_holds : Holds (whole w) tail w.next_lsn
  pub same_next : w.next_lsn ≡ j.next
  pub same_entries :
      (from : ℕ) → j.floor < from → keep from (flatten groups ++ tail) ≡ keep from j.entries
  pub keeps : Keeps w j tail
