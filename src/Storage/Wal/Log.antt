-- ===== src/Storage/Wal/Log.antt =====
-- crates/adabt-storage/src/wal.rs: the log of segments. A segment's body is its file behind the
-- header, and `synced` of its bytes are known to be on stable storage; `sealed` and `active` together
-- are `segments`, and `held` is what the `BufWriter` has not passed on to the active file. The
-- clock's answers are arguments.
pub mod Kept
pub mod Parts
pub mod Found
pub mod Refines
pub mod Steps
pub mod Appends
pub mod Runs
pub mod Reopen
use a_da_bt.Prelude.{
  ℕ, zero, suc, ◌+◌, ◌%◌, ◌^◌, max, Bool, true, false, List, [], ◌∷◌, ◌++◌, Option, some, none,
  length, take, ltb, leb, if◌then◌else◌,
}
use a_da_bt.Storage.Wal.Entry.{WalOp, WalEntry, encode_payload}
use a_da_bt.Storage.Wal.Frames.{max_entry, checksum, decode_frames, intact_prefix_len}
use a_da_bt.Storage.Wal.Buffer.{Buffered, flush, write_all}
use a_da_bt.Storage.LittleEndian.{le}

pub data Durability : Type 0 where
  strict group_commit relaxed : Durability

pub record Segment : Type 0 where
  pub first_lsn : ℕ
  pub first_nanos : ℕ
  pub body : List ℕ
  pub synced : ℕ

-- `archive` is the directory for discarded segments, if one is set, by the segments in it.
pub record Wal : Type 0 where
  pub sealed : List Segment
  pub active : Segment
  pub held : List ℕ
  pub active_bytes : ℕ
  pub segment_bytes : ℕ
  pub next_lsn : ℕ
  pub start_lsn : ℕ
  pub archive : Option (List Segment)
  pub durability : Durability
  pub pending : ℕ
  pub group_size : ℕ
  pub syncs : ℕ
  pub appended : ℕ

abbrev pub header_bytes : ℕ
header_bytes = 40

-- 16 * 1024 * 1024
abbrev pub default_segment_bytes : ℕ
default_segment_bytes = 0x100_0000

abbrev pub segments : Wal → List Segment
segments w = w.sealed ++ w.active ∷ []

abbrev pub create_segment : ℕ → ℕ → Segment
create_segment first_lsn nanos = record {
  first_lsn = first_lsn;
  first_nanos = nanos;
  body = [];
  synced = 0;
}

-- The segments but the last, and the last.
unfoldable pub split_last : Segment → List Segment → List Segment × Segment
split_last s [] = ([], s)
split_last s (t ∷ ts) = let r = split_last t ts in (s ∷ r.0, r.1)

-- `.last().map(|e| e.lsn.0 + 1).unwrap_or(first_lsn)`
unfoldable pub after_last : ℕ → List WalEntry → ℕ
after_last first [] = first
after_last first (e ∷ es) = after_last ((e.lsn + 1) % 2 ^ 64) es

-- What `open` sets up over the segments in the directory, the last of them cut to its whole frames.
unfoldable pub opened : List Segment → Segment → ℕ → Durability → Wal
unfolding after_last
opened sealed last oldest durability =
    let good = intact_prefix_len last.body in
    let body = take good last.body in
    record {
      sealed = sealed;
      active = record last {
        body = body;
        synced = if leb good last.synced then good else last.synced;
      };
      held = [];
      active_bytes = header_bytes + good;
      segment_bytes = default_segment_bytes;
      next_lsn = after_last last.first_lsn (decode_frames body);
      start_lsn = if leb oldest 1 then 0 else oldest;
      archive = none;
      durability = durability;
      pending = 0;
      group_size = 32;
      syncs = 0;
      appended = 0;
    }

unfoldable pub open_log : List Segment → ℕ → Durability → Wal
unfolding opened split_last
open_log [] nanos durability = opened [] (create_segment 1 nanos) 1 durability
open_log (s ∷ ss) nanos durability =
    let r = split_last s ss in opened r.0 r.1 s.first_lsn durability

unfoldable pub set_segment_bytes : Wal → ℕ → Wal
set_segment_bytes w bytes = record w { segment_bytes = max bytes (header_bytes + 1) }

abbrev pub writer : Wal → Buffered
writer w = record { file = w.active.body; held = w.held }

-- The log with its writer in another state.
abbrev pub with_writer : Wal → Buffered → Wal
with_writer w b = record w { active = record w.active { body = b.file }; held = b.held }

unfoldable pub flush_log : Wal → Wal
unfolding flush
flush_log w = with_writer w (flush (writer w))

-- `sync_all` of the active file.
unfoldable pub sync_all : Wal → Wal
sync_all w = record w { active = record w.active { synced = length w.active.body } }

unfoldable pub begin_segment : Wal → ℕ → Wal
begin_segment w nanos = record w {
  sealed = w.sealed ++ w.active ∷ [];
  active = create_segment w.next_lsn nanos;
  held = [];
  active_bytes = header_bytes;
}

unfoldable pub rotate : Wal → ℕ → Wal
unfolding flush_log sync_all begin_segment
rotate w nanos = begin_segment (sync_all (flush_log w)) nanos

-- The three writes of a frame.
unfoldable pub write_frame : Buffered → List ℕ → Buffered
unfolding write_all le checksum
write_frame b payload =
    write_all (write_all (write_all b (le 4 (length payload % 2 ^ 32))) (le 4 (checksum payload)))
      payload

-- The frame and the counters.
unfoldable pub written : Wal → List ℕ → Wal
unfolding write_frame
written w payload = record (with_writer w (write_frame (writer w) payload)) {
  active_bytes = w.active_bytes + (8 + length payload);
  pending = (w.pending + 1) % 2 ^ 32;
  appended = (w.appended + 1) % 2 ^ 64;
}

unfoldable pub sealed_if_full : Wal → ℕ → Wal
unfolding rotate
sealed_if_full w nanos = if leb w.segment_bytes w.active_bytes then rotate w nanos else w

abbrev pub next_entry : Wal → ℕ → ℕ → WalOp → WalEntry
next_entry w nanos txn op = record { lsn = w.next_lsn; nanos = nanos; txn = txn; op = op }

-- `now` and `later` are what the clock says for the entry and for a segment begun behind it. `none`
-- is the error of an entry too large, whose number is used up.
unfoldable pub append : Wal → ℕ → ℕ → ℕ → WalOp → Wal × Option ℕ
unfolding written sealed_if_full
append w now later txn op =
    let payload = encode_payload (next_entry w now txn op) in
    let w' = record w { next_lsn = (w.next_lsn + 1) % 2 ^ 64 } in
    if ltb max_entry (length payload % 2 ^ 32)
    then (w', none)
    else (sealed_if_full (written w' payload) later, some w.next_lsn)

unfoldable pub sync : Wal → Wal
unfolding flush_log sync_all
sync w = record (sync_all (flush_log w)) { pending = 0; syncs = (w.syncs + 1) % 2 ^ 64 }

unfoldable pub commit_by : Durability → Wal → Wal
unfolding sync flush_log
commit_by strict w = sync w
commit_by group_commit w = if leb w.group_size w.pending then sync w else flush_log w
commit_by relaxed w = w

unfoldable pub commit_log : Wal → Wal
unfolding commit_by
commit_log w = commit_by w.durability w

-- Where the segment behind some sealed ones begins.
unfoldable pub first_of : List Segment → ℕ → ℕ
first_of [] active = active
first_of (s ∷ ss) active = s.first_lsn

-- The sealed segments that lie below `through`, and the others.
unfoldable pub split_below : ℕ → List Segment → ℕ → List Segment × List Segment
unfolding first_of
split_below through [] active = ([], [])
split_below through (s ∷ ss) active =
    let r = split_below through ss active in
    if leb (first_of ss active) ((through + 1) % 2 ^ 64) then (s ∷ r.0, r.1) else ([], s ∷ ss)

abbrev pub archived : Option (List Segment) → List Segment → Option (List Segment)
archived none removed = none
archived (some kept) removed = some (kept ++ removed)

-- The log left, and how many segments went.
unfoldable pub discard_found : Wal → List Segment × List Segment → Wal × ℕ
unfolding first_of
discard_found w ([], kept) = (w, 0)
discard_found w (s ∷ removed, kept) = (
  record w {
    sealed = kept;
    archive = archived w.archive (s ∷ removed);
    start_lsn = first_of kept w.active.first_lsn;
  },
  suc (length removed),
)

unfoldable pub discard_below : Wal → ℕ → Wal × ℕ
unfolding split_below discard_found
discard_below w through = discard_found w (split_below through w.sealed w.active.first_lsn)

-- The entries at or above a number.
unfoldable pub keep : ℕ → List WalEntry → List WalEntry
keep from [] = []
keep from (e ∷ es) = let rest = keep from es in if leb from e.lsn then e ∷ rest else rest

abbrev pub next_starts_below : List Segment → ℕ → Bool
next_starts_below [] from = false
next_starts_below (n ∷ ns) from = leb n.first_lsn from

unfoldable pub entries_from : List Segment → ℕ → List WalEntry
unfolding keep
entries_from [] from = []
entries_from (s ∷ ss) from =
    let rest = entries_from ss from in
    if next_starts_below ss from then rest else keep from (decode_frames s.body) ++ rest

unfoldable pub read_all : List Segment → List WalEntry
unfolding entries_from
read_all ss = entries_from ss 0

-- The loop of `lsn_at_or_before`.
unfoldable pub latest_loop : ℕ → List WalEntry → Option ℕ → Option ℕ
latest_loop nanos [] best = best
latest_loop nanos (e ∷ es) none =
    latest_loop nanos es (if leb e.nanos nanos then some e.lsn else none)
latest_loop nanos (e ∷ es) (some b) =
    latest_loop nanos es
      (if leb e.nanos nanos then (if leb e.lsn b then some b else some e.lsn) else some b)

unfoldable pub lsn_at_or_before : List Segment → ℕ → Option ℕ
unfolding latest_loop entries_from
lsn_at_or_before ss nanos = latest_loop nanos (entries_from ss 0) none
