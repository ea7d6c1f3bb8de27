-- ===== src/Storage/Wal/Tests.antt =====
-- The theorems on crates/adabt-storage/src/wal.rs at small logs.
use a_da_bt.Prelude.{◌<◌, ◌≡◌, refl, List, [], ◌∷◌, ◌++◌, some, length, take, arith, All}
use a_da_bt.Storage.Utf8.{utf8}
use a_da_bt.Storage.Wal.Entry.{
  WalOp, insert, set_cluster_field, WalEntry, encode_op, encode_payload, decode_payload,
}
use a_da_bt.Storage.Wal.Entry.RoundTrip.{EntryFits, OpFits, decode_payload-encode_payload}
use a_da_bt.Storage.Wal.Frames.{frame, decode_frames, intact_prefix_len}
use a_da_bt.Storage.Wal.Frames.Recover.{Accepted, frames, decode_frames-torn}
use a_da_bt.Storage.Wal.Log.{
  Segment, Wal, group_commit, relaxed, segments, open_log, written, entries_from, keep,
}
use a_da_bt.Storage.Wal.Log.Refines.{
  Event, appends, commits, syncs, discards, happen_all, record_all, EventFits,
}
use a_da_bt.Storage.Wal.Log.Runs.{fresh, entries_from-happen_all}
use a_da_bt.Storage.Wal.Log.Reopen.{cut_to, Left, entries_from-open_log}

abbrev insertion : WalOp
insertion = insert "users" 7 (1 ∷ 2 ∷ [])

abbrev clustering : WalOp
clustering = set_cluster_field "users" (some "é")

abbrev first_entry : WalEntry
first_entry = record { lsn = 1; nanos = 5; txn = 3; op = insertion }

abbrev second_entry : WalEntry
second_entry = record { lsn = 2; nanos = 6; txn = 3; op = clustering }

insertion_fits : OpFits insertion
unfolding utf8
insertion_fits = (omega arith, omega arith, omega arith)

clustering_fits : OpFits clustering
unfolding utf8
clustering_fits = (omega arith, omega arith)

first_fits : EntryFits first_entry
first_fits = record {
  lsn_fits = omega arith;
  nanos_fits = omega arith;
  txn_fits = omega arith;
  op_fits = insertion_fits;
}

second_fits : EntryFits second_entry
second_fits = record {
  lsn_fits = omega arith;
  nanos_fits = omega arith;
  txn_fits = omega arith;
  op_fits = clustering_fits;
}

decode_payload-encode_payload_example :
    decode_payload (encode_payload second_entry) ≡ some second_entry
decode_payload-encode_payload_example = decode_payload-encode_payload second_entry second_fits

first-Accepted : Accepted first_entry
unfolding encode_payload utf8
first-Accepted = (first_fits, omega arith)

second-Accepted : Accepted second_entry
unfolding encode_payload utf8
second-Accepted = (second_fits, omega arith)

inside : 11 < length (frame (encode_payload second_entry))
unfolding frame encode_payload utf8
inside = omega arith

decode_frames-torn_example :
    (decode_frames (frames (first_entry ∷ []) ++ take 11 (frame (encode_payload second_entry)))
      ≡ first_entry ∷ [])
    × (intact_prefix_len
          (frames (first_entry ∷ []) ++ take 11 (frame (encode_payload second_entry)))
        ≡ length (frames (first_entry ∷ [])))
decode_frames-torn_example =
    decode_frames-torn (first_entry ∷ []) second_entry 11 (first-Accepted, tt) second-Accepted
      inside

abbrev events : List Event
events = appends 5 5 3 insertion ∷ commits ∷ appends 6 6 3 clustering ∷ discards 1 ∷ []

events_fit : All EventFits events
unfolding encode_op utf8
events_fit = (
  (omega arith, omega arith, insertion_fits, omega arith),
  (tt, ((omega arith, omega arith, clustering_fits, omega arith), (omega arith, tt))),
)

floor_below : (record_all (fresh relaxed) events).floor < 2
unfolding record_all encode_payload utf8
floor_below = omega arith

entries_from-happen_all_example :
    (spared lost : List WalEntry) × ((record_all (fresh relaxed) events).unflushed ≡ spared ++ lost)
    × (keep 2 (record_all (fresh relaxed) events).entries
        ≡ entries_from (segments (happen_all (open_log [] 4 relaxed) events)) 2 ++ keep 2 lost)
entries_from-happen_all_example =
    entries_from-happen_all 4 relaxed events 2 (omega arith) events_fit floor_below

-- The second entry is flushed and not synced.
abbrev group_events : List Event
group_events = appends 5 5 3 insertion ∷ syncs ∷ appends 6 6 3 clustering ∷ commits ∷ []

group_events_fit : All EventFits group_events
unfolding encode_op utf8
group_events_fit = (
  (omega arith, omega arith, insertion_fits, omega arith),
  (tt, ((omega arith, omega arith, clustering_fits, omega arith), (tt, tt))),
)

abbrev logged : Wal
logged = happen_all (open_log [] 4 group_commit) group_events

-- The crash leaves some bytes of the second entry.
abbrev left : List Segment
left = cut_to 70 logged.active ∷ []

left-Left : Left (segments logged) left
unfolding happen_all open_log written encode_payload utf8 intact_prefix_len
left-Left = ((70, omega arith, refl), tt)

group_floor_below : (record_all (fresh group_commit) group_events).floor < 1
unfolding record_all encode_payload utf8
group_floor_below = omega arith

entries_from-open_log_example :
    (spared lost : List WalEntry) × ((record_all (fresh group_commit) group_events).undurable
      ≡ spared ++ lost)
    × (keep 1 (record_all (fresh group_commit) group_events).entries
        ≡ entries_from (segments (open_log left 9 relaxed)) 1 ++ keep 1 lost)
entries_from-open_log_example =
    entries_from-open_log 4 group_commit group_events left 9 relaxed 1 (omega arith)
      group_events_fit left-Left group_floor_below
