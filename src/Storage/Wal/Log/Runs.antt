-- ===== src/Storage/Wal/Log/Runs.antt =====
-- crates/adabt-storage/src/wal.rs: runs of the log against the list of entries.
use a_da_bt.Prelude.{
  ℕ, ◌+◌, ◌%◌, ◌^◌, max, ◌<◌, ◌≤◌, ◌≡◌, refl, sym, ap, ◌∙◌, subst, List, [], ◌∷◌, ◌++◌, length, leb,
  arith, All, Bool-cases, inl, inr,
}
use a_da_bt.Storage.Wal.Entry.{WalEntry}
use mathlib.Core.List.{append-nil, append_assoc}
use a_da_bt.Storage.Wal.Frames.{intact_prefix_len, prefix_loop, decode_frames, frames_loop}
use a_da_bt.Storage.Wal.Frames.Recover.{Accepted, frames, decode_frames-frames}
use a_da_bt.Storage.Wal.Buffer.{flush}
use a_da_bt.Storage.Wal.Log.{
  Durability, strict, group_commit, relaxed, Segment, Wal, segments, opened, open_log, flush_log,
  sync_all, sync, commit_by, commit_log, after_last, first_of, split_below, discard_found,
  discard_below, keep, next_starts_below, entries_from,
}
use a_da_bt.Storage.Wal.Log.Kept.{
  Within, Holds, Chain, flatten, flatten_snoc, keep-append, entries_from-Chain, Chain-snoc,
  split_below-Chain,
}
use a_da_bt.Storage.Wal.Log.Parts.{whole-Part}
use a_da_bt.Storage.Wal.Log.Found.{take_whole, All-split, Found-Part}
use a_da_bt.Storage.Wal.Log.Refines.{
  Event, appends, commits, syncs, discards, happen, happen_all, Journal, all_durable, record_commit,
  record_event, record_all, EventFits, whole, Whole, Implements,
}
use a_da_bt.Storage.Wal.Log.Steps.{Holds-body, flush_log-Implements}
use a_da_bt.Storage.Wal.Log.Appends.{append-Implements}

sync-Implements : (w : Wal) (j : Journal) → Implements w j → Implements (sync w) (all_durable j)
unfolding sync sync_all flush_log flush
sync-Implements w j i = record {
  groups = i.groups;
  tail = i.tail;
  sealed_hold = i.sealed_hold;
  active_holds = Holds-body (whole w) _ i.tail w.next_lsn refl (append-nil _) i.active_holds;
  same_next = i.same_next;
  same_entries = i.same_entries;
  keeps = record {
    same_durability = i.keeps.same_durability;
    same_group = i.keeps.same_group;
    same_pending = refl;
    sealed_whole = i.keeps.sealed_whole;
    flushed = whole-Part i.tail [] _ _ i.active_holds.bytes_are (omega arith);
    durable = whole-Part i.tail [] _ _ i.active_holds.bytes_are (omega arith);
    synced_below = omega arith;
  };
}

commit_by-Implements :
    (d : Durability) (w : Wal) (j : Journal)
    → Implements w j
    → Implements (commit_by d w) (record_commit d j)
unfolding commit_by record_commit
commit_by-Implements strict w j i = sync-Implements w j i
commit_by-Implements group_commit w j i =
    let same : leb w.group_size w.pending ≡ leb j.group_size (length j.undurable % 2 ^ 32) =
      cc (i.keeps.same_group, i.keeps.same_pending) in
    elim (Bool-cases (leb j.group_size (length j.undurable % 2 ^ 32))) [
      | inl h ↦ rw (same, h) (sync-Implements w j i)
      | inr h ↦ rw (same, h) (flush_log-Implements w j i)
    ]
commit_by-Implements relaxed w j i = i

split_below-Whole :
    (through active : ℕ) (ss : List Segment)
    → All Whole ss
    → All Whole (split_below through ss active).1
unfolding split_below
split_below-Whole through active [] a = tt
split_below-Whole through active (s ∷ ss) a =
    elim (Bool-cases (leb (first_of ss active) ((through + 1) % 2 ^ 64))) [
      | inl h ↦ rw h (split_below-Whole through active ss a.1)
      | inr h ↦ rw h a
    ]

-- Whatever was found below, what is left holds the groups left.
discard_found-Implements :
    (w : Wal) (j : Journal) (through : ℕ) (found : List Segment × List Segment)
    → (i : Implements w j) → (kept : List (List WalEntry)) → Chain found.1 kept w.active.first_lsn
    → All Whole found.1
    → ((from : ℕ) → through < from → keep from (flatten i.groups) ≡ keep from (flatten kept))
    → Implements (discard_found w found).0 (record j { floor = max j.floor through })
unfolding discard_found
discard_found-Implements w j through ([], left) i kept chain left_whole same = record {
  groups = i.groups;
  tail = i.tail;
  sealed_hold = i.sealed_hold;
  active_holds = i.active_holds;
  same_next = i.same_next;
  same_entries = λ from h. i.same_entries from (omega arith);
  keeps = record {
    same_durability = i.keeps.same_durability;
    same_group = i.keeps.same_group;
    same_pending = i.keeps.same_pending;
    sealed_whole = i.keeps.sealed_whole;
    flushed = i.keeps.flushed;
    durable = i.keeps.durable;
    synced_below = i.keeps.synced_below;
  };
}
discard_found-Implements w j through (s ∷ removed, left) i kept chain left_whole same = record {
  groups = kept;
  tail = i.tail;
  sealed_hold = chain;
  active_holds = i.active_holds;
  same_next = i.same_next;
  same_entries = λ from h.
      keep-append from (flatten kept) i.tail
      ∙ ap (λ l. l ++ keep from i.tail) (sym (same from (omega arith)))
      ∙ sym (keep-append from (flatten i.groups) i.tail)
      ∙ i.same_entries from (omega arith);
  keeps = record {
    same_durability = i.keeps.same_durability;
    same_group = i.keeps.same_group;
    same_pending = i.keeps.same_pending;
    sealed_whole = left_whole;
    flushed = i.keeps.flushed;
    durable = i.keeps.durable;
    synced_below = i.keeps.synced_below;
  };
}

happen-Implements :
    (e : Event) (w : Wal) (j : Journal)
    → w.next_lsn + 1 < 2 ^ 64
    → EventFits e
    → Implements w j
    → Implements (happen w e) (record_event j e)
unfolding happen commit_log discard_below record_event
happen-Implements (appends now later txn op) w j small fits i =
    append-Implements w j now later txn op i small fits
happen-Implements commits w j small fits i =
    subst (λ d. Implements (commit_by w.durability w) (record_commit d j)) i.keeps.same_durability
      (commit_by-Implements w.durability w j i)
happen-Implements syncs w j small fits i = sync-Implements w j i
happen-Implements (discards through) w j small fits i =
    let (kept, chain, same) =
      split_below-Chain through w.active.first_lsn w.sealed i.groups fits i.sealed_hold in
    discard_found-Implements w j through (split_below through w.sealed w.active.first_lsn) i kept
      chain (split_below-Whole through w.active.first_lsn w.sealed i.keeps.sealed_whole) same

next-record_commit : (d : Durability) (j : Journal) → (record_commit d j).next ≤ j.next + 1
unfolding record_commit
next-record_commit strict j = omega arith
next-record_commit group_commit j = ground arith
next-record_commit relaxed j = omega arith

next-record_event : (j : Journal) (e : Event) → (record_event j e).next ≤ j.next + 1
unfolding record_event
next-record_event j (appends now later txn op) = ground arith
next-record_event j commits = next-record_commit j.durability j
next-record_event j syncs = omega arith
next-record_event j (discards through) = omega arith

pub happen_all-Implements :
    (es : List Event) (w : Wal) (j : Journal)
    → j.next + length es < 2 ^ 64
    → All EventFits es
    → Implements w j
    → Implements (happen_all w es) (record_all j es)
unfolding happen_all record_all
happen_all-Implements [] w j small fits i = i
happen_all-Implements (e ∷ es) w j small fits i =
    happen_all-Implements es (happen w e) (record_event j e) (omega (arith, next-record_event j e))
      fits.1 (happen-Implements e w j (omega (arith, i.same_next)) fits.0 i)

next_starts_below_snoc :
    (ss : List Segment) (s t : Segment) (from : ℕ)
    → s.first_lsn ≡ t.first_lsn
    → next_starts_below (ss ++ s ∷ []) from ≡ next_starts_below (ss ++ t ∷ []) from
next_starts_below_snoc [] s t from h = ap (λ n. leb n from) h
next_starts_below_snoc (u ∷ ss) s t from h = refl

-- Of the last segment only what is decoded counts.
entries_from_snoc :
    (ss : List Segment) (s t : Segment) (from : ℕ)
    → s.first_lsn ≡ t.first_lsn
    → decode_frames s.body ≡ decode_frames t.body
    → entries_from (ss ++ s ∷ []) from ≡ entries_from (ss ++ t ∷ []) from
unfolding entries_from
entries_from_snoc [] s t from first same = ap (λ es. keep from es ++ []) same
entries_from_snoc (u ∷ ss) s t from first same =
    rw (next_starts_below_snoc ss s t from first, entries_from_snoc ss s t from first same) refl

-- A log's segments, the active one with other bytes, from which `read` is decoded.
pub entries_from-decoded :
    (w : Wal) (j : Journal) (from : ℕ) (read lost : List WalEntry) (t : Segment)
    → (i : Implements w j) → i.tail ≡ read ++ lost
    → t.first_lsn ≡ w.active.first_lsn
    → decode_frames t.body ≡ read
    → j.floor < from
    → keep from j.entries ≡ entries_from (w.sealed ++ t ∷ []) from ++ keep from lost
entries_from-decoded w j from read lost t i tail_is first decoded h =
    let accepted =
      All-split Accepted read lost (subst (All Accepted) tail_is i.active_holds.accepted) in
    let inside =
      All-split (Within w.active.first_lsn w.next_lsn) read lost
        (subst (All (Within w.active.first_lsn w.next_lsn)) tail_is i.active_holds.within) in
    let clean : Segment = record w.active { body = frames read } in
    let holds : Holds clean read w.next_lsn = record {
      bytes_are = refl;
      accepted = accepted.0;
      within = inside.0;
      begins = i.active_holds.begins;
    } in
    let answer : entries_from (w.sealed ++ t ∷ []) from ≡ keep from (flatten i.groups ++ read) =
      entries_from_snoc w.sealed t clean from first
        (decoded ∙ sym (decode_frames-frames read accepted.0))
      ∙ entries_from-Chain from w.next_lsn (w.sealed ++ clean ∷ []) (i.groups ++ read ∷ [])
          (Chain-snoc w.sealed i.groups clean read w.next_lsn i.sealed_hold holds)
      ∙ ap (keep from) (flatten_snoc i.groups read) in
    sym (i.same_entries from h)
    ∙ ap (λ l. keep from (flatten i.groups ++ l)) tail_is
    ∙ ap (keep from) (sym (append_assoc (flatten i.groups) read lost))
    ∙ keep-append from (flatten i.groups ++ read) lost
    ∙ ap (λ l. l ++ keep from lost) (sym answer)

-- A log that implements a list answers from every number above the floor as the list does, but for
-- the last of the entries that are not flushed.
entries_from-Implements :
    (w : Wal) (j : Journal) (from : ℕ)
    → Implements w j
    → j.floor < from
    → (spared lost : List WalEntry) × (j.unflushed ≡ spared ++ lost)
      × (keep from j.entries ≡ entries_from (segments w) from ++ keep from lost)
entries_from-Implements w j from i h =
    let found =
      Found-Part i.tail w.active.body w.held j.unflushed (length w.active.body)
        (length w.active.body) i.active_holds.accepted i.active_holds.bytes_are i.keeps.flushed
        (omega arith) in
    (
      found.spared,
      found.lost,
      found.late_is,
      entries_from-decoded w j from found.read found.lost w.active i found.tail_is refl
          (ap decode_frames (sym (take_whole w.active.body)) ∙ found.decoded) h,
    )

abbrev pub fresh : Durability → Journal
fresh d = record {
  next = 1;
  entries = [];
  unflushed = [];
  undurable = [];
  floor = 0;
  durability = d;
  group_size = 32;
}

pub fresh-Implements : (nanos : ℕ) (d : Durability) → Implements (open_log [] nanos d) (fresh d)
unfolding open_log opened frames intact_prefix_len prefix_loop decode_frames frames_loop after_last
fresh-Implements nanos d = record {
  groups = [];
  tail = [];
  sealed_hold = tt;
  active_holds = record { bytes_are = refl; accepted = tt; within = tt; begins = omega arith };
  same_next = refl;
  same_entries = λ from h. refl;
  keeps = record {
    same_durability = refl;
    same_group = refl;
    same_pending = refl;
    sealed_whole = tt;
    flushed = whole-Part [] [] [] 0 refl (omega arith);
    durable = whole-Part [] [] [] 0 refl (omega arith);
    synced_below = omega arith;
  };
}

-- Whatever is appended to a new log, with commits, syncs, rotations and discards in between, less than
-- 2^64 - 1 calls in all with numbers in the ranges of their types, reading the files of its segments
-- from any number above those discarded gives the entries accepted so far, in order and numbered as
-- they were, exactly as a plain list of them would, but for some of the last, and those are among the
-- entries appended since the last sync, or commit that flushes.
pub entries_from-happen_all :
    (nanos : ℕ) (d : Durability) (es : List Event) (from : ℕ)
    → 1 + length es < 2 ^ 64
    → All EventFits es
    → (record_all (fresh d) es).floor < from
    → (spared lost : List WalEntry) × ((record_all (fresh d) es).unflushed ≡ spared ++ lost)
      × (keep from (record_all (fresh d) es).entries
          ≡ entries_from (segments (happen_all (open_log [] nanos d) es)) from ++ keep from lost)
entries_from-happen_all nanos d es from small fits above =
    entries_from-Implements (happen_all (open_log [] nanos d) es) (record_all (fresh d) es) from
      (happen_all-Implements es (open_log [] nanos d) (fresh d) small fits
        (fresh-Implements nanos d))
      above
