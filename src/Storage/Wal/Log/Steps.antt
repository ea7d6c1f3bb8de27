-- ===== src/Storage/Wal/Log/Steps.antt =====
-- crates/adabt-storage/src/wal.rs: flushing and rotating, against the list of entries.
use a_da_bt.Prelude.{
  ℕ, ◌+◌, ◌%◌, ◌^◌, ◌≤◌, ◌≡◌, refl, sym, ap, ◌∙◌, subst, List, [], ◌∷◌, ◌++◌, length, length-append,
  leb, arith, All, Bool-cases, inl, inr,
}
use mathlib.Core.List.{append-nil}
use a_da_bt.Storage.LittleEndian.{le}
use a_da_bt.Storage.Wal.Entry.{WalEntry, encode_payload}
use a_da_bt.Storage.Wal.Frames.{checksum, frame}
use a_da_bt.Storage.Wal.Buffer.{Buffered, flush, Adds, Adds-trans, write_all-Adds}
use a_da_bt.Storage.Wal.Frames.Recover.{Accepted, frames, frames-append}
use a_da_bt.Storage.Wal.Log.{
  Segment, Wal, write_frame, flush_log, sync_all, begin_segment, rotate, sealed_if_full, keep,
}
use a_da_bt.Storage.Wal.Log.Kept.{Within, Holds, flatten, flatten_snoc, Within-widen, Chain-snoc}
use a_da_bt.Storage.Wal.Log.Parts.{whole-Part, Part-longer}
use a_da_bt.Storage.Wal.Log.Refines.{Journal, all_flushed, whole, Whole, Implements}

All-snoc {ℓ κ} :
    {A : Type ℓ} (P : A → Type κ) (xs : List A) (x : A) → All P xs → P x → All P (xs ++ x ∷ [])
All-snoc P [] x a p = (p, tt)
All-snoc P (y ∷ xs) x a p = (a.0, All-snoc P xs x a.1 p)

pub Holds-widen :
    (s : Segment) (es : List WalEntry) (hi hi' : ℕ) → hi ≤ hi' → Holds s es hi → Holds s es hi'
Holds-widen s es hi hi' h held = record {
  bytes_are = held.bytes_are;
  accepted = held.accepted;
  within = Within-widen s.first_lsn hi hi' es h held.within;
  begins = omega (arith, held.begins);
}

-- An entry behind the others of its segment.
pub Holds-written :
    (s : Segment) (es : List WalEntry) (e : WalEntry)
    → Accepted e
    → Holds s es e.lsn
    → Holds (record s { body = s.body ++ frame (encode_payload e) }) (es ++ e ∷ []) (e.lsn + 1)
unfolding frames
Holds-written s es e ok held = record {
  bytes_are =
      ap (λ l. l ++ frame (encode_payload e)) held.bytes_are
      ∙ ap (λ l. frames es ++ l) (sym (append-nil (frame (encode_payload e))))
      ∙ sym (frames-append es (e ∷ []));
  accepted = All-snoc Accepted es e held.accepted ok;
  within =
      All-snoc (Within s.first_lsn (e.lsn + 1)) es e
        (Within-widen s.first_lsn e.lsn (e.lsn + 1) es (omega arith) held.within)
        (held.begins, omega arith);
  begins = omega (arith, held.begins);
}

pub Holds-body :
    (s t : Segment) (es : List WalEntry) (hi : ℕ)
    → t.first_lsn ≡ s.first_lsn
    → t.body ≡ s.body
    → Holds s es hi
    → Holds t es hi
Holds-body s t es hi first same held = record {
  bytes_are = same ∙ held.bytes_are;
  accepted = held.accepted;
  within = subst (λ n. All (Within n hi) es) (sym first) held.within;
  begins = omega (arith, held.begins, first);
}

-- The writer's bytes go to the file.
pub flush_log-Implements :
    (w : Wal) (j : Journal) → Implements w j → Implements (flush_log w) (all_flushed j)
unfolding flush_log flush
flush_log-Implements w j i = record {
  groups = i.groups;
  tail = i.tail;
  sealed_hold = i.sealed_hold;
  active_holds = Holds-body (whole w) _ i.tail w.next_lsn refl (append-nil _) i.active_holds;
  same_next = i.same_next;
  same_entries = i.same_entries;
  keeps = record {
    same_durability = i.keeps.same_durability;
    same_group = i.keeps.same_group;
    same_pending = i.keeps.same_pending;
    sealed_whole = i.keeps.sealed_whole;
    flushed = whole-Part i.tail [] _ _ i.active_holds.bytes_are (omega arith);
    durable =
        Part-longer i.tail w.active.body j.undurable w.active.synced w.held _ (omega arith)
          i.keeps.durable;
    synced_below = omega (arith, length-append w.active.body w.held, i.keeps.synced_below);
  };
}

-- A new segment begins behind one that is on stable storage.
rotate-Implements :
    (w : Wal) (j : Journal) (nanos : ℕ) → Implements w j → Implements (rotate w nanos) j
unfolding rotate begin_segment sync_all flush_log flush frames
rotate-Implements w j nanos i = record {
  groups = i.groups ++ i.tail ∷ [];
  tail = [];
  sealed_hold =
      Chain-snoc w.sealed i.groups _ i.tail w.next_lsn i.sealed_hold
        (Holds-body (whole w) _ i.tail w.next_lsn refl refl i.active_holds);
  active_holds = record { bytes_are = refl; accepted = tt; within = tt; begins = omega arith };
  same_next = i.same_next;
  same_entries = λ from h.
      ap (keep from) (append-nil (flatten (i.groups ++ i.tail ∷ [])) ∙ flatten_snoc i.groups i.tail)
      ∙ i.same_entries from h;
  keeps = record {
    same_durability = i.keeps.same_durability;
    same_group = i.keeps.same_group;
    same_pending = i.keeps.same_pending;
    sealed_whole = All-snoc Whole w.sealed _ i.keeps.sealed_whole refl;
    flushed = whole-Part [] j.unflushed [] 0 refl (omega arith);
    durable = whole-Part [] j.undurable [] 0 refl (omega arith);
    synced_below = omega arith;
  };
}

pub sealed_if_full-Implements :
    (w : Wal) (j : Journal) (nanos : ℕ) → Implements w j → Implements (sealed_if_full w nanos) j
unfolding sealed_if_full
sealed_if_full-Implements w j nanos i = elim (Bool-cases (leb w.segment_bytes w.active_bytes)) [
  | inl h ↦ rw h (rotate-Implements w j nanos i)
  | inr h ↦ rw h i
]

pub write_frame-Adds : (b : Buffered) (p : List ℕ) → Adds b (write_frame b p) (frame p)
unfolding write_frame frame
write_frame-Adds b p =
    Adds-trans b _ _ (le 4 (length p % 2 ^ 32)) (le 4 (checksum p) ++ p)
      (write_all-Adds b (le 4 (length p % 2 ^ 32)))
      (Adds-trans _ _ _ (le 4 (checksum p)) p (write_all-Adds _ (le 4 (checksum p)))
        (write_all-Adds _ p))
