-- ===== src/Storage/Wal/Log/Reopen.antt =====
-- crates/adabt-storage/src/wal.rs: the log opened again after a crash.
use a_da_bt.Prelude.{
  ℕ, zero, suc, ◌+◌, ◌^◌, ◌<◌, ◌≤◌, ◌≡◌, refl, sym, ap, ◌∙◌, List, [], ◌∷◌, ◌++◌, length, take,
  arith, All,
}
use a_da_bt.Storage.Wal.Entry.{WalEntry}
use a_da_bt.Storage.Wal.Frames.{decode_frames}
use a_da_bt.Storage.Wal.Frames.Recover.{decode_frames-frames}
use a_da_bt.Storage.Wal.Log.{
  Durability, Segment, Wal, segments, split_last, opened, open_log, keep, entries_from, first_of,
}
use a_da_bt.Storage.Wal.Log.Found.{Found-Part}
use a_da_bt.Storage.Wal.Log.Refines.{
  Event, Journal, happen_all, record_all, EventFits, Whole, Implements,
}
use a_da_bt.Storage.Wal.Log.Runs.{
  fresh, fresh-Implements, happen_all-Implements, entries_from-decoded,
}

split_last_snoc : (s t : Segment) (ss : List Segment) → split_last s (ss ++ t ∷ []) ≡ (s ∷ ss, t)
unfolding split_last
split_last_snoc s t [] = refl
split_last_snoc s t (u ∷ ss) = ap (λ r. (s ∷ r.0, r.1)) (split_last_snoc u t ss)

open_log_snoc :
    (ss : List Segment) (t : Segment) (nanos : ℕ) (d : Durability)
    → open_log (ss ++ t ∷ []) nanos d ≡ opened ss t (first_of ss t.first_lsn) d
unfolding open_log first_of split_last
open_log_snoc [] t nanos d = refl
open_log_snoc (s ∷ ss) t nanos d = ap (λ r. opened r.0 r.1 s.first_lsn d) (split_last_snoc s t ss)

abbrev pub cut_to : ℕ → Segment → Segment
cut_to m s = record s { body = take m s.body }

-- A crash leaves of each segment's file some of its front, and all that is on stable storage.
abbrev pub Left : List Segment → List Segment → Type 0
Left [] [] = Unit {0}
Left (s ∷ ss) (t ∷ ts) = ((m : ℕ) × (s.synced ≤ m) × (t ≡ cut_to m s)) × Left ss ts
Left _ _ = ⊥

take_all : (m : ℕ) (xs : List ℕ) → length xs ≤ m → take m xs ≡ xs
take_all zero [] h = refl
take_all (suc m) [] h = refl
take_all zero (x ∷ xs) h = absurd (omega (arith, h))
take_all (suc m) (x ∷ xs) h = ap (λ l. x ∷ l) (take_all m xs (omega (arith, h)))

-- The sealed segments are left whole.
Left-sealed :
    (ss : List Segment) (s : Segment) (left : List Segment)
    → All Whole ss
    → Left (ss ++ s ∷ []) left
    → (m : ℕ) × (s.synced ≤ m) × (left ≡ ss ++ cut_to m s ∷ [])
Left-sealed [] s [] a l = absurd l
Left-sealed [] s (t ∷ []) a l = (l.0.0, l.0.1, ap (λ u. u ∷ []) l.0.2)
Left-sealed [] s (t ∷ u ∷ ts) a l = absurd l.1
Left-sealed (u ∷ ss) s [] a l = absurd l
Left-sealed (u ∷ ss) s (t ∷ ts) a l =
    let (m, h, same) = Left-sealed ss s ts a.1 l.1 in
    let front : t ≡ u =
      l.0.2 ∙ ap (λ b. record u { body = b }) (take_all l.0.0 u.body (omega (arith, a.0, l.0.1))) in
    (m, h, ap (λ v. v ∷ ts) front ∙ ap (λ r. u ∷ r) same)

-- A log that implements a list, opened on what a crash has left, answers as the list does, but for
-- the last of the entries that are not durable.
open_log-Implements :
    (w : Wal) (j : Journal) (left : List Segment) (nanos : ℕ) (d : Durability) (from : ℕ)
    → Implements w j
    → Left (segments w) left
    → j.floor < from
    → (spared lost : List WalEntry) × (j.undurable ≡ spared ++ lost)
      × (keep from j.entries
          ≡ entries_from (segments (open_log left nanos d)) from ++ keep from lost)
unfolding opened
open_log-Implements w j left nanos d from i l above =
    let (m, h, same) = Left-sealed w.sealed w.active left i.keeps.sealed_whole l in
    let found =
      Found-Part i.tail w.active.body w.held j.undurable w.active.synced m i.active_holds.accepted
        i.active_holds.bytes_are i.keeps.durable h in
    let reopened : open_log left nanos d
        ≡ opened w.sealed (cut_to m w.active) (first_of w.sealed w.active.first_lsn) d =
      ap (λ ss. open_log ss nanos d) same ∙ open_log_snoc w.sealed (cut_to m w.active) nanos d in
    (
      found.spared,
      found.lost,
      found.late_is,
      entries_from-decoded w j from found.read found.lost _ i found.tail_is refl
            (ap decode_frames found.kept ∙ decode_frames-frames found.read found.accepted) above
          ∙ ap (λ v. entries_from (segments v) from ++ keep from found.lost) (sym reopened),
    )

-- Whatever is appended to a new log, with commits, syncs, rotations and discards in between, less than
-- 2^64 - 1 calls in all with numbers in the ranges of their types, a log opened on what a crash then
-- leaves (of each file a front that holds at least the part that was synced) gives from any number
-- above those discarded the entries accepted before the crash, in order, but for some of the last, and
-- those are among the entries appended since the last sync, or commit that syncs.
pub entries_from-open_log :
    (nanos : ℕ) (d : Durability) (es : List Event) (left : List Segment) (later : ℕ)
    (d' : Durability) (from : ℕ)
    → 1 + length es < 2 ^ 64
    → All EventFits es
    → Left (segments (happen_all (open_log [] nanos d) es)) left
    → (record_all (fresh d) es).floor < from
    → (spared lost : List WalEntry) × ((record_all (fresh d) es).undurable ≡ spared ++ lost)
      × (keep from (record_all (fresh d) es).entries
          ≡ entries_from (segments (open_log left later d')) from ++ keep from lost)
entries_from-open_log nanos d es left later d' from small fits l above =
    open_log-Implements (happen_all (open_log [] nanos d) es) (record_all (fresh d) es) left later
      d' from
      (happen_all-Implements es (open_log [] nanos d) (fresh d) small fits
        (fresh-Implements nanos d))
      l above
