-- ===== src/Storage/Wal/Log/Kept.antt =====
-- crates/adabt-storage/src/wal.rs: which entries the segments hold, and which of them are read.
use a_da_bt.Prelude.{
  ℕ, ◌+◌, ◌%◌, ◌^◌, ◌<◌, ◌≤◌, ◌≡◌, refl, sym, ap, ◌∙◌, subst, true, false, List, [], ◌∷◌, ◌++◌, leb,
  leb→le, arith, All, Bool-cases, inl, inr,
}
use mathlib.Core.List.{append-nil, append_assoc}
use a_da_bt.Storage.Wal.Entry.{WalEntry}
use a_da_bt.Storage.Wal.Frames.{decode_frames}
use a_da_bt.Storage.Wal.Frames.Recover.{Accepted, frames, decode_frames-frames}
use a_da_bt.Storage.Wal.Log.{Segment, first_of, split_below, keep, next_starts_below, entries_from}

-- The numbers from `lo` to below `hi`.
abbrev pub Within : ℕ → ℕ → WalEntry → Type 0
Within lo hi e = (lo ≤ e.lsn) × (e.lsn < hi)

-- The segment holds the entries `es`, all below `hi`, where the next one begins.
pub record Holds (s : Segment) (es : List WalEntry) (hi : ℕ) : Type 0 where
  pub bytes_are : s.body ≡ frames es
  pub accepted : All Accepted es
  pub within : All (Within s.first_lsn hi) es
  pub begins : s.first_lsn ≤ hi

-- Segment by segment.
abbrev pub Chain : List Segment → List (List WalEntry) → ℕ → Type 0
Chain [] [] hi = Unit {0}
Chain (s ∷ ss) (es ∷ ess) hi = Holds s es (first_of ss hi) × Chain ss ess hi
Chain _ _ hi = ⊥

abbrev pub flatten : List (List WalEntry) → List WalEntry
flatten [] = []
flatten (es ∷ ess) = es ++ flatten ess

pub flatten_snoc :
    (ess : List (List WalEntry)) (es : List WalEntry) → flatten (ess ++ es ∷ []) ≡ flatten ess ++ es
flatten_snoc [] es = append-nil es
flatten_snoc (fs ∷ ess) es =
    ap (λ l. fs ++ l) (flatten_snoc ess es) ∙ sym (append_assoc fs (flatten ess) es)

pub keep-append :
    (from : ℕ) (es fs : List WalEntry) → keep from (es ++ fs) ≡ keep from es ++ keep from fs
unfolding keep
keep-append from [] fs = refl
keep-append from (e ∷ es) fs = elim (Bool-cases (leb from e.lsn)) [
  | inl h ↦ rw (keep, h) (ap (λ l. e ∷ l) (keep-append from es fs))
  | inr h ↦ rw (keep, h) (keep-append from es fs)
]

pub keep_below :
    (lo hi from : ℕ) (es : List WalEntry) → All (Within lo hi) es → hi ≤ from → keep from es ≡ []
unfolding keep
keep_below lo hi from [] w h = refl
keep_below lo hi from (e ∷ es) w h =
    let no : leb from e.lsn ≡ false = ground arith in rw (keep, no) (keep_below lo hi from es w.1 h)

pub Within-widen :
    (lo hi hi' : ℕ) (es : List WalEntry) → hi ≤ hi' → All (Within lo hi) es → All (Within lo hi') es
Within-widen lo hi hi' [] h w = tt
Within-widen lo hi hi' (e ∷ es) h w = ((omega arith, omega arith), Within-widen lo hi hi' es h w.1)

starts_below :
    (ss : List Segment) (from hi : ℕ) → next_starts_below ss from ≡ true → first_of ss hi ≤ from
unfolding first_of
starts_below [] from hi h = absurd (cc h)
starts_below (s ∷ ss) from hi h = leb→le s.first_lsn from h

-- The entries of a segment in front of one that begins at or below the number are all below it.
keep_skipped :
    (from hi : ℕ) (s : Segment) (es fs : List WalEntry)
    → Holds s es hi
    → hi ≤ from
    → keep from (es ++ fs) ≡ keep from fs
keep_skipped from hi s es fs held h =
    keep-append from es fs
    ∙ ap (λ l. l ++ keep from fs) (keep_below s.first_lsn hi from es held.within h)

pub decode_frames-Holds :
    (s : Segment) (es : List WalEntry) (hi : ℕ) → Holds s es hi → decode_frames s.body ≡ es
decode_frames-Holds s es hi held =
    ap decode_frames held.bytes_are ∙ decode_frames-frames es held.accepted

-- What is read from a chain of segments is what they hold from the number on.
pub entries_from-Chain :
    (from hi : ℕ) (ss : List Segment) (ess : List (List WalEntry))
    → Chain ss ess hi
    → entries_from ss from ≡ keep from (flatten ess)
unfolding entries_from keep
entries_from-Chain from hi [] [] c = refl
entries_from-Chain from hi [] (es ∷ ess) c = absurd c
entries_from-Chain from hi (s ∷ ss) [] c = absurd c
entries_from-Chain from hi (s ∷ ss) (es ∷ ess) c = elim (Bool-cases (next_starts_below ss from)) [
  | inl h ↦ rw h (
      entries_from-Chain from hi ss ess c.1
      ∙ sym (keep_skipped from (first_of ss hi) s es (flatten ess) c.0 (starts_below ss from hi h)))
  | inr h ↦ rw h (
      ap (λ l. keep from l ++ entries_from ss from) (decode_frames-Holds s es (first_of ss hi) c.0)
      ∙ ap (λ l. keep from es ++ l) (entries_from-Chain from hi ss ess c.1)
      ∙ sym (keep-append from es (flatten ess)))
]

pub first_of_snoc :
    (ss : List Segment) (t : Segment) (hi : ℕ)
    → first_of (ss ++ t ∷ []) hi ≡ first_of ss t.first_lsn
unfolding first_of
first_of_snoc [] t hi = refl
first_of_snoc (s ∷ ss) t hi = refl

pub Chain-snoc :
    (ss : List Segment) (ess : List (List WalEntry)) (t : Segment) (fs : List WalEntry) (hi : ℕ)
    → Chain ss ess t.first_lsn
    → Holds t fs hi
    → Chain (ss ++ t ∷ []) (ess ++ fs ∷ []) hi
unfolding first_of
Chain-snoc [] [] t fs hi c h = (h, tt)
Chain-snoc [] (es ∷ ess) t fs hi c h = absurd c
Chain-snoc (s ∷ ss) [] t fs hi c h = absurd c
Chain-snoc (s ∷ ss) (es ∷ ess) t fs hi c h =
    (subst (λ n. Holds s es n) (sym (first_of_snoc ss t hi)) c.0, Chain-snoc ss ess t fs hi c.1 h)

-- Discarding leaves a chain that holds every entry above `through`.
pub split_below-Chain :
    (through active : ℕ) (ss : List Segment) (ess : List (List WalEntry))
    → through + 1 < 2 ^ 64
    → Chain ss ess active
    → (kept : List (List WalEntry)) × Chain (split_below through ss active).1 kept active
      × ((from : ℕ) → through < from → keep from (flatten ess) ≡ keep from (flatten kept))
unfolding split_below
split_below-Chain through active [] [] small c = ([], tt, λ from h. refl)
split_below-Chain through active [] (es ∷ ess) small c = absurd c
split_below-Chain through active (s ∷ ss) [] small c = absurd c
split_below-Chain through active (s ∷ ss) (es ∷ ess) small c =
    elim (Bool-cases (leb (first_of ss active) ((through + 1) % 2 ^ 64))) [
      | inl h ↦
          let (kept, chain, same) = split_below-Chain through active ss ess small c.1 in
          let first : first_of ss active ≤ (through + 1) % 2 ^ 64 =
            leb→le (first_of ss active) ((through + 1) % 2 ^ 64) h in
          rw h (
            kept,
            chain,
            λ from above.
                keep_skipped from (first_of ss active) s es (flatten ess) c.0 (omega arith)
                ∙ same from above,
          )
      | inr h ↦ rw h (es ∷ ess, c, λ from above. refl)
    ]
