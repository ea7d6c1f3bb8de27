-- ===== src/Storage/Wal/Log/Parts.antt =====
-- crates/adabt-storage/src/wal.rs: which of a segment's last entries may not be in its file.
use mathlib.Core.List.{append-nil, append_assoc}
use a_da_bt.Prelude.{ℕ, ◌≤◌, ◌≡◌, sym, ap, ◌∙◌, subst, List, [], ◌++◌, length, arith}
use a_da_bt.Storage.Wal.Entry.{WalEntry}
use a_da_bt.Storage.Wal.Frames.Recover.{frames}

-- The entries of `tail` that are not among the `late` ones are whole in the first `limit` bytes.
pub record Part (tail : List WalEntry) (body : List ℕ) (late : List WalEntry) (limit : ℕ)
    : Type 0 where
  pub early : List WalEntry
  pub loose : List WalEntry
  pub extra : List ℕ
  pub before : List WalEntry
  pub tail_is : tail ≡ early ++ loose
  pub body_is : body ≡ frames early ++ extra
  pub below : length (frames early) ≤ limit
  pub late_is : late ≡ before ++ loose

-- Everything is in the file.
pub whole-Part :
    (tail : List WalEntry) (late : List WalEntry) (body : List ℕ) (limit : ℕ)
    → body ≡ frames tail
    → length body ≤ limit
    → Part tail body late limit
whole-Part tail late body limit same h = record {
  early = tail;
  loose = [];
  extra = [];
  before = late;
  tail_is = sym (append-nil tail);
  body_is = same ∙ sym (append-nil (frames tail));
  below = subst (λ b. length b ≤ limit) same h;
  late_is = sym (append-nil late);
}

-- More entries are late, and the file grows at its end.
pub Part-grows :
    (tail : List WalEntry) (body : List ℕ) (late : List WalEntry) (limit : ℕ) (es : List WalEntry)
    (more : List ℕ) (limit' : ℕ)
    → limit ≤ limit'
    → Part tail body late limit
    → Part (tail ++ es) (body ++ more) (late ++ es) limit'
Part-grows tail body late limit es more limit' h p = record {
  early = p.early;
  loose = p.loose ++ es;
  extra = p.extra ++ more;
  before = p.before;
  tail_is = ap (λ l. l ++ es) p.tail_is ∙ append_assoc p.early p.loose es;
  body_is = ap (λ l. l ++ more) p.body_is ∙ append_assoc (frames p.early) p.extra more;
  below = omega (arith, p.below, h);
  late_is = ap (λ l. l ++ es) p.late_is ∙ append_assoc p.before p.loose es;
}

-- The file grows at its end.
pub Part-longer :
    (tail : List WalEntry) (body : List ℕ) (late : List WalEntry) (limit : ℕ) (more : List ℕ)
    (limit' : ℕ)
    → limit ≤ limit'
    → Part tail body late limit
    → Part tail (body ++ more) late limit'
Part-longer tail body late limit more limit' h p = record {
  early = p.early;
  loose = p.loose;
  extra = p.extra ++ more;
  before = p.before;
  tail_is = p.tail_is;
  body_is = ap (λ l. l ++ more) p.body_is ∙ append_assoc (frames p.early) p.extra more;
  below = omega (arith, p.below, h);
  late_is = p.late_is;
}
