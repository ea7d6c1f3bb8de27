-- ===== src/Storage/Wal/Log/Found.antt =====
-- crates/adabt-storage/src/wal.rs: what is read from a segment's file that does not hold all of it.
use mathlib.Core.List.{append-nil, append_assoc}
use a_da_bt.Prelude.{
  ℕ, zero, suc, ◌≤◌, ◌<◌, ◌≡◌, refl, sym, ap, ◌∙◌, subst, List, [], ◌∷◌, ◌++◌, length, take, leb,
  leb→le, arith, All, Bool-cases, inl, inr,
}
use a_da_bt.Storage.Reader.Laws.{take-append}
use a_da_bt.Storage.Wal.Entry.{WalEntry, encode_payload}
use a_da_bt.Storage.Wal.Frames.{frame, decode_frames, intact_prefix_len}
use a_da_bt.Storage.Wal.Frames.Recover.{
  Accepted, frames, frames-append, decode_frames-frames, intact_prefix_len-frames,
  decode_frames-torn,
}
use a_da_bt.Storage.Wal.Log.Parts.{Part}

split_long :
    (us bs xs ys : List ℕ)
    → xs ++ ys ≡ us ++ bs
    → length us ≤ length xs
    → (rest : List ℕ) × (xs ≡ us ++ rest) × (rest ++ ys ≡ bs)
split_long [] bs xs ys h n = (xs, refl, h)
split_long (a ∷ us) bs [] ys h n = absurd (omega (arith, n))
split_long (a ∷ us) bs (x ∷ xs) ys h n =
    let tails : xs ++ ys ≡ us ++ bs = cc h in
    let heads : x ≡ a = cc h in
    let (rest, one, two) = split_long us bs xs ys tails (omega (arith, n)) in
    (rest, cc (heads, one), two)

split_short :
    (us bs xs ys : List ℕ) → xs ++ ys ≡ us ++ bs → length xs ≤ length us → xs ≡ take (length xs) us
split_short us bs [] ys h n = refl
split_short [] bs (x ∷ xs) ys h n = absurd (omega (arith, n))
split_short (a ∷ us) bs (x ∷ xs) ys h n =
    let tails : xs ++ ys ≡ us ++ bs = cc h in
    let heads : x ≡ a = cc h in cc (heads, split_short us bs xs ys tails (omega (arith, n)))

-- A file that holds `early`, and of `loose` all that is whole in it.
pub record Reads (early loose : List WalEntry) (bytes : List ℕ) : Type 0 where
  pub front : List WalEntry
  pub back : List WalEntry
  pub loose_is : loose ≡ front ++ back
  pub decoded : decode_frames bytes ≡ early ++ front
  pub kept : take (intact_prefix_len bytes) bytes ≡ frames (early ++ front)

pub take_whole : (xs : List ℕ) → take (length xs) xs ≡ xs
take_whole xs = ap (take (length xs)) (sym (append-nil xs)) ∙ take-append xs []

Reads-whole :
    (early : List WalEntry)
    → All Accepted early
    → (loose : List WalEntry) (bytes : List ℕ) → bytes ≡ frames early
    → Reads early loose bytes
Reads-whole early ok loose bytes same = record {
  front = [];
  back = loose;
  loose_is = refl;
  decoded = ap decode_frames same ∙ decode_frames-frames early ok ∙ sym (append-nil early);
  kept =
      ap (λ b. take (intact_prefix_len b) b) same
      ∙ ap (λ n. take n (frames early)) (intact_prefix_len-frames early ok)
      ∙ take_whole (frames early)
      ∙ ap frames (sym (append-nil early));
}

Reads-torn :
    (early : List WalEntry) (e : WalEntry) (es : List WalEntry) (k : ℕ) (bytes : List ℕ)
    → All Accepted early
    → Accepted e
    → k < length (frame (encode_payload e))
    → bytes ≡ frames early ++ take k (frame (encode_payload e))
    → Reads early (e ∷ es) bytes
Reads-torn early e es k bytes ok last h same =
    let (read, len) = decode_frames-torn early e k ok last h in
    record {
      front = [];
      back = e ∷ es;
      loose_is = refl;
      decoded = ap decode_frames same ∙ read ∙ sym (append-nil early);
      kept =
          ap (λ b. take (intact_prefix_len b) b) same
          ∙ ap (λ n. take n (frames early ++ take k (frame (encode_payload e)))) len
          ∙ take-append (frames early) (take k (frame (encode_payload e)))
          ∙ ap frames (sym (append-nil early));
    }

All-snoc :
    (es : List WalEntry) (e : WalEntry) → All Accepted es → Accepted e → All Accepted (es ++ e ∷ [])
All-snoc [] e a p = (p, tt)
All-snoc (f ∷ es) e a p = (a.0, All-snoc es e a.1 p)

Reads-more :
    (early : List WalEntry) (e : WalEntry) (es : List WalEntry) (bytes : List ℕ)
    → Reads (early ++ e ∷ []) es bytes
    → Reads early (e ∷ es) bytes
Reads-more early e es bytes r = record {
  front = e ∷ r.front;
  back = r.back;
  loose_is = ap (λ l. e ∷ l) r.loose_is;
  decoded = r.decoded ∙ append_assoc early (e ∷ []) r.front;
  kept = r.kept ∙ ap frames (append_assoc early (e ∷ []) r.front);
}

-- A file that goes on with a part of the frames of `loose`.
pub Reads-part :
    (early loose : List WalEntry) (bytes part gone : List ℕ)
    → All Accepted early
    → All Accepted loose
    → bytes ≡ frames early ++ part
    → part ++ gone ≡ frames loose
    → Reads early loose bytes
unfolding frames
Reads-part early [] bytes [] gone ok okl same all =
    Reads-whole early ok [] bytes (same ∙ append-nil (frames early))
Reads-part early [] bytes (x ∷ part) gone ok okl same all = absurd (cc all)
Reads-part early (e ∷ es) bytes part gone ok okl same all =
    elim (Bool-cases (leb (length (frame (encode_payload e))) (length part))) [
      | inl h ↦
          let (rest, one, two) =
            split_long (frame (encode_payload e)) (frames es) part gone all
              (leb→le (length (frame (encode_payload e))) (length part) h) in
          let one_frame : frames (early ++ e ∷ []) ≡ frames early ++ frame (encode_payload e) =
            frames-append early (e ∷ [])
            ∙ ap (λ l. frames early ++ l) (append-nil (frame (encode_payload e))) in
          Reads-more early e es bytes (
            Reads-part (early ++ e ∷ []) es bytes rest gone (All-snoc early e ok okl.0) okl.1
              (same
                ∙ ap (λ l. frames early ++ l) one
                ∙ sym (append_assoc (frames early) (frame (encode_payload e)) rest)
                ∙ ap (λ l. l ++ rest) (sym one_frame))
              two)
      | inr h ↦
          let short : length part < length (frame (encode_payload e)) = ground (arith, h) in
          let cut =
            split_short (frame (encode_payload e)) (frames es) part gone all
              (omega (arith, short)) in
          Reads-torn early e es (length part) bytes ok okl.0 short
            (same ∙ ap (λ l. frames early ++ l) cut)
    ]

take_behind :
    (m : ℕ) (xs ys : List ℕ)
    → length xs ≤ m
    → (rest gone : List ℕ) × (take m (xs ++ ys) ≡ xs ++ rest) × (rest ++ gone ≡ ys)
take_behind zero [] ys h = ([], ys, refl, refl)
take_behind (suc m) [] [] h = ([], [], refl, refl)
take_behind (suc m) [] (y ∷ ys) h =
    let (rest, gone, one, two) = take_behind m [] ys (omega arith) in
    (y ∷ rest, gone, ap (λ l. y ∷ l) one, ap (λ l. y ∷ l) two)
take_behind zero (x ∷ xs) ys h = absurd (omega (arith, h))
take_behind (suc m) (x ∷ xs) ys h =
    let (rest, gone, one, two) = take_behind m xs ys (omega (arith, h)) in
    (rest, gone, ap (λ l. x ∷ l) one, two)

left_cancel : (xs ys zs : List ℕ) → xs ++ ys ≡ xs ++ zs → ys ≡ zs
left_cancel [] ys zs h = h
left_cancel (x ∷ xs) ys zs h = left_cancel xs ys zs (cc h)

pub All-split {ℓ κ} :
    {A : Type ℓ} (P : A → Type κ) (es fs : List A) → All P (es ++ fs) → All P es × All P fs
All-split P [] fs a = (tt, a)
All-split P (e ∷ es) fs a = let r = All-split P es fs a.1 in ((a.0, r.0), r.1)

-- What a file holds of a segment's entries: all but some of the late ones.
pub record Found (tail late : List WalEntry) (bytes : List ℕ) : Type 0 where
  pub read : List WalEntry
  pub lost : List WalEntry
  pub spared : List WalEntry
  pub tail_is : tail ≡ read ++ lost
  pub late_is : late ≡ spared ++ lost
  pub decoded : decode_frames bytes ≡ read
  pub kept : take (intact_prefix_len bytes) bytes ≡ frames read
  pub accepted : All Accepted read

pub Found-Part :
    (tail : List WalEntry) (body held : List ℕ) (late : List WalEntry) (limit m : ℕ)
    → All Accepted tail
    → body ++ held ≡ frames tail
    → Part tail body late limit
    → limit ≤ m
    → Found tail late (take m body)
Found-Part tail body held late limit m ok all p h =
    let (rest, gone, one, two) =
      take_behind m (frames p.early) p.extra (omega (arith, p.below, h)) in
    let parts = All-split Accepted p.early p.loose (subst (All Accepted) p.tail_is ok) in
    let behind : p.extra ++ held ≡ frames p.loose =
      left_cancel (frames p.early) (p.extra ++ held) (frames p.loose) (
        sym (append_assoc (frames p.early) p.extra held)
        ∙ ap (λ l. l ++ held) (sym p.body_is)
        ∙ all
        ∙ ap frames p.tail_is
        ∙ frames-append p.early p.loose) in
    let r =
      Reads-part p.early p.loose (take m body) rest (gone ++ held) parts.0 parts.1
        (ap (take m) p.body_is ∙ one)
        (sym (append_assoc rest gone held) ∙ ap (λ l. l ++ held) two ∙ behind) in
    let tail_read : tail ≡ (p.early ++ r.front) ++ r.back =
      p.tail_is ∙ ap (λ l. p.early ++ l) r.loose_is ∙ sym (append_assoc p.early r.front r.back) in
    record {
      read = p.early ++ r.front;
      lost = r.back;
      spared = p.before ++ r.front;
      tail_is = tail_read;
      late_is =
          p.late_is
          ∙ ap (λ l. p.before ++ l) r.loose_is
          ∙ sym (append_assoc p.before r.front r.back);
      decoded = r.decoded;
      kept = r.kept;
      accepted =
          (All-split Accepted (p.early ++ r.front) r.back (subst (All Accepted) tail_read ok)).0;
    }
