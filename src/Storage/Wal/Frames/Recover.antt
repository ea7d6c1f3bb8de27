-- ===== src/Storage/Wal/Frames/Recover.antt =====
-- crates/adabt-storage/src/wal.rs: what is read back from a segment after a crash.
use a_da_bt.Prelude.{
  ℕ, zero, suc, ◌+◌, ◌<◌, ◌≤◌, ◌≡◌, refl, sym, ap, ◌∙◌, List, [], ◌∷◌, ◌++◌, some, none, length,
  length-append, take, arith, All,
}
use mathlib.Core.List.{append-nil, append_assoc}
use a_da_bt.Storage.Wal.Entry.{WalEntry, encode_payload, decode_payload}
use a_da_bt.Storage.Wal.Entry.RoundTrip.{EntryFits, decode_payload-encode_payload}
use a_da_bt.Storage.Wal.Frames.{
  max_entry, frame, front_frame, frames_loop, decode_frames, prefix_loop, intact_prefix_len,
}
use a_da_bt.Storage.Wal.Frames.Torn.{front_frame-frame, front_frame-take, length-frame}

-- An entry that `append` accepts.
abbrev pub Accepted : WalEntry → Type 0
Accepted e = EntryFits e × (length (encode_payload e) ≤ max_entry)

-- The bytes of entries appended one after another.
unfoldable pub frames : List WalEntry → List ℕ
frames [] = []
frames (e ∷ es) = frame (encode_payload e) ++ frames es

pub frames-append : (es fs : List WalEntry) → frames (es ++ fs) ≡ frames es ++ frames fs
unfolding frames
frames-append [] fs = refl
frames-append (e ∷ es) fs =
    ap (λ l. frame (encode_payload e) ++ l) (frames-append es fs)
    ∙ sym (append_assoc (frame (encode_payload e)) (frames es) (frames fs))

frames_loop-none : (fuel : ℕ) (buf : List ℕ) → front_frame buf ≡ none → frames_loop fuel buf ≡ []
unfolding frames_loop
frames_loop-none zero buf h = refl
frames_loop-none (suc fuel) buf h = rw (frames_loop, h) refl

frames_loop-some :
    (fuel : ℕ) (buf p rest : List ℕ) (e : WalEntry)
    → front_frame buf ≡ some (p, rest)
    → decode_payload p ≡ some e
    → frames_loop (suc fuel) buf ≡ e ∷ frames_loop fuel rest
unfolding frames_loop
frames_loop-some fuel buf p rest e h k = rw (frames_loop, h, k) refl

prefix_loop-none : (fuel : ℕ) (buf : List ℕ) → front_frame buf ≡ none → prefix_loop fuel buf ≡ 0
unfolding prefix_loop
prefix_loop-none zero buf h = refl
prefix_loop-none (suc fuel) buf h = rw (prefix_loop, h) refl

prefix_loop-some :
    (fuel : ℕ) (buf p rest : List ℕ)
    → front_frame buf ≡ some (p, rest)
    → prefix_loop (suc fuel) buf ≡ 8 + length p + prefix_loop fuel rest
unfolding prefix_loop
prefix_loop-some fuel buf p rest h = rw (prefix_loop, h) refl

module _ (torn : List ℕ) (cut : front_frame torn ≡ none) where
  frames_loop-frames :
      (es : List WalEntry) (fuel : ℕ)
      → All Accepted es
      → length (frames es ++ torn) ≤ fuel
      → frames_loop fuel (frames es ++ torn) ≡ es
  unfolding frames
  frames_loop-frames [] fuel ok enough = frames_loop-none fuel torn cut
  frames_loop-frames (e ∷ es) zero ok enough = absurd (
      omega (
        arith,
        length-frame (encode_payload e),
        length-append (frame (encode_payload e) ++ frames es) torn,
        length-append (frame (encode_payload e)) (frames es),
      ))
  frames_loop-frames (e ∷ es) (suc fuel) ok enough =
      frames_loop-some fuel (frames (e ∷ es) ++ torn) (encode_payload e) (frames es ++ torn) e
        (ap front_frame (append_assoc (frame (encode_payload e)) (frames es) torn)
          ∙ front_frame-frame (encode_payload e) (frames es ++ torn) ok.0.1)
        (decode_payload-encode_payload e ok.0.0)
      ∙ ap (λ l. e ∷ l)
          (frames_loop-frames es fuel ok.1 (
            omega (
              arith,
              length-frame (encode_payload e),
              ap length (append_assoc (frame (encode_payload e)) (frames es) torn),
              length-append (frame (encode_payload e)) (frames es ++ torn),
            )))

  prefix_loop-frames :
      (es : List WalEntry) (fuel : ℕ)
      → All Accepted es
      → length (frames es ++ torn) ≤ fuel
      → prefix_loop fuel (frames es ++ torn) ≡ length (frames es)
  unfolding frames
  prefix_loop-frames [] fuel ok enough = prefix_loop-none fuel torn cut
  prefix_loop-frames (e ∷ es) zero ok enough = absurd (
      omega (
        arith,
        length-frame (encode_payload e),
        length-append (frame (encode_payload e) ++ frames es) torn,
        length-append (frame (encode_payload e)) (frames es),
      ))
  prefix_loop-frames (e ∷ es) (suc fuel) ok enough =
      prefix_loop-some fuel (frames (e ∷ es) ++ torn) (encode_payload e) (frames es ++ torn) (
        ap front_frame (append_assoc (frame (encode_payload e)) (frames es) torn)
        ∙ front_frame-frame (encode_payload e) (frames es ++ torn) ok.0.1)
      ∙ omega (
        arith,
        length-frame (encode_payload e),
        length-append (frame (encode_payload e)) (frames es),
        prefix_loop-frames es fuel ok.1 (
            omega (
              arith,
              length-frame (encode_payload e),
              ap length (append_assoc (frame (encode_payload e)) (frames es) torn),
              length-append (frame (encode_payload e)) (frames es ++ torn),
            )),
      )

  pub decode_frames_torn :
      (es : List WalEntry) → All Accepted es → decode_frames (frames es ++ torn) ≡ es
  unfolding decode_frames
  decode_frames_torn es ok = frames_loop-frames es (length (frames es ++ torn)) ok (omega arith)

  pub intact_prefix_torn :
      (es : List WalEntry)
      → All Accepted es
      → intact_prefix_len (frames es ++ torn) ≡ length (frames es)
  unfolding intact_prefix_len
  intact_prefix_torn es ok = prefix_loop-frames es (length (frames es ++ torn)) ok (omega arith)

front_frame_nil : front_frame [] ≡ none
unfolding front_frame
front_frame_nil = refl

pub decode_frames-frames : (es : List WalEntry) → All Accepted es → decode_frames (frames es) ≡ es
decode_frames-frames es ok =
    ap decode_frames (sym (append-nil (frames es))) ∙ decode_frames_torn [] front_frame_nil es ok

pub intact_prefix_len-frames :
    (es : List WalEntry) → All Accepted es → intact_prefix_len (frames es) ≡ length (frames es)
intact_prefix_len-frames es ok =
    ap intact_prefix_len (sym (append-nil (frames es)))
    ∙ intact_prefix_torn [] front_frame_nil es ok

-- A segment that was cut off anywhere inside the frame of its last entry is read as all the entries
-- before that one, and the part that `open` keeps is just their frames.
pub decode_frames-torn :
    (es : List WalEntry) (e : WalEntry) (k : ℕ)
    → All Accepted es
    → Accepted e
    → k < length (frame (encode_payload e))
    → (decode_frames (frames es ++ take k (frame (encode_payload e))) ≡ es)
      × (intact_prefix_len (frames es ++ take k (frame (encode_payload e))) ≡ length (frames es))
decode_frames-torn es e k ok last h =
    let cut : front_frame (take k (frame (encode_payload e))) ≡ none =
      front_frame-take (encode_payload e) k last.1 h in
    (
      decode_frames_torn (take k (frame (encode_payload e))) cut es ok,
      intact_prefix_torn (take k (frame (encode_payload e))) cut es ok,
    )
