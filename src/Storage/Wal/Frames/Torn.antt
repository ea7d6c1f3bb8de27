-- ===== src/Storage/Wal/Frames/Torn.antt =====
-- crates/adabt-storage/src/wal.rs: a segment that was cut off inside its last frame.
use a_da_bt.Prelude.{
  ℕ, zero, suc, ◌+◌, ◌-◌, ◌%◌, ◌^◌, ◌<◌, ◌≤◌, ◌≡◌, refl, ap, ◌∙◌, Bool, true, not, List, [], ◌∷◌,
  ◌++◌, some, none, length, length-append, ltb, ◌==◌, take, arith, ltb→lt, Bool-cases, inl, inr,
}
use mathlib.Core.List.{append_assoc}
use a_da_bt.Storage.LittleEndian.{le, take_front, read_le, length-le, take_front-append, read_le-le}
use a_da_bt.Storage.Directory.{only}
use a_da_bt.Storage.Reader.Laws.{bind_is}
use a_da_bt.Storage.Wal.Frames.{checksum_loop, checksum, max_entry, frame, front_frame}

checksum_loop_bound : (xs : List ℕ) (h : ℕ) → h < 2 ^ 32 → checksum_loop h xs < 2 ^ 32
unfolding checksum_loop
checksum_loop_bound [] h k = k
checksum_loop_bound (x ∷ xs) h k = checksum_loop_bound xs _ (omega arith)

pub checksum_bound : (xs : List ℕ) → checksum xs < 2 ^ 32
unfolding checksum
checksum_bound xs = checksum_loop_bound xs 0x811c_9dc5 (omega arith)

only_true : (b : Bool) → b ≡ true → only b ≡ some tt
only_true b h = rw h refl

read_len :
    (p rest : List ℕ)
    → length p ≤ max_entry
    → read_le 4 (le 4 (length p % 2 ^ 32) ++ rest) ≡ some (length p, rest)
read_len p rest h =
    let small : length p % 2 ^ 32 ≡ length p = omega arith in
    ap (λ n. read_le 4 (le 4 n ++ rest)) small ∙ read_le-le 4 (length p) rest (omega arith)

front_frame_step :
    (p buf a b rest : List ℕ)
    → length p ≤ max_entry
    → read_le 4 buf ≡ some (length p, a)
    → read_le 4 a ≡ some (checksum p, b)
    → take_front (length p) b ≡ some (p, rest)
    → front_frame buf ≡ some (p, rest)
unfolding front_frame
front_frame_step p buf a b rest small h1 h2 h3 =
    bind_is (read_le 4 buf) _ (length p, a) _ h1
      (bind_is (read_le 4 a) _ (checksum p, b) _ h2
        (bind_is (only (not (ltb max_entry (length p)))) _ tt _ (only_true _ (ground arith)) (
          bind_is (take_front (length p) b) _ (p, rest) _ h3
            (bind_is (only (checksum p == checksum p)) _ tt _ (only_true _ (ground arith)) refl))))

pub front_frame-frame :
    (p rest : List ℕ) → length p ≤ max_entry → front_frame (frame p ++ rest) ≡ some (p, rest)
unfolding frame
front_frame-frame p rest small =
    front_frame_step p (frame p ++ rest) (le 4 (checksum p) ++ (p ++ rest)) (p ++ rest) rest small
      (ap (read_le 4) (append_assoc (le 4 (length p % 2 ^ 32)) (le 4 (checksum p) ++ p) rest)
        ∙ ap (λ l. read_le 4 (le 4 (length p % 2 ^ 32) ++ l))
            (append_assoc (le 4 (checksum p)) p rest)
        ∙ read_len p (le 4 (checksum p) ++ (p ++ rest)) small)
      (read_le-le 4 (checksum p) (p ++ rest) (checksum_bound p)) (take_front-append p rest)

take_front_short : (n : ℕ) (xs : List ℕ) → length xs < n → take_front n xs ≡ none
unfolding take_front
take_front_short zero xs h = absurd (omega arith)
take_front_short (suc n) [] h = refl
take_front_short (suc n) (x ∷ xs) h = rw (take_front_short n xs (omega arith)) refl

read_le_short : (n : ℕ) (xs : List ℕ) → length xs < n → read_le n xs ≡ none
unfolding read_le
read_le_short n xs h = rw (read_le, take_front_short n xs h) refl

take_past : (xs ys : List ℕ) (j : ℕ) → take (length xs + j) (xs ++ ys) ≡ xs ++ take j ys
take_past [] ys j = ap (λ n. take n ys) (omega arith)
take_past (x ∷ xs) ys j =
    let next : suc (length xs) + j ≡ suc (length xs + j) = omega arith in
    ap (λ n. take n (x ∷ xs ++ ys)) next ∙ ap (λ l. x ∷ l) (take_past xs ys j)

length-take_le : (k : ℕ) (xs : List ℕ) → length (take k xs) ≤ k
length-take_le zero xs = omega arith
length-take_le (suc k) [] = omega arith
length-take_le (suc k) (x ∷ xs) = omega (arith, length-take_le k xs)

take_word :
    (v k : ℕ) (rest : List ℕ) → 4 ≤ k → take k (le 4 v ++ rest) ≡ le 4 v ++ take (k - 4) rest
take_word v k rest h =
    let at : k ≡ length (le 4 v) + (k - 4) = omega (arith, length-le 4 v) in
    ap (λ n. take n (le 4 v ++ rest)) at ∙ take_past (le 4 v) rest (k - 4)

-- A cut inside the length, inside the checksum, and inside the payload.
cut_early : (buf : List ℕ) → length buf < 4 → front_frame buf ≡ none
unfolding front_frame
cut_early buf h = rw (read_le_short 4 buf h) refl

cut_checksum :
    (len : ℕ) (buf a : List ℕ)
    → read_le 4 buf ≡ some (len, a)
    → length a < 4
    → front_frame buf ≡ none
unfolding front_frame
cut_checksum len buf a h short =
    bind_is (read_le 4 buf) _ (len, a) _ h (rw (read_le_short 4 a short) refl)

cut_payload :
    (p buf a b : List ℕ)
    → length p ≤ max_entry
    → read_le 4 buf ≡ some (length p, a)
    → read_le 4 a ≡ some (checksum p, b)
    → length b < length p
    → front_frame buf ≡ none
unfolding front_frame
cut_payload p buf a b small h1 h2 short =
    bind_is (read_le 4 buf) _ (length p, a) _ h1
      (bind_is (read_le 4 a) _ (checksum p, b) _ h2
        (bind_is (only (not (ltb max_entry (length p)))) _ tt _ (only_true _ (ground arith))
          (rw (take_front_short (length p) b short) refl)))

pub length-frame : (p : List ℕ) → length (frame p) ≡ 8 + length p
unfolding frame
length-frame p = omega (
  arith,
  length-append (le 4 (length p % 2 ^ 32)) (le 4 (checksum p) ++ p),
  length-append (le 4 (checksum p)) p,
  length-le 4 (length p % 2 ^ 32),
  length-le 4 (checksum p),
)

cut_late :
    (p : List ℕ) (k : ℕ)
    → length p ≤ max_entry
    → 8 ≤ k
    → k < 8 + length p
    → front_frame (take k (frame p)) ≡ none
unfolding frame
cut_late p k small h short =
    cut_payload p (take k (frame p)) (take (k - 4) (le 4 (checksum p) ++ p)) (take (k - 4 - 4) p)
      small
      (ap (read_le 4) (take_word (length p % 2 ^ 32) k (le 4 (checksum p) ++ p) (omega arith))
        ∙ read_len p (take (k - 4) (le 4 (checksum p) ++ p)) small)
      (ap (read_le 4) (take_word (checksum p) (k - 4) p (omega arith))
        ∙ read_le-le 4 (checksum p) (take (k - 4 - 4) p) (checksum_bound p))
      (omega (arith, length-take_le (k - 4 - 4) p))

cut_middle :
    (p : List ℕ) (k : ℕ)
    → length p ≤ max_entry
    → 4 ≤ k
    → k < 8
    → front_frame (take k (frame p)) ≡ none
unfolding frame
cut_middle p k small h short =
    cut_checksum (length p) (take k (frame p)) (take (k - 4) (le 4 (checksum p) ++ p))
      (ap (read_le 4) (take_word (length p % 2 ^ 32) k (le 4 (checksum p) ++ p) h)
        ∙ read_len p (take (k - 4) (le 4 (checksum p) ++ p)) small)
      (omega (arith, length-take_le (k - 4) (le 4 (checksum p) ++ p)))

-- No proper prefix of a frame is read as a frame.
pub front_frame-take :
    (p : List ℕ) (k : ℕ)
    → length p ≤ max_entry
    → k < length (frame p)
    → front_frame (take k (frame p)) ≡ none
front_frame-take p k small h = elim (Bool-cases (ltb k 4)) [
  | inl e ↦ cut_early (take k (frame p)) (omega (arith, ltb→lt k 4 e, length-take_le k (frame p)))
  | inr e ↦ elim (Bool-cases (ltb k 8)) [
    | inl f ↦ cut_middle p k small (ground arith) (ltb→lt k 8 f)
    | inr f ↦ cut_late p k small (ground arith) (omega (arith, length-frame p))
  ]
]
