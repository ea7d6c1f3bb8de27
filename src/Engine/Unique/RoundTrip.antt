-- ===== src/Engine/Unique/RoundTrip.antt =====
-- crates/adabt-engine/src/unique.rs: the constraints written to the file are read back.
use mathlib.Core.List.{append_assoc, append-nil}
use a_da_bt.Prelude.{
  ℕ, ◌-◌, ◌%◌, ◌^◌, ◌<◌, ◌≤◌, ◌≡◌, refl, sym, ap, subst, ◌∙◌, String, false, not, List, [], ◌∷◌,
  ◌++◌, some, length, length-append, ltb, ◌==◌, arith, Ordering,
}
use a_da_bt.Storage.LittleEndian.{
  le, from_le, take_front, read_le, length-le, from_le-le, take_front-append, read_le-le,
}
use a_da_bt.Storage.Reader.Laws.{bind_is, take-append, drop-append}
use a_da_bt.Storage.Utf8.{utf8, from_utf8}
use a_da_bt.Storage.Utf8.RoundTrip.{from_utf8-utf8}
use a_da_bt.Storage.Directory.{checksum}
use a_da_bt.Storage.Directory.Parts.{read_count}
use a_da_bt.Storage.Directory.RoundTrip.{checksum_bound}
use a_da_bt.Engine.Unique.{
  magic, format_version, UniqueConstraints, compare_pair, insert_pair, put_str, put_pairs, body,
  write, read_str, read_pairs, read_body, unwrap_or_default, read_bytes, read,
}

abbrev pub AllAbove : String × String → List (String × String) → Type 0
AllAbove p [] = Unit {0}
AllAbove p (q ∷ qs) = (compare_pair p q ≡ Ordering.lt) × AllAbove p qs

abbrev pub Ascending : List (String × String) → Type 0
Ascending [] = Unit {0}
Ascending (p ∷ ps) = AllAbove p ps × Ascending ps

-- Lengths that the file's 32 bits hold.
abbrev pub PairsFit : List (String × String) → Type 0
PairsFit [] = Unit {0}
PairsFit ((c, f) ∷ ps) = (length (utf8 c) < 2 ^ 32) × (length (utf8 f) < 2 ^ 32) × PairsFit ps

AllAbove-middle :
    (q p : String × String) (ps qs : List (String × String))
    → AllAbove q (ps ++ p ∷ qs)
    → compare_pair q p ≡ Ordering.lt
AllAbove-middle q p [] qs h = h.0
AllAbove-middle q p (r ∷ ps) qs h = AllAbove-middle q p ps qs h.1

-- What comes behind all pairs is inserted at the end.
insert_pair-last :
    (ps : List (String × String)) (p : String × String) (qs : List (String × String))
    → Ascending (ps ++ p ∷ qs)
    → insert_pair ps p ≡ ps ++ p ∷ []
unfolding insert_pair
insert_pair-last [] p qs h = refl
insert_pair-last (q ∷ ps) p qs h =
    let less = AllAbove-middle q p ps qs h.0 in
    rw (insert_pair, less) (ap (λ l. q ∷ l) (insert_pair-last ps p qs h.1))

-- `read_str` and `read_body` where every step answers.
read_str_step :
    (xs a b bytes : List ℕ) (n : ℕ) (s : String)
    → read_le 4 xs ≡ some (n, a)
    → take_front n a ≡ some (bytes, b)
    → from_utf8 bytes ≡ some s
    → read_str xs ≡ some (s, b)
unfolding read_str
read_str_step xs a b bytes n s e1 e2 e3 =
    bind_is (read_le 4 xs) _ (n, a) _ e1
      (bind_is (take_front n a) _ (bytes, b) _ e2 (bind_is (from_utf8 bytes) _ s _ e3 refl))

read_body_step :
    (xs a b c : List ℕ) (count : ℕ) (ps : List (String × String))
    → take_front 8 xs ≡ some (magic, a)
    → read_le 4 a ≡ some (format_version, b)
    → read_le 4 b ≡ some (count, c)
    → read_pairs count [] c ≡ some (ps, [])
    → read_body xs ≡ some (record { fields = ps })
unfolding read_body
read_body_step xs a b c count ps e1 e2 e3 e4 =
    bind_is (take_front 8 xs) _ (magic, a) _ e1
      (bind_is (read_le 4 a) _ (format_version, b) _ e2
        (bind_is (read_le 4 b) _ (count, c) _ e3
          (bind_is (read_pairs count [] c) _ (ps, []) _ e4 refl)))

read_str-put_str :
    (s : String) (rest : List ℕ)
    → length (utf8 s) < 2 ^ 32
    → read_str (put_str s ++ rest) ≡ some (s, rest)
unfolding put_str
read_str-put_str s rest h =
    ap read_str (append_assoc (le 4 (length (utf8 s) % 2 ^ 32)) (utf8 s) rest)
    ∙ read_str_step _ (utf8 s ++ rest) rest (utf8 s) (length (utf8 s)) s
        (read_count (length (utf8 s)) (utf8 s ++ rest) h) (take_front-append (utf8 s) rest)
        (from_utf8-utf8 s)

read_pairs-put_pairs :
    (ps qs : List (String × String))
    → Ascending (ps ++ qs)
    → PairsFit qs
    → read_pairs (length qs) ps (put_pairs qs) ≡ some (ps ++ qs, [])
unfolding read_pairs put_pairs
read_pairs-put_pairs ps [] a f = ap (λ l. some (l, [])) (sym (append-nil ps))
read_pairs-put_pairs ps ((c, f) ∷ qs) a (fc, ff, rest) =
    bind_is (read_str (put_str c ++ (put_str f ++ put_pairs qs))) _ (c, put_str f ++ put_pairs qs) _
      (read_str-put_str c (put_str f ++ put_pairs qs) fc)
      (bind_is (read_str (put_str f ++ put_pairs qs)) _ (f, put_pairs qs) _
        (read_str-put_str f (put_pairs qs) ff)
        (ap (λ l. read_pairs (length qs) l (put_pairs qs)) (insert_pair-last ps (c, f) qs a)
          ∙ read_pairs-put_pairs (ps ++ (c, f) ∷ []) qs
              (subst Ascending (sym (append_assoc ps ((c, f) ∷ []) qs)) a) rest
          ∙ ap (λ l. some (l, [])) (append_assoc ps ((c, f) ∷ []) qs)))

read_body-body :
    (u : UniqueConstraints)
    → Ascending u.fields
    → PairsFit u.fields
    → length u.fields < 2 ^ 32
    → read_body (body u) ≡ some u
unfolding body
read_body-body u a f n =
    let counted = le 4 (length u.fields % 2 ^ 32) ++ put_pairs u.fields in
    read_body_step (magic ++ (le 4 format_version ++ counted)) (le 4 format_version ++ counted)
      counted (put_pairs u.fields) (length u.fields) u.fields
      (take_front-append magic (le 4 format_version ++ counted))
      (read_le-le 4 format_version counted (omega arith))
      (read_count (length u.fields) (put_pairs u.fields) n) (read_pairs-put_pairs [] u.fields a f)

split_read :
    (xs tail : List ℕ)
    → length tail ≡ 8
    → 8 ≤ length xs
    → checksum xs ≡ from_le tail
    → read_bytes (xs ++ tail) ≡ read_body xs
unfolding read_bytes
split_read xs tail eight long same =
    let at : length (xs ++ tail) - 8 ≡ length xs = omega (arith, length-append xs tail) in
    let g : ltb (length (xs ++ tail)) 16 ≡ false = ground (arith, length-append xs tail) in
    let k : not (checksum xs == from_le tail) ≡ false = ground arith in
    rw (g, at, take-append xs tail, drop-append xs tail, k) refl

long_body : (u : UniqueConstraints) → 8 ≤ length (body u)
unfolding body
long_body u = omega arith

-- A set of constraints, in order as the set keeps them, fewer than 2 ^ 32 and each of two names
-- shorter than 2 ^ 32 bytes, is read back from the file it is written to.
pub read-write :
    (u : UniqueConstraints)
    → Ascending u.fields
    → PairsFit u.fields
    → length u.fields < 2 ^ 32
    → read (some (write u)) ≡ u
unfolding write read
read-write u a f n = ap unwrap_or_default (
    split_read (body u) (le 8 (checksum (body u))) (length-le 8 (checksum (body u))) (long_body u)
      (sym (from_le-le 8 (checksum (body u)) (checksum_bound (body u))))
    ∙ read_body-body u a f n)
