-- ===== src/Storage/Utf8/RoundTrip.antt =====
-- A text is read back from its UTF-8.
use Prim.Native.Char.{Char, char, code, IsScalar}
use text.Mathlib.TextEquality.{IsScalar-prop}
use a_da_bt.Prelude.{
  ℕ, zero, suc, ◌+◌, ◌/◌, ◌%◌, ◌<◌, ◌≤◌, ◌≡◌, refl, sym, ap, ◌∙◌, inl, inr, String, Bool, true,
  false, ◌&&◌, List, ◌∷◌, ◌++◌, some, length, ltb, Bool-cases, arith,
}
use a_da_bt.Storage.Utf8.{
  encode_char, utf8, high_test, low_test, char_of, from_u32, front_char, from_utf8_loop, from_utf8,
}

high_test_lem :
    (n : ℕ) (p : IsScalar n) (b : Bool) (h : ltb 57343 n && ltb n 1114112 ≡ b)
    → ltb n 55296 ≡ false
    → high_test n b h ≡ some p
unfolding high_test
high_test_lem n p true h k = ap some (IsScalar-prop n _ p)
high_test_lem n p false h k = absurd (ground arith)

low_test_lem : (n : ℕ) (p : IsScalar n) (b : Bool) (h : ltb n 55296 ≡ b) → low_test n b h ≡ some p
unfolding low_test
low_test_lem n p true h = ap some (IsScalar-prop n _ p)
low_test_lem n p false h = high_test_lem n p (ltb 57343 n && ltb n 1114112) refl h

pub from_u32-code : (c : Char) → from_u32 (code c) ≡ some c
unfolding from_u32 char_of
from_u32-code (char n p) = ap (char_of n) (low_test_lem n p (ltb n 55296) refl)

scalar_below : (n : ℕ) → IsScalar n → n < 1114112
scalar_below n h = ground arith

front_char-encode_char :
    (n : ℕ) (rest : List ℕ) → n < 1114112 → front_char (encode_char n ++ rest) ≡ some (n, rest)
unfolding front_char encode_char
front_char-encode_char n rest h = ground arith

encode_char_first :
    (n : ℕ) (rest : List ℕ)
    → (a : ℕ) × (bs : List ℕ) × (encode_char n ++ rest ≡ a ∷ bs) × (length rest ≤ length bs)
unfolding encode_char
encode_char_first n rest = elim (Bool-cases (ltb n 0x80)) [
  | inl e ↦ (n, rest, rw e refl, omega arith)
  | inr e ↦ elim (Bool-cases (ltb n 0x800)) [
    | inl f ↦ (0xc0 + n / 64, (0x80 + n % 64) ∷ rest, rw (e, f) refl, omega arith)
    | inr f ↦ elim (Bool-cases (ltb n 0x1_0000)) [
      | inl g ↦ (
        0xe0 + n / 4096,
        (0x80 + n / 64 % 64) ∷ (0x80 + n % 64) ∷ rest,
        rw (e, f, g) refl,
        omega arith,
      )
      | inr g ↦ (
        0xf0 + n / 262144,
        (0x80 + n / 4096 % 64) ∷ (0x80 + n / 64 % 64) ∷ (0x80 + n % 64) ∷ rest,
        rw (e, f, g) refl,
        omega arith,
      )
    ]
  ]
]

-- One turn of the loop on a character.
loop_turn :
    (fuel : ℕ) (c : Char) (rest : List ℕ) (a : ℕ) (bs : List ℕ) (s : String)
    → a ∷ bs ≡ encode_char (code c) ++ rest
    → from_utf8_loop fuel rest ≡ some s
    → from_utf8_loop (suc fuel) (a ∷ bs) ≡ some (String.◌∷◌ c s)
unfolding from_utf8_loop
loop_turn fuel (char n p) rest a bs s e ih =
    let front : front_char (a ∷ bs) ≡ some (n, rest) =
      ap front_char e ∙ front_char-encode_char n rest (scalar_below n p) in
    rw (front, from_u32-code (char n p), ih) refl

from_utf8_loop-utf8 :
    (s : String) (fuel : ℕ) → length (utf8 s) ≤ fuel → from_utf8_loop fuel (utf8 s) ≡ some s
unfolding utf8 from_utf8_loop
from_utf8_loop-utf8 String.[] zero h = refl
from_utf8_loop-utf8 String.[] (suc fuel) h = refl
from_utf8_loop-utf8 (String.◌∷◌ c s) zero h =
    let (a, bs, e, long) = encode_char_first (code c) (utf8 s) in
    let same : length (encode_char (code c) ++ utf8 s) ≡ suc (length bs) = ap length e in
    absurd (omega arith)
from_utf8_loop-utf8 (String.◌∷◌ c s) (suc fuel) h =
    let (a, bs, e, long) = encode_char_first (code c) (utf8 s) in
    let same : length (encode_char (code c) ++ utf8 s) ≡ suc (length bs) = ap length e in
    ap (from_utf8_loop (suc fuel)) e
    ∙ loop_turn fuel c (utf8 s) a bs s (sym e) (from_utf8_loop-utf8 s fuel (omega arith))

pub from_utf8-utf8 : (s : String) → from_utf8 (utf8 s) ≡ some s
unfolding from_utf8
from_utf8-utf8 s = from_utf8_loop-utf8 s (length (utf8 s)) (omega arith)
