-- ===== src/Storage/Utf8.antt =====
-- UTF-8, as Rust's `str` has it: `as_bytes`, `len`, and the check of `str::from_utf8`.
-- The records, the log and the file formats of crates/adabt-storage store their texts by these.
pub mod RoundTrip
use Prim.Native.Char.{Char, char, code, IsScalar}
use Prim.Native.String
use a_da_bt.Prelude.{
  ℕ, zero, suc, ◌+◌, ◌-◌, ◌*◌, ◌/◌, ◌%◌, ◌<◌, ◌≡◌, ◌⊎◌, inl, inr, String, Bool, true, false, ◌&&◌,
  List, [], ◌∷◌, ◌++◌, Option, some, none, length, ltb, leb, if◌then◌else◌, Bool-cases, ltb→lt,
  arith,
}
use a_da_bt.Core.Order.{◌>>=◌}

-- The bytes of a character.
unfoldable pub encode_char : ℕ → List ℕ
encode_char n =
    if ltb n 0x80
    then n ∷ []
    else if ltb n 0x800
    then (0xc0 + n / 64) ∷ (0x80 + n % 64) ∷ []
    else if ltb n 0x1_0000
    then (0xe0 + n / 4096) ∷ (0x80 + n / 64 % 64) ∷ (0x80 + n % 64) ∷ []
    else (0xf0 + n / 262144) ∷ (0x80 + n / 4096 % 64) ∷ (0x80 + n / 64 % 64) ∷ (0x80 + n % 64) ∷ []

unfoldable pub utf8 : String → List ℕ
unfolding encode_char
utf8 String.[] = []
utf8 (String.◌∷◌ c s) = encode_char (code c) ++ utf8 s

pub low_scalar : (n : ℕ) → ltb n 55296 ≡ true → IsScalar n
low_scalar n h = ground arith

pub high_scalar : (n : ℕ) → ltb 57343 n && ltb n 1114112 ≡ true → IsScalar n
high_scalar n h = ground arith

unfoldable pub high_test :
    (n : ℕ) (b : Bool) → ltb 57343 n && ltb n 1114112 ≡ b → Option (IsScalar n)
high_test n true h = some (high_scalar n h)
high_test n false h = none

unfoldable pub low_test : (n : ℕ) (b : Bool) → ltb n 55296 ≡ b → Option (IsScalar n)
unfolding high_test
low_test n true h = some (low_scalar n h)
low_test n false h = high_test n (ltb 57343 n && ltb n 1114112) (λ i. ltb 57343 n && ltb n 1114112)

unfoldable pub char_of : (n : ℕ) → Option (IsScalar n) → Option Char
char_of n (some p) = some (char n p)
char_of n none = none

-- `char::from_u32`
unfoldable pub from_u32 : ℕ → Option Char
unfolding low_test char_of
from_u32 n = char_of n (low_test n (ltb n 55296) (λ i. ltb n 55296))

abbrev pub is_continuation : ℕ → Bool
is_continuation b = leb 0x80 b && ltb b 0xc0

-- A character of two, three or four bytes, and what follows it. The shortest form is required.
unfoldable pub two_bytes : ℕ → List ℕ → Option (ℕ × List ℕ)
two_bytes a (b ∷ rest) =
    if is_continuation b && leb 0xc2 a then some ((a - 0xc0) * 64 + (b - 0x80), rest) else none
two_bytes a _ = none

unfoldable pub three_bytes : ℕ → List ℕ → Option (ℕ × List ℕ)
three_bytes a (b ∷ c ∷ rest) =
    let n = (a - 0xe0) * 4096 + (b - 0x80) * 64 + (c - 0x80) in
    if is_continuation b && is_continuation c && leb 0x800 n then some (n, rest) else none
three_bytes a _ = none

unfoldable pub four_bytes : ℕ → List ℕ → Option (ℕ × List ℕ)
four_bytes a (b ∷ c ∷ d ∷ rest) =
    let n = (a - 0xf0) * 262144 + (b - 0x80) * 4096 + (c - 0x80) * 64 + (d - 0x80) in
    if is_continuation b && is_continuation c && is_continuation d && leb 0x1_0000 n
    then some (n, rest)
    else none
four_bytes a _ = none

unfoldable pub front_char : List ℕ → Option (ℕ × List ℕ)
unfolding two_bytes three_bytes four_bytes
front_char [] = none
front_char (a ∷ rest) =
    if ltb a 0x80
    then some (a, rest)
    else if ltb a 0xc0
    then none
    else if ltb a 0xe0
    then two_bytes a rest
    else if ltb a 0xf0
    then three_bytes a rest
    else if ltb a 0xf8
    then four_bytes a rest
    else none

-- Each turn takes a byte or more, so as many turns as there are bytes are enough.
unfoldable pub from_utf8_loop : ℕ → List ℕ → Option String
unfolding front_char from_u32
from_utf8_loop fuel [] = some String.[]
from_utf8_loop zero (a ∷ bytes) = none
from_utf8_loop (suc fuel) (a ∷ bytes) = do
  (n, rest) ← front_char (a ∷ bytes)
  c ← from_u32 n
  s ← from_utf8_loop fuel rest
  some (String.◌∷◌ c s)

-- `none` is the error of invalid bytes.
unfoldable pub from_utf8 : List ℕ → Option String
unfolding from_utf8_loop
from_utf8 bytes = from_utf8_loop (length bytes) bytes
