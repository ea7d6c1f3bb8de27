-- ===== src/Engine/Unique.antt =====
-- crates/adabt-engine/src/unique.rs: the set of unique constraints and the file that holds it.
-- The set is the list of its pairs in ascending order. The checksum is that of the page directory.
pub mod RoundTrip
pub mod Kept
pub mod Runs
mod Tests
use Prim.Native.String.{compare as compare_str}
use text.Mathlib.Text.{◌==◌ as str_eq}
use a_da_bt.Prelude.{
  ℕ, zero, suc, ◌-◌, ◌%◌, ◌^◌, ◌+◌, String, Bool, true, false, not, ◌||◌, List, [], ◌∷◌, ◌++◌,
  Option, some, none, length, ltb, ◌==◌, if◌then◌else◌, take, drop, Ordering,
}
use a_da_bt.Core.Order.{◌>>=◌, then_with}
use a_da_bt.Storage.LittleEndian.{le, from_le, take_front, read_le}
use a_da_bt.Storage.Utf8.{utf8, from_utf8}
use a_da_bt.Storage.Directory.{checksum, bytes_eq, only, at_end}

-- "aDaBtUnq"
abbrev pub magic : List ℕ
magic = 97 ∷ 68 ∷ 97 ∷ 66 ∷ 116 ∷ 85 ∷ 110 ∷ 113 ∷ []

abbrev pub format_version : ℕ
format_version = 1

pub record UniqueConstraints : Type 0 where
  pub fields : List (String × String)

abbrev pub no_constraints : UniqueConstraints
no_constraints = record { fields = [] }

-- The order of pairs of texts.
abbrev pub compare_pair : String × String → String × String → Ordering
compare_pair (c, f) (d, g) = then_with (compare_str c d) (compare_str f g)

unfoldable pub has_pair : List (String × String) → String × String → Bool
has_pair [] p = false
has_pair (q ∷ qs) p =
    let rest = has_pair qs p in elim (compare_pair q p) [ Ordering.eq ↦ true | _ ↦ rest ]

unfoldable pub insert_pair : List (String × String) → String × String → List (String × String)
insert_pair [] p = p ∷ []
insert_pair (q ∷ qs) p =
    let rest = q ∷ insert_pair qs p in
    elim (compare_pair q p) [ Ordering.lt ↦ rest | Ordering.eq ↦ q ∷ qs | Ordering.gt ↦ p ∷ q ∷ qs ]

unfoldable pub remove_pair : List (String × String) → String × String → List (String × String)
remove_pair [] p = []
remove_pair (q ∷ qs) p =
    let rest = q ∷ remove_pair qs p in elim (compare_pair q p) [ Ordering.eq ↦ qs | _ ↦ rest ]

unfoldable pub contains : UniqueConstraints → String → String → Bool
unfolding has_pair
contains u collection f = has_pair u.fields (collection, f)

-- With whether the set changed.
unfoldable pub add : UniqueConstraints → String → String → Bool × UniqueConstraints
unfolding has_pair insert_pair
add u collection f = (
  not (has_pair u.fields (collection, f)),
  record { fields = insert_pair u.fields (collection, f) },
)

unfoldable pub remove : UniqueConstraints → String → String → Bool × UniqueConstraints
unfolding has_pair remove_pair
remove u collection f =
    (has_pair u.fields (collection, f), record { fields = remove_pair u.fields (collection, f) })

unfoldable pub fields_on : List (String × String) → String → List String
fields_on [] collection = []
fields_on ((c, f) ∷ ps) collection =
    let rest = fields_on ps collection in if str_eq c collection then f ∷ rest else rest

unfoldable pub on : UniqueConstraints → String → List String
unfolding fields_on
on u collection = fields_on u.fields collection

unfoldable pub put_str : String → List ℕ
unfolding le
put_str s = le 4 (length (utf8 s) % 2 ^ 32) ++ utf8 s

unfoldable pub put_pairs : List (String × String) → List ℕ
unfolding put_str
put_pairs [] = []
put_pairs ((c, f) ∷ ps) = put_str c ++ (put_str f ++ put_pairs ps)

unfoldable pub body : UniqueConstraints → List ℕ
unfolding put_pairs
body u = magic ++ (le 4 format_version ++ (le 4 (length u.fields % 2 ^ 32) ++ put_pairs u.fields))

-- The file that `write` leaves.
unfoldable pub write : UniqueConstraints → List ℕ
unfolding body checksum
write u = body u ++ le 8 (checksum (body u))

unfoldable pub read_str : List ℕ → Option (String × List ℕ)
unfolding read_le take_front from_utf8
read_str xs = do
  (n, a) ← read_le 4 xs
  (bytes, b) ← take_front n a
  s ← from_utf8 bytes
  some (s, b)

-- The loop of `read`, with the pairs inserted so far.
unfoldable pub read_pairs :
    ℕ → List (String × String) → List ℕ → Option (List (String × String) × List ℕ)
unfolding read_str insert_pair
read_pairs zero ps xs = some (ps, xs)
read_pairs (suc n) ps xs = do
  (c, a) ← read_str xs
  (f, b) ← read_str a
  read_pairs n (insert_pair ps (c, f)) b

-- `read` behind the checksum.
unfoldable pub read_body : List ℕ → Option UniqueConstraints
unfolding read_pairs take_front
read_body xs = do
  (m, a) ← take_front 8 xs
  u ← only (bytes_eq m magic)
  (version, b) ← read_le 4 a
  u ← only (version == format_version)
  (count, c) ← read_le 4 b
  (pairs, d) ← read_pairs count [] c
  u ← only (at_end d)
  some (record { fields = pairs })

abbrev pub unwrap_or_default : Option UniqueConstraints → UniqueConstraints
unwrap_or_default none = no_constraints
unwrap_or_default (some u) = u

unfoldable pub read_bytes : List ℕ → Option UniqueConstraints
unfolding read_body checksum
read_bytes bytes =
    let xs = take (length bytes - 8) bytes in
    let tail = drop (length bytes - 8) bytes in
    if ltb (length bytes) 16
    then none
    else if not (checksum xs == from_le tail)
    then none
    else read_body xs

-- `none` is a file that cannot be read.
unfoldable pub read : Option (List ℕ) → UniqueConstraints
unfolding read_bytes
read none = no_constraints
read (some bytes) = unwrap_or_default (read_bytes bytes)
