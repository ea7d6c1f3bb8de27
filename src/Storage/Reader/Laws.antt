-- ===== src/Storage/Reader/Laws.antt =====
-- Each reader of crates/adabt-storage reads what its writer wrote, and leaves what follows.
use a_da_bt.Prelude.{
  ℕ, ◌^◌, ◌<◌, ◌≡◌, refl, sym, ap, ◌∙◌, String, List, [], ◌∷◌, ◌++◌, Option, some, length, take,
  drop,
}
use mathlib.Core.List.{append-nil, append_assoc}
use a_da_bt.Core.Order.{◌>>=◌}
use a_da_bt.Storage.Varint.{write_u64}
use a_da_bt.Storage.Varint.RoundTrip.{read_u64-write_u64}
use a_da_bt.Storage.LittleEndian.{take_front, take_front-append}
use a_da_bt.Storage.Utf8.{utf8, from_utf8}
use a_da_bt.Storage.Utf8.RoundTrip.{from_utf8-utf8}
use a_da_bt.Storage.Reader.{put_bytes, put_str, after_varint, read_varint, read_blob, read_string}

-- A step of a chain that answers.
pub bind_is {ℓ κ} :
    {A : Type ℓ} {B : Type κ} (o : Option A) (f : A → Option B) (a : A) (b : Option B)
    → o ≡ some a
    → f a ≡ b
    → (o >>= f) ≡ b
bind_is o f a b e h = ap (λ x. x >>= f) e ∙ h

pub take-append {ℓ} : {A : Type ℓ} (xs ys : List A) → take (length xs) (xs ++ ys) ≡ xs
take-append [] ys = refl
take-append (x ∷ xs) ys = ap (λ l. x ∷ l) (take-append xs ys)

pub drop-append {ℓ} : {A : Type ℓ} (xs ys : List A) → drop (length xs) (xs ++ ys) ≡ ys
drop-append [] ys = refl
drop-append (x ∷ xs) ys = drop-append xs ys

pub read_varint-write_u64 :
    (v : ℕ) (rest : List ℕ) → v < 2 ^ 64 → read_varint (write_u64 v ++ rest) ≡ some (v, rest)
unfolding read_varint after_varint
read_varint-write_u64 v rest h =
    let (read, len, short) = read_u64-write_u64 v rest h in
    ap (after_varint (write_u64 v ++ rest)) read
    ∙ ap (λ n. some (v, drop n (write_u64 v ++ rest))) (sym len)
    ∙ ap (λ l. some (v, l)) (drop-append (write_u64 v) rest)

pub read_blob-put_bytes :
    (b rest : List ℕ) → length b < 2 ^ 64 → read_blob (put_bytes b ++ rest) ≡ some (b, rest)
unfolding read_blob put_bytes
read_blob-put_bytes b rest h =
    ap (λ l. read_varint l >>= λ p. take_front p.0 p.1) (append_assoc (write_u64 (length b)) b rest)
    ∙ bind_is (read_varint (write_u64 (length b) ++ (b ++ rest))) _ (length b, b ++ rest) _
        (read_varint-write_u64 (length b) (b ++ rest) h) (take_front-append b rest)

pub read_string-put_str :
    (s : String) (rest : List ℕ)
    → length (utf8 s) < 2 ^ 64
    → read_string (put_str s ++ rest) ≡ some (s, rest)
unfolding read_string put_str
read_string-put_str s rest h =
    bind_is (read_blob (put_bytes (utf8 s) ++ rest)) _ (utf8 s, rest) _
      (read_blob-put_bytes (utf8 s) rest h)
      (bind_is (from_utf8 (utf8 s)) _ s _ (from_utf8-utf8 s) refl)

-- The same where nothing follows.
pub read_varint_end : (v : ℕ) → v < 2 ^ 64 → read_varint (write_u64 v) ≡ some (v, [])
read_varint_end v h = ap read_varint (sym (append-nil (write_u64 v))) ∙ read_varint-write_u64 v [] h

pub read_blob_end : (b : List ℕ) → length b < 2 ^ 64 → read_blob (put_bytes b) ≡ some (b, [])
read_blob_end b h = ap read_blob (sym (append-nil (put_bytes b))) ∙ read_blob-put_bytes b [] h

pub read_string_end :
    (s : String) → length (utf8 s) < 2 ^ 64 → read_string (put_str s) ≡ some (s, [])
read_string_end s h = ap read_string (sym (append-nil (put_str s))) ∙ read_string-put_str s [] h
