-- ===== src/Storage/Wal/Buffer.antt =====
-- The standard library's `BufWriter` under crates/adabt-storage/src/wal.rs: the bytes of the file
-- that it writes to, and those it still holds, at most 8 KiB of them.
use mathlib.Core.List.{append-nil, append_assoc}
use a_da_bt.Prelude.{
  ℕ, ◌-◌, ◌≡◌, refl, sym, ap, ◌∙◌, Bool, true, false, List, [], ◌++◌, length, ltb, leb,
  if◌then◌else◌,
}

pub record Buffered : Type 0 where
  pub file : List ℕ
  pub held : List ℕ

abbrev pub capacity : ℕ
capacity = 8192

unfoldable pub flush : Buffered → Buffered
flush b = record { file = b.file ++ b.held; held = [] }

-- What does not fit beside the bytes held makes room for itself; what is no smaller than the whole
-- buffer goes to the file.
unfoldable pub write_all : Buffered → List ℕ → Buffered
unfolding flush
write_all b bytes =
    let roomy = if ltb (capacity - length b.held) (length bytes) then flush b else b in
    if ltb (length bytes) (capacity - length b.held)
    then record b { held = b.held ++ bytes }
    else if leb capacity (length bytes)
    then record roomy { file = (roomy.file ++ roomy.held) ++ bytes; held = [] }
    else record roomy { held = roomy.held ++ bytes }

abbrev pub all_bytes : Buffered → List ℕ
all_bytes b = b.file ++ b.held

-- A write adds its bytes behind all others, and to the file only at its end.
pub record Adds (b c : Buffered) (bytes : List ℕ) : Type 0 where
  pub more : List ℕ
  pub file_grows : c.file ≡ b.file ++ more
  pub in_order : all_bytes c ≡ all_bytes b ++ bytes

pub flush-Adds : (b : Buffered) → Adds b (flush b) []
unfolding flush
flush-Adds b = record { more = b.held; file_grows = refl; in_order = refl }

held-Adds : (b : Buffered) (bytes : List ℕ) → Adds b (record b { held = b.held ++ bytes }) bytes
held-Adds b bytes = record {
  more = [];
  file_grows = sym (append-nil b.file);
  in_order = sym (append_assoc b.file b.held bytes);
}

pub Adds-trans :
    (a b c : Buffered) (xs ys : List ℕ) → Adds a b xs → Adds b c ys → Adds a c (xs ++ ys)
Adds-trans a b c xs ys p q = record {
  more = p.more ++ q.more;
  file_grows =
      q.file_grows ∙ ap (λ l. l ++ q.more) p.file_grows ∙ append_assoc a.file p.more q.more;
  in_order = q.in_order ∙ ap (λ l. l ++ ys) p.in_order ∙ append_assoc (all_bytes a) xs ys;
}

through-Adds :
    (b : Buffered) (bytes : List ℕ)
    → Adds b (record b { file = (b.file ++ b.held) ++ bytes; held = [] }) bytes
through-Adds b bytes = record {
  more = b.held ++ bytes;
  file_grows = append_assoc b.file b.held bytes;
  in_order = append-nil ((b.file ++ b.held) ++ bytes);
}

write_by :
    (b : Buffered) (bytes : List ℕ) (x y z : Bool)
    → Adds b
        (let roomy = if x then flush b else b in
          if y
          then record b { held = b.held ++ bytes }
          else if z
          then record roomy { file = (roomy.file ++ roomy.held) ++ bytes; held = [] }
          else record roomy { held = roomy.held ++ bytes })
        bytes
write_by b bytes x true z = held-Adds b bytes
write_by b bytes true false true =
    Adds-trans b (flush b) _ [] bytes (flush-Adds b) (through-Adds (flush b) bytes)
write_by b bytes true false false =
    Adds-trans b (flush b) _ [] bytes (flush-Adds b) (held-Adds (flush b) bytes)
write_by b bytes false false true = through-Adds b bytes
write_by b bytes false false false = held-Adds b bytes

pub write_all-Adds : (b : Buffered) (bytes : List ℕ) → Adds b (write_all b bytes) bytes
unfolding write_all
write_all-Adds b bytes =
    write_by b bytes (ltb (capacity - length b.held) (length bytes))
      (ltb (length bytes) (capacity - length b.held)) (leb capacity (length bytes))
