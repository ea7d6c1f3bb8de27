-- ===== src/Storage/Directory/RoundTrip.antt =====
-- crates/adabt-storage/src/directory.rs: the directory written at a checkpoint is read back.
use a_da_bt.Prelude.{
  ℕ, ◌-◌, ◌%◌, ◌^◌, ◌<◌, ◌≤◌, ◌≡◌, refl, sym, ◌∙◌, Bool, true, false, not, List, [], ◌∷◌, ◌++◌,
  some, length, length-append, ltb, ◌==◌, arith,
}
use a_da_bt.Storage.LittleEndian.{
  le, from_le, take_front, read_le, length-le, from_le-le, take_front-append, read_le-le,
}
use a_da_bt.Storage.Reader.Laws.{bind_is, take-append, drop-append}
use a_da_bt.Storage.Directory.{
  magic, format_version, Stamp, Entry, Snapshot, checksum_loop, checksum, put_collections, put_free,
  body, write, read_collections, read_free, bytes_eq, stamp_eq, only, read_body, read,
}
use a_da_bt.Storage.Directory.Parts.{
  StampFits, SnapshotFits, read_count, read_free-put_free, read_collections-put_collections,
}

pub same_bytes : (xs : List ℕ) → bytes_eq xs xs ≡ true
same_bytes [] = refl
same_bytes (x ∷ xs) = ground (arith, same_bytes xs)

same_stamp : (stamp : Stamp) → stamp_eq stamp stamp ≡ true
same_stamp stamp = ground arith

pub only_true : (b : Bool) → b ≡ true → only b ≡ some tt
only_true b h = rw h refl

-- `read_body` where every step answers.
read_body_step :
    (stamp : Stamp) (count pages : ℕ) (cs : List (ℕ × List Entry)) (fs : List (ℕ × ℕ))
    (xs a b c d e f g h : List ℕ)
    → take_front 8 xs ≡ some (magic, a)
    → read_le 4 a ≡ some (format_version, b)
    → read_le 16 b ≡ some (stamp.identity, c)
    → read_le 8 c ≡ some (stamp.checkpoint_lsn, d)
    → read_le 8 d ≡ some (stamp.heap_bytes, e)
    → read_le 4 e ≡ some (count, f)
    → read_collections count f ≡ some (cs, g)
    → read_le 4 g ≡ some (pages, h)
    → read_free pages h ≡ some (fs, [])
    → read_body xs stamp ≡ some (record { collections = cs; free_space = fs })
unfolding read_body
read_body_step stamp count pages cs fs xs a b c d e f g h e1 e2 e3 e4 e5 e6 e7 e8 e9 =
    bind_is (take_front 8 xs) _ (magic, a) _ e1
      (bind_is (read_le 4 a) _ (format_version, b) _ e2
        (bind_is (read_le 16 b) _ (stamp.identity, c) _ e3
          (bind_is (read_le 8 c) _ (stamp.checkpoint_lsn, d) _ e4
            (bind_is (read_le 8 d) _ (stamp.heap_bytes, e) _ e5
              (bind_is (only (stamp_eq stamp stamp)) _ tt _ (only_true _ (same_stamp stamp)) (
                bind_is (read_le 4 e) _ (count, f) _ e6
                  (bind_is (read_collections count f) _ (cs, g) _ e7
                    (bind_is (read_le 4 g) _ (pages, h) _ e8
                      (bind_is (read_free pages h) _ (fs, []) _ e9 refl)))))))))

module _ (stamp : Stamp) (s : Snapshot) where
  abbrev free_part : List ℕ
  free_part = le 4 (length s.free_space % 2 ^ 32) ++ put_free s.free_space

  abbrev collection_part : List ℕ
  collection_part = le 4 (length s.collections % 2 ^ 32) ++ put_collections s.collections free_part

  abbrev heap_part : List ℕ
  heap_part = le 8 stamp.heap_bytes ++ collection_part

  abbrev lsn_part : List ℕ
  lsn_part = le 8 stamp.checkpoint_lsn ++ heap_part

  abbrev stamp_part : List ℕ
  stamp_part = le 16 stamp.identity ++ lsn_part

  read_body-body : StampFits stamp → SnapshotFits s → read_body (body stamp s) stamp ≡ some s
  unfolding body
  read_body-body ft fs =
      read_body_step stamp (length s.collections) (length s.free_space) s.collections s.free_space
        (magic ++ (le 4 format_version ++ stamp_part)) (le 4 format_version ++ stamp_part)
        stamp_part lsn_part heap_part collection_part (put_collections s.collections free_part)
        free_part (put_free s.free_space)
        (take_front-append magic (le 4 format_version ++ stamp_part))
        (read_le-le 4 format_version stamp_part (omega arith))
        (read_le-le 16 stamp.identity lsn_part ft.identity_fits)
        (read_le-le 8 stamp.checkpoint_lsn heap_part ft.lsn_fits)
        (read_le-le 8 stamp.heap_bytes collection_part ft.heap_fits)
        (read_count (length s.collections) (put_collections s.collections free_part)
          fs.collections_count)
        (read_collections-put_collections s.collections free_part fs.collections_fit)
        (read_count (length s.free_space) (put_free s.free_space) fs.free_count)
        (read_free-put_free s.free_space fs.free_fit)

checksum_loop_bound : (xs : List ℕ) (h : ℕ) → h < 2 ^ 64 → checksum_loop h xs < 2 ^ 64
unfolding checksum_loop
checksum_loop_bound [] h k = k
checksum_loop_bound (x ∷ xs) h k = checksum_loop_bound xs _ (omega arith)

pub checksum_bound : (xs : List ℕ) → checksum xs < 2 ^ 64
unfolding checksum
checksum_bound xs = checksum_loop_bound xs 0xcbf2_9ce4_8422_2325 (omega arith)

-- `read` behind its length test, on a file split where the code splits it.
split_read :
    (xs tail : List ℕ) (stamp : Stamp)
    → length tail ≡ 8
    → 8 ≤ length xs
    → checksum xs ≡ from_le tail
    → read (xs ++ tail) stamp ≡ read_body xs stamp
unfolding read
split_read xs tail stamp eight long same =
    let at : length (xs ++ tail) - 8 ≡ length xs = omega (arith, length-append xs tail) in
    let g : ltb (length (xs ++ tail)) 16 ≡ false = ground (arith, length-append xs tail) in
    let k : not (checksum xs == from_le tail) ≡ false = ground arith in
    rw (g, at, take-append xs tail, drop-append xs tail, k) refl

long_body : (stamp : Stamp) (s : Snapshot) → 8 ≤ length (body stamp s)
unfolding body
long_body stamp s = omega arith

-- A directory written at a checkpoint, its numbers in the ranges of their types, is read back
-- entry by entry by a reader that expects the same checkpoint.
pub read-write :
    (stamp : Stamp) (s : Snapshot)
    → StampFits stamp
    → SnapshotFits s
    → read (write stamp s) stamp ≡ some s
unfolding write
read-write stamp s ft fs =
    split_read (body stamp s) (le 8 (checksum (body stamp s))) stamp
      (length-le 8 (checksum (body stamp s))) (long_body stamp s)
      (sym (from_le-le 8 (checksum (body stamp s)) (checksum_bound (body stamp s))))
    ∙ read_body-body stamp s ft fs
