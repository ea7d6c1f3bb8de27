-- ===== src/Storage/Directory/Parts.antt =====
-- crates/adabt-storage/src/directory.rs: each loop of `read` reads what its loop of `write` wrote.
use a_da_bt.Prelude.{
  ℕ, suc, ◌%◌, ◌^◌, ◌<◌, ◌≡◌, refl, ap, ◌∙◌, List, [], ◌∷◌, ◌++◌, some, length, arith, All,
}
use a_da_bt.Storage.LittleEndian.{le, read_le, read_le-le}
use a_da_bt.Storage.Reader.Laws.{bind_is}
use a_da_bt.Storage.Directory.{
  Stamp, Entry, Snapshot, put_records, put_collections, put_free, read_records, read_collections,
  read_free,
}

-- What the types of the code hold.
abbrev pub EntryFits : Entry → Type 0
EntryFits (id, page, slot) = (id < 2 ^ 64) × (page < 2 ^ 32) × (slot < 2 ^ 16)

abbrev pub CollectionFits : ℕ × List Entry → Type 0
CollectionFits (cid, rs) = (cid < 2 ^ 32) × (length rs < 2 ^ 32) × All EntryFits rs

abbrev pub FreeFits : ℕ × ℕ → Type 0
FreeFits (page, free) = (page < 2 ^ 32) × (free < 2 ^ 32)

pub record SnapshotFits (s : Snapshot) : Type 0 where
  pub collections_fit : All CollectionFits s.collections
  pub collections_count : length s.collections < 2 ^ 32
  pub free_fit : All FreeFits s.free_space
  pub free_count : length s.free_space < 2 ^ 32

pub record StampFits (stamp : Stamp) : Type 0 where
  pub identity_fits : stamp.identity < 2 ^ 128
  pub lsn_fits : stamp.checkpoint_lsn < 2 ^ 64
  pub heap_fits : stamp.heap_bytes < 2 ^ 64

read_records_step :
    (n id page slot : ℕ) (rs : List Entry) (xs a b c rest : List ℕ)
    → read_le 8 xs ≡ some (id, a)
    → read_le 4 a ≡ some (page, b)
    → read_le 2 b ≡ some (slot, c)
    → read_records n c ≡ some (rs, rest)
    → read_records (suc n) xs ≡ some ((id, page, slot) ∷ rs, rest)
unfolding read_records
read_records_step n id page slot rs xs a b c rest e1 e2 e3 e4 =
    bind_is (read_le 8 xs) _ (id, a) _ e1
      (bind_is (read_le 4 a) _ (page, b) _ e2
        (bind_is (read_le 2 b) _ (slot, c) _ e3
          (bind_is (read_records n c) _ (rs, rest) _ e4 refl)))

pub read_records-put_records :
    (rs : List Entry) (tail : List ℕ)
    → All EntryFits rs
    → read_records (length rs) (put_records rs tail) ≡ some (rs, tail)
unfolding read_records put_records
read_records-put_records [] tail fits = refl
read_records-put_records ((id, page, slot) ∷ rs) tail ((hi, hp, hs), fits) =
    read_records_step (length rs) id page slot rs
      (le 8 id ++ (le 4 page ++ (le 2 slot ++ put_records rs tail)))
      (le 4 page ++ (le 2 slot ++ put_records rs tail)) (le 2 slot ++ put_records rs tail)
      (put_records rs tail) tail
      (read_le-le 8 id (le 4 page ++ (le 2 slot ++ put_records rs tail)) hi)
      (read_le-le 4 page (le 2 slot ++ put_records rs tail) hp)
      (read_le-le 2 slot (put_records rs tail) hs) (read_records-put_records rs tail fits)

read_free_step :
    (n page free : ℕ) (fs : List (ℕ × ℕ)) (xs a b rest : List ℕ)
    → read_le 4 xs ≡ some (page, a)
    → read_le 4 a ≡ some (free, b)
    → read_free n b ≡ some (fs, rest)
    → read_free (suc n) xs ≡ some ((page, free) ∷ fs, rest)
unfolding read_free
read_free_step n page free fs xs a b rest e1 e2 e3 =
    bind_is (read_le 4 xs) _ (page, a) _ e1
      (bind_is (read_le 4 a) _ (free, b) _ e2 (bind_is (read_free n b) _ (fs, rest) _ e3 refl))

read_collections_step :
    (n cid count : ℕ) (rs : List Entry) (cs : List (ℕ × List Entry)) (xs a b c rest : List ℕ)
    → read_le 4 xs ≡ some (cid, a)
    → read_le 4 a ≡ some (count, b)
    → read_records count b ≡ some (rs, c)
    → read_collections n c ≡ some (cs, rest)
    → read_collections (suc n) xs ≡ some ((cid, rs) ∷ cs, rest)
unfolding read_collections
read_collections_step n cid count rs cs xs a b c rest e1 e2 e3 e4 =
    bind_is (read_le 4 xs) _ (cid, a) _ e1
      (bind_is (read_le 4 a) _ (count, b) _ e2
        (bind_is (read_records count b) _ (rs, c) _ e3
          (bind_is (read_collections n c) _ (cs, rest) _ e4 refl)))

pub read_free-put_free :
    (fs : List (ℕ × ℕ)) → All FreeFits fs → read_free (length fs) (put_free fs) ≡ some (fs, [])
unfolding read_free put_free
read_free-put_free [] fits = refl
read_free-put_free ((page, free) ∷ fs) ((hp, hf), fits) =
    read_free_step (length fs) page free fs (le 4 page ++ (le 4 free ++ put_free fs))
      (le 4 free ++ put_free fs) (put_free fs) [] (read_le-le 4 page (le 4 free ++ put_free fs) hp)
      (read_le-le 4 free (put_free fs) hf) (read_free-put_free fs fits)

-- A count cut to 32 bits, which it fits.
pub read_count :
    (n : ℕ) (tail : List ℕ) → n < 2 ^ 32 → read_le 4 (le 4 (n % 2 ^ 32) ++ tail) ≡ some (n, tail)
read_count n tail h =
    let same : n % 2 ^ 32 ≡ n = omega arith in
    read_le-le 4 (n % 2 ^ 32) tail (omega arith) ∙ ap (λ k. some (k, tail)) same

pub read_collections-put_collections :
    (cs : List (ℕ × List Entry)) (tail : List ℕ)
    → All CollectionFits cs
    → read_collections (length cs) (put_collections cs tail) ≡ some (cs, tail)
unfolding read_collections put_collections
read_collections-put_collections [] tail fits = refl
read_collections-put_collections ((cid, rs) ∷ cs) tail ((hc, hn, hr), fits) =
    read_collections_step (length cs) cid (length rs) rs cs
      (le 4 cid ++ (le 4 (length rs % 2 ^ 32) ++ put_records rs (put_collections cs tail)))
      (le 4 (length rs % 2 ^ 32) ++ put_records rs (put_collections cs tail))
      (put_records rs (put_collections cs tail)) (put_collections cs tail) tail
      (read_le-le 4 cid (le 4 (length rs % 2 ^ 32) ++ put_records rs (put_collections cs tail)) hc)
      (read_count (length rs) (put_records rs (put_collections cs tail)) hn)
      (read_records-put_records rs (put_collections cs tail) hr)
      (read_collections-put_collections cs tail fits)
