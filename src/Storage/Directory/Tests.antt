-- ===== src/Storage/Directory/Tests.antt =====
-- The theorem on crates/adabt-storage/src/directory.rs, at a small directory.
use a_da_bt.Prelude.{◌^◌, ◌≡◌, refl, some, none, [], ◌∷◌, arith}
use a_da_bt.Storage.Directory.{Stamp, Snapshot, read, write}
use a_da_bt.Storage.Directory.Parts.{StampFits, SnapshotFits}
use a_da_bt.Storage.Directory.RoundTrip.{read-write}

abbrev stamp : Stamp
stamp = record { identity = 2 ^ 100; checkpoint_lsn = 77; heap_bytes = 8192 }

abbrev snapshot : Snapshot
snapshot = record {
  collections = (1, (10, 0, 0) ∷ (11, 0, 1) ∷ []) ∷ (4, []) ∷ [];
  free_space = (0, 300) ∷ [];
}

stamp_fits : StampFits stamp
stamp_fits = record { identity_fits = omega arith; lsn_fits = omega arith; heap_fits = omega arith }

snapshot_fits : SnapshotFits snapshot
snapshot_fits = record {
  collections_fit = (
    (
      omega arith,
      omega arith,
      ((omega arith, omega arith, omega arith), ((omega arith, omega arith, omega arith), tt)),
    ),
    ((omega arith, omega arith, tt), tt),
  );
  collections_count = omega arith;
  free_fit = ((omega arith, omega arith), tt);
  free_count = omega arith;
}

read-write_example : read (write stamp snapshot) stamp ≡ some snapshot
read-write_example = read-write stamp snapshot stamp_fits snapshot_fits

-- A directory of another checkpoint is refused.
other_checkpoint : read (write stamp snapshot) (record stamp { checkpoint_lsn = 78 }) ≡ none
unfolding read write
other_checkpoint = refl
