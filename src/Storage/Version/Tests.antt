-- ===== src/Storage/Version/Tests.antt =====
-- The theorems on crates/adabt-storage/src/version.rs, at concrete runs.
use a_da_bt.Prelude.{◌≤◌, ◌≡◌, refl, true, List, [], ◌∷◌, arith}
use a_da_bt.Storage.Version.{
  Event, writes, opens, drops, happen_all, reclaim_horizon, open_count, sees,
}
use a_da_bt.Storage.Version.Horizon.{start, sees-reclaim_horizon, reclaim_horizon_grows}

-- Two snapshots at one id with a write between them and a third, of which the oldest is dropped.
abbrev first_half : List Event
first_half = writes ∷ opens ∷ opens ∷ writes ∷ opens ∷ drops 2 ∷ []

abbrev second_half : List Event
second_half = writes ∷ drops 1 ∷ opens ∷ []

first_horizon : reclaim_horizon (happen_all start first_half).tracker ≡ 1
unfolding reclaim_horizon happen_all
first_horizon = refl

second_horizon : reclaim_horizon (happen_all (happen_all start first_half) second_half).tracker ≡ 2
unfolding reclaim_horizon happen_all
second_horizon = refl

open_twice : open_count (happen_all start first_half).tracker ≡ 2
unfolding open_count happen_all
open_twice = refl

sees-reclaim_horizon_example : sees 2 1 ≡ true
unfolding happen_all reclaim_horizon
sees-reclaim_horizon_example =
    sees-reclaim_horizon first_half second_half 1 2 1 (omega arith) refl (omega arith)

later_horizon :
    reclaim_horizon (happen_all start first_half).tracker
    ≤ reclaim_horizon (happen_all (happen_all start first_half) second_half).tracker
later_horizon = reclaim_horizon_grows first_half second_half (omega arith)
