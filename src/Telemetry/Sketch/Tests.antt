-- ===== src/Telemetry/Sketch/Tests.antt =====
-- The theorem on crates/adabt-telemetry/src/sketch.rs at a short history.
use a_da_bt.Prelude.{◌≤◌, ◌≡◌, refl, List, [], ◌∷◌}
use a_da_bt.Telemetry.Sketch.{new, estimate}
use a_da_bt.Telemetry.Sketch.Estimate.{
  Use, observes, decays_now, apply_uses, count_uses, estimate-apply_uses,
}

abbrev uses : List Use
uses = observes 7 ∷ observes 9 ∷ observes 7 ∷ observes 7 ∷ decays_now ∷ []

estimate-apply_uses_example :
    (count_uses 100 7 (record { count = 0; seen = 0 }) uses).count
    ≤ estimate (apply_uses (new 16 100) uses) 7
estimate-apply_uses_example = estimate-apply_uses 16 100 7 uses

one_left : (count_uses 100 7 (record { count = 0; seen = 0 }) uses).count ≡ 1
unfolding count_uses
one_left = refl
