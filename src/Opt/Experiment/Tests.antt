-- ===== src/Opt/Experiment/Tests.antt =====
-- Experiments of crates/adabt-opt/src/experiment.rs at concrete events.
use a_da_bt.Prelude.{ℕ, ◌≡◌, refl, true, arith, List, [], ◌∷◌, ◌++◌, some}
use a_da_bt.Core.FloatTests.{no_floats}
use a_da_bt.Opt.Experiment.{
  is_terminal, proposed, building, shadow, promoted, reverted, Measurement, Guardrails, new,
  advance, record_divergence,
}
use a_da_bt.Opt.Experiment.Events.{Event, folded, diverged_once, advanced, happen, happen_all}
use a_da_bt.Opt.Experiment.Ramp.{Ramped, happen_all-new-Ramped}
use a_da_bt.Opt.Experiment.Stall.{advances, advances-happen_all}
use a_da_bt.Opt.Experiment.Divergence.{record_divergence-reverted}

-- Rounding of the shares is not exercised, since the floor of 30 samples stands above it.
abbrev round_none : ℕ → ℕ
round_none share = 0

abbrev guards : Guardrails
guards = record {
  max_p99_ratio = 0;
  max_ram_bytes = some 1000;
  min_samples = 100;
  max_early_p50_ratio = 0;
}

abbrev thirty : Measurement
thirty = record { samples = 30; p50_nanos = 0; p99_nanos = 0; errors = 0; ram_bytes = 10 }

abbrev to_shadow : List Event
to_shadow = advanced ∷ advanced ∷ []

abbrev ramp_up : List Event
ramp_up =
    to_shadow ++ folded thirty thirty 0 ∷ advanced ∷ advanced ∷ advanced ∷ advanced ∷ advanced ∷ []

promoted_run : (happen_all round_none ramp_up (new 1 guards)).phase ≡ promoted
unfolding happen_all happen advance
promoted_run = refl

held_run : (happen_all round_none (to_shadow ++ advanced ∷ []) (new 1 guards)).phase ≡ shadow
unfolding happen_all happen advance
held_run = refl

diverged_run :
    (happen_all round_none (to_shadow ++ diverged_once ∷ advanced ∷ []) (new 1 guards)).history
    ≡ proposed ∷ building ∷ shadow ∷ reverted ∷ []
unfolding happen_all happen advance record_divergence
diverged_run = refl

ram_run :
    (happen_all round_none
      (to_shadow ++ folded thirty (record thirty { ram_bytes = 1001 }) 0 ∷ advanced ∷ [])
      (new 1 guards)).phase
    ≡ reverted
unfolding happen_all happen advance
ram_run = refl

happen_all-new-Ramped_example : Ramped (happen_all round_none ramp_up (new 1 guards))
happen_all-new-Ramped_example = happen_all-new-Ramped round_none 1 guards ramp_up

record_divergence-reverted_example :
    (happen_all round_none
      (folded thirty thirty 2 ∷ advanced ∷ advanced ∷ [])
      (record_divergence (happen_all round_none to_shadow (new 1 guards)))).phase
    ≡ reverted
unfolding happen_all happen advance
record_divergence-reverted_example =
    record_divergence-reverted round_none (happen_all round_none to_shadow (new 1 guards))
      (folded thirty thirty 2 ∷ []) (advanced ∷ []) refl (omega arith) (omega arith, tt)

advances-happen_all_example :
    is_terminal (advances round_none 2100 (happen_all round_none to_shadow (new 1 guards))).phase
    ≡ true
advances-happen_all_example = advances-happen_all round_none 1 guards to_shadow 2100 (omega arith)
