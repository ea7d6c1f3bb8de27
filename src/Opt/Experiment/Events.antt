-- ===== src/Opt/Experiment/Events.antt =====
-- crates/adabt-opt/src/experiment.rs: any sequence of what the callers do to an experiment.
use a_da_bt.Prelude.{ℕ, List, [], ◌∷◌}
use a_da_bt.Core.Float.{FloatOps}
use a_da_bt.Opt.Experiment.{Measurement, Reason, Experiment, abort, advance, record_divergence}

-- What the callers do to an experiment. `folded` is `fold` of crates/adabt-engine/src/experiment.rs,
-- which sets the measurements and the count of divergences, to any values here.
pub data Event : Type 0 where
  folded : Measurement → Measurement → ℕ → Event
  diverged_once advanced : Event
  aborted : Reason → Event

module _ ⦃fl : FloatOps⦄ (round_u64 : ℕ → ℕ) where
  unfoldable pub happen : Event → Experiment → Experiment
  happen (folded b c n) e = record e { baseline = b; candidate = c; divergences = n }
  happen diverged_once e = record_divergence e
  happen advanced e = advance round_u64 e
  happen (aborted why) e = abort e why

  unfoldable pub happen_all : List Event → Experiment → Experiment
  unfolding happen
  happen_all [] e = e
  happen_all (v ∷ vs) e = happen_all vs (happen v e)
