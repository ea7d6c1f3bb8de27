-- ===== src/Opt/Experiment.antt =====
-- crates/adabt-opt/src/experiment.rs: the life of an online experiment. The decision under test is
-- left out, since nothing here reads it, and a reason is told apart by its kind and its numbers.
pub mod Moves
pub mod Events
pub mod Ramp
pub mod Divergence
pub mod Stall
mod Tests
use a_da_bt.Prelude.{
  ℕ, zero, suc, ◌+◌, ◌%◌, ◌^◌, max, String, Bool, true, false, not, ◌&&◌, ◌||◌, List, [], ◌∷◌, ◌++◌,
  Option, some, none, ltb, leb, ◌==◌, if◌then◌else◌,
}
use a_da_bt.Prelude.Int.{pos}
use a_da_bt.Core.Float.{FloatOps, is_nan, canon_f64, of_int}

pub data Phase : Type 0 where
  proposed building shadow : Phase
  canary : ℕ → Phase
  promoted reverted : Phase

unfoldable pub is_terminal : Phase → Bool
is_terminal promoted = true
is_terminal reverted = true
is_terminal _ = false

unfoldable pub is_measuring : Phase → Bool
is_measuring shadow = true
is_measuring (canary p) = true
is_measuring _ = false

abbrev pub canary_steps : List ℕ
canary_steps = 1 ∷ 10 ∷ 50 ∷ 90 ∷ 100 ∷ []

abbrev pub min_samples_floor : ℕ
min_samples_floor = 30

abbrev pub p99_min_samples : ℕ
p99_min_samples = 100

abbrev pub max_stalled_advances : ℕ
max_stalled_advances = 250

pub record Measurement : Type 0 where
  pub samples : ℕ
  pub p50_nanos : ℕ
  pub p99_nanos : ℕ
  pub errors : ℕ
  pub ram_bytes : ℕ

-- The ratios are `f64` patterns.
pub record Guardrails : Type 0 where
  pub max_p99_ratio : ℕ
  pub max_ram_bytes : Option ℕ
  pub min_samples : ℕ
  pub max_early_p50_ratio : ℕ

pub data Reason : Type 0 where
  diverged : ℕ → Reason
  failed : ℕ → Reason
  used_ram : ℕ → ℕ → Reason
  no_evidence : Reason
  p99_regressed p50_regressed : ℕ → Reason
  asked : String → Reason

pub data Assessment : Type 0 where
  inconclusive healthy : Assessment
  abort_for : Reason → Assessment

pub record Experiment : Type 0 where
  pub id : ℕ
  pub phase : Phase
  pub guardrails : Guardrails
  pub baseline : Measurement
  pub candidate : Measurement
  pub divergences : ℕ
  pub history : List Phase
  pub last_candidate_samples : ℕ
  pub stalled : ℕ
  pub aborted_because : Option Reason

abbrev pub no_measurement : Measurement
no_measurement = record { samples = 0; p50_nanos = 0; p99_nanos = 0; errors = 0; ram_bytes = 0 }

abbrev pub new : ℕ → Guardrails → Experiment
new id guardrails = record {
  id = id;
  phase = proposed;
  guardrails = guardrails;
  baseline = no_measurement;
  candidate = no_measurement;
  divergences = 0;
  history = proposed ∷ [];
  last_candidate_samples = 0;
  stalled = 0;
  aborted_because = none;
}

unfoldable pub is_stalled : Experiment → Bool
is_stalled e = leb max_stalled_advances e.stalled

unfoldable pub enter : Experiment → Phase → Experiment
enter e phase = record e {
  phase = phase;
  history = e.history ++ phase ∷ [];
  stalled = 0;
  last_candidate_samples = 0;
}

unfoldable pub abort : Experiment → Reason → Experiment
unfolding is_terminal enter
abort e why =
    if is_terminal e.phase then e else enter (record e { aborted_because = some why }) reverted

unfoldable pub over_limit : Option ℕ → ℕ → Bool
over_limit none used = false
over_limit (some limit) used = ltb limit used

abbrev pub limit_of : Option ℕ → ℕ
limit_of none = 0
limit_of (some limit) = limit

-- What `advance` notes of the evidence that came since the last time.
unfoldable pub note_evidence : Experiment → Experiment
unfolding is_measuring
note_evidence e =
    if is_measuring e.phase
    then record e {
      stalled = if ltb e.last_candidate_samples e.candidate.samples then 0 else e.stalled + 1;
      last_candidate_samples = e.candidate.samples;
    }
    else e

-- `CANARY_STEPS.iter().find(|s| **s > p)`
unfoldable pub next_step : List ℕ → ℕ → Option ℕ
next_step [] p = none
next_step (s ∷ ss) p = let rest = next_step ss p in if ltb p s then some s else rest

-- The phase behind a canary step; one at 100 percent is a promotion.
unfoldable pub after_canary : Option ℕ → Phase
after_canary none = promoted
after_canary (some next) = if next == 100 then promoted else canary next

unfoldable pub hold_or : Assessment → Experiment → Phase → Experiment
unfolding enter
hold_or healthy e next = enter e next
hold_or _ e next = e

-- The phase to enter, if any, when nothing aborts the experiment.
unfoldable pub proceed : Phase → Assessment → Experiment → Experiment
unfolding enter hold_or after_canary next_step
proceed proposed a e = enter e building
proceed building a e = enter e shadow
proceed shadow a e = hold_or a e (canary 1)
proceed (canary p) a e = hold_or a e (after_canary (next_step canary_steps p))
proceed promoted a e = enter e promoted
proceed reverted a e = enter e reverted

unfoldable pub judged : Assessment → Experiment → Experiment
unfolding abort proceed
judged (abort_for why) e = abort e why
judged a e = proceed e.phase a e

-- `round_u64` is `share.round() as u64` of the floats.
module _ ⦃fl : FloatOps⦄ (round_u64 : ℕ → ℕ) where
  -- p as f64 / 100.0, 1.0 or 0.0
  unfoldable pub candidate_traffic : Phase → ℕ
  candidate_traffic (canary p) = fl.div (of_int (pos p)) (of_int (pos 100))
  candidate_traffic promoted = of_int (pos 1)
  candidate_traffic _ = 0

  unfoldable pub candidate_share : Phase → ℕ
  unfolding candidate_traffic
  candidate_share shadow = of_int (pos 1)
  candidate_share p = candidate_traffic p

  unfoldable pub baseline_share : Phase → ℕ
  unfolding candidate_traffic
  baseline_share shadow = of_int (pos 1)
  baseline_share p = fl.sub (of_int (pos 1)) (candidate_traffic p)

  unfoldable pub scale : Experiment → ℕ → ℕ
  scale e share =
      max (round_u64 (fl.mul (of_int (pos e.guardrails.min_samples)) share)) min_samples_floor

  -- Of the baseline and of the candidate.
  unfoldable pub required_samples : Experiment → ℕ × ℕ
  unfolding scale candidate_share baseline_share
  required_samples e = (scale e (baseline_share e.phase), scale e (candidate_share e.phase))

  -- `a > b` of floats.
  unfoldable pub float_gt : ℕ → ℕ → Bool
  float_gt a b = not (is_nan a) && (not (is_nan b) && ltb (canon_f64 b) (canon_f64 a))

  unfoldable pub ratio_above : ℕ → ℕ → ℕ → Bool
  unfolding float_gt
  ratio_above candidate baseline limit =
      ltb 0 baseline && float_gt (fl.div (of_int (pos candidate)) (of_int (pos baseline))) limit

  unfoldable pub enough_samples : Experiment → Bool
  unfolding required_samples
  enough_samples e =
      leb (required_samples e).1 e.candidate.samples
      && leb (required_samples e).0 e.baseline.samples

  unfoldable pub tail_is_meaningful : Experiment → Bool
  tail_is_meaningful e =
      leb p99_min_samples e.candidate.samples && leb p99_min_samples e.baseline.samples

  -- What the samples say, where there are enough of them.
  unfoldable pub weigh_evidence : Experiment → Assessment
  unfolding enough_samples tail_is_meaningful ratio_above
  weigh_evidence e =
      if not (enough_samples e)
      then inconclusive
      else if tail_is_meaningful e
      then (if ratio_above e.candidate.p99_nanos e.baseline.p99_nanos e.guardrails.max_p99_ratio
          then abort_for (p99_regressed e.candidate.samples)
          else healthy)
      else if ratio_above e.candidate.p50_nanos e.baseline.p50_nanos
          e.guardrails.max_early_p50_ratio
      then abort_for (p50_regressed e.candidate.samples)
      else healthy

  unfoldable pub assess : Experiment → Assessment
  unfolding is_stalled over_limit weigh_evidence
  assess e =
      if ltb 0 e.divergences
      then abort_for (diverged e.divergences)
      else if ltb 0 e.candidate.errors
      then abort_for (failed e.candidate.errors)
      else if over_limit e.guardrails.max_ram_bytes e.candidate.ram_bytes
      then abort_for (used_ram e.candidate.ram_bytes (limit_of e.guardrails.max_ram_bytes))
      else if is_stalled e
      then abort_for no_evidence
      else weigh_evidence e

  unfoldable pub advance : Experiment → Experiment
  unfolding is_terminal note_evidence assess judged
  advance e = if is_terminal e.phase then e else judged (assess (note_evidence e)) (note_evidence e)

unfoldable pub record_divergence : Experiment → Experiment
record_divergence e = record e { divergences = (e.divergences + 1) % 2 ^ 64 }
