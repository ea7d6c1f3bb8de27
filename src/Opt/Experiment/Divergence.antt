-- ===== src/Opt/Experiment/Divergence.antt =====
-- crates/adabt-opt/src/experiment.rs: one divergence ends an experiment.
use a_da_bt.Prelude.{
  subst, sym, ◌%◌, ◌^◌, ◌+◌, ℕ, ◌<◌, ◌≡◌, ◌⊎◌, ap, ◌∙◌, true, false, List, [], ◌∷◌, ◌++◌, arith,
  inl, inr, ltb,
}
use a_da_bt.Core.Float.{FloatOps}
use a_da_bt.Opt.Experiment.{
  reverted, is_terminal, Reason, diverged, abort_for, Experiment, abort, note_evidence, judged,
  assess, advance, record_divergence,
}
use a_da_bt.Opt.Experiment.Events.{
  Event, folded, diverged_once, advanced, aborted, happen, happen_all,
}
use a_da_bt.Opt.Experiment.Moves.{
  note_evidence-phase, abort-terminal, advance-terminal, advance-running,
}

-- A divergence is on record, and the experiment has not been promoted.
record Doomed (e : Experiment) : Type 0 where
  on_record : 0 < e.divergences
  not_promoted : (is_terminal e.phase ≡ false) ⊎ (e.phase ≡ reverted)

-- The count that starts at `d` neither overflows nor is set back to 0.
abbrev pub Stays : ℕ → List Event → Type 0
Stays d [] = Unit {0}
Stays d (folded b c n ∷ vs) = (0 < n) × Stays n vs
Stays d (diverged_once ∷ vs) = (d + 1 < 2 ^ 64) × Stays (d + 1) vs
Stays d (advanced ∷ vs) = Stays d vs
Stays d (aborted why ∷ vs) = Stays d vs

note_evidence-divergences : (e : Experiment) → (note_evidence e).divergences ≡ e.divergences
unfolding note_evidence
note_evidence-divergences e = ground arith

abort-phase :
    (e : Experiment) (why : Reason) → is_terminal e.phase ≡ false → (abort e why).phase ≡ reverted
unfolding abort
abort-phase e why t = rw t

abort-divergences : (e : Experiment) (why : Reason) → (abort e why).divergences ≡ e.divergences
unfolding abort
abort-divergences e why = ground arith

reverted-terminal : (e : Experiment) → e.phase ≡ reverted → is_terminal e.phase ≡ true
unfolding is_terminal
reverted-terminal e h = ap is_terminal h

module _ ⦃fl : FloatOps⦄ (round_u64 : ℕ → ℕ) where
  assess-diverged :
      (e : Experiment) → 0 < e.divergences → assess round_u64 e ≡ abort_for (diverged e.divergences)
  unfolding assess
  assess-diverged e h = let above : ltb 0 e.divergences ≡ true = ground (arith, h) in rw above

  advance-diverged :
      (e : Experiment)
      → is_terminal e.phase ≡ false
      → 0 < e.divergences
      → advance round_u64 e ≡ abort (note_evidence e) (diverged (note_evidence e).divergences)
  unfolding judged
  advance-diverged e t h =
      advance-running round_u64 e t
      ∙ ap (λ a. judged a (note_evidence e))
          (assess-diverged (note_evidence e) (omega (arith, note_evidence-divergences e, h)))

  advance-phase : (e : Experiment) → Doomed e → (advance round_u64 e).phase ≡ reverted
  advance-phase e d = elim d.not_promoted [
    | inl t ↦
        ap (λ x. x.phase) (advance-diverged e t d.on_record)
        ∙ abort-phase (note_evidence e) _ (ap is_terminal (note_evidence-phase e) ∙ t)
    | inr r ↦ ap (λ x. x.phase) (advance-terminal round_u64 e (reverted-terminal e r)) ∙ r
  ]

  happen-reverted :
      (v : Event) (e : Experiment) → e.phase ≡ reverted → (happen round_u64 v e).phase ≡ reverted
  unfolding happen record_divergence
  happen-reverted (folded b c n) e r = r
  happen-reverted diverged_once e r = r
  happen-reverted advanced e r =
      ap (λ x. x.phase) (advance-terminal round_u64 e (reverted-terminal e r)) ∙ r
  happen-reverted (aborted why) e r =
      ap (λ x. x.phase) (abort-terminal e why (reverted-terminal e r)) ∙ r

  happen_all-reverted :
      (vs : List Event) (e : Experiment)
      → e.phase ≡ reverted
      → (happen_all round_u64 vs e).phase ≡ reverted
  unfolding happen_all
  happen_all-reverted [] e r = r
  happen_all-reverted (v ∷ vs) e r =
      happen_all-reverted vs (happen round_u64 v e) (happen-reverted v e r)

  abort-Doomed : (e : Experiment) (why : Reason) → Doomed e → Doomed (abort e why)
  abort-Doomed e why d = record {
    on_record = omega (arith, abort-divergences e why, d.on_record);
    not_promoted = elim d.not_promoted [
      | inl t ↦ inr (abort-phase e why t)
      | inr r ↦ inr (ap (λ x. x.phase) (abort-terminal e why (reverted-terminal e r)) ∙ r)
    ];
  }

  -- From a doomed experiment, an advance reverts it, whatever comes before and behind.
  run_Doomed :
      (vs ws : List Event) (e : Experiment)
      → Doomed e
      → Stays e.divergences vs
      → (happen_all round_u64 (vs ++ advanced ∷ ws) e).phase ≡ reverted
  unfolding happen_all happen record_divergence
  run_Doomed [] ws e d h = happen_all-reverted ws (advance round_u64 e) (advance-phase e d)
  run_Doomed (folded b c n ∷ vs) ws e d (positive, h) =
      run_Doomed vs ws _ (record { on_record = positive; not_promoted = d.not_promoted }) h
  run_Doomed (diverged_once ∷ vs) ws e d (fits, h) =
      let next : e.divergences + 1 ≡ (e.divergences + 1) % 2 ^ 64 = omega (arith, fits) in
      run_Doomed vs ws _ (record { on_record = omega (arith, fits); not_promoted = d.not_promoted })
        (subst (λ n. Stays n vs) next h)
  run_Doomed (advanced ∷ vs) ws e d h =
      happen_all-reverted (vs ++ advanced ∷ ws) (advance round_u64 e) (advance-phase e d)
  run_Doomed (aborted why ∷ vs) ws e d h =
      run_Doomed vs ws (abort e why) (abort-Doomed e why d)
        (subst (λ n. Stays n vs) (sym (abort-divergences e why)) h)

  -- Where a running experiment records a divergence and its counter does not overflow, the next
  -- advance reverts it, unless the calls before that advance overflow the counter or fold in a
  -- report without a divergence; nothing its callers do behind that advance takes the experiment
  -- out of that phase.
  pub record_divergence-reverted :
      (e : Experiment) (vs ws : List Event)
      → is_terminal e.phase ≡ false
      → e.divergences + 1 < 2 ^ 64
      → Stays (e.divergences + 1) vs
      → (happen_all round_u64 (vs ++ advanced ∷ ws) (record_divergence e)).phase ≡ reverted
  unfolding record_divergence
  record_divergence-reverted e vs ws t fits stays =
      let next : e.divergences + 1 ≡ (e.divergences + 1) % 2 ^ 64 = omega (arith, fits) in
      run_Doomed vs ws _ (record { on_record = omega (arith, fits); not_promoted = inl t })
        (subst (λ n. Stays n vs) next stays)
