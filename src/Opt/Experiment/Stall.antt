-- ===== src/Opt/Experiment/Stall.antt =====
-- crates/adabt-opt/src/experiment.rs: an experiment that is only advanced comes to an end.
use a_da_bt.Prelude.{
  ℕ, zero, suc, ◌+◌, ◌*◌, ◌-◌, ◌<◌, ◌≤◌, ◌≡◌, ◌⊎◌, refl, sym, subst, ap, ◌∙◌, Bool, true, false,
  List, arith, Bool-cases, inl, inr, if◌then◌else◌, ltb, leb,
}
use a_da_bt.Core.Float.{FloatOps}
use a_da_bt.Opt.Experiment.{
  Phase, proposed, building, shadow, canary, promoted, reverted, is_terminal, is_measuring,
  over_limit, Guardrails, Reason, Assessment, inconclusive, healthy, abort_for, Experiment, new,
  enter, abort, note_evidence, proceed, judged, assess, advance, weigh_evidence, limit_of, diverged,
  failed, used_ram, no_evidence,
}
use a_da_bt.Opt.Experiment.Events.{Event, happen_all}
use a_da_bt.Opt.Experiment.Moves.{
  note_evidence-phase, note_evidence-history, next_phase, advance-terminal, advance-running,
}
use a_da_bt.Opt.Experiment.Ramp.{
  phase_in, phase_at, Ramping, next_phase-phase_at, path_to, happen_all-new-Ramped,
}

-- What one advance of a running experiment comes to.
data Outcome (e e' : Experiment) : Type 0 where
  ended : is_terminal e'.phase ≡ true → Outcome e e'
  went_on : e' ≡ enter (note_evidence e) (next_phase e.phase) → Outcome e e'
  waited :
      e' ≡ note_evidence e
      → is_measuring e.phase ≡ true
      → (note_evidence e).stalled < 250
      → Outcome e e'

proceed-healthy :
    (p : Phase) (e : Experiment)
    → is_terminal p ≡ false
    → proceed p healthy e ≡ enter e (next_phase p)
unfolding proceed is_terminal next_phase
proceed-healthy proposed e t = refl
proceed-healthy building e t = refl
proceed-healthy shadow e t = refl
proceed-healthy (canary p) e t = refl
proceed-healthy promoted e t = absurd (cc t)
proceed-healthy reverted e t = absurd (cc t)

proceed-inconclusive :
    (p : Phase) (e : Experiment)
    → is_terminal p ≡ false
    → (proceed p inconclusive e ≡ enter e (next_phase p))
      ⊎ ((proceed p inconclusive e ≡ e) × (is_measuring p ≡ true))
unfolding proceed is_terminal next_phase is_measuring
proceed-inconclusive proposed e t = inl refl
proceed-inconclusive building e t = inl refl
proceed-inconclusive shadow e t = inr (refl, refl)
proceed-inconclusive (canary p) e t = inr (refl, refl)
proceed-inconclusive promoted e t = absurd (cc t)
proceed-inconclusive reverted e t = absurd (cc t)

abort-terminal_phase : (e : Experiment) (why : Reason) → is_terminal (abort e why).phase ≡ true
unfolding abort is_terminal
abort-terminal_phase e why = elim (Bool-cases (is_terminal e.phase)) [
  | inl t ↦
      let same : abort e why ≡ e = rw (abort, t) in
      ap (λ (x : Experiment). is_terminal x.phase) same ∙ t
  | inr f ↦ let gone : (abort e why).phase ≡ reverted = rw (abort, f) in ap is_terminal gone
]

-- An assessment that gets past the four tests has passed the fourth.
past_tests :
    (a b c d : Bool) (u v w x : Reason) (rest : Assessment)
    → (if a
        then abort_for u
        else if b
        then abort_for v
        else if c
        then abort_for w
        else if d
        then abort_for x
        else rest)
      ≡ inconclusive
    → d ≡ false
past_tests true b c d u v w x rest h = absurd (cc h)
past_tests false true c d u v w x rest h = absurd (cc h)
past_tests false false true d u v w x rest h = absurd (cc h)
past_tests false false false true u v w x rest h = absurd (cc h)
past_tests false false false false u v w x rest h = refl

-- Advances that a phase may still wait, and those that the experiment may still take.
unfoldable pub waits_left : Experiment → ℕ
waits_left e = if ltb e.last_candidate_samples e.candidate.samples then 251 else 250 - e.stalled

abbrev pub advances_left : ℕ → Experiment → ℕ
advances_left place e = (7 - place) * 252 + waits_left e

waits_bound : (e : Experiment) → waits_left e ≤ 251
unfolding waits_left
waits_bound e = ground arith

note_evidence-waits_left :
    (e : Experiment)
    → is_measuring e.phase ≡ true
    → (note_evidence e).stalled < 250
    → waits_left (note_evidence e) < waits_left e
unfolding note_evidence waits_left
note_evidence-waits_left e m h = ground (arith, m, h)

record Shorter (place : ℕ) (e e' : Experiment) : Type 0 where
  still : Ramping e'
  less : advances_left still.place e' < advances_left place e

waited_Shorter :
    (e e' : Experiment) (r : Ramping e)
    → e' ≡ note_evidence e
    → is_measuring e.phase ≡ true
    → (note_evidence e).stalled < 250
    → Shorter r.place e e'
waited_Shorter e e' r is m h = subst (Shorter r.place e) (sym is) (record {
  still = record {
    place = r.place;
    place_bound = r.place_bound;
    phase_is = note_evidence-phase e ∙ r.phase_is;
    history_is = note_evidence-history e ∙ r.history_is;
  };
  less = omega (arith, note_evidence-waits_left e m h);
})

went_on_Shorter :
    (e e' : Experiment) (r : Ramping e)
    → is_terminal e.phase ≡ false
    → e' ≡ enter (note_evidence e) (next_phase e.phase)
    → Shorter r.place e e'
unfolding enter path_to
went_on_Shorter e e' r t is =
    let next = next_phase-phase_at r.place (ap is_terminal (sym r.phase_is) ∙ t) in
    let there : next_phase e.phase ≡ phase_at (suc r.place) = ap next_phase r.phase_is ∙ next.0 in
    subst (Shorter r.place e) (sym is) (record {
      still = record {
        place = suc r.place;
        place_bound = omega (arith, next.1);
        phase_is = there;
        history_is = cc (note_evidence-history e, r.history_is, there);
      };
      less = omega (arith, next.1, waits_bound (enter (note_evidence e) (next_phase e.phase)));
    })

module _ ⦃fl : FloatOps⦄ (round_u64 : ℕ → ℕ) where
  assess-inconclusive : (e : Experiment) → assess round_u64 e ≡ inconclusive → e.stalled < 250
  unfolding assess
  assess-inconclusive e h =
      let f =
        past_tests (ltb 0 e.divergences) (ltb 0 e.candidate.errors)
          (over_limit e.guardrails.max_ram_bytes e.candidate.ram_bytes) (leb 250 e.stalled)
          (diverged e.divergences) (failed e.candidate.errors)
          (used_ram e.candidate.ram_bytes (limit_of e.guardrails.max_ram_bytes)) no_evidence
          (weigh_evidence round_u64 e) h in
      ground (arith, f)

  judged-Outcome :
      (e : Experiment) (a : Assessment)
      → is_terminal e.phase ≡ false
      → assess round_u64 (note_evidence e) ≡ a
      → Outcome e (judged a (note_evidence e))
  unfolding judged
  judged-Outcome e (abort_for why) t h = ended (abort-terminal_phase (note_evidence e) why)
  judged-Outcome e healthy t h = went_on (
      ap (λ p. proceed p healthy (note_evidence e)) (note_evidence-phase e)
      ∙ proceed-healthy e.phase (note_evidence e) t)
  judged-Outcome e inconclusive t h = elim (proceed-inconclusive e.phase (note_evidence e) t) [
    | inl p ↦
        went_on (ap (λ p. proceed p inconclusive (note_evidence e)) (note_evidence-phase e) ∙ p)
    | inr (p, m) ↦
        waited (ap (λ p. proceed p inconclusive (note_evidence e)) (note_evidence-phase e) ∙ p) m
          (assess-inconclusive (note_evidence e) h)
  ]

  advance-Shorter :
      (e : Experiment) (r : Ramping e)
      → is_terminal e.phase ≡ false
      → (is_terminal (advance round_u64 e).phase ≡ true) ⊎ Shorter r.place e (advance round_u64 e)
  advance-Shorter e r t =
      elim (subst (Outcome e) (sym (advance-running round_u64 e t)) (judged-Outcome e _ t refl)) [
        | ended x ↦ inl x
        | went_on is ↦ inr (went_on_Shorter e _ r t is)
        | waited is m h ↦ inr (waited_Shorter e _ r is m h)
      ]

  -- `n` advances with nothing between them.
  unfoldable pub advances : ℕ → Experiment → Experiment
  advances zero e = e
  advances (suc n) e = advances n (advance round_u64 e)

  advances-terminal :
      (n : ℕ) (e : Experiment)
      → is_terminal e.phase ≡ true
      → is_terminal (advances n e).phase ≡ true
  unfolding advances
  advances-terminal zero e t = t
  advances-terminal (suc n) e t =
      advances-terminal n (advance round_u64 e)
        (ap (λ (x : Experiment). is_terminal x.phase) (advance-terminal round_u64 e t) ∙ t)

  advances-Ramping :
      (n : ℕ) (e : Experiment) (r : Ramping e)
      → advances_left r.place e ≤ n
      → is_terminal (advances n e).phase ≡ true
  unfolding advances phase_in is_terminal
  advances-Ramping zero e r h =
      let last : r.place ≡ 7 = omega (arith, h, r.place_bound) in
      ap is_terminal (r.phase_is ∙ ap phase_at last)
  advances-Ramping (suc n) e r h = elim (Bool-cases (is_terminal e.phase)) [
    | inl t ↦ advances-terminal (suc n) e t
    | inr t ↦ elim (advance-Shorter e r t) [
      | inl x ↦ advances-terminal n (advance round_u64 e) x
      | inr s ↦ advances-Ramping n (advance round_u64 e) s.still (omega (arith, h, s.less))
    ]
  ]

  -- An experiment that has been through any calls, and is then only advanced, with no new evidence,
  -- is promoted or reverted after 2015 advances at the latest.
  pub advances-happen_all :
      (id : ℕ) (g : Guardrails) (vs : List Event) (n : ℕ)
      → 2015 ≤ n
      → is_terminal (advances n (happen_all round_u64 vs (new id g))).phase ≡ true
  unfolding is_terminal
  advances-happen_all id g vs n h = elim (happen_all-new-Ramped round_u64 id g vs) [
    | inl r ↦
        advances-Ramping n (happen_all round_u64 vs (new id g)) r
          (omega (arith, h, waits_bound (happen_all round_u64 vs (new id g))))
    | inr g' ↦ advances-terminal n (happen_all round_u64 vs (new id g)) (ap is_terminal g'.phase_is)
  ]
