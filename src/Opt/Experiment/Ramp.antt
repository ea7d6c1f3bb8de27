-- ===== src/Opt/Experiment/Ramp.antt =====
-- crates/adabt-opt/src/experiment.rs: what the history of an experiment can be.
use a_da_bt.Prelude.{
  ℕ, zero, suc, ◌≤◌, ◌≡◌, ◌⊎◌, refl, sym, ap, ◌∙◌, subst, false, List, [], ◌∷◌, ◌++◌, arith,
  Bool-cases, inl, inr,
}
use a_da_bt.Core.Float.{FloatOps}
use a_da_bt.Opt.Experiment.{
  Phase, proposed, building, shadow, canary, promoted, reverted, is_terminal, Guardrails, Reason,
  Experiment, new, abort, next_step, after_canary, advance, record_divergence,
}
use a_da_bt.Opt.Experiment.Events.{
  Event, folded, diverged_once, advanced, aborted, happen, happen_all,
}
use a_da_bt.Opt.Experiment.Moves.{
  next_phase, Moved, stayed, moved_on, gave_up, abort-terminal, abort-Moved, advance-terminal,
  advance-Moved,
}

unfoldable pub phase_in : List Phase → ℕ → Phase
phase_in [] k = promoted
phase_in (p ∷ ps) zero = p
phase_in (p ∷ ps) (suc k) = phase_in ps k

-- The phases in the order of the lifecycle, from 0 to 7.
abbrev pub phase_at : ℕ → Phase
phase_at =
    phase_in
      (proposed ∷ building ∷ shadow ∷ canary 1 ∷ canary 10 ∷ canary 50 ∷ canary 90 ∷ promoted ∷ [])

unfoldable pub path_to : ℕ → List Phase
path_to zero = phase_at zero ∷ []
path_to (suc k) = path_to k ++ phase_at (suc k) ∷ []

pub record Ramping (e : Experiment) : Type 0 where
  pub place : ℕ
  pub place_bound : place ≤ 7
  pub phase_is : e.phase ≡ phase_at place
  pub history_is : e.history ≡ path_to place

-- Given up at a place that is not yet the promotion.
pub record GivenUp (e : Experiment) : Type 0 where
  pub place : ℕ
  pub place_bound : place ≤ 6
  pub phase_is : e.phase ≡ reverted
  pub history_is : e.history ≡ path_to place ++ reverted ∷ []

abbrev pub Ramped : Experiment → Type 0
Ramped e = Ramping e ⊎ GivenUp e

pub next_phase-phase_at :
    (k : ℕ)
    → is_terminal (phase_at k) ≡ false
    → (next_phase (phase_at k) ≡ phase_at (suc k)) × (k ≤ 6)
unfolding is_terminal phase_in next_phase after_canary next_step
next_phase-phase_at zero h = (refl, omega arith)
next_phase-phase_at (suc zero) h = (refl, omega arith)
next_phase-phase_at (suc (suc zero)) h = (refl, omega arith)
next_phase-phase_at (suc (suc (suc zero))) h = (refl, omega arith)
next_phase-phase_at (suc (suc (suc (suc zero)))) h = (refl, omega arith)
next_phase-phase_at (suc (suc (suc (suc (suc zero))))) h = (refl, omega arith)
next_phase-phase_at (suc (suc (suc (suc (suc (suc zero)))))) h = (refl, omega arith)
next_phase-phase_at (suc (suc (suc (suc (suc (suc (suc zero))))))) h = absurd (cc h)
next_phase-phase_at (suc (suc (suc (suc (suc (suc (suc (suc k)))))))) h = absurd (cc h)

-- A phase that still runs is one before the promotion.
Moved-Ramped : (e e' : Experiment) → is_terminal e.phase ≡ false → Ramped e → Moved e e' → Ramped e'
unfolding path_to is_terminal
Moved-Ramped e e' t (inr g) m = absurd (cc (t, g.phase_is))
Moved-Ramped e e' t (inl r) m =
    let next = next_phase-phase_at r.place (ap is_terminal (sym r.phase_is) ∙ t) in
    elim m [
      | stayed h k ↦ inl (record {
        place = r.place;
        place_bound = r.place_bound;
        phase_is = h ∙ r.phase_is;
        history_is = k ∙ r.history_is;
      })
      | moved_on h k ↦ inl (record {
        place = suc r.place;
        place_bound = omega (arith, next.1);
        phase_is = h ∙ ap next_phase r.phase_is ∙ next.0;
        history_is = cc (k, r.history_is, ap next_phase r.phase_is, next.0);
      })
      | gave_up h k ↦ inr (record {
        place = r.place;
        place_bound = next.1;
        phase_is = h;
        history_is = k ∙ ap (λ ps. ps ++ reverted ∷ []) r.history_is;
      })
    ]

Ramped-same :
    (e e' : Experiment) → e'.phase ≡ e.phase → e'.history ≡ e.history → Ramped e → Ramped e'
Ramped-same e e' h k (inl r) = inl (record {
  place = r.place;
  place_bound = r.place_bound;
  phase_is = h ∙ r.phase_is;
  history_is = k ∙ r.history_is;
})
Ramped-same e e' h k (inr g) = inr (record {
  place = g.place;
  place_bound = g.place_bound;
  phase_is = h ∙ g.phase_is;
  history_is = k ∙ g.history_is;
})

new-Ramped : (id : ℕ) (g : Guardrails) → Ramped (new id g)
unfolding path_to phase_in
new-Ramped id g =
    inl (record { place = zero; place_bound = omega arith; phase_is = refl; history_is = refl })

abort-Ramped : (e : Experiment) (why : Reason) → Ramped e → Ramped (abort e why)
abort-Ramped e why r = elim (Bool-cases (is_terminal e.phase)) [
  | inl t ↦ subst Ramped (sym (abort-terminal e why t)) r
  | inr t ↦ Moved-Ramped e _ t r (abort-Moved e why)
]

module _ ⦃fl : FloatOps⦄ (round_u64 : ℕ → ℕ) where
  advance-Ramped : (e : Experiment) → Ramped e → Ramped (advance round_u64 e)
  advance-Ramped e r = elim (Bool-cases (is_terminal e.phase)) [
    | inl t ↦ subst Ramped (sym (advance-terminal round_u64 e t)) r
    | inr t ↦ Moved-Ramped e _ t r (advance-Moved round_u64 e t)
  ]

  happen-Ramped : (v : Event) (e : Experiment) → Ramped e → Ramped (happen round_u64 v e)
  unfolding happen record_divergence
  happen-Ramped (folded b c n) e r = Ramped-same e _ refl refl r
  happen-Ramped diverged_once e r = Ramped-same e _ refl refl r
  happen-Ramped advanced e r = advance-Ramped e r
  happen-Ramped (aborted why) e r = abort-Ramped e why r

  happen_all-Ramped :
      (vs : List Event) (e : Experiment) → Ramped e → Ramped (happen_all round_u64 vs e)
  unfolding happen_all
  happen_all-Ramped [] e r = r
  happen_all-Ramped (v ∷ vs) e r = happen_all-Ramped vs (happen round_u64 v e) (happen-Ramped v e r)

  -- Whatever its callers do to a new experiment, its history is the lifecycle up to the phase it is
  -- in, in order and with no phase skipped, or the lifecycle up to a phase before the promotion,
  -- followed by `reverted`.
  pub happen_all-new-Ramped :
      (id : ℕ) (g : Guardrails) (vs : List Event) → Ramped (happen_all round_u64 vs (new id g))
  happen_all-new-Ramped id g vs = happen_all-Ramped vs (new id g) (new-Ramped id g)
