-- ===== src/Opt/Experiment/Moves.antt =====
-- crates/adabt-opt/src/experiment.rs: what a step does to the phase and the history.
use a_da_bt.Prelude.{
  ℕ, ◌≡◌, refl, sym, ap, ◌∙◌, subst, Bool, true, false, [], ◌∷◌, ◌++◌, arith, if◌then◌else◌,
}
use a_da_bt.Core.Float.{FloatOps}
use a_da_bt.Opt.Experiment.{
  Phase, proposed, building, shadow, canary, promoted, reverted, is_terminal, canary_steps, Reason,
  Assessment, inconclusive, healthy, abort_for, Experiment, enter, abort, note_evidence, next_step,
  after_canary, hold_or, proceed, judged, assess, advance,
}

unfoldable pub next_phase : Phase → Phase
unfolding after_canary next_step
next_phase proposed = building
next_phase building = shadow
next_phase shadow = canary 1
next_phase (canary p) = after_canary (next_step canary_steps p)
next_phase p = p

-- What one judgement does to the phase and the history.
pub data Moved (e e' : Experiment) : Type 0 where
  stayed : e'.phase ≡ e.phase → e'.history ≡ e.history → Moved e e'
  moved_on :
      e'.phase ≡ next_phase e.phase → e'.history ≡ e.history ++ next_phase e.phase ∷ [] → Moved e e'
  gave_up : e'.phase ≡ reverted → e'.history ≡ e.history ++ reverted ∷ [] → Moved e e'

if_Moved : (b : Bool) (e e' : Experiment) → Moved e e' → Moved e (if b then e else e')
if_Moved true e e' m = stayed refl refl
if_Moved false e e' m = m

pub abort-Moved : (e : Experiment) (why : Reason) → Moved e (abort e why)
unfolding abort enter
abort-Moved e why = if_Moved (is_terminal e.phase) e _ (gave_up refl refl)

enter-Moved : (e : Experiment) (p : Phase) → next_phase e.phase ≡ p → Moved e (enter e p)
unfolding enter
enter-Moved e p h = moved_on (sym h) (ap (λ q. e.history ++ q ∷ []) (sym h))

hold_or-Moved :
    (a : Assessment) (e : Experiment) (p : Phase) → next_phase e.phase ≡ p → Moved e (hold_or a e p)
unfolding hold_or
hold_or-Moved healthy e p h = enter-Moved e p h
hold_or-Moved inconclusive e p h = stayed refl refl
hold_or-Moved (abort_for why) e p h = stayed refl refl

proceed-Moved :
    (p : Phase) (a : Assessment) (e : Experiment)
    → e.phase ≡ p
    → is_terminal p ≡ false
    → Moved e (proceed p a e)
unfolding proceed is_terminal next_phase
proceed-Moved proposed a e h t = enter-Moved e building (ap next_phase h)
proceed-Moved building a e h t = enter-Moved e shadow (ap next_phase h)
proceed-Moved shadow a e h t = hold_or-Moved a e (canary 1) (ap next_phase h)
proceed-Moved (canary p) a e h t = hold_or-Moved a e _ (ap next_phase h)
proceed-Moved promoted a e h t = absurd (cc t)
proceed-Moved reverted a e h t = absurd (cc t)

judged-Moved :
    (a : Assessment) (e : Experiment) → is_terminal e.phase ≡ false → Moved e (judged a e)
unfolding judged
judged-Moved (abort_for why) e t = abort-Moved e why
judged-Moved inconclusive e t = proceed-Moved e.phase inconclusive e refl t
judged-Moved healthy e t = proceed-Moved e.phase healthy e refl t

pub note_evidence-phase : (e : Experiment) → (note_evidence e).phase ≡ e.phase
unfolding note_evidence
note_evidence-phase e = ground arith

pub note_evidence-history : (e : Experiment) → (note_evidence e).history ≡ e.history
unfolding note_evidence
note_evidence-history e = ground arith

Moved-from :
    (e e₁ e' : Experiment) → e₁.phase ≡ e.phase → e₁.history ≡ e.history → Moved e₁ e' → Moved e e'
Moved-from e e₁ e' p q (stayed h k) = stayed (h ∙ p) (k ∙ q)
Moved-from e e₁ e' p q (moved_on h k) = moved_on (h ∙ ap next_phase p) (cc (k, p, q))
Moved-from e e₁ e' p q (gave_up h k) = gave_up h (cc (k, q))

pub abort-terminal : (e : Experiment) (why : Reason) → is_terminal e.phase ≡ true → abort e why ≡ e
unfolding abort
abort-terminal e why t = rw t

module _ ⦃fl : FloatOps⦄ (round_u64 : ℕ → ℕ) where
  pub advance-terminal : (e : Experiment) → is_terminal e.phase ≡ true → advance round_u64 e ≡ e
  unfolding advance
  advance-terminal e t = rw t

  pub advance-running :
      (e : Experiment)
      → is_terminal e.phase ≡ false
      → advance round_u64 e ≡ judged (assess round_u64 (note_evidence e)) (note_evidence e)
  unfolding advance
  advance-running e t = rw t

  pub advance-Moved : (e : Experiment) → is_terminal e.phase ≡ false → Moved e (advance round_u64 e)
  advance-Moved e t = subst (Moved e) (sym (advance-running e t)) (
      Moved-from e (note_evidence e) _ (note_evidence-phase e) (note_evidence-history e)
        (judged-Moved _ (note_evidence e) (ap is_terminal (note_evidence-phase e) ∙ t)))
