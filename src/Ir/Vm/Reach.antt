-- ===== src/Ir/Vm/Reach.antt =====
-- Runs of crates/adabt-ir/src/vm.rs that only move forward, and the fuel that they need.
use a_da_bt.Prelude.{
  ℕ, zero, suc, ◌+◌, ◌≤◌, ◌<◌, ◌≡◌, refl, ◌∙◌, subst, Option, some, none, List, [], ◌∷◌, ◌++◌,
  arith, length, get_elem?, get_elem?-append_length, length-append,
}
use mathlib.Core.List.{append_assoc}
use a_da_bt.Core.Value.{Value}
use a_da_bt.Core.Float.{FloatOps}
use a_da_bt.Core.Record.{Record}
use a_da_bt.Ir.Truth.{Truth}
use a_da_bt.Ir.Vm.Program.{Op, Program}
use a_da_bt.Ir.Vm.Machine.{returned, State, pop_truth, step, run_loop}

abbrev pub at : ℕ → List (Option Value) → List Truth → State
at pc vals truths = record { pc = pc; vals = vals; truths = truths }

get_elem?-length {ℓ} : {A : Type ℓ} (xs : List A) → get_elem? xs (length xs) ≡ none
get_elem?-length [] = refl
get_elem?-length (x ∷ xs) = get_elem?-length xs

module _ ⦃fl : FloatOps⦄ (p : Program) (rec : Record) where
  -- `u` comes after `s` by steps that each move the counter forward.
  pub data Reaches : State → State → Type 0 where
    here : {s : State} → Reaches s s
    next :
        {s t u : State} (op : Op)
        → get_elem? p.ops s.pc ≡ some op
        → step p rec op s ≡ returned t
        → s.pc < t.pc
        → Reaches t u
        → Reaches s u

  pub Reaches-trans : {s t u : State} → Reaches s t → Reaches t u → Reaches s u
  Reaches-trans here r = r
  Reaches-trans (next op g e f q) r = next op g e f (Reaches-trans q r)

  pub Reaches-forward : {s t : State} → Reaches s t → s.pc ≤ t.pc
  Reaches-forward here = omega arith
  Reaches-forward (next op g e f q) = omega (arith, Reaches-forward q)

  -- One instruction behind a prefix.
  pub one_step :
      (pre post : List Op) (op : Op) (s t : State)
      → p.ops ≡ pre ++ op ∷ post
      → s.pc ≡ length pre
      → step p rec op s ≡ returned t
      → s.pc < t.pc
      → Reaches s t
  one_step pre post op s t layout at_op stepped forward =
      next op (rw (layout, at_op) (get_elem?-append_length pre post op)) stepped forward here

  run_loop_end :
      (fuel : ℕ) (s : State)
      → get_elem? p.ops s.pc ≡ none
      → run_loop (suc fuel) p rec s ≡ returned (pop_truth s.truths).0
  unfolding run_loop
  run_loop_end fuel s e = rw (e, run_loop)

  run_loop-step :
      (fuel : ℕ) (s : State) {t : State} (op : Op)
      → get_elem? p.ops s.pc ≡ some op
      → step p rec op s ≡ returned t
      → run_loop (suc fuel) p rec s ≡ run_loop fuel p rec t
  unfolding run_loop
  run_loop-step fuel s op g q = rw (g, q, run_loop)

  -- From a state that reaches the end of the program, fuel for each instruction ahead is enough.
  pub run_loop-Reaches :
      {s t : State} (fuel : ℕ)
      → Reaches s t
      → t.pc ≡ length p.ops
      → length p.ops < s.pc + fuel
      → run_loop fuel p rec s ≡ returned (pop_truth t.truths).0
  unfolding run_loop
  run_loop-Reaches zero r e h = absurd (omega (arith, Reaches-forward r))
  run_loop-Reaches (suc fuel) (here {s = s}) e h =
      run_loop_end fuel s (rw e (get_elem?-length p.ops))
  run_loop-Reaches (suc fuel) (next {s = s} op g q f r) e h =
      run_loop-step fuel s op g q ∙ run_loop-Reaches fuel r e (omega arith)

  -- Wherever `code` stands behind `base` instructions, it runs from one pair of stacks to another.
  abbrev pub Moves :
      ℕ → List Op → List (Option Value) → List Truth → List (Option Value) → List Truth → Type 0
  Moves base code vals truths vals' truths' =
      (pre post : List Op)
      → p.ops ≡ pre ++ (code ++ post)
      → base ≡ length pre
      → Reaches (at base vals truths) (at (base + length code) vals' truths')

  -- One instruction that moves on to the next.
  pub Moves-op :
      (op : Op) (base : ℕ) (vals vals' : List (Option Value)) (truths truths' : List Truth)
      → step p rec op (at base vals truths) ≡ returned (at (suc base) vals' truths')
      → Moves base (op ∷ []) vals truths vals' truths'
  Moves-op op base vals vals' truths truths' stepped pre post layout at_base =
      let e : suc base ≡ base + 1 = omega arith in
      subst (λ (n : ℕ). Reaches (at base vals truths) (at n vals' truths')) e
        (one_step pre post op (at base vals truths) (at (suc base) vals' truths') layout at_base
          stepped (omega arith))

  pub Moves-nil :
      (base : ℕ) (vals : List (Option Value)) (truths : List Truth)
      → Moves base [] vals truths vals truths
  Moves-nil base vals truths pre post layout at_base =
      let e : base ≡ base + 0 = omega arith in
      subst (λ (n : ℕ). Reaches (at base vals truths) (at n vals truths)) e here

  -- Two pieces of code, one behind the other.
  pub Moves-seq :
      (c d : List Op) (base mid : ℕ) {v₀ v₁ v₂ : List (Option Value)} {t₀ t₁ t₂ : List Truth}
      → mid ≡ base + length c
      → Moves base c v₀ t₀ v₁ t₁
      → Moves mid d v₁ t₁ v₂ t₂
      → Moves base (c ++ d) v₀ t₀ v₂ t₂
  Moves-seq c d base mid {v₀} {v₁} {v₂} {t₀} {t₁} {t₂} e m n pre post layout at_base =
      let first = m pre (d ++ post) (rw append_assoc at layout) at_base in
      let second =
        n (pre ++ c) post (rw (append_assoc, ← append_assoc c d post) layout)
          (omega (arith, length-append pre c)) in
      let stop : mid + length d ≡ base + length (c ++ d) = omega (arith, length-append c d) in
      Reaches-trans first (
        subst (λ (k : ℕ). Reaches (at k v₁ t₁) (at (base + length (c ++ d)) v₂ t₂)) e
          (subst (λ (k : ℕ). Reaches (at mid v₁ t₁) (at k v₂ t₂)) stop second))
