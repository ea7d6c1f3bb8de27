-- ===== src/Ir/Vm/Machine.antt =====
-- crates/adabt-ir/src/vm.rs: `Program::run`. A stack is a list, last pushed first.
use a_da_bt.Prelude.{
  ℕ, zero, suc, String, Bool, true, false, Option, some, none, List, [], ◌∷◌, reverse, length,
  get_elem?, take, drop, codes, ltb, if◌then◌else◌,
}
use a_da_bt.Core.Value.{Value, str}
use a_da_bt.Core.Float.{FloatOps}
use a_da_bt.Core.Order.{value_eq}
use a_da_bt.Core.Arith.{ArithOp, checked_arith}
use a_da_bt.Core.Record.{Record, get}
use a_da_bt.Ir.Truth.{Truth, not_truth, and3, or3, of_bool, unknown_or, is_true}
use a_da_bt.Ir.Like.{Piece, matches_from}
use a_da_bt.Ir.Expr.{truth_of, null_test, not_null_test, non_null, compare_truth}
use a_da_bt.Ir.Vm.Program.{
  Op, push_val, push_missing, load_field, push_truth, arith_op, compare_op, to_truth, not_op,
  is_null_op, is_not_null_op, in_op, like_op, fold_and, fold_or, jump_if_false, jump_if_true,
  Program,
}

-- A run ends with a result, in a panic, or still going when the fuel is used up.
pub data Outcome {ℓ} (A : Type ℓ) : Type ℓ where
  returned : A → Outcome A
  panicked out_of_fuel : Outcome A

pub record State : Type 0 where
  pub pc : ℕ
  pub vals : List (Option Value)
  pub truths : List Truth

-- `vals.pop().flatten()` and what it leaves.
abbrev pub pop_val : List (Option Value) → Option Value × List (Option Value)
pop_val [] = (none, [])
pop_val (v ∷ vals) = (v, vals)

-- `truths.pop().unwrap_or(Truth::Unknown)` and what it leaves.
abbrev pub pop_truth : List Truth → Truth × List Truth
pop_truth [] = (Truth.unknown, [])
pop_truth (t ∷ truths) = (t, truths)

abbrev pub next_val : State → Option Value → List (Option Value) → Outcome State
next_val s v vals = returned (record { pc = suc s.pc; vals = v ∷ vals; truths = s.truths })

abbrev pub next_truth : State → List (Option Value) → Truth → List Truth → Outcome State
next_truth s vals t truths = returned (record { pc = suc s.pc; vals = vals; truths = t ∷ truths })

-- A jump that is taken where the last truth is `t`.
abbrev pub jump_on : Truth → ℕ → State → List Truth → Outcome State
jump_on Truth.false target s (Truth.false ∷ ts) = returned (record s { pc = target })
jump_on Truth.true target s (Truth.true ∷ ts) = returned (record s { pc = target })
jump_on t target s _ = returned (record s { pc = suc s.pc })

module _ ⦃fl : FloatOps⦄ where
  abbrev pub arith_values : ArithOp → Option Value → Option Value → Option Value
  arith_values op (some a) (some b) = checked_arith op a b
  arith_values op _ _ = none

  unfoldable pub search_items : Value → List (Option Value) → Bool → Truth
  unfolding non_null value_eq
  search_items n [] saw = unknown_or saw Truth.false
  search_items n (item ∷ items) saw = elim (non_null item) [
    | some v ↦ if value_eq v n then Truth.true else search_items n items saw
    | none ↦ search_items n items true
  ]

  abbrev pub search_for : Option Value → List (Option Value) → Truth
  search_for none items = Truth.unknown
  search_for (some n) items = search_items n items false

  -- `Like` on the value popped and the pattern at its index.
  abbrev pub like_step :
      State → List (Option Value) → Option Value → Option (List Piece) → Outcome State
  like_step s vals (some (str text)) (some pattern) =
      next_truth s vals (of_bool (matches_from (codes text) pattern)) s.truths
  like_step s vals (some (str text)) none = panicked
  like_step s vals _ pattern = next_truth s vals Truth.unknown s.truths

  abbrev pub load_step : Record → State → Option String → Outcome State
  load_step rec s none = panicked
  load_step rec s (some name) = next_val s (get rec name) s.vals

  unfoldable pub step : Program → Record → Op → State → Outcome State
  unfolding truth_of null_test not_null_test compare_truth
  step p rec (push_val v) s = next_val s (some v) s.vals
  step p rec push_missing s = next_val s none s.vals
  step p rec (load_field i) s = load_step rec s (get_elem? p.fields i)
  step p rec (push_truth t) s = next_truth s s.vals t s.truths
  step p rec (arith_op op) s =
      let (b, vals) = pop_val s.vals in
      let (a, rest) = pop_val vals in next_val s (arith_values op a b) rest
  step p rec (compare_op op) s =
      let (b, vals) = pop_val s.vals in
      let (a, rest) = pop_val vals in next_truth s rest (compare_truth op a b) s.truths
  step p rec to_truth s = let (v, vals) = pop_val s.vals in next_truth s vals (truth_of v) s.truths
  step p rec not_op s =
      let (t, truths) = pop_truth s.truths in next_truth s s.vals (not_truth t) truths
  step p rec is_null_op s =
      let (v, vals) = pop_val s.vals in next_truth s vals (null_test v) s.truths
  step p rec is_not_null_op s =
      let (v, vals) = pop_val s.vals in next_truth s vals (not_null_test v) s.truths
  step p rec (in_op n) s =
      if ltb (length s.vals) n
      then panicked
      else (let items = reverse (take n s.vals) in
          let (needle, rest) = pop_val (drop n s.vals) in
          next_truth s rest (search_for (non_null needle) items) s.truths)
  step p rec (like_op i) s =
      let (v, vals) = pop_val s.vals in like_step s vals v (get_elem? p.patterns i)
  step p rec fold_and s =
      let (b, truths) = pop_truth s.truths in
      let (a, rest) = pop_truth truths in next_truth s s.vals (and3 a b) rest
  step p rec fold_or s =
      let (b, truths) = pop_truth s.truths in
      let (a, rest) = pop_truth truths in next_truth s s.vals (or3 a b) rest
  step p rec (jump_if_false t) s = jump_on Truth.false t s s.truths
  step p rec (jump_if_true t) s = jump_on Truth.true t s s.truths

  -- `while pc < self.ops.len()`, on fuel.
  unfoldable pub run_loop : ℕ → Program → Record → State → Outcome Truth
  unfolding step
  run_loop zero p rec s = out_of_fuel
  run_loop (suc fuel) p rec s = elim (get_elem? p.ops s.pc) [
    | none ↦ returned (pop_truth s.truths).0
    | some op ↦ elim (step p rec op s) [
      | returned s' ↦ run_loop fuel p rec s'
      | panicked ↦ panicked
      | out_of_fuel ↦ out_of_fuel
    ]
  ]

  abbrev pub start : State
  start = record { pc = 0; vals = []; truths = [] }

  -- A compiled program only jumps forward, so one round for each instruction and one more suffice.
  unfoldable pub run : Program → Record → Outcome Truth
  unfolding run_loop
  run p rec = run_loop (suc (length p.ops)) p rec start

  -- `matches` on a run that ends.
  unfoldable pub passes : Outcome Truth → Bool
  unfolding is_true
  passes (returned t) = is_true t
  passes _ = false
