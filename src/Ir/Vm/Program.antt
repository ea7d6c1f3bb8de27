-- ===== src/Ir/Vm/Program.antt =====
-- crates/adabt-ir/src/vm.rs: instructions and programs. An `as u32` is `% 2 ^ 32`.
use a_da_bt.Prelude.{ℕ, ◌^◌, String, List, [], ◌∷◌, ◌++◌}
use a_da_bt.Core.Value.{Value}
use a_da_bt.Core.Arith.{ArithOp}
use a_da_bt.Ir.Truth.{Truth, CmpOp}
use a_da_bt.Ir.Like.{Piece}

pub data Op : Type 0 where
  push_val : Value → Op
  push_missing : Op
  load_field : ℕ → Op
  push_truth : Truth → Op
  arith_op : ArithOp → Op
  compare_op : CmpOp → Op
  to_truth not_op is_null_op is_not_null_op : Op
  in_op like_op : ℕ → Op
  fold_and fold_or : Op
  jump_if_false jump_if_true : ℕ → Op

pub record Program : Type 0 where
  pub ops : List Op
  pub fields : List String
  pub patterns : List (List Piece)

abbrev pub empty_program : Program
empty_program = record { ops = []; fields = []; patterns = [] }

abbrev pub u32_mod : ℕ
u32_mod = 2 ^ 32

abbrev pub push : Op → Program → Program
push op p = record p { ops = p.ops ++ op ∷ [] }
