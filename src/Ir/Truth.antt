-- ===== src/Ir/Truth.antt =====
-- crates/adabt-ir/src/expr.rs: SQL's three-valued logic, and the comparison operators.
-- crates/adabt-ir/src/vm.rs: the conjunction and disjunction of two truths.
use mathlib.Core.Bool.{Bool}
use a_da_bt.Prelude.{Ordering}

pub data Truth : Type 0 where
  true false unknown : Truth

unfoldable pub is_true : Truth → Bool
is_true true = Bool.true
is_true _ = Bool.false

unfoldable pub not_truth : Truth → Truth
not_truth true = false
not_truth false = true
not_truth unknown = unknown

-- `if b { Truth::True } else { Truth::False }`
abbrev pub of_bool : Bool → Truth
of_bool Bool.true = true
of_bool Bool.false = false

-- `if saw_unknown { Truth::Unknown } else { t }`
abbrev pub unknown_or : Bool → Truth → Truth
unknown_or Bool.true t = unknown
unknown_or Bool.false t = t

unfoldable pub and3 : Truth → Truth → Truth
and3 false b = false
and3 true false = false
and3 unknown false = false
and3 unknown true = unknown
and3 unknown unknown = unknown
and3 true unknown = unknown
and3 true true = true

unfoldable pub or3 : Truth → Truth → Truth
or3 true b = true
or3 false true = true
or3 unknown true = true
or3 unknown false = unknown
or3 unknown unknown = unknown
or3 false unknown = unknown
or3 false false = false

pub data CmpOp : Type 0 where
  eq ne lt le gt ge : CmpOp

unfoldable pub apply : CmpOp → Ordering → Bool
apply eq Ordering.eq = Bool.true
apply eq _ = Bool.false
apply ne Ordering.eq = Bool.false
apply ne _ = Bool.true
apply lt Ordering.lt = Bool.true
apply lt _ = Bool.false
apply le Ordering.gt = Bool.false
apply le _ = Bool.true
apply gt Ordering.gt = Bool.true
apply gt _ = Bool.false
apply ge Ordering.lt = Bool.false
apply ge _ = Bool.true
