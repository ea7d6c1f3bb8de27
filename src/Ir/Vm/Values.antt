-- ===== src/Ir/Vm/Values.antt =====
-- What the code that crates/adabt-ir/src/vm.rs emits in value position does when it runs.
use a_da_bt.Prelude.{
  ℕ, ◌+◌, ◌≤◌, ◌≡◌, refl, String, Option, some, none, List, [], ◌∷◌, ◌++◌, arith, length,
  length-append,
}
use a_da_bt.Core.Value.{Value}
use a_da_bt.Core.Float.{FloatOps}
use a_da_bt.Core.Record.{Record}
use a_da_bt.Ir.Truth.{Truth}
use a_da_bt.Ir.Expr.{Expr, literal, field, arith_expr, value}
use a_da_bt.Ir.Vm.Program.{Op, push_val, push_missing, load_field, arith_op, Program, push}
use a_da_bt.Core.Record.{get}
use a_da_bt.Core.Arith.{ArithOp}
use a_da_bt.Ir.Vm.Compile.{intern_field, emit_load, emit_value}
use a_da_bt.Ir.Vm.Machine.{step, arith_values}
use a_da_bt.Ir.Vm.Reach.{Moves, Moves-op, Moves-seq}
use a_da_bt.Ir.Vm.Emits.{
  Extends, Extends-trans, Extends-push, Fits, Emits, Emits-push, Emits-trans,
  intern_field-LoadsField,
}

module _ ⦃fl : FloatOps⦄ where
  -- `code` leaves the value of `e` on the value stack, wherever it stands.
  abbrev pub ValueRuns : Program → Expr → List Op → Type 0
  ValueRuns p e code =
      (rec : Record) (base : ℕ) (vals : List (Option Value)) (truths : List Truth)
      → Moves p rec base code vals truths (value e rec ∷ vals) truths

  pub record EmitsValue (e : Expr) (p q : Program) : Type 0 where
    pub code : List Op
    pub nonempty : 1 ≤ length code
    pub emits : Emits p q code
    pub runs : (f : Program) → Extends q f → Fits f → ValueRuns f e code

  literal-EmitsValue : (v : Value) (p : Program) → EmitsValue (literal v) p (push (push_val v) p)
  unfolding value step
  literal-EmitsValue v p = record {
    code = push_val v ∷ [];
    nonempty = omega arith;
    emits = Emits-push (push_val v) p;
    runs = λ f x fits rec base vals truths.
        Moves-op f rec (push_val v) base vals (some v ∷ vals) truths truths refl;
  }

  missing-EmitsValue :
      (e : Expr) (p : Program)
      → ((rec : Record) → value e rec ≡ none)
      → EmitsValue e p (push push_missing p)
  unfolding step
  missing-EmitsValue e p h = record {
    code = push_missing ∷ [];
    nonempty = omega arith;
    emits = Emits-push push_missing p;
    runs = λ f x fits rec base vals truths.
        Moves-op f rec push_missing base vals (value e rec ∷ vals) truths truths (rw (h rec));
  }

  field-EmitsValue :
      (name : String) (p : Program) → EmitsValue (field name) p (emit_load (intern_field name p))
  unfolding value step
  field-EmitsValue name p =
      let r = intern_field name p in
      let (emits, finds) = intern_field-LoadsField name p in
      record {
        code = load_field r.0 ∷ [];
        nonempty = omega arith;
        emits = emits;
        runs = λ f x fits rec base vals truths.
            Moves-op f rec (load_field r.0) base vals (get rec name ∷ vals) truths truths
              (rw (finds f x fits));
      }

  value-arith :
      (op : ArithOp) (l r : Expr) (rec : Record)
      → value (arith_expr op l r) rec ≡ arith_values op (value l rec) (value r rec)
  unfolding value
  value-arith op l r rec = ground arith

  -- Code for two values and an instruction that combines them.
  arith-EmitsValue :
      (op : ArithOp) (l r : Expr) {p q s : Program}
      → EmitsValue l p q
      → EmitsValue r q s
      → EmitsValue (arith_expr op l r) p (push (arith_op op) s)
  unfolding step
  arith-EmitsValue op l r {p} {q} {s} a b = record {
    code = a.code ++ (b.code ++ arith_op op ∷ []);
    nonempty = omega (arith, a.nonempty, length-append a.code (b.code ++ arith_op op ∷ []));
    emits =
        Emits-trans a.code _ a.emits (Emits-trans b.code _ b.emits (Emits-push (arith_op op) s));
    runs = λ f x fits rec base vals truths. rw value-arith (
        Moves-seq f rec a.code (b.code ++ arith_op op ∷ []) base (base + length a.code) refl
          (a.runs f (Extends-trans b.emits.extends (Extends-push (arith_op op) x)) fits rec base
            vals truths)
          (Moves-seq f rec b.code (arith_op op ∷ []) (base + length a.code)
            (base + length a.code + length b.code) refl
            (b.runs f (Extends-push (arith_op op) x) fits rec _ (value l rec ∷ vals) truths)
            (Moves-op f rec (arith_op op) _ (value r rec ∷ value l rec ∷ vals)
              (arith_values op (value l rec) (value r rec) ∷ vals) truths truths refl)));
  }

  pub emit_value-EmitsValue : (e : Expr) (p : Program) → EmitsValue e p (emit_value e p)
  unfolding emit_value value
  emit_value-EmitsValue (literal v) p = literal-EmitsValue v p
  emit_value-EmitsValue (field name) p = field-EmitsValue name p
  emit_value-EmitsValue (arith_expr op l r) p =
      arith-EmitsValue op l r (emit_value-EmitsValue l p) (emit_value-EmitsValue r (emit_value l p))
  emit_value-EmitsValue e p = missing-EmitsValue e p (λ rec. refl)
