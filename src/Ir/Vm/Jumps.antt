-- ===== src/Ir/Vm/Jumps.antt =====
-- The jumps between the parts of `And` and `Or` in crates/adabt-ir/src/vm.rs.
use a_da_bt.Prelude.{
  ℕ, suc, ◌+◌, ◌%◌, ◌≤◌, ◌≡◌, refl, sym, ap, ◌∙◌, subst, Bool, Option, some, List, [], ◌∷◌, ◌++◌,
  arith, length, length-append,
}
use a_da_bt.Core.Value.{Value}
use a_da_bt.Core.Float.{FloatOps}
use a_da_bt.Core.Record.{Record}
use a_da_bt.Ir.Truth.{Truth}
use a_da_bt.Ir.Expr.{Expr, Exprs, cons, evaluate}
use a_da_bt.Ir.Vm.Program.{Op, Program, u32_mod, push}
use a_da_bt.Ir.Vm.Compile.{patch_all, fold_op, jump_op}
use a_da_bt.Ir.Vm.Reach.{Moves, Moves-seq}
use a_da_bt.Ir.Vm.Emits.{
  Extends, Extends-trans, Extends-push, Extends-ops, Extends-refined, Fits, Emits, Emits-push,
  Emits-trans,
}
use a_da_bt.Ir.Vm.Folds.{fold2, fold_truth, placeholder, jump_patched, jump_over}
use a_da_bt.Ir.Vm.Parts.{EmitsPred, EmitsParts, part_runs, length-around}

-- The code `c`, then a jump, then the remaining parts.
module _ ⦃fl : FloatOps⦄ (is_and : Bool) (es : Exprs) (p m s : Program) (ats : List ℕ) (c : List Op)
    (em : Emits p m c) (b : EmitsParts is_and es (push (jump_op is_and placeholder) m) s ats) where
  abbrev pub jumped : ℕ → List Op
  jumped t = c ++ jump_op is_and t ∷ b.code t

  length-jumped : (t : ℕ) → length (jumped t) ≡ length c + suc (length (b.code placeholder))
  length-jumped t =
      length-around c (jump_op is_and t) (b.code t)
      ∙ ap (λ (n : ℕ). length c + suc n) (b.length_code t placeholder)

  pub jumped_same_length : (t u : ℕ) → length (jumped t) ≡ length (jumped u)
  jumped_same_length t u = length-jumped t ∙ sym (length-jumped u)

  middle : length m.ops ≡ length p.ops + length c
  middle = ap length em.ops_eq ∙ length-append p.ops c

  behind : length (m.ops ++ jump_op is_and placeholder ∷ []) ≡ suc (length m.ops)
  behind = omega (arith, length-append m.ops (jump_op is_and placeholder ∷ []))

  pub jumped-Emits : Emits p s (jumped placeholder)
  jumped-Emits = Emits-trans c (jump_op is_and placeholder ∷ b.code placeholder) em (
      Emits-trans (jump_op is_and placeholder ∷ []) (b.code placeholder)
        (Emits-push (jump_op is_and placeholder) m) b.emits)

  pub jumped-patched :
      (pre : List Op) (t : ℕ)
      → length pre ≡ length p.ops
      → patch_all (length m.ops ∷ ats) t (pre ++ jumped placeholder) ≡ some (pre ++ jumped t)
  jumped-patched pre t e =
      jump_patched is_and pre c b.code ats t (length m.ops) (omega (arith, middle))
        (λ front size. b.patched front t (size ∙ sym behind))

  pub jumped-runs :
      (f : Program)
      → Extends s f
      → Fits f
      → (rec : Record) (acc : Truth) (v₀ vals : List (Option Value)) (t₀ truths : List Truth)
        (end : ℕ)
      → end ≡ length p.ops + length (jumped end)
      → Moves f rec (length p.ops) c v₀ t₀ vals (acc ∷ truths)
      → Moves f rec (length p.ops) (jumped end) v₀ t₀ vals (fold_truth is_and acc es rec ∷ truths)
  jumped-runs f x fits rec acc v₀ vals t₀ truths end ends first =
      let tail =
        b.runs f x fits rec acc vals truths end (
          omega (arith, ends, length-around c (jump_op is_and end) (b.code end), middle, behind)) in
      let rest =
        subst
          (λ (n : ℕ).
            Moves f rec n (b.code end) vals (acc ∷ truths) vals
              (fold_truth is_and acc es rec ∷ truths))
          behind tail in
      Moves-seq f rec c (jump_op is_and end ∷ b.code end) (length p.ops) (length m.ops) middle first
        (jump_over is_and f rec es acc (length m.ops) end (b.code end) vals truths
          (omega (arith, ends, length-around c (jump_op is_and end) (b.code end), middle)) rest)

module _ ⦃fl : FloatOps⦄ where
  -- A part with others behind it: its code, the fold, a jump to the end, and the others.
  pub EmitsParts-more :
      (is_and : Bool) {e : Expr} {es : Exprs} {p q s : Program} {ats : List ℕ}
      → EmitsPred e p q
      → EmitsParts is_and es (push (jump_op is_and placeholder) (push (fold_op is_and) q)) s ats
      → EmitsParts is_and (cons e es) p s (length (push (fold_op is_and) q).ops ∷ ats)
  EmitsParts-more is_and {e} {es} {p} {q} {s} {ats} a b =
      let m = push (fold_op is_and) q in
      let c = a.code ++ fold_op is_and ∷ [] in
      let em : Emits p m c =
        Emits-trans a.code (fold_op is_and ∷ []) a.emits (Emits-push (fold_op is_and) q) in
      record {
        code = jumped is_and es p m s ats c em b;
        length_code = jumped_same_length is_and es p m s ats c em b;
        emits = jumped-Emits is_and es p m s ats c em b;
        patched = jumped-patched is_and es p m s ats c em b;
        runs = λ f x fits rec acc vals truths end ends.
            jumped-runs is_and es p m s ats c em b f x fits rec (fold2 is_and acc (evaluate e rec))
              vals vals (acc ∷ truths) truths end ends
              (part_runs is_and a f
                (Extends-push (fold_op is_and)
                  (Extends-push (jump_op is_and placeholder) (Extends-trans b.emits.extends x)))
                fits rec acc vals truths);
      }

  -- `And` or `Or` of one part and others, after its jumps are patched to its end.
  pub EmitsPred-fold :
      (is_and : Bool) {e : Expr} {es : Exprs} {whole : Expr} {p q s : Program} {ats : List ℕ}
      → ((rec : Record) → evaluate whole rec ≡ fold_truth is_and (evaluate e rec) es rec)
      → EmitsPred e p q
      → EmitsParts is_and es (push (jump_op is_and placeholder) q) s ats
      → (ops : List Op) × (patch_all (length q.ops ∷ ats) (length s.ops % u32_mod) s.ops ≡ some ops)
        × EmitsPred whole p (record s { ops = ops })
  EmitsPred-fold is_and {e} {es} {whole} {p} {q} {s} {ats} same a b =
      let t = length s.ops % u32_mod in
      let code = jumped is_and es p q s ats a.code a.emits b in
      let emits = jumped-Emits is_and es p q s ats a.code a.emits b in
      let sizes = jumped_same_length is_and es p q s ats a.code a.emits b placeholder t in
      let stop = ap length emits.ops_eq ∙ length-append p.ops (code placeholder) in
      (
        p.ops ++ code t,
        ap (patch_all (length q.ops ∷ ats) t) emits.ops_eq
            ∙ jumped-patched is_and es p q s ats a.code a.emits b p.ops t refl,
        record {
          code = code t;
          emits = record {
            ops_eq = refl;
            extends = Extends-ops emits.extends;
            fields_grow = omega (arith, emits.fields_grow, sizes);
            patterns_grow = omega (arith, emits.patterns_grow, sizes);
          };
          runs = λ f x fits rec vals truths pre post layout at_p.
              let inside : length p.ops + length (code t) ≤ length f.ops = omega (
                arith,
                ap length layout,
                length-append pre (code t ++ post),
                length-append (code t) post,
              ) in
              let ends : t ≡ length p.ops + length (code t) =
                omega (arith, fits.ops_fit, stop, sizes) in
              rw same (
                jumped-runs is_and es p q s ats a.code a.emits b f (Extends-refined x) fits rec
                  (evaluate e rec) vals vals truths truths t ends
                  (a.runs f
                    (Extends-push (jump_op is_and placeholder)
                      (Extends-trans b.emits.extends (Extends-refined x)))
                    fits rec vals truths)
                  pre post layout at_p);
        },
      )
