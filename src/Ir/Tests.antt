-- ===== src/Ir/Tests.antt =====
-- The theorems on predicates and patterns of crates/adabt-ir, at concrete inputs.
use a_da_bt.Prelude.{ℕ, List, ◌≡◌, refl, ◌↔◌, true, [], ◌∷◌, All}
use a_da_bt.Prelude.Int.{pos}
use a_da_bt.Core.Value.{i64, str}
use a_da_bt.Core.FloatTests.{no_floats}
use a_da_bt.Core.Order.{cmp}
use a_da_bt.Core.Record.{Record, get, project}
use a_da_bt.Ir.Truth.{CmpOp, apply}
use a_da_bt.Ir.Like.{literal, any_run, any_one, parse_pieces, matches_from, like_matches}
use a_da_bt.Ir.Like.Meaning.{Describes, escaped, matches_from_iff, escaped-matches_iff}
use a_da_bt.Ir.Expr.{Expr, field, compare, and_all, like, nil, cons, evaluate, matches}
use a_da_bt.Ir.Constraints.{equality_constraints, referenced_fields}
use a_da_bt.Ir.Constraints.Sound.{Meets, equality_constraints-Meets}
use a_da_bt.Ir.Constraints.Fields.{evaluate-project}

abbrev row : Record
row = record { fields = ("a", i64 (pos 5)) ∷ ("s", str "hello") ∷ [] }

-- a = 5 and (s like 'h%' and 'hello' = s)
abbrev query : Expr
query = and_all (
    cons (compare CmpOp.eq (field "a") (Expr.literal (i64 (pos 5)))) (
      cons
        (and_all (
          cons (like (field "s") "h%")
            (cons (compare CmpOp.eq (Expr.literal (str "hello")) (field "s")) nil)))
        nil))

equality_constraints-Meets_example : All (Meets row) (equality_constraints query)
unfolding matches get apply cmp like_matches
equality_constraints-Meets_example = equality_constraints-Meets query row refl

evaluate-project_example :
    evaluate query (project row (referenced_fields query [])) ≡ evaluate query row
evaluate-project_example = evaluate-project query row

matches_from_iff_example :
    (matches_from (104 ∷ 105 ∷ 111 ∷ []) (literal 104 ∷ any_run ∷ any_one ∷ []) ≡ true)
    ↔ Describes (literal 104 ∷ any_run ∷ any_one ∷ []) (104 ∷ 105 ∷ 111 ∷ [])
matches_from_iff_example =
    matches_from_iff (104 ∷ 105 ∷ 111 ∷ []) (literal 104 ∷ any_run ∷ any_one ∷ [])

-- The two wildcards.
abbrev wildcards : List ℕ
wildcards = 37 ∷ 95 ∷ []

wildcards_are_text :
    (matches_from wildcards (parse_pieces (escaped wildcards)) ≡ true) ↔ (wildcards ≡ wildcards)
wildcards_are_text = escaped-matches_iff wildcards wildcards
