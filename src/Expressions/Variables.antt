-- ===== src/Expressions/Variables.antt =====
-- `variables`, `aggregated_variables` and `non_aggregated_variables` of the hierarchy. A result is
-- `none` where the code has no defined behaviour: it reads the first operand of an empty
-- conjunction, or calls through the null pointer that COUNT(*) holds as its operand.
use tentris_lib.Prelude.{◌≡◌, refl, List, [], ◌∷◌, ◌++◌, Option, none, some, arith, append_assoc}
use tentris_lib.Expressions.Ast.{
  Expr, var_expr, literal_expr, iri_expr, built_in_call, false_expr, logical_and, logical_or,
  comparison, in_list, arithmetic, unary, call1, call2, call3, replace4, call_dyn, constructor_fn,
  count_star, count_star_distinct, count, count_distinct, sum, sum_distinct, avg, minimum, maximum,
  sample, Exprs, nil, cons,
}
pub mod Partition

-- The three virtual functions recur alike; they differ at variables and at aggregates.
pub data Which : Type 0 where
  every aggregated non_aggregated : Which

abbrev pub join : {V : Type 0} → Option (List V) → Option (List V) → Option (List V)
join (some xs) (some ys) = some (xs ++ ys)
join (some xs) none = none
join none ys = none

-- `aggregated_variables` of a variable is empty.
abbrev pub of_variable : {V : Type 0} → Which → V → Option (List V)
of_variable every v = some (v ∷ [])
of_variable aggregated v = some []
of_variable non_aggregated v = some (v ∷ [])

-- `Aggregate::variables` and its two companions, from `op_expr_->variables()`.
abbrev pub of_aggregate : {V : Type 0} → Which → Option (List V) → Option (List V)
of_aggregate every op_vars = op_vars
of_aggregate aggregated op_vars = op_vars
of_aggregate non_aggregated op_vars = some []

-- `CountStar` and `CountStarDistinct` override `variables` only, and hold no operand.
abbrev pub of_count_star : {V : Type 0} → Which → Option (List V)
of_count_star every = some []
of_count_star aggregated = none
of_count_star non_aggregated = some []

unfoldable mutual
  pub collect : {N V : Type 0} → Which → Expr N V → Option (List V)
  collect w (var_expr p node v) = of_variable w v
  collect w (literal_expr l) = some []
  collect w (iri_expr i) = some []
  collect w (built_in_call e) = collect w e
  collect w false_expr = some []
  collect w (logical_and es) = collect_first w es
  collect w (logical_or es) = collect_first w es
  collect w (comparison op a b) = join (collect w a) (collect w b)
  collect w (in_list e es not_in) = join (collect w e) (collect_all w es)
  collect w (arithmetic op a b) = join (collect w a) (collect w b)
  collect w (unary op e) = collect w e
  collect w (call1 f a) = collect w a
  collect w (call2 f a b) = join (collect w a) (collect w b)
  collect w (call3 f a b c) = join (join (collect w a) (collect w b)) (collect w c)
  collect w (replace4 a b c d) =
      join (join (join (collect w a) (collect w b)) (collect w c)) (collect w d)
  collect w (call_dyn f es) = collect_all w es
  collect w (constructor_fn t e) = collect w e
  collect w (count_star n) = of_count_star w
  collect w (count_star_distinct keys) = of_count_star w
  collect w (count e n) = of_aggregate w (collect every e)
  collect w (count_distinct e nodes) = of_aggregate w (collect every e)
  collect w (sum e l) = of_aggregate w (collect every e)
  collect w (sum_distinct e l ls) = of_aggregate w (collect every e)
  collect w (avg e s c) = of_aggregate w (collect every e)
  collect w (minimum e node) = of_aggregate w (collect every e)
  collect w (maximum e node) = of_aggregate w (collect every e)
  collect w (sample e) = of_aggregate w (collect every e)

  -- The loops over the operands, which start from an empty vector.
  pub collect_all : {N V : Type 0} → Which → Exprs N V → Option (List V)
  collect_all w nil = some []
  collect_all w (cons e es) = join (collect w e) (collect_all w es)

  -- The loops of `LogicalAndExpression` and `LogicalOrExpression`, which start from operand 0.
  pub collect_first : {N V : Type 0} → Which → Exprs N V → Option (List V)
  collect_first w nil = none
  collect_first w (cons e es) = join (collect w e) (collect_all w es)

unfoldable pub variables : {N V : Type 0} → Expr N V → Option (List V)
unfolding collect
variables = collect every

unfoldable pub aggregated_variables : {N V : Type 0} → Expr N V → Option (List V)
unfolding collect
aggregated_variables = collect aggregated

unfoldable pub non_aggregated_variables : {N V : Type 0} → Expr N V → Option (List V)
unfolding collect
non_aggregated_variables = collect non_aggregated
