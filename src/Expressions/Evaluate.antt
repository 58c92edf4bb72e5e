-- ===== src/Expressions/Evaluate.antt =====
-- The virtual functions of `SPARQLExpression`, over the whole hierarchy.
use tentris_lib.Prelude.{Bool, false, not, List, [], ◌∷◌, if◌then◌else◌, length, get_or}
use tentris_lib.Prelude.Words.{add64}
use tentris_lib.Rdf.{Rdf}
use tentris_lib.Expressions.Ast.{
  Expr, var_expr, literal_expr, iri_expr, built_in_call, false_expr, logical_and, logical_or,
  comparison, in_list, arithmetic, unary, call1, call2, call3, replace4, call_dyn, constructor_fn,
  count_star, count_star_distinct, count, count_distinct, sum, sum_distinct, avg, minimum, maximum,
  sample, Exprs, nil, cons,
}
use tentris_lib.Expressions.Logical.{evaluate_and, evaluate_or, evaluate_comparison, evaluate_in}
use tentris_lib.Expressions.Arithmetic.{evaluate_arithmetic, evaluate_unary, evaluate_constructor}
use tentris_lib.Expressions.BuiltIn.{
  evaluate_call1, evaluate_call2, evaluate_call3, evaluate_replace4, evaluate_call_dyn,
}
use tentris_lib.Expressions.Aggregates.{
  update_count_star_distinct, update_count, update_count_distinct, update_sum, update_sum_distinct,
  evaluate_avg, update_min, update_max,
}

module _ (r : Rdf) where
  open r use {Node, Variable, null_node, is_null, make_boolean, make_integer}

  -- `evaluate`: the value at the state that the last `update_value` left.
  unfoldable mutual
    pub evaluate : Expr Node Variable → Node
    evaluate (var_expr p node v) = node
    evaluate (literal_expr l) = l
    evaluate (iri_expr i) = i
    evaluate (built_in_call e) = evaluate e
    evaluate false_expr = make_boolean false
    evaluate (logical_and es) = evaluate_and r (evaluate_all es)
    evaluate (logical_or es) = evaluate_or r (evaluate_all es)
    evaluate (comparison op a b) = evaluate_comparison r op (evaluate a) (evaluate b)
    evaluate (in_list e es not_in) = evaluate_in r not_in (evaluate e) (evaluate_all es)
    evaluate (arithmetic op a b) = evaluate_arithmetic r op (evaluate a) (evaluate b)
    evaluate (unary op e) = evaluate_unary r op (evaluate e)
    evaluate (call1 f a) = evaluate_call1 r f (evaluate a)
    evaluate (call2 f a b) = evaluate_call2 r f (evaluate a) (evaluate b)
    evaluate (call3 f a b c) = evaluate_call3 r f (evaluate a) (evaluate b) (evaluate c)
    evaluate (replace4 a b c d) =
        evaluate_replace4 r (evaluate a) (evaluate b) (evaluate c) (evaluate d)
    evaluate (call_dyn f es) = evaluate_call_dyn r f (evaluate_all es)
    evaluate (constructor_fn t e) = evaluate_constructor r t (evaluate e)
    evaluate (count_star n) = make_integer n
    evaluate (count_star_distinct keys) = make_integer (length keys)
    evaluate (count e n) = make_integer n
    evaluate (count_distinct e nodes) = make_integer (length nodes)
    evaluate (sum e l) = l
    evaluate (sum_distinct e l ls) = l
    evaluate (avg e s c) = evaluate_avg r (evaluate c) (evaluate s)
    evaluate (minimum e node) = node
    evaluate (maximum e node) = node
    evaluate (sample e) = evaluate e

    pub evaluate_all : Exprs Node Variable → List Node
    evaluate_all nil = []
    evaluate_all (cons e es) = evaluate e ∷ evaluate_all es

  -- `update_value`: the same expression with the key's values stored in its variables, and one
  -- more solution accounted for in its aggregates. `key[pos]` is a read of a fixed-size key.
  unfoldable mutual
    pub update_value : Expr Node Variable → List Node → Expr Node Variable
    update_value (var_expr p node v) key = var_expr p (get_or key p null_node) v
    update_value (literal_expr l) key = literal_expr l
    update_value (iri_expr i) key = iri_expr i
    update_value (built_in_call e) key = built_in_call (update_value e key)
    update_value false_expr key = false_expr
    update_value (logical_and es) key = logical_and (update_all es key)
    update_value (logical_or es) key = logical_or (update_all es key)
    update_value (comparison op a b) key = comparison op (update_value a key) (update_value b key)
    update_value (in_list e es not_in) key = in_list (update_value e key) (update_all es key) not_in
    update_value (arithmetic op a b) key = arithmetic op (update_value a key) (update_value b key)
    update_value (unary op e) key = unary op (update_value e key)
    update_value (call1 f a) key = call1 f (update_value a key)
    update_value (call2 f a b) key = call2 f (update_value a key) (update_value b key)
    update_value (call3 f a b c) key =
        call3 f (update_value a key) (update_value b key) (update_value c key)
    update_value (replace4 a b c d) key =
        replace4 (update_value a key) (update_value b key) (update_value c key) (update_value d key)
    update_value (call_dyn f es) key = call_dyn f (update_all es key)
    update_value (constructor_fn t e) key = constructor_fn t (update_value e key)
    update_value (count_star n) key = count_star (add64 n 1)
    update_value (count_star_distinct keys) key =
        count_star_distinct (update_count_star_distinct r key keys)
    update_value (count e n) key =
        let e' = update_value e key in count e' (update_count r (evaluate e') n)
    update_value (count_distinct e nodes) key =
        let e' = update_value e key in
        count_distinct e' (update_count_distinct r (evaluate e') nodes)
    update_value (sum e l) key =
        let e' = update_value e key in
        if is_null l then sum e l else sum e' (update_sum r (evaluate e') l)
    update_value (sum_distinct e l ls) key =
        let e' = update_value e key in
        if is_null l
        then sum_distinct e l ls
        else sum_distinct e' (update_sum_distinct r (evaluate e') l ls) ls
    update_value (avg e s c) key = avg e (update_value s key) (update_value c key)
    update_value (minimum e node) key =
        let e' = update_value e key in minimum e' (update_min r (evaluate e') node)
    update_value (maximum e node) key =
        let e' = update_value e key in maximum e' (update_max r (evaluate e') node)
    update_value (sample e) key = sample (update_value e key)

    pub update_all : Exprs Node Variable → List Node → Exprs Node Variable
    update_all nil key = nil
    update_all (cons e es) key = cons (update_value e key) (update_all es key)

  -- `clone_impl`. `InExpressionList` is rebuilt without its third argument, whose default is
  -- `false`.
  unfoldable mutual
    pub clone : Expr Node Variable → Expr Node Variable
    clone (var_expr p node v) = var_expr p node v
    clone (literal_expr l) = literal_expr l
    clone (iri_expr i) = iri_expr i
    clone (built_in_call e) = built_in_call (clone e)
    clone false_expr = false_expr
    clone (logical_and es) = logical_and (clone_all es)
    clone (logical_or es) = logical_or (clone_all es)
    clone (comparison op a b) = comparison op (clone a) (clone b)
    clone (in_list e es not_in) = in_list (clone e) (clone_all es) false
    clone (arithmetic op a b) = arithmetic op (clone a) (clone b)
    clone (unary op e) = unary op (clone e)
    clone (call1 f a) = call1 f (clone a)
    clone (call2 f a b) = call2 f (clone a) (clone b)
    clone (call3 f a b c) = call3 f (clone a) (clone b) (clone c)
    clone (replace4 a b c d) = replace4 (clone a) (clone b) (clone c) (clone d)
    clone (call_dyn f es) = call_dyn f (clone_all es)
    clone (constructor_fn t e) = constructor_fn t (clone e)
    clone (count_star n) = count_star n
    clone (count_star_distinct keys) = count_star_distinct keys
    clone (count e n) = count (clone e) n
    clone (count_distinct e nodes) = count_distinct (clone e) nodes
    clone (sum e l) = sum (clone e) l
    clone (sum_distinct e l ls) = sum_distinct (clone e) l ls
    clone (avg e s c) = avg (clone e) (clone s) (clone c)
    clone (minimum e node) = minimum (clone e) node
    clone (maximum e node) = maximum (clone e) node
    clone (sample e) = sample (clone e)

    pub clone_all : Exprs Node Variable → Exprs Node Variable
    clone_all nil = nil
    clone_all (cons e es) = cons (clone e) (clone_all es)

  -- The public constructor of `Avg`.
  unfoldable pub make_avg : Expr Node Variable → Bool → Expr Node Variable
  make_avg e distinct =
      if not distinct
      then avg e (sum (clone e) (make_integer 0)) (count (clone e) 0)
      else avg e (sum_distinct (clone e) (make_integer 0) []) (count_distinct (clone e) [])
