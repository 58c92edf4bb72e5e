-- ===== src/Expressions/Clone.antt =====
-- Copies of expressions. `ExpressionWrapper` clones whenever it is copied, and the operators copy
-- the query's expressions before they evaluate them.
use tentris_lib.Prelude.{true, false, ◌≡◌, refl, arith}
use tentris_lib.Rdf.{Rdf, BooleanLaws}
use tentris_lib.Expressions.Ast.{
  Expr, var_expr, literal_expr, iri_expr, built_in_call, false_expr, logical_and, logical_or,
  comparison, in_list, arithmetic, unary, call1, call2, call3, replace4, call_dyn, constructor_fn,
  count_star, count_star_distinct, count, count_distinct, sum, sum_distinct, avg, minimum, maximum,
  sample, Exprs, nil, cons,
}
use tentris_lib.Expressions.Logical.{evaluate_in, evaluate_not}
use tentris_lib.Expressions.Evaluate.{evaluate, clone, clone_all}

-- No NOT IN occurs in the expression.
abbrev mutual
  pub HasNoNotIn : {N V : Type 0} → Expr N V → Type 0
  HasNoNotIn (built_in_call e) = HasNoNotIn e
  HasNoNotIn (logical_and es) = HaveNoNotIn es
  HasNoNotIn (logical_or es) = HaveNoNotIn es
  HasNoNotIn (comparison op a b) = HasNoNotIn a × HasNoNotIn b
  HasNoNotIn (in_list e es not_in) = HasNoNotIn e × HaveNoNotIn es × (not_in ≡ false)
  HasNoNotIn (arithmetic op a b) = HasNoNotIn a × HasNoNotIn b
  HasNoNotIn (unary op e) = HasNoNotIn e
  HasNoNotIn (call1 f a) = HasNoNotIn a
  HasNoNotIn (call2 f a b) = HasNoNotIn a × HasNoNotIn b
  HasNoNotIn (call3 f a b c) = HasNoNotIn a × HasNoNotIn b × HasNoNotIn c
  HasNoNotIn (replace4 a b c d) = HasNoNotIn a × HasNoNotIn b × HasNoNotIn c × HasNoNotIn d
  HasNoNotIn (call_dyn f es) = HaveNoNotIn es
  HasNoNotIn (constructor_fn t e) = HasNoNotIn e
  HasNoNotIn (count e n) = HasNoNotIn e
  HasNoNotIn (count_distinct e nodes) = HasNoNotIn e
  HasNoNotIn (sum e l) = HasNoNotIn e
  HasNoNotIn (sum_distinct e l ls) = HasNoNotIn e
  HasNoNotIn (avg e s c) = HasNoNotIn e × HasNoNotIn s × HasNoNotIn c
  HasNoNotIn (minimum e node) = HasNoNotIn e
  HasNoNotIn (maximum e node) = HasNoNotIn e
  HasNoNotIn (sample e) = HasNoNotIn e
  HasNoNotIn _ = Unit

  pub HaveNoNotIn : {N V : Type 0} → Exprs N V → Type 0
  HaveNoNotIn nil = Unit
  HaveNoNotIn (cons e es) = HasNoNotIn e × HaveNoNotIn es

module _ (r : Rdf) where
  open r use {Node, Variable, make_boolean}

  mutual
    unfolding clone

    clone_same : (e : Expr Node Variable) → HasNoNotIn e → clone r e ≡ e
    clone_same (var_expr p node v) h = refl
    clone_same (literal_expr l) h = refl
    clone_same (iri_expr i) h = refl
    clone_same (built_in_call e) h = rw (clone_same e h)
    clone_same false_expr h = refl
    clone_same (logical_and es) h = rw (clone_all_same es h)
    clone_same (logical_or es) h = rw (clone_all_same es h)
    clone_same (comparison op a b) h = cc (clone_same a h.0, clone_same b h.1)
    clone_same (in_list e es not_in) h = cc (clone_same e h.0, clone_all_same es h.1, h.2)
    clone_same (arithmetic op a b) h = cc (clone_same a h.0, clone_same b h.1)
    clone_same (unary op e) h = rw (clone_same e h)
    clone_same (call1 f a) h = rw (clone_same a h)
    clone_same (call2 f a b) h = cc (clone_same a h.0, clone_same b h.1)
    clone_same (call3 f a b c) h = cc (clone_same a h.0, clone_same b h.1, clone_same c h.2)
    clone_same (replace4 a b c d) h =
        cc (clone_same a h.0, clone_same b h.1, clone_same c h.2, clone_same d h.3)
    clone_same (call_dyn f es) h = rw (clone_all_same es h)
    clone_same (constructor_fn t e) h = rw (clone_same e h)
    clone_same (count_star n) h = refl
    clone_same (count_star_distinct keys) h = refl
    clone_same (count e n) h = rw (clone_same e h)
    clone_same (count_distinct e nodes) h = rw (clone_same e h)
    clone_same (sum e l) h = rw (clone_same e h)
    clone_same (sum_distinct e l ls) h = rw (clone_same e h)
    clone_same (avg e s c) h = cc (clone_same e h.0, clone_same s h.1, clone_same c h.2)
    clone_same (minimum e node) h = rw (clone_same e h)
    clone_same (maximum e node) h = rw (clone_same e h)
    clone_same (sample e) h = rw (clone_same e h)

    clone_all_same : (es : Exprs Node Variable) → HaveNoNotIn es → clone_all r es ≡ es
    clone_all_same nil h = refl
    clone_all_same (cons e es) h = cc (clone_same e h.0, clone_all_same es h.1)

  -- An expression in which no NOT IN occurs is equal to its clone, aggregation state included.
  pub clone-eq : (e : Expr Node Variable) → HasNoNotIn e → clone r e ≡ e
  clone-eq = clone_same

  -- The clone of a NOT IN, over operands in which no other NOT IN occurs, evaluates to the
  -- negation of what the NOT IN evaluates to, at every state of the operands.
  pub clone-not_in :
      BooleanLaws r
      → (lhs : Expr Node Variable) (rhs : Exprs Node Variable) → HasNoNotIn lhs
      → HaveNoNotIn rhs
      → evaluate r (clone r (in_list lhs rhs true))
        ≡ evaluate_not r (evaluate r (in_list lhs rhs true))
  unfolding evaluate clone evaluate_not evaluate_in
  clone-not_in laws lhs rhs h k =
      rw (clone_same lhs h, clone_all_same rhs k)
        (ground (
          arith,
          laws.null-make_boolean true,
          laws.null-make_boolean false,
          laws.ebv-make_boolean true,
          laws.ebv-make_boolean false,
        ))
