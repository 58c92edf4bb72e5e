-- ===== src/Expressions/Grouped/Counts.antt =====
-- COUNT(*) and COUNT over a group.
use tentris_lib.Prelude.{
  ℕ, suc, ◌+◌, ◌^◌, ◌<◌, ◌≡◌, refl, ap, ◌∙◌, List, [], ◌∷◌, map, arith, length, if◌then◌else◌,
}
use tentris_lib.Prelude.Words.{add64, add64_small}
use tentris_lib.Rdf.{Rdf}
use tentris_lib.Expressions.Ast.{Expr, count_star, count}
use tentris_lib.Expressions.Aggregates.{update_count}
use tentris_lib.Expressions.Evaluate.{evaluate, update_value}
use tentris_lib.Expressions.Grouped.{
  IsPlain, update_each, value_at, update_value-IsPlain, values-update,
}
use tentris_lib.Expressions.Grouped.Steps.{update-count_star, update-count}

-- The number of values that are no error.
abbrev pub bound_values : (r : Rdf) → List r.Node → ℕ
bound_values r [] = 0
bound_values r (v ∷ vs) = if r.is_null v then bound_values r vs else suc (bound_values r vs)

module _ (r : Rdf) where
  open r use {Node, Variable, make_integer}

  pub bound_values-le : (vs : List Node) → bound_values r vs < suc (length vs)
  bound_values-le [] = omega arith
  bound_values-le (v ∷ vs) = ground (arith, bound_values-le vs)

  -- COUNT(*), starting from `n`, adds the number of solutions, if that stays below 2 ^ 64.
  pub evaluate-count_star :
      (n : ℕ) (keys : List (List Node))
      → n + length keys < 2 ^ 64
      → evaluate r (update_each r (count_star n) keys) ≡ make_integer (n + length keys)
  unfolding evaluate update_each
  evaluate-count_star n [] fits = ap make_integer (omega arith)
  evaluate-count_star n (k ∷ keys) fits =
      ground (arith, update-count_star r k n, add64_small n 1, evaluate-count_star (n + 1) keys)

  evaluate-count_state : (e : Expr Node Variable) (n : ℕ) → evaluate r (count e n) ≡ make_integer n
  unfolding evaluate
  evaluate-count_state e n = refl

  update_count_lem :
      (v : Node) (n : ℕ) → update_count r v n ≡ (if r.is_null v then n else add64 n 1)
  unfolding update_count
  update_count_lem v n = ground arith

  -- COUNT of an expression without aggregates, starting from `n`, adds the number of solutions at
  -- which the expression is no error, if that stays below 2 ^ 64.
  pub evaluate-count :
      (e : Expr Node Variable) (n : ℕ) (keys : List (List Node))
      → IsPlain e
      → n + length keys < 2 ^ 64
      → evaluate r (update_each r (count e n) keys)
        ≡ make_integer (n + bound_values r (map (value_at r e) keys))
  unfolding update_each
  evaluate-count e n [] plain fits = evaluate-count_state e n ∙ ap make_integer (omega arith)
  evaluate-count e n (k ∷ keys) plain fits =
      let e' = update_value r e k in
      let plain' = update_value-IsPlain r e k plain in
      let same = values-update r e k keys plain in
      ground (
        arith,
        update-count r k e n,
        add64_small n 1,
        update_count_lem (evaluate r e') n,
        same,
        evaluate-count e' n keys plain',
        evaluate-count e' (n + 1) keys plain',
      )
