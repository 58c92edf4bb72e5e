-- ===== src/Expressions/Variables/Partition.antt =====
-- How the aggregated and the other variables make up the variables of an expression.
use mathlib.Core.List.{Perm}
use mathlib.Core.List.Permᴰ
use mathlib.Core.List.Perm
use tentris_lib.Prelude.{
  ◌≡◌, refl, List, [], ◌∷◌, ◌++◌, Option, none, some, append_assoc, append-nil, subst, sym,
}
use tentris_lib.Expressions.Ast.{
  Expr, var_expr, literal_expr, iri_expr, built_in_call, false_expr, logical_and, logical_or,
  comparison, in_list, arithmetic, unary, call1, call2, call3, replace4, call_dyn, constructor_fn,
  count_star, count_star_distinct, count, count_distinct, sum, sum_distinct, avg, minimum, maximum,
  sample, Exprs, nil, cons,
}
use tentris_lib.Expressions.Variables.{
  join, every, aggregated, non_aggregated, collect, collect_all, collect_first, variables,
  aggregated_variables, non_aggregated_variables,
}

-- If the aggregated variables are defined, so are the others, and together they are a permutation
-- of all.
abbrev pub Split : {V : Type 0} → Option (List V) → Option (List V) → Option (List V) → Type 0
Split {V} all agg rest =
    (xs : List V)
    → agg ≡ some xs
    → (vs : List V) × (ys : List V) × (all ≡ some vs) × (rest ≡ some ys) × Perm vs (xs ++ ys)

module _ {V : Type 0} where
  perm_middle_swap :
      (xs ys xs' ys' : List V) → Perm ((xs ++ ys) ++ (xs' ++ ys')) ((xs ++ xs') ++ (ys ++ ys'))
  perm_middle_swap xs ys xs' ys' = simp append_assoc (
      Perm.append_left xs
        (simp append_assoc at (Perm.append_right ys' ∣ Permᴰ.append_comm ys xs' ∣₁)))

  Split-join :
      {all agg rest all' agg' rest' : Option (List V)}
      → Split all agg rest
      → Split all' agg' rest'
      → Split (join all all') (join agg agg') (join rest rest')
  Split-join {agg = some xs} {agg' = some xs'} s t zs e =
      let (vs, ys, p, q, perm) = s xs refl in
      let (ws, ys', p', q', perm') = t xs' refl in
      (
        vs ++ ws,
        ys ++ ys',
        cc,
        cc,
        subst (λ l. Perm (vs ++ ws) (l ++ (ys ++ ys'))) (cc)
            (Perm.trans (Perm.append perm perm') (perm_middle_swap xs ys xs' ys')),
      )
  Split-join {agg = some xs} {agg' = none} s t zs e = cc
  Split-join {agg = none} s t zs e = cc

  Split-intro : (vs xs ys : List V) → Perm vs (xs ++ ys) → Split (some vs) (some xs) (some ys)
  Split-intro vs xs ys perm zs e =
      let same : xs ≡ zs = cc in (vs, ys, refl, refl, subst (λ l. Perm vs (l ++ ys)) same perm)

  -- An aggregate aggregates all of its operand's variables.
  Split-aggregate : (vs : Option (List V)) → Split vs vs (some [])
  Split-aggregate vs xs e =
      (xs, [], e, refl, subst (λ l. Perm xs l) (sym (append-nil xs)) (Perm.refl xs))

  Split-fault : (all rest : Option (List V)) → Split all none rest
  Split-fault all rest xs e = cc

module _ {N V : Type 0} where
  mutual
    unfolding collect

    collect-Split :
        (e : Expr N V) → Split (collect every e) (collect aggregated e) (collect non_aggregated e)
    collect-Split (var_expr p node v) = Split-intro _ _ _ (Perm.refl (v ∷ []))
    collect-Split (literal_expr l) = Split-intro _ _ _ (Perm.refl [])
    collect-Split (iri_expr i) = Split-intro _ _ _ (Perm.refl [])
    collect-Split (built_in_call e) = collect-Split e
    collect-Split false_expr = Split-intro _ _ _ (Perm.refl [])
    collect-Split (logical_and es) = collect_first-Split es
    collect-Split (logical_or es) = collect_first-Split es
    collect-Split (comparison op a b) = Split-join (collect-Split a) (collect-Split b)
    collect-Split (in_list e es not_in) = Split-join (collect-Split e) (collect_all-Split es)
    collect-Split (arithmetic op a b) = Split-join (collect-Split a) (collect-Split b)
    collect-Split (unary op e) = collect-Split e
    collect-Split (call1 f a) = collect-Split a
    collect-Split (call2 f a b) = Split-join (collect-Split a) (collect-Split b)
    collect-Split (call3 f a b c) =
        Split-join (Split-join (collect-Split a) (collect-Split b)) (collect-Split c)
    collect-Split (replace4 a b c d) =
        Split-join (Split-join (Split-join (collect-Split a) (collect-Split b)) (collect-Split c))
          (collect-Split d)
    collect-Split (call_dyn f es) = collect_all-Split es
    collect-Split (constructor_fn t e) = collect-Split e
    collect-Split (count_star n) = Split-fault _ _
    collect-Split (count_star_distinct keys) = Split-fault _ _
    collect-Split (count e n) = Split-aggregate (collect every e)
    collect-Split (count_distinct e nodes) = Split-aggregate (collect every e)
    collect-Split (sum e l) = Split-aggregate (collect every e)
    collect-Split (sum_distinct e l ls) = Split-aggregate (collect every e)
    collect-Split (avg e s c) = Split-aggregate (collect every e)
    collect-Split (minimum e node) = Split-aggregate (collect every e)
    collect-Split (maximum e node) = Split-aggregate (collect every e)
    collect-Split (sample e) = Split-aggregate (collect every e)

    collect_all-Split :
        (es : Exprs N V)
        → Split (collect_all every es) (collect_all aggregated es) (collect_all non_aggregated es)
    collect_all-Split nil = Split-intro _ _ _ (Perm.refl [])
    collect_all-Split (cons e es) = Split-join (collect-Split e) (collect_all-Split es)

    collect_first-Split :
        (es : Exprs N V)
        → Split
            (collect_first every es)
            (collect_first aggregated es)
            (collect_first non_aggregated es)
    collect_first-Split nil = Split-fault _ _
    collect_first-Split (cons e es) = Split-join (collect-Split e) (collect_all-Split es)

  -- Where `aggregated_variables` is defined, so are the other two, and the variables of an
  -- expression are a permutation of its aggregated ones followed by its other ones.
  pub variables-perm :
      (e : Expr N V) (xs : List V)
      → aggregated_variables e ≡ some xs
      → (vs : List V) × (ys : List V) × (variables e ≡ some vs)
        × (non_aggregated_variables e ≡ some ys)
        × Perm vs (xs ++ ys)
  unfolding variables aggregated_variables non_aggregated_variables
  variables-perm e xs h = collect-Split e xs h
