-- ===== src/Expressions/Grouped/Extremes.antt =====
-- MIN and MAX over a group.
use tentris_lib.Prelude.{
  ◌≡◌, refl, ◌∙◌, ap, Bool, true, false, List, [], ◌∷◌, map, arith, ◌⊎◌, inl, inr,
}
use tentris_lib.Rdf.{Rdf}
use tentris_lib.Expressions.Ast.{Expr, minimum, maximum}
use tentris_lib.Expressions.Logical.{is_less, is_greater}
use tentris_lib.Expressions.Aggregates.{update_min, update_max}
use tentris_lib.Expressions.Evaluate.{evaluate, update_value}
use tentris_lib.Expressions.Grouped.{
  IsPlain, update_each, value_at, update_value-IsPlain, values-update,
}
use tentris_lib.Expressions.Grouped.Steps.{update-minimum, update-maximum}

abbrev pub lower : (r : Rdf) → r.Node → r.Node → Bool
lower r a b = is_less (r.compare_nodes a b)

abbrev pub higher : (r : Rdf) → r.Node → r.Node → Bool
higher r a b = is_greater (r.compare_nodes a b)

-- What the documentation of the nodes' order says: `<` is a strict weak order, `>` is its
-- converse, and the null node lies below every other node.
pub record NodeOrder (r : Rdf) : Type 0 where
  pub irreflexive : (a : r.Node) → lower r a a ≡ false
  pub transitive :
      (a b c : r.Node) → lower r a b ≡ false → lower r b c ≡ false → lower r a c ≡ false
  pub asymmetric : (a b : r.Node) → lower r a b ≡ true → lower r b a ≡ false
  pub converse : (a b : r.Node) → higher r a b ≡ lower r b a
  pub null_lowest : (a b : r.Node) → r.is_null a ≡ true → r.is_null b ≡ false → lower r a b ≡ true

-- No value that is no error lies below the bound, or above it.
abbrev pub BoundsBelow : (r : Rdf) → r.Node → List r.Node → Type 0
BoundsBelow r m [] = Unit
BoundsBelow r m (v ∷ vs) = (r.is_null v ≡ false → lower r v m ≡ false) × BoundsBelow r m vs

abbrev pub BoundsAbove : (r : Rdf) → r.Node → List r.Node → Type 0
BoundsAbove r m [] = Unit
BoundsAbove r m (v ∷ vs) = (r.is_null v ≡ false → higher r v m ≡ false) × BoundsAbove r m vs

abbrev pub AllNull : (r : Rdf) → List r.Node → Type 0
AllNull r [] = Unit
AllNull r (v ∷ vs) = (r.is_null v ≡ true) × AllNull r vs

-- The node is one of the values.
abbrev pub IsOneOf : (r : Rdf) → r.Node → List r.Node → Type 0
IsOneOf r m [] = ⊥
IsOneOf r m (v ∷ vs) = (m ≡ v) ⊎ IsOneOf r m vs

-- The loops over the values alone.
abbrev min_values : (r : Rdf) → r.Node → List r.Node → r.Node
min_values r m [] = m
min_values r m (v ∷ vs) = min_values r (update_min r v m) vs

abbrev max_values : (r : Rdf) → r.Node → List r.Node → r.Node
max_values r m [] = m
max_values r m (v ∷ vs) = max_values r (update_max r v m) vs

module _ (r : Rdf) where
  open r use {Node, Variable, is_null}

  evaluate-minimum_state : (e : Expr Node Variable) (m : Node) → evaluate r (minimum e m) ≡ m
  unfolding evaluate
  evaluate-minimum_state e m = refl

  evaluate-maximum_state : (e : Expr Node Variable) (m : Node) → evaluate r (maximum e m) ≡ m
  unfolding evaluate
  evaluate-maximum_state e m = refl

  evaluate-min_values :
      (e : Expr Node Variable) (m : Node) (keys : List (List Node))
      → IsPlain e
      → evaluate r (update_each r (minimum e m) keys) ≡ min_values r m (map (value_at r e) keys)
  unfolding update_each
  evaluate-min_values e m [] plain = evaluate-minimum_state e m
  evaluate-min_values e m (k ∷ keys) plain =
      let e' = update_value r e k in
      rw (update-minimum r k e m) (
        evaluate-min_values e' (update_min r (evaluate r e') m) keys
          (update_value-IsPlain r e k plain)
        ∙ ap (min_values r (update_min r (evaluate r e') m)) (values-update r e k keys plain))

  evaluate-max_values :
      (e : Expr Node Variable) (m : Node) (keys : List (List Node))
      → IsPlain e
      → evaluate r (update_each r (maximum e m) keys) ≡ max_values r m (map (value_at r e) keys)
  unfolding update_each
  evaluate-max_values e m [] plain = evaluate-maximum_state e m
  evaluate-max_values e m (k ∷ keys) plain =
      let e' = update_value r e k in
      rw (update-maximum r k e m) (
        evaluate-max_values e' (update_max r (evaluate r e') m) keys
          (update_value-IsPlain r e k plain)
        ∙ ap (max_values r (update_max r (evaluate r e') m)) (values-update r e k keys plain))

  module _ (order : NodeOrder r) where
    -- The loop of MIN from a node that is no error.
    min_values-from :
        (m : Node) (vs : List Node)
        → is_null m ≡ false
        → (is_null (min_values r m vs) ≡ false)
          × (lower r m (min_values r m vs) ≡ false)
          × BoundsBelow r (min_values r m vs) vs
          × ((min_values r m vs ≡ m) ⊎ IsOneOf r (min_values r m vs) vs)
    unfolding update_min
    min_values-from m [] h = (h, order.irreflexive m, tt, inl refl)
    min_values-from m (v ∷ vs) h = ground (
      arith,
      min_values-from m vs h,
      min_values-from v vs,
      order.asymmetric v m,
      order.transitive m v (min_values r v vs),
      order.transitive v m (min_values r m vs),
    )

    max_values-from :
        (m : Node) (vs : List Node)
        → is_null m ≡ false
        → (is_null (max_values r m vs) ≡ false)
          × (higher r m (max_values r m vs) ≡ false)
          × BoundsAbove r (max_values r m vs) vs
          × ((max_values r m vs ≡ m) ⊎ IsOneOf r (max_values r m vs) vs)
    unfolding update_max
    max_values-from m [] h = (h, order.converse m m ∙ order.irreflexive m, tt, inl refl)
    max_values-from m (v ∷ vs) h = ground (
      arith,
      max_values-from m vs h,
      max_values-from v vs,
      order.converse v m,
      order.converse m (max_values r m vs),
      order.converse v (max_values r m vs),
      order.converse m (max_values r v vs),
      order.converse v (max_values r v vs),
      order.asymmetric m v,
      order.transitive (max_values r v vs) v m,
      order.transitive (max_values r m vs) m v,
    )

    min_values-null :
        (m : Node) (vs : List Node)
        → is_null m ≡ true
        → BoundsBelow r (min_values r m vs) vs
          × ((is_null (min_values r m vs) ≡ false) × IsOneOf r (min_values r m vs) vs
              ⊎ AllNull r vs × (min_values r m vs ≡ m))
    unfolding update_min
    min_values-null m [] h = (tt, inr (tt, refl))
    min_values-null m (v ∷ vs) h = ground (arith, min_values-null m vs h, min_values-from v vs)

    max_values-null :
        (m : Node) (vs : List Node)
        → is_null m ≡ true
        → BoundsAbove r (max_values r m vs) vs
          × ((is_null (max_values r m vs) ≡ false) × IsOneOf r (max_values r m vs) vs
              ⊎ AllNull r vs × (max_values r m vs ≡ m))
    unfolding update_max
    max_values-null m [] h = (tt, inr (tt, refl))
    max_values-null m (v ∷ vs) h = ground (
      arith,
      order.converse v m,
      order.null_lowest m v,
      max_values-null m vs h,
      max_values-from v vs,
    )

  -- MIN of an expression without aggregates, started at the null node: no value in the group that
  -- is no error lies below the result, and the result is a value of the group that is no error, or
  -- every value is an error and the result is the null node.
  pub evaluate-minimum :
      NodeOrder r
      → (e : Expr Node Variable) (null : Node) (keys : List (List Node)) → IsPlain e
      → is_null null ≡ true
      → (let values = map (value_at r e) keys in
          let m = evaluate r (update_each r (minimum e null) keys) in
          BoundsBelow r m values
          × ((is_null m ≡ false) × IsOneOf r m values ⊎ AllNull r values × (m ≡ null)))
  evaluate-minimum order e null keys plain h =
      rw (evaluate-min_values e null keys plain)
        (min_values-null order null (map (value_at r e) keys) h)

  -- MAX of an expression without aggregates, started at the null node: no value in the group that
  -- is no error lies above the result, and the result is a value of the group that is no error, or
  -- every value is an error and the result is the null node.
  pub evaluate-maximum :
      NodeOrder r
      → (e : Expr Node Variable) (null : Node) (keys : List (List Node)) → IsPlain e
      → is_null null ≡ true
      → (let values = map (value_at r e) keys in
          let m = evaluate r (update_each r (maximum e null) keys) in
          BoundsAbove r m values
          × ((is_null m ≡ false) × IsOneOf r m values ⊎ AllNull r values × (m ≡ null)))
  evaluate-maximum order e null keys plain h =
      rw (evaluate-max_values e null keys plain)
        (max_values-null order null (map (value_at r e) keys) h)
