-- ===== src/Expressions/Grouped.antt =====
-- Expressions over the solutions of a group: the operators call `update_value` once for every
-- solution, then `evaluate`.
use tentris_lib.Prelude.{◌≡◌, refl, List, [], ◌∷◌, map}
use tentris_lib.Rdf.{Rdf}
use tentris_lib.Expressions.Ast.{
  Expr, var_expr, literal_expr, iri_expr, built_in_call, false_expr, logical_and, logical_or,
  comparison, in_list, arithmetic, unary, call1, call2, call3, replace4, call_dyn, constructor_fn,
  Exprs, nil, cons,
}
use tentris_lib.Expressions.Evaluate.{clone, clone_all, evaluate, update_value, update_all}
pub mod Steps
pub mod Counts
pub mod Sums
pub mod Distinct
pub mod Extremes

-- No aggregate occurs in the expression.
abbrev mutual
  pub IsPlain : {N V : Type 0} → Expr N V → Type 0
  IsPlain (var_expr p node v) = Unit
  IsPlain (literal_expr l) = Unit
  IsPlain (iri_expr i) = Unit
  IsPlain (built_in_call e) = IsPlain e
  IsPlain false_expr = Unit
  IsPlain (logical_and es) = ArePlain es
  IsPlain (logical_or es) = ArePlain es
  IsPlain (comparison op a b) = IsPlain a × IsPlain b
  IsPlain (in_list e es not_in) = IsPlain e × ArePlain es
  IsPlain (arithmetic op a b) = IsPlain a × IsPlain b
  IsPlain (unary op e) = IsPlain e
  IsPlain (call1 f a) = IsPlain a
  IsPlain (call2 f a b) = IsPlain a × IsPlain b
  IsPlain (call3 f a b c) = IsPlain a × IsPlain b × IsPlain c
  IsPlain (replace4 a b c d) = IsPlain a × IsPlain b × IsPlain c × IsPlain d
  IsPlain (call_dyn f es) = ArePlain es
  IsPlain (constructor_fn t e) = IsPlain e
  IsPlain _ = ⊥

  pub ArePlain : {N V : Type 0} → Exprs N V → Type 0
  ArePlain nil = Unit
  ArePlain (cons e es) = IsPlain e × ArePlain es

module _ (r : Rdf) where
  open r use {Node, Variable}

  -- `update_value` for every solution of a group, in order.
  unfoldable pub update_each : Expr Node Variable → List (List Node) → Expr Node Variable
  update_each e [] = e
  update_each e (key ∷ keys) = update_each (update_value r e key) keys

  -- The value of an expression at a single solution.
  abbrev pub value_at : Expr Node Variable → List Node → Node
  value_at e key = evaluate r (update_value r e key)

  mutual
    unfolding update_value

    -- An expression without aggregates forgets the solutions before the last one.
    pub update_again :
        (e : Expr Node Variable) (key key' : List Node)
        → IsPlain e
        → update_value r (update_value r e key) key' ≡ update_value r e key'
    update_again (var_expr p node v) k k' h = refl
    update_again (literal_expr l) k k' h = refl
    update_again (iri_expr i) k k' h = refl
    update_again (built_in_call e) k k' h = rw (update_again e k k' h)
    update_again false_expr k k' h = refl
    update_again (logical_and es) k k' h = rw (update_all_again es k k' h)
    update_again (logical_or es) k k' h = rw (update_all_again es k k' h)
    update_again (comparison op a b) k k' h = cc (update_again a k k' h.0, update_again b k k' h.1)
    update_again (in_list e es not_in) k k' h =
        cc (update_again e k k' h.0, update_all_again es k k' h.1)
    update_again (arithmetic op a b) k k' h = cc (update_again a k k' h.0, update_again b k k' h.1)
    update_again (unary op e) k k' h = rw (update_again e k k' h)
    update_again (call1 f a) k k' h = rw (update_again a k k' h)
    update_again (call2 f a b) k k' h = cc (update_again a k k' h.0, update_again b k k' h.1)
    update_again (call3 f a b c) k k' h =
        cc (update_again a k k' h.0, update_again b k k' h.1, update_again c k k' h.2)
    update_again (replace4 a b c d) k k' h = cc (
      update_again a k k' h.0,
      update_again b k k' h.1,
      update_again c k k' h.2,
      update_again d k k' h.3,
    )
    update_again (call_dyn f es) k k' h = rw (update_all_again es k k' h)
    update_again (constructor_fn t e) k k' h = rw (update_again e k k' h)
    update_again _ k k' h = absurd h

    update_all_again :
        (es : Exprs Node Variable) (key key' : List Node)
        → ArePlain es
        → update_all r (update_all r es key) key' ≡ update_all r es key'
    update_all_again nil k k' h = refl
    update_all_again (cons e es) k k' h = cc (update_again e k k' h.0, update_all_again es k k' h.1)

  mutual
    unfolding update_value

    -- Updating keeps an expression free of aggregates.
    pub update_value-IsPlain :
        (e : Expr Node Variable) (key : List Node) → IsPlain e → IsPlain (update_value r e key)
    update_value-IsPlain (var_expr p node v) k h = tt
    update_value-IsPlain (literal_expr l) k h = tt
    update_value-IsPlain (iri_expr i) k h = tt
    update_value-IsPlain (built_in_call e) k h = update_value-IsPlain e k h
    update_value-IsPlain false_expr k h = tt
    update_value-IsPlain (logical_and es) k h = update_all-ArePlain es k h
    update_value-IsPlain (logical_or es) k h = update_all-ArePlain es k h
    update_value-IsPlain (comparison op a b) k h =
        (update_value-IsPlain a k h.0, update_value-IsPlain b k h.1)
    update_value-IsPlain (in_list e es not_in) k h =
        (update_value-IsPlain e k h.0, update_all-ArePlain es k h.1)
    update_value-IsPlain (arithmetic op a b) k h =
        (update_value-IsPlain a k h.0, update_value-IsPlain b k h.1)
    update_value-IsPlain (unary op e) k h = update_value-IsPlain e k h
    update_value-IsPlain (call1 f a) k h = update_value-IsPlain a k h
    update_value-IsPlain (call2 f a b) k h =
        (update_value-IsPlain a k h.0, update_value-IsPlain b k h.1)
    update_value-IsPlain (call3 f a b c) k h =
        (update_value-IsPlain a k h.0, update_value-IsPlain b k h.1, update_value-IsPlain c k h.2)
    update_value-IsPlain (replace4 a b c d) k h = (
      update_value-IsPlain a k h.0,
      update_value-IsPlain b k h.1,
      update_value-IsPlain c k h.2,
      update_value-IsPlain d k h.3,
    )
    update_value-IsPlain (call_dyn f es) k h = update_all-ArePlain es k h
    update_value-IsPlain (constructor_fn t e) k h = update_value-IsPlain e k h
    update_value-IsPlain _ k h = absurd h

    update_all-ArePlain :
        (es : Exprs Node Variable) (key : List Node) → ArePlain es → ArePlain (update_all r es key)
    update_all-ArePlain nil k h = tt
    update_all-ArePlain (cons e es) k h =
        (update_value-IsPlain e k h.0, update_all-ArePlain es k h.1)

  mutual
    unfolding clone

    -- Cloning keeps an expression free of aggregates.
    pub clone-IsPlain : (e : Expr Node Variable) → IsPlain e → IsPlain (clone r e)
    clone-IsPlain (var_expr p node v) h = tt
    clone-IsPlain (literal_expr l) h = tt
    clone-IsPlain (iri_expr i) h = tt
    clone-IsPlain (built_in_call e) h = clone-IsPlain e h
    clone-IsPlain false_expr h = tt
    clone-IsPlain (logical_and es) h = clone_all-ArePlain es h
    clone-IsPlain (logical_or es) h = clone_all-ArePlain es h
    clone-IsPlain (comparison op a b) h = (clone-IsPlain a h.0, clone-IsPlain b h.1)
    clone-IsPlain (in_list e es not_in) h = (clone-IsPlain e h.0, clone_all-ArePlain es h.1)
    clone-IsPlain (arithmetic op a b) h = (clone-IsPlain a h.0, clone-IsPlain b h.1)
    clone-IsPlain (unary op e) h = clone-IsPlain e h
    clone-IsPlain (call1 f a) h = clone-IsPlain a h
    clone-IsPlain (call2 f a b) h = (clone-IsPlain a h.0, clone-IsPlain b h.1)
    clone-IsPlain (call3 f a b c) h =
        (clone-IsPlain a h.0, clone-IsPlain b h.1, clone-IsPlain c h.2)
    clone-IsPlain (replace4 a b c d) h =
        (clone-IsPlain a h.0, clone-IsPlain b h.1, clone-IsPlain c h.2, clone-IsPlain d h.3)
    clone-IsPlain (call_dyn f es) h = clone_all-ArePlain es h
    clone-IsPlain (constructor_fn t e) h = clone-IsPlain e h
    clone-IsPlain _ h = absurd h

    clone_all-ArePlain : (es : Exprs Node Variable) → ArePlain es → ArePlain (clone_all r es)
    clone_all-ArePlain nil h = tt
    clone_all-ArePlain (cons e es) h = (clone-IsPlain e h.0, clone_all-ArePlain es h.1)

  -- So the values of an updated expression are those of the expression.
  pub values-update :
      (e : Expr Node Variable) (key : List Node) (keys : List (List Node))
      → IsPlain e
      → map (value_at (update_value r e key)) keys ≡ map (value_at e) keys
  values-update e k [] h = refl
  values-update e k (k' ∷ keys) h = cc (update_again e k k' h, values-update e k keys h)
