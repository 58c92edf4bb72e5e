-- ===== src/Expressions/Grouped/Distinct.antt =====
-- COUNT DISTINCT over a group.
use tentris_lib.Prelude.{
  ◌≡◌, refl, ◌∙◌, ap, Bool, true, false, ◌||◌, List, [], ◌∷◌, map, arith, length, if◌then◌else◌,
}
use tentris_lib.Rdf.{Rdf}
use tentris_lib.Expressions.Ast.{Expr, count_distinct}
use tentris_lib.Expressions.Aggregates.{contains, insert, same_node, update_count_distinct}
use tentris_lib.Expressions.Evaluate.{evaluate, update_value}
use tentris_lib.Expressions.Grouped.{
  IsPlain, update_each, value_at, update_value-IsPlain, values-update,
}
use tentris_lib.Expressions.Grouped.Steps.{update-count_distinct}

-- The order of nodes tells equal nodes apart as an equivalence does.
pub record IsEquivalence {A : Type 0} (same : A → A → Bool) : Type 0 where
  pub reflexive : (a : A) → same a a ≡ true
  pub symmetric : (a b : A) → same a b ≡ true → same b a ≡ true
  pub transitive : (a b c : A) → same a b ≡ true → same b c ≡ true → same a c ≡ true

-- No element is the same as a later one.
abbrev pub IsDistinct : {A : Type 0} → (A → A → Bool) → List A → Type 0
IsDistinct same [] = Unit
IsDistinct same (x ∷ xs) = (contains same x xs ≡ false) × IsDistinct same xs

-- The values that are no error.
abbrev pub non_null : (r : Rdf) → List r.Node → List r.Node
non_null r [] = []
non_null r (v ∷ vs) = if r.is_null v then non_null r vs else v ∷ non_null r vs

module _ {A : Type 0} (same : A → A → Bool) (equiv : IsEquivalence same) where
  contains-same :
      (a b : A) (xs : List A)
      → same a b ≡ true
      → contains same b xs ≡ true
      → contains same a xs ≡ true
  unfolding contains
  contains-same a b [] s h = h
  contains-same a b (x ∷ xs) s h = ground (arith, equiv.transitive a b x, contains-same a b xs)

  pub contains-insert :
      (a b : A) (xs : List A)
      → contains same a (insert same b xs) ≡ (same a b || contains same a xs)
  unfolding insert contains
  contains-insert a b xs = ground (arith, contains-same a b xs)

  pub insert-IsDistinct :
      (b : A) (xs : List A) → IsDistinct same xs → IsDistinct same (insert same b xs)
  unfolding insert
  insert-IsDistinct b xs h = ground arith

module _ (r : Rdf) (equiv : IsEquivalence (same_node r)) where
  open r use {Node, Variable, is_null, make_integer}

  evaluate-count_distinct_state :
      (e : Expr Node Variable) (nodes : List Node)
      → evaluate r (count_distinct e nodes) ≡ make_integer (length nodes)
  unfolding evaluate
  evaluate-count_distinct_state e nodes = refl

  contains-nil :
      (a : Node) (nodes : List Node)
      → contains (same_node r) a nodes
        ≡ (contains (same_node r) a [] || contains (same_node r) a nodes)
  unfolding contains
  contains-nil a nodes = refl

  update_count_distinct-IsDistinct :
      (v : Node) (nodes : List Node)
      → IsDistinct (same_node r) nodes
      → IsDistinct (same_node r) (update_count_distinct r v nodes)
  unfolding update_count_distinct
  update_count_distinct-IsDistinct v nodes h =
      ground (arith, insert-IsDistinct (same_node r) equiv v nodes h)

  -- One more value moves from the group to the set.
  contains-update :
      (a v : Node) (vs nodes : List Node)
      → (contains (same_node r) a (non_null r vs)
          || contains (same_node r) a (update_count_distinct r v nodes))
        ≡ (contains (same_node r) a (non_null r (v ∷ vs)) || contains (same_node r) a nodes)
  unfolding contains update_count_distinct
  contains-update a v vs nodes = ground (arith, contains-insert (same_node r) equiv a v nodes)

  -- COUNT DISTINCT of an expression without aggregates is the length of a list without duplicates
  -- that has, up to the order's equivalence, exactly the values at the solutions that are no
  -- errors, and the elements that the set had before.
  pub evaluate-count_distinct :
      (e : Expr Node Variable) (nodes : List Node) (keys : List (List Node))
      → IsPlain e
      → IsDistinct (same_node r) nodes
      → (all : List Node) × (evaluate r (update_each r (count_distinct e nodes) keys)
          ≡ make_integer (length all))
        × IsDistinct (same_node r) all
        × ((a : Node)
            → contains (same_node r) a all ≡ (
                contains (same_node r) a (non_null r (map (value_at r e) keys))
                || contains (same_node r) a nodes))
  unfolding update_each
  evaluate-count_distinct e nodes [] plain distinct =
      (nodes, evaluate-count_distinct_state e nodes, distinct, λ a. contains-nil a nodes)
  evaluate-count_distinct e nodes (k ∷ keys) plain distinct =
      let e' = update_value r e k in
      let v = evaluate r e' in
      let nodes' = update_count_distinct r v nodes in
      let (all, result, distinct', has) =
        evaluate-count_distinct e' nodes' keys (update_value-IsPlain r e k plain)
          (update_count_distinct-IsDistinct v nodes distinct) in
      (
        all,
        rw (update-count_distinct r k e nodes) result,
        distinct',
        λ a.
            has a
            ∙ ap (λ vs. contains (same_node r) a (non_null r vs) || contains (same_node r) a nodes')
                (values-update r e k keys plain)
            ∙ contains-update a v (map (value_at r e) keys) nodes,
      )
