-- ===== src/Expressions/Logical/Comparison.antt =====
-- The comparison operators and IN, against one another.
use tentris_lib.Prelude.{true, false, ◌≡◌, refl, List, [], ◌∷◌, map, arith}
use tentris_lib.Rdf.{Rdf, BooleanLaws}
use tentris_lib.Expressions.Ast.{equals, not_equals, lt, gt, less_equals, greater_equals, same_term}
use tentris_lib.Expressions.BuiltIn.{evaluate_call2}
use tentris_lib.Expressions.Logical.{
  evaluate_comparison, evaluate_not, evaluate_or, or_from, evaluate_in, is_in,
}

module _ (r : Rdf) (laws : BooleanLaws r) where
  open r use {Node, make_boolean, is_null, same_handle}

  -- For all operand values: <= is the disjunction of < and =, >= that of > and =, and != is the
  -- negation of =.
  pub comparison_agree :
      (a b : Node)
      → (evaluate_comparison r less_equals a b
          ≡ evaluate_or r (evaluate_comparison r lt a b ∷ evaluate_comparison r equals a b ∷ []))
        × (evaluate_comparison r greater_equals a b
            ≡ evaluate_or r (evaluate_comparison r gt a b ∷ evaluate_comparison r equals a b ∷ []))
        × (evaluate_comparison r not_equals a b ≡ evaluate_not r (evaluate_comparison r equals a b))
  unfolding evaluate_comparison evaluate_or or_from evaluate_not
  comparison_agree a b = ground (
    arith,
    laws.null-make_boolean true,
    laws.null-make_boolean false,
    laws.ebv-make_boolean true,
    laws.ebv-make_boolean false,
  )

  or-same_term :
      (a : Node) (values : List Node)
      → evaluate_or r (map (evaluate_call2 r same_term a) values) ≡ make_boolean (is_in r a values)
  unfolding evaluate_or or_from evaluate_call2 is_in
  or-same_term a [] = refl
  or-same_term a (v ∷ vs) = ground (
    arith,
    or-same_term a vs,
    laws.null-make_boolean (same_handle a v),
    laws.ebv-make_boolean (same_handle a v),
  )

  -- IN is the disjunction of sameTerm with each element, and NOT IN is its negation.
  pub in-same_term :
      (a : Node) (values : List Node)
      → (evaluate_in r false a values ≡ evaluate_or r (map (evaluate_call2 r same_term a) values))
        × (evaluate_in r true a values ≡ evaluate_not r (evaluate_in r false a values))
  unfolding evaluate_in evaluate_not
  in-same_term a vs = ground (
    arith,
    or-same_term a vs,
    laws.null-make_boolean true,
    laws.null-make_boolean false,
    laws.ebv-make_boolean true,
    laws.ebv-make_boolean false,
  )
