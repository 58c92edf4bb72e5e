-- ===== src/Expressions/Arithmetic.antt =====
-- Arithmetic and casts (ArithmeticExpressions.cpp, UnaryOperators.cpp, functions/XSDFunctions.cpp).
use tentris_lib.Prelude.{not, if◌then◌else◌}
use tentris_lib.Rdf.{
  Rdf, XsdType, xsd_string, xsd_integer, xsd_decimal, xsd_double, xsd_float, xsd_boolean,
}
use tentris_lib.Expressions.Ast.{
  ArithmeticOp, addition, subtraction, multiplication, division, UnaryOp, not_op, unary_plus,
  unary_minus,
}
use tentris_lib.Expressions.Logical.{evaluate_not}

module _ (r : Rdf) where
  open r use {
    Node, is_null, as_literal, as_iri, add, sub, mul, div, plus, minus, cast, simple_of_identifier,
  }

  unfoldable pub evaluate_arithmetic : ArithmeticOp → Node → Node → Node
  evaluate_arithmetic addition lhs rhs = add (as_literal lhs) (as_literal rhs)
  evaluate_arithmetic subtraction lhs rhs = sub (as_literal lhs) (as_literal rhs)
  evaluate_arithmetic multiplication lhs rhs = mul (as_literal lhs) (as_literal rhs)
  evaluate_arithmetic division lhs rhs = div (as_literal lhs) (as_literal rhs)

  unfoldable pub evaluate_unary : UnaryOp → Node → Node
  unfolding evaluate_not
  evaluate_unary not_op value = evaluate_not r value
  evaluate_unary unary_plus value = plus (as_literal value)
  evaluate_unary unary_minus value = minus (as_literal value)

  -- `StringConstructor` takes IRIs too; the other constructors cast literals.
  unfoldable pub evaluate_constructor : XsdType → Node → Node
  evaluate_constructor xsd_string expr_result =
      let expr_result_iri = as_iri expr_result in
      if not (is_null expr_result_iri)
      then simple_of_identifier expr_result_iri
      else cast xsd_string (as_literal expr_result)
  evaluate_constructor xsd_integer expr_result = cast xsd_integer (as_literal expr_result)
  evaluate_constructor xsd_decimal expr_result = cast xsd_decimal (as_literal expr_result)
  evaluate_constructor xsd_double expr_result = cast xsd_double (as_literal expr_result)
  evaluate_constructor xsd_float expr_result = cast xsd_float (as_literal expr_result)
  evaluate_constructor xsd_boolean expr_result = cast xsd_boolean (as_literal expr_result)
