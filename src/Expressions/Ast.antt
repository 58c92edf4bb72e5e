-- ===== src/Expressions/Ast.antt =====
-- The class hierarchy of expressions as one data type: a constructor for each class, or for each
-- family of classes that differ in one operator, with the class's fields, state included.
use tentris_lib.Prelude.{ℕ, Bool, List}
use tentris_lib.Rdf.{LiteralFn1, LiteralFn2, LiteralFn3, XsdType}

-- EqualsExpression, NotEqualsExpression, LessExpression, GreaterExpression, LessEqualsExpression
-- and GreaterEqualsExpression.
pub data ComparisonOp : Type 0 where
  equals not_equals lt gt less_equals greater_equals : ComparisonOp

-- AdditionExpression, SubtractionExpression, MultiplicationExpression, DivisionExpression.
pub data ArithmeticOp : Type 0 where
  addition subtraction multiplication division : ArithmeticOp

-- NotExpression, UnaryPlusExpression, UnaryMinusExpression.
pub data UnaryOp : Type 0 where
  not_op unary_plus unary_minus : UnaryOp

-- The built-in calls, by their number of operands.
pub data Call1 : Type 0 where
  is_iri iri_call is_blank is_literal is_numeric datatype_call str_call bound : Call1
  literal_call1 : LiteralFn1 → Call1

pub data Call2 : Type 0 where
  same_term str_dt str_lang substr2 : Call2
  literal_call2 : LiteralFn2 → Call2

pub data Call3 : Type 0 where
  if_call substr3 : Call3
  literal_call3 : LiteralFn3 → Call3

pub data CallDyn : Type 0 where
  concat_call coalesce : CallDyn

-- `N` stands for RDF nodes, `V` for variables.
mutual
  pub data Expr (N V : Type 0) : Type 0 where
    var_expr : (var_pos_in_entry : ℕ) → (rdf_node : N) → (variable : V) → Expr N V
    literal_expr : N → Expr N V
    iri_expr : N → Expr N V
    built_in_call : Expr N V → Expr N V
    false_expr : Expr N V
    logical_and : Exprs N V → Expr N V
    logical_or : Exprs N V → Expr N V
    comparison : ComparisonOp → Expr N V → Expr N V → Expr N V
    in_list : (lhs : Expr N V) → (rhs : Exprs N V) → (not_in : Bool) → Expr N V
    arithmetic : ArithmeticOp → Expr N V → Expr N V → Expr N V
    unary : UnaryOp → Expr N V → Expr N V
    call1 : Call1 → Expr N V → Expr N V
    call2 : Call2 → Expr N V → Expr N V → Expr N V
    call3 : Call3 → Expr N V → Expr N V → Expr N V → Expr N V
    replace4 : Expr N V → Expr N V → Expr N V → Expr N V → Expr N V
    call_dyn : CallDyn → Exprs N V → Expr N V
    constructor_fn : XsdType → Expr N V → Expr N V
    count_star : (count : ℕ) → Expr N V
    count_star_distinct : (keys : List ℕ) → Expr N V
    count : Expr N V → (count : ℕ) → Expr N V
    count_distinct : Expr N V → (rdf_nodes : List N) → Expr N V
    sum : Expr N V → (rdf_literal : N) → Expr N V
    sum_distinct : Expr N V → (rdf_literal : N) → (rdf_literals : List N) → Expr N V
    avg : (op sum_expr count_expr : Expr N V) → Expr N V
    minimum : Expr N V → (rdf_node : N) → Expr N V
    maximum : Expr N V → (rdf_node : N) → Expr N V
    sample : Expr N V → Expr N V

  -- `std::vector<std::unique_ptr<SPARQLExpression>>`
  pub data Exprs (N V : Type 0) : Type 0 where
    nil : Exprs N V
    cons : Expr N V → Exprs N V → Exprs N V
