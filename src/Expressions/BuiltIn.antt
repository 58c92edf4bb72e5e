-- ===== src/Expressions/BuiltIn.antt =====
-- What the built-in calls do with the values of their operands (BuiltInCalls.cpp). UUID, STRUUID,
-- RAND, NOW and EXISTS are left out: they draw values from outside the expression.
use tentris_lib.Prelude.{Bool, not, ◌&&◌, ◌||◌, List, [], ◌∷◌, if◌then◌else◌}
use tentris_lib.Rdf.{Rdf, substr, substr_len}
use tentris_lib.Expressions.Ast.{
  Call1, is_iri, iri_call, is_blank, is_literal, is_numeric, datatype_call, str_call, bound,
  literal_call1, Call2, same_term, str_dt, str_lang, substr2, literal_call2, Call3, if_call,
  substr3, literal_call3, CallDyn, concat_call, coalesce,
}

module _ (r : Rdf) where
  open r use {
    Node, null_node, is_null, ebv, make_boolean, same_handle, as_literal, as_iri, is_xsd_string,
    is_lang_string, concat, iri_of_lexical, simple_of_identifier, simple_of_lexical, make_typed,
    make_lang_tagged, literal_fn1, literal_fn2, literal_fn3, regex_replace_flags,
  }

  -- `IRI::evaluate`
  unfoldable pub evaluate_iri_call : Node → Node
  evaluate_iri_call expr_result =
      let iri_result = as_iri expr_result in
      let lit_result = as_literal expr_result in
      if not (is_null iri_result)
      then iri_result
      else if not (is_null lit_result) && is_xsd_string lit_result
      then iri_of_lexical lit_result
      else null_node

  unfoldable pub evaluate_is_numeric : Node → Node
  evaluate_is_numeric value =
      let expr_result = as_literal value in
      make_boolean (not (is_null expr_result) && r.is_numeric expr_result)

  unfoldable pub evaluate_datatype : Node → Node
  evaluate_datatype value =
      let expr_result_lit = as_literal value in
      if is_null expr_result_lit then null_node else r.datatype expr_result_lit

  -- `Str::evaluate`
  unfoldable pub evaluate_str : Node → Node
  evaluate_str expr_result =
      let expr_result_iri = as_iri expr_result in
      let expr_result_literal = as_literal expr_result in
      if not (is_null expr_result_iri)
      then simple_of_identifier expr_result_iri
      else if not (is_null expr_result_literal)
      then simple_of_lexical expr_result_literal
      else null_node

  unfoldable pub evaluate_bound : Node → Node
  evaluate_bound value = make_boolean (not (is_null value))

  unfoldable pub evaluate_call1 : Call1 → Node → Node
  unfolding evaluate_iri_call evaluate_is_numeric evaluate_datatype evaluate_str evaluate_bound
  evaluate_call1 is_iri value = make_boolean (r.is_iri value)
  evaluate_call1 iri_call value = evaluate_iri_call value
  evaluate_call1 is_blank value = make_boolean (r.is_blank_node value)
  evaluate_call1 is_literal value = make_boolean (r.is_literal value)
  evaluate_call1 is_numeric value = evaluate_is_numeric value
  evaluate_call1 datatype_call value = evaluate_datatype value
  evaluate_call1 str_call value = evaluate_str value
  evaluate_call1 bound value = evaluate_bound value
  evaluate_call1 (literal_call1 f) value = literal_fn1 f (as_literal value)

  unfoldable pub evaluate_str_dt : Node → Node → Node
  evaluate_str_dt value datatype_value =
      let lex_form = as_literal value in
      let datatype = as_iri datatype_value in
      if is_null lex_form || not (is_xsd_string lex_form)
      then null_node
      else if is_null datatype
      then null_node
      else make_typed lex_form datatype

  unfoldable pub evaluate_str_lang : Node → Node → Node
  evaluate_str_lang value lang =
      let lex_form = as_literal value in
      let lang_tag = as_literal lang in
      if not (is_xsd_string lex_form) || not (is_xsd_string lang_tag)
      then null_node
      else make_lang_tagged lex_form lang_tag

  unfoldable pub evaluate_substr2 : Node → Node → Node
  evaluate_substr2 value start =
      let str = as_literal value in
      if is_null str then null_node else literal_fn2 substr str (as_literal start)

  unfoldable pub evaluate_call2 : Call2 → Node → Node → Node
  unfolding evaluate_str_dt evaluate_str_lang evaluate_substr2
  evaluate_call2 same_term a b = make_boolean (same_handle a b)
  evaluate_call2 str_dt a b = evaluate_str_dt a b
  evaluate_call2 str_lang a b = evaluate_str_lang a b
  evaluate_call2 substr2 a b = evaluate_substr2 a b
  evaluate_call2 (literal_call2 f) a b = literal_fn2 f (as_literal a) (as_literal b)

  -- `If::evaluate`
  unfoldable pub evaluate_if : Node → Node → Node → Node
  evaluate_if condition a b =
      if is_null condition then null_node else if ebv condition then a else b

  unfoldable pub evaluate_substr3 : Node → Node → Node → Node
  evaluate_substr3 value start len =
      let str = as_literal value in
      if is_null str
      then null_node
      else literal_fn3 substr_len str (as_literal start) (as_literal len)

  unfoldable pub evaluate_call3 : Call3 → Node → Node → Node → Node
  unfolding evaluate_if evaluate_substr3
  evaluate_call3 if_call a b c = evaluate_if a b c
  evaluate_call3 substr3 a b c = evaluate_substr3 a b c
  evaluate_call3 (literal_call3 f) a b c =
      literal_fn3 f (as_literal a) (as_literal b) (as_literal c)

  unfoldable pub evaluate_replace4 : Node → Node → Node → Node → Node
  evaluate_replace4 a b c d =
      regex_replace_flags (as_literal a) (as_literal b) (as_literal c) (as_literal d)

  unfoldable pub string_like : Node → Bool
  string_like x = is_xsd_string x || is_lang_string x

  -- The loop of `Concat::evaluate`, from its second operand on.
  unfoldable pub concat_from : Node → List Node → Node
  unfolding string_like
  concat_from acc [] = acc
  concat_from acc (value ∷ values) =
      let res = as_literal value in
      let rest = concat_from (concat acc res) values in
      if not (string_like res) then null_node else rest

  -- The parser builds no CONCAT without operands; `Concat::evaluate` asserts it.
  unfoldable pub evaluate_concat : List Node → Node
  unfolding concat_from string_like
  evaluate_concat [] = null_node
  evaluate_concat (value ∷ values) =
      let acc = as_literal value in
      if not (string_like acc) then null_node else concat_from acc values

  unfoldable pub evaluate_coalesce : List Node → Node
  evaluate_coalesce [] = null_node
  evaluate_coalesce (value ∷ values) =
      let rest = evaluate_coalesce values in if not (is_null value) then value else rest

  unfoldable pub evaluate_call_dyn : CallDyn → List Node → Node
  unfolding evaluate_concat evaluate_coalesce
  evaluate_call_dyn concat_call values = evaluate_concat values
  evaluate_call_dyn coalesce values = evaluate_coalesce values
