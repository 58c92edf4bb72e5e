-- ===== src/Expressions/Aggregates.antt =====
-- The state of the aggregates (Aggregates.cpp): how one more value changes it, and the result.
use tentris_lib.Prelude.{ℕ, Bool, false, not, ◌||◌, List, [], ◌∷◌, if◌then◌else◌, ◌==◌}
use tentris_lib.Prelude.Words.{add64}
use tentris_lib.Rdf.{Rdf}
use tentris_lib.Expressions.Logical.{is_equivalent, is_less, is_greater}

-- `boost::container::flat_set`: an element that is there already is not inserted.
module _ {A : Type 0} (same : A → A → Bool) where
  unfoldable pub contains : A → List A → Bool
  contains a [] = false
  contains a (x ∷ xs) = same a x || contains a xs

  unfoldable pub insert : A → List A → List A
  unfolding contains
  insert a xs = if contains a xs then xs else a ∷ xs

module _ (r : Rdf) where
  open r use {
    Node, null_node, is_null, make_integer, integer_value, as_literal, compare_literals,
    compare_nodes, add, div, hash_key,
  }

  -- The order of `flat_set<Node>` and `flat_set<Literal>` decides which elements are the same.
  abbrev pub same_node : Node → Node → Bool
  same_node a b = is_equivalent (compare_nodes a b)

  abbrev pub same_literal : Node → Node → Bool
  same_literal a b = is_equivalent (compare_literals a b)

  -- `CountStarDistinct::update_value`; the set holds hashes of keys.
  unfoldable pub update_count_star_distinct : List Node → List ℕ → List ℕ
  unfolding insert
  update_count_star_distinct key keys = insert ◌==◌ (hash_key key) keys

  -- `Count::update_value`, `size_t` wraps around.
  unfoldable pub update_count : Node → ℕ → ℕ
  unfolding add64
  update_count expr_result count = if not (is_null expr_result) then add64 count 1 else count

  unfoldable pub update_count_distinct : Node → List Node → List Node
  unfolding insert
  update_count_distinct expr_result rdf_nodes =
      if not (is_null expr_result) then insert same_node expr_result rdf_nodes else rdf_nodes

  unfoldable pub update_sum : Node → Node → Node
  update_sum expr_result rdf_literal = add rdf_literal (as_literal expr_result)

  -- `SumDistinct::update_value` reads the set of literals, and never adds to it.
  unfoldable pub update_sum_distinct : Node → Node → List Node → Node
  unfolding contains
  update_sum_distinct expr_result rdf_literal rdf_literals =
      let expr_result_lit = as_literal expr_result in
      if contains same_literal (as_literal expr_result_lit) rdf_literals
      then rdf_literal
      else add rdf_literal expr_result_lit

  unfoldable pub evaluate_avg : Node → Node → Node
  evaluate_avg count_result sum_result =
      let count_result_lit = as_literal count_result in
      let sum_result_lit = as_literal sum_result in
      if integer_value count_result_lit == 0
      then make_integer 0
      else if is_null sum_result_lit
      then null_node
      else div sum_result_lit count_result_lit

  unfoldable pub update_min : Node → Node → Node
  update_min expr_result rdf_node =
      if is_null expr_result
      then rdf_node
      else if is_less (compare_nodes expr_result rdf_node) || is_null rdf_node
      then expr_result
      else rdf_node

  unfoldable pub update_max : Node → Node → Node
  update_max expr_result rdf_node =
      if is_null expr_result
      then rdf_node
      else if is_greater (compare_nodes expr_result rdf_node)
      then expr_result
      else rdf_node
