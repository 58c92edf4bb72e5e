-- ===== src/Expressions/Grouped/Steps.antt =====
-- One `update_value` of each aggregate, with the other calls left folded.
use tentris_lib.Prelude.{ℕ, ◌≡◌, refl, List, if◌then◌else◌}
use tentris_lib.Prelude.Words.{add64}
use tentris_lib.Rdf.{Rdf}
use tentris_lib.Expressions.Ast.{
  Expr, count_star, count_star_distinct, count, count_distinct, sum, sum_distinct, avg, minimum,
  maximum,
}
use tentris_lib.Expressions.Aggregates.{
  update_count_star_distinct, update_count, update_count_distinct, update_sum, update_sum_distinct,
  update_min, update_max,
}
use tentris_lib.Expressions.Evaluate.{evaluate, update_value}

module _ (r : Rdf) where
  open r use {Node, Variable, is_null}

  module _ (key : List Node) where
    pub update-count_star : (n : ℕ) → update_value r (count_star n) key ≡ count_star (add64 n 1)
    unfolding update_value
    update-count_star n = refl

    pub update-count_star_distinct :
        (hs : List ℕ)
        → update_value r (count_star_distinct hs) key
          ≡ count_star_distinct (update_count_star_distinct r key hs)
    unfolding update_value
    update-count_star_distinct hs = refl

    module _ (e : Expr Node Variable) where
      abbrev updated : Expr Node Variable
      updated = update_value r e key

      pub update-count :
          (n : ℕ)
          → update_value r (count e n) key ≡ count updated (update_count r (evaluate r updated) n)
      unfolding update_value
      update-count n = refl

      pub update-count_distinct :
          (nodes : List Node)
          → update_value r (count_distinct e nodes) key
            ≡ count_distinct updated (update_count_distinct r (evaluate r updated) nodes)
      unfolding update_value
      update-count_distinct nodes = refl

      pub update-sum :
          (l : Node)
          → update_value r (sum e l) key
            ≡ (if is_null l then sum e l else sum updated (update_sum r (evaluate r updated) l))
      unfolding update_value
      update-sum l = refl

      pub update-sum_distinct :
          (l : Node) (ls : List Node)
          → update_value r (sum_distinct e l ls) key ≡ (
              if is_null l
              then sum_distinct e l ls
              else sum_distinct updated (update_sum_distinct r (evaluate r updated) l ls) ls)
      unfolding update_value
      update-sum_distinct l ls = refl

      pub update-avg :
          (s c : Expr Node Variable)
          → update_value r (avg e s c) key ≡ avg e (update_value r s key) (update_value r c key)
      unfolding update_value
      update-avg s c = refl

      pub update-minimum :
          (node : Node)
          → update_value r (minimum e node) key
            ≡ minimum updated (update_min r (evaluate r updated) node)
      unfolding update_value
      update-minimum node = refl

      pub update-maximum :
          (node : Node)
          → update_value r (maximum e node) key
            ≡ maximum updated (update_max r (evaluate r updated) node)
      unfolding update_value
      update-maximum node = refl
