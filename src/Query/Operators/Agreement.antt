-- ===== src/Query/Operators/Agreement.antt =====
-- On a graph without tracked variables, the variant of an operator that only counts gives the number
-- of solutions that the other variant yields.
use tentris_lib.Prelude.{
  ℕ, ◌+◌, ◌^◌, ◌<◌, ◌≡◌, refl, ap, sym, ◌∙◌, true, not, List, [], ◌∷◌, ◌++◌, none, if◌then◌else◌,
  ◌==◌, arith, length, Bool-cases, inl, inr, choose_true, choose_false, subst,
}
use tentris_lib.Prelude.Words.{add64, add64_small}
use tentris_lib.Rdf.{Rdf}
use tentris_lib.Graph.{size, range_from}
use tentris_lib.Graph.Remove.{remove_var_id}
use tentris_lib.Graph.Variables.{operands_var_ids_set, var_ids_positions_in_operands}
use tentris_lib.Graph.Components.{Labelling, ends, isc_operands, part, sub_odg, union_components}
use tentris_lib.Query.Entry.{CountedEntry, total}
use tentris_lib.Query.Registry.{Tracker, tracked_var_position}
use tentris_lib.Query.Registry.Tracked.{IsConsistent}
use tentris_lib.Query.Operators.{
  Tries, Entry, QueryGraph, SubOperators, extract_operands, done, clear_used_entry_poss,
  yield_counted,
}
use tentris_lib.Query.Operators.Cardinality.{Doubles, min_card_label-member}
use tentris_lib.Query.Operators.Join.{join_rounds, join_counts, join_var, evaluate_join, count_join}
use tentris_lib.Query.Operators.Union.{union_rounds, union_counts, evaluate_union, count_union}
use tentris_lib.Query.Operators.Done.{remove_var_id-done, part-done, no_position, clear-done}
pub mod Unions

pub total-append :
    {K : Type 0} (xs ys : List (CountedEntry K)) → total (xs ++ ys) ≡ total xs + total ys
total-append [] ys = omega arith
total-append (x ∷ xs) ys = omega (arith, total-append xs ys)

module _ (r : Rdf) (tries : Tries r.Node) (S : Type 0) (sub : SubOperators r tries S) where
  open r use {Node}
  open tries use {Trie}

  -- What is left of a graph without tracked variables has a count that depends on the key only, and
  -- counting leaves the key as it is.
  pub record Counts (tracker : Tracker) : Type 0 where
    pub number : QueryGraph r tries S → List Trie → List Node → ℕ
    pub counted :
        (g : QueryGraph r tries S) (operands : List Trie) (entry : Entry r tries S)
        → done r tries S tracker g ≡ true
        → (sub.result g operands entry).value ≡ number g operands entry.key
    pub kept :
        (g : QueryGraph r tries S) (operands : List Trie) (entry : Entry r tries S)
        → done r tries S tracker g ≡ true
        → (sub.result g operands entry).key ≡ entry.key

  pub total-yield_counted : (e : Entry r tries S) → total (yield_counted r tries S e) ≡ e.value
  total-yield_counted e = ground arith

  module _ (tracker : Tracker) (counts : Counts tracker) where
    number_of_rounds : QueryGraph r tries S → List (Node × List Trie) → List Node → ℕ
    number_of_rounds g [] key = 0
    number_of_rounds g ((part, operands) ∷ rounds) key =
        counts.number g operands key + number_of_rounds g rounds key

    total-join_rounds :
        (g : QueryGraph r tries S) (rounds : List (Node × List Trie)) (entry : Entry r tries S)
        → done r tries S tracker g ≡ true
        → total (join_rounds r tries S sub g true none rounds entry).0
          ≡ number_of_rounds g rounds entry.key
    unfolding join_rounds number_of_rounds
    total-join_rounds g [] entry h = refl
    total-join_rounds g ((part, operands) ∷ rounds) entry h =
        let counted = sub.result g operands entry in
        total-append (yield_counted r tries S counted) _
        ∙ ap (λ n. n + total (join_rounds r tries S sub g true none rounds counted).0)
            (total-yield_counted counted ∙ counts.counted g operands entry h)
        ∙ ap (λ n. counts.number g operands entry.key + n)
            (total-join_rounds g rounds counted h
              ∙ ap (number_of_rounds g rounds) (counts.kept g operands entry h))

    join_counts-number :
        (g : QueryGraph r tries S) (rounds : List (Node × List Trie)) (value : ℕ)
        (entry : Entry r tries S)
        → done r tries S tracker g ≡ true
        → value + number_of_rounds g rounds entry.key < 2 ^ 64
        → (join_counts r tries S sub g rounds value entry).0
          ≡ value + number_of_rounds g rounds entry.key
    unfolding join_counts number_of_rounds
    join_counts-number g [] value entry h few = omega arith
    join_counts-number g ((part, operands) ∷ rounds) value entry h few =
        let counted = sub.result g operands entry in
        let n = counts.number g operands entry.key in
        let later = number_of_rounds g rounds entry.key in
        let same : number_of_rounds g rounds counted.key ≡ later =
          ap (number_of_rounds g rounds) (counts.kept g operands entry h) in
        let bound : value + (n + later) < 2 ^ 64 = few in
        let added : add64 value counted.value ≡ value + n =
          ap (add64 value) (counts.counted g operands entry h)
          ∙ add64_small value n (omega (arith, bound)) in
        join_counts-number g rounds (add64 value counted.value) counted h
          (omega (arith, bound, added, same))
        ∙ omega (arith, added, same)

    -- On a graph without tracked variables but with a variable to join over, the join that only
    -- counts gives the number of solutions that the other join yields, as long as that number is
    -- below 2 ^ 64, if what is left after a round has a count that depends on the key only and is
    -- counted without changing the key, and the positions and the tracked variables of the query are
    -- inverse to each other.
    pub total-evaluate_join :
        (doubles : Doubles) (boost : Labelling) (g : QueryGraph r tries S) (operands : List Trie)
        (entry : Entry r tries S)
        → IsConsistent tracker
        → done r tries S tracker g ≡ true
        → 0 < length (operands_var_ids_set g)
        → total (evaluate_join r tries S sub doubles boost tracker g operands entry).0 < 2 ^ 64
        → total (evaluate_join r tries S sub doubles boost tracker g operands entry).0
          ≡ (count_join r tries S sub doubles boost tracker g operands entry).value
    unfolding evaluate_join count_join
    total-evaluate_join doubles boost g operands entry consistent h some_var few =
        let eval_var = join_var r tries S sub doubles boost tracker g operands in
        let left = remove_var_id g eval_var true in
        let left_done = remove_var_id-done r tries S tracker g eval_var h in
        let rounds = tries.hash_join operands (var_ids_positions_in_operands g eval_var) in
        let cleared = clear_used_entry_poss r tries S tracker g entry in
        let inside =
          min_card_label-member r tries S doubles g operands tracker (isc_operands boost g)
            some_var in
        let yielded =
          ap
            (λ b.
              total
                (join_rounds r tries S sub left b (tracked_var_position tracker eval_var) rounds
                  cleared).0)
            left_done
          ∙ ap (λ o. total (join_rounds r tries S sub left true o rounds cleared).0)
              (no_position r tries S tracker g eval_var consistent h inside)
          ∙ total-join_rounds left rounds cleared left_done in
        let n = number_of_rounds left rounds cleared.key in
        let fewer : total
              (join_rounds r tries S sub left (done r tries S tracker left)
                (tracked_var_position tracker eval_var) rounds cleared).0
            < 2 ^ 64 =
          few in
        let bound : 0 + n < 2 ^ 64 = omega (arith, fewer, yielded) in
        let counted = join_counts-number left rounds 0 cleared left_done bound in
        omega (arith, yielded, counted)
