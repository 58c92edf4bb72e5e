-- ===== src/Query/Operators/Agreement/Unions.antt =====
-- The union that counts against the union that yields.
use tentris_lib.Prelude.{
  map, ℕ, ◌+◌, ◌^◌, ◌<◌, ◌≡◌, refl, ap, sym, ◌∙◌, true, not, List, [], ◌∷◌, ◌++◌, if◌then◌else◌,
  ◌==◌, arith, Bool-cases, inl, inr, choose_true, choose_false, subst,
}
use tentris_lib.Prelude.Words.{add64, add64_small}
use tentris_lib.Rdf.{Rdf}
use tentris_lib.Graph.{narrow, size, range_from}
use tentris_lib.Graph.Components.{Labelling, ends, sub_odg, union_components}
use tentris_lib.Query.Entry.{total}
use tentris_lib.Query.Registry.{Tracker}
use tentris_lib.Query.Registry.Tracked.{IsConsistent}
use tentris_lib.Query.Operators.{
  Tries, Entry, QueryGraph, SubOperators, extract_operands, done, clear_used_entry_poss,
  yield_counted,
}
use tentris_lib.Query.Operators.Union.{union_rounds, union_counts, evaluate_union, count_union}
use tentris_lib.Query.Operators.Done.{part-done, clear-done}
use tentris_lib.Query.Operators.Agreement.{Counts, total-append, total-yield_counted}

counted_in :
    (value c n : ℕ)
    → c ≡ n
    → value + n < 2 ^ 64
    → (if not (c == 0) then add64 value c else value) ≡ value + n
counted_in value c n same few = ground (arith, same, few, add64_small value c)

module _ (r : Rdf) (tries : Tries r.Node) (S : Type 0) (sub : SubOperators r tries S) where
  open r use {Node}
  open tries use {Trie}

  module _ (tracker : Tracker) (counts : Counts r tries S sub tracker) where
    module _ (operands : List Trie) where
      number_of_parts : List (QueryGraph r tries S × List ℕ) → List Node → ℕ
      number_of_parts [] key = 0
      number_of_parts ((component, positions) ∷ parts) key =
          counts.number component (extract_operands r tries S positions operands) key
          + number_of_parts parts key

      AllDone : List (QueryGraph r tries S × List ℕ) → Type 0
      AllDone [] = Unit
      AllDone ((component, positions) ∷ parts) =
          (done r tries S tracker component ≡ true) × AllDone parts

      union_counts-number :
          (parts : List (QueryGraph r tries S × List ℕ)) (value : ℕ) (entry : Entry r tries S)
          → AllDone parts
          → value + number_of_parts parts entry.key < 2 ^ 64
          → (union_counts r tries S sub tracker operands parts value entry).0
            ≡ value + number_of_parts parts entry.key
      unfolding union_counts number_of_parts AllDone
      union_counts-number [] value entry h few = omega arith
      union_counts-number ((component, positions) ∷ parts) value entry h few =
          let sub_operands = extract_operands r tries S positions operands in
          let counted = sub.result component sub_operands entry in
          let n = counts.number component sub_operands entry.key in
          let later = number_of_parts parts entry.key in
          let same : number_of_parts parts counted.key ≡ later =
            ap (number_of_parts parts) (counts.kept component sub_operands entry h.0) in
          let bound : value + (n + later) < 2 ^ 64 = few in
          let number = counts.counted component sub_operands entry h.0 in
          let more = if not (counted.value == 0) then add64 value counted.value else value in
          let added : more ≡ value + n =
            counted_in value counted.value n number (omega (arith, bound)) in
          union_counts-number parts more counted h.1 (omega (arith, bound, added, same))
          ∙ omega (arith, added, same)

      total-union_rounds :
          (parts : List (QueryGraph r tries S × List ℕ)) (entry : Entry r tries S)
          → IsConsistent tracker
          → AllDone parts
          → total (union_rounds r tries S sub tracker operands parts entry).0
            ≡ number_of_parts parts entry.key
      unfolding union_rounds number_of_parts AllDone
      total-union_rounds [] entry consistent h = refl
      total-union_rounds ((component, positions) ∷ parts) entry consistent h =
          let sub_operands = extract_operands r tries S positions operands in
          let counted = sub.result component sub_operands entry in
          let cleared = clear_used_entry_poss r tries S tracker component counted in
          let rest = (union_rounds r tries S sub tracker operands parts cleared).0 in
          let n = counts.number component sub_operands entry.key in
          ap (λ (p : List (Entry r tries S) × Entry r tries S). total p.0)
            (choose_false _ _
              (
                yield_counted r tries S counted ++ rest,
                (union_rounds r tries S sub tracker operands parts cleared).1,
              )
              (ap not h.0))
          ∙ total-append (yield_counted r tries S counted) rest
          ∙ ap (λ m. m + total rest)
              (total-yield_counted r tries S sub counted
                ∙ counts.counted component sub_operands entry h.0)
          ∙ ap (λ m. n + m)
              (total-union_rounds parts cleared consistent h.1
                ∙ ap (number_of_parts parts) (
                    clear-done r tries S tracker component counted consistent h.0
                    ∙ counts.kept component sub_operands entry h.0))

      parts_done :
          (g : QueryGraph r tries S) (components cs : List ℕ)
          → done r tries S tracker g ≡ true
          → AllDone (sub_odg g components cs)
      unfolding sub_odg AllDone
      parts_done g components [] h = tt
      parts_done g components (c ∷ cs) h =
          (part-done r tries S tracker g _ h, parts_done g components cs h)

      components_done :
          (boost : Labelling) (g : QueryGraph r tries S)
          → done r tries S tracker g ≡ true
          → AllDone (union_components boost g)
      unfolding union_components AllDone
      components_done boost g h =
          let (num, labels) = boost.connected_components (size g) (ends g.edges) in
          let components = map narrow labels in
          elim (Bool-cases (num == 1)) [
            | inl one ↦
                subst AllDone (sym (choose_true _ ((g, range_from 0 (size g)) ∷ []) _ one)) (h, tt)
            | inr many ↦
                subst AllDone (sym (choose_false _ ((g, range_from 0 (size g)) ∷ []) _ many))
                  (parts_done g components (range_from 0 num) h)
          ]

    -- On a graph without tracked variables, the union that only counts gives the number of solutions
    -- that the other union yields, as long as that number is below 2 ^ 64, if each component has a
    -- count that depends on the key only and is counted without changing the key, and the positions
    -- and the tracked variables of the query are inverse to each other.
    pub total-evaluate_union :
        (boost : Labelling) (g : QueryGraph r tries S) (operands : List Trie)
        (entry : Entry r tries S)
        → IsConsistent tracker
        → done r tries S tracker g ≡ true
        → total (evaluate_union r tries S sub boost tracker g operands entry).0 < 2 ^ 64
        → total (evaluate_union r tries S sub boost tracker g operands entry).0
          ≡ (count_union r tries S sub boost tracker g operands entry).value
    unfolding evaluate_union count_union
    total-evaluate_union boost g operands entry consistent h few =
        let parts = union_components boost g in
        let cleared = clear_used_entry_poss r tries S tracker g entry in
        let all = components_done operands boost g h in
        let yielded = total-union_rounds operands parts cleared consistent all in
        let n = number_of_parts operands parts cleared.key in
        let fewer : total (union_rounds r tries S sub tracker operands parts cleared).0 < 2 ^ 64 =
          few in
        let bound : 0 + n < 2 ^ 64 = omega (arith, fewer, yielded) in
        let counted = union_counts-number operands parts 0 cleared all bound in
        omega (arith, yielded, counted)
