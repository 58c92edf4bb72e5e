-- ===== src/Query/Operators/Cardinality.antt =====
-- The choice of the variable to evaluate (CardinalityEstimation.hpp). Doubles are a parameter.
use tentris_lib.Prelude.{
  map, ℕ, ◌-◌, ◌^◌, ◌<◌, ◌≡◌, Bool, true, false, not, ◌&&◌, List, [], ◌∷◌, ◌++◌, if◌then◌else◌,
  ◌==◌, ltb, arith, length, get_or, Bool-cases, inl, inr, choose_true, choose_false, subst, sym,
}
use tentris_lib.Prelude.Sets.{mem, set_insert}
use tentris_lib.Rdf.{Rdf}
use tentris_lib.Graph.{narrow}
use tentris_lib.Graph.Variables.{
  positions_from, is_operand_with, operands_with_var_id, operands_var_ids_set,
  non_optional_var_ids_set, var_ids_positions_in_operands, lonely_var_ids, var_id_in_expression,
}
use tentris_lib.Query.Registry.{Tracker}
use tentris_lib.Query.Operators.{Tries, QueryGraph, operand_at}

-- `double`
pub record Doubles : Type 1 where
  pub Double : Type 0
  pub of_nat : ℕ → Double
  pub mul : Double → Double → Double
  pub div : Double → Double → Double
  pub less_than : Double → Double → Bool
  pub equal_to : Double → Double → Bool
  pub infinity : Double

-- `std::min_element` and `std::max_element`; an empty range has no defined behaviour.
abbrev pub min_element : List ℕ → ℕ
min_element [] = 0
min_element (x ∷ []) = x
min_element (x ∷ y ∷ xs) = let m = min_element (y ∷ xs) in if ltb m x then m else x

abbrev pub max_element : List ℕ → ℕ
max_element [] = 0
max_element (x ∷ xs) = let m = max_element xs in if ltb x m then m else x

elim_if : (P : ℕ → Type 0) (b : Bool) (x y : ℕ) → P x → P y → P (if b then x else y)
elim_if P true x y h k = h
elim_if P false x y h k = k

-- The vertices that are in the independent strong component.
abbrev pub only_members : List ℕ → List ℕ → List ℕ
only_members isc_ops [] = []
only_members isc_ops (v ∷ vs) =
    let rest = only_members isc_ops vs in if mem v isc_ops then v ∷ rest else rest

module _ (r : Rdf) (tries : Tries r.Node) (S : Type 0) (doubles : Doubles) where
  open r use {Node}
  open tries use {Trie, trie_hash, get_cards}
  open doubles use {Double, of_nat, mul, div, less_than, equal_to, infinity}

  -- `isc_operands_with_var_id`
  unfoldable pub isc_operands_with_var_id : QueryGraph r tries S → List ℕ → ℕ → List ℕ
  isc_operands_with_var_id g isc_ops var_id =
      map narrow (only_members isc_ops (positions_from (is_operand_with var_id) 0 g.vertices))

  -- The loop of `calcCard`: the smallest dimension so far, the operands' hashes, the cardinalities.
  unfoldable pub scan_operands :
      List Trie → List (List ℕ) → List ℕ → ℕ → List ℕ → List Double → ℕ × List ℕ × List Double
  scan_operands operands var_positions [] min_dim_card identifiers cards =
      (min_dim_card, identifiers, cards)
  scan_operands operands var_positions (op_pos ∷ positions) min_dim_card identifiers cards =
      let operand = operand_at r tries S operands op_pos in
      let op_dim_cards = get_cards operand (get_or var_positions op_pos []) in
      scan_operands operands var_positions positions
        (if ltb (min_element op_dim_cards) min_dim_card
          then min_element op_dim_cards
          else min_dim_card)
        (set_insert (trie_hash operand) identifiers)
        (cards ++ (of_nat (max_element op_dim_cards) ∷ []))

  -- `std::accumulate`
  abbrev accumulate : Double → Double → List Double → Double
  accumulate min_dim_card a [] = a
  accumulate min_dim_card a (b ∷ cards) = accumulate min_dim_card (div (mul a min_dim_card) b) cards

  unfoldable pub calc_card : QueryGraph r tries S → List Trie → List ℕ → ℕ → Double
  unfolding scan_operands
  calc_card g operands operands_positions var =
      let (min_dim_card, identifiers, cards) =
        scan_operands operands (var_ids_positions_in_operands g var) operands_positions (2 ^ 64 - 1)
          [] [] in
      div (accumulate (of_nat min_dim_card) (of_nat 1) cards) (of_nat (length identifiers))

  -- A lonely variable that no solution needs is not a candidate.
  abbrev pub skipped : QueryGraph r tries S → Tracker → ℕ → Bool
  skipped g tracker var = mem var (lonely_var_ids g) && not (mem var tracker.tracked_vars)

  -- The loop of `getMinCardLabel`, from the estimates and the test that breaks ties.
  unfoldable pub min_label : (ℕ → Bool) → (ℕ → Double) → (ℕ → Bool) → List ℕ → ℕ → Double → ℕ
  min_label skip card in_expression [] min_var min_cardinality = min_var
  min_label skip card in_expression (var ∷ vars) min_var min_cardinality =
      if skip var
      then min_label skip card in_expression vars min_var min_cardinality
      else if less_than (card var) min_cardinality
      then min_label skip card in_expression vars var (card var)
      else if equal_to (card var) min_cardinality
      then min_label skip card in_expression vars
          (if in_expression var && not (in_expression min_var) then var else min_var)
          min_cardinality
      else min_label skip card in_expression vars min_var min_cardinality

  -- The candidates are not empty; the first of them is dereferenced without a check.
  abbrev pub first_candidate : List ℕ → ℕ
  first_candidate [] = 0
  first_candidate (var ∷ vars) = var

  -- `getMinCardLabel`, for either kind of candidates.
  unfoldable pub choose_label :
      QueryGraph r tries S → List Trie → Tracker → List ℕ → List ℕ → (ℕ → List ℕ) → ℕ
  unfolding calc_card min_label
  choose_label g operands tracker isc_ops candidates positions_of =
      if length candidates == 1
      then first_candidate candidates
      else min_label (skipped g tracker) (λ var. calc_card g operands (positions_of var) var)
          (var_id_in_expression g isc_ops) candidates (first_candidate candidates) infinity

  unfoldable pub min_card_label : QueryGraph r tries S → List Trie → Tracker → List ℕ → ℕ
  unfolding choose_label
  min_card_label g operands tracker isc_ops =
      choose_label g operands tracker isc_ops (operands_var_ids_set g) (operands_with_var_id g)

  unfoldable pub min_card_label_optional : QueryGraph r tries S → List Trie → Tracker → List ℕ → ℕ
  unfolding choose_label isc_operands_with_var_id
  min_card_label_optional g operands tracker isc_ops =
      choose_label g operands tracker isc_ops (non_optional_var_ids_set g isc_ops)
        (isc_operands_with_var_id g isc_ops)

  -- What holds of the first variable and of every candidate that is not skipped holds of the choice.
  min_label-keeps :
      (P : ℕ → Type 0) (skip : ℕ → Bool) (card : ℕ → Double) (in_expression : ℕ → Bool)
      (vars : List ℕ) (min_var : ℕ) (min_cardinality : Double)
      → P min_var
      → ((v : ℕ) → mem v vars ≡ true → P v)
      → P (min_label skip card in_expression vars min_var min_cardinality)
  unfolding min_label
  min_label-keeps P skip card in_expression [] min_var m h k = h
  min_label-keeps P skip card in_expression (var ∷ vars) min_var m h k =
      let rest = λ (v : ℕ) (c : Double) (p : P v).
        min_label-keeps P skip card in_expression vars v c p
          (λ w inside. k w (ground (arith, inside))) in
      let here = k var (ground arith) in
      elim (Bool-cases (skip var)) [
        | inl skipped ↦ subst P (sym (choose_true _ _ _ skipped)) (rest min_var m h)
        | inr candidate ↦
            subst P (sym (choose_false _ _ _ candidate))
              (elim (Bool-cases (less_than (card var) m)) [
                | inl less ↦ subst P (sym (choose_true _ _ _ less)) (rest var (card var) here)
                | inr more ↦
                    subst P (sym (choose_false _ _ _ more))
                      (elim (Bool-cases (equal_to (card var) m)) [
                        | inl tie ↦ subst P (sym (choose_true _ _ _ tie)) (
                            rest _ m (
                              elim_if P (in_expression var && not (in_expression min_var)) var
                                min_var here h))
                        | inr greater ↦
                            subst P (sym (choose_false _ _ _ greater)) (rest min_var m h)
                      ])
              ])
      ]

  first-member :
      (candidates : List ℕ)
      → 0 < length candidates
      → mem (first_candidate candidates) candidates ≡ true
  first-member [] h = absurd (omega (arith, h))
  first-member (var ∷ vars) h = ground arith

  -- The variable to evaluate is one of the operands' variables, whatever the estimates are, if the
  -- operands have any.
  pub min_card_label-member :
      (g : QueryGraph r tries S) (operands : List Trie) (tracker : Tracker) (isc_ops : List ℕ)
      → 0 < length (operands_var_ids_set g)
      → mem (min_card_label g operands tracker isc_ops) (operands_var_ids_set g) ≡ true
  unfolding min_card_label choose_label
  min_card_label-member g operands tracker isc_ops h =
      let candidates = operands_var_ids_set g in
      elim_if (λ v. mem v candidates ≡ true) (length candidates == 1) _ _
        (first-member candidates h)
        (min_label-keeps (λ v. mem v candidates ≡ true) _ _ _ candidates
          (first_candidate candidates) infinity (first-member candidates h) (λ v inside. inside))
