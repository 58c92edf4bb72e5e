-- ===== src/Expressions/Logical/Kleene.antt =====
-- The logical operators of SPARQL as three-valued logic, where an error is the third value.
use tentris_lib.Prelude.{
  Bool, true, false, not, ◌≡◌, refl, List, [], ◌∷◌, map, Option, none, some, arith, if◌then◌else◌,
}
use tentris_lib.Rdf.{Rdf, BooleanLaws}
use tentris_lib.Expressions.Logical.{and_from, evaluate_and, or_from, evaluate_or, evaluate_not}

-- The truth tables of the SPARQL recommendation (section 17.2), `none` for an error.
abbrev pub kleene_and : Option Bool → Option Bool → Option Bool
kleene_and (some false) b = some false
kleene_and (some true) b = b
kleene_and none (some false) = some false
kleene_and none _ = none

abbrev pub kleene_or : Option Bool → Option Bool → Option Bool
kleene_or (some true) b = some true
kleene_or (some false) b = b
kleene_or none (some true) = some true
kleene_or none _ = none

abbrev pub kleene_not : Option Bool → Option Bool
kleene_not none = none
kleene_not (some b) = some (not b)

abbrev pub all_of : List (Option Bool) → Option Bool
all_of [] = some true
all_of (b ∷ bs) = kleene_and b (all_of bs)

abbrev pub any_of : List (Option Bool) → Option Bool
any_of [] = some false
any_of (b ∷ bs) = kleene_or b (any_of bs)

-- What an operand's value means in a logical operator: an error if it is null, else its effective
-- boolean value.
abbrev pub truth : (r : Rdf) → r.Node → Option Bool
truth r value = if r.is_null value then none else some (r.ebv value)

module _ (r : Rdf) (laws : BooleanLaws r) where
  open r use {Node}

  truth-and_from :
      (values : List Node)
      → (truth r (and_from r false values) ≡ all_of (map (truth r) values))
        × (truth r (and_from r true values) ≡ kleene_and none (all_of (map (truth r) values)))
  unfolding and_from
  truth-and_from [] =
      ground (arith, laws.null-null_node, laws.null-make_boolean true, laws.ebv-make_boolean true)
  truth-and_from (v ∷ vs) =
      ground (arith, laws.null-make_boolean false, laws.ebv-make_boolean false, truth-and_from vs)

  truth-or_from :
      (values : List Node)
      → (truth r (or_from r false values) ≡ any_of (map (truth r) values))
        × (truth r (or_from r true values) ≡ kleene_or none (any_of (map (truth r) values)))
  unfolding or_from
  truth-or_from [] =
      ground (arith, laws.null-null_node, laws.null-make_boolean false, laws.ebv-make_boolean false)
  truth-or_from (v ∷ vs) =
      ground (arith, laws.null-make_boolean true, laws.ebv-make_boolean true, truth-or_from vs)

  -- The conjunction and the disjunction of any number of operands, stopping early and noting
  -- errors on the way, compute the three-valued conjunction and disjunction of the operands.
  pub truth-and_or :
      (values : List Node)
      → (truth r (evaluate_and r values) ≡ all_of (map (truth r) values))
        × (truth r (evaluate_or r values) ≡ any_of (map (truth r) values))
  unfolding evaluate_and evaluate_or
  truth-and_or values = ((truth-and_from values).0, (truth-or_from values).0)

  truth-not : (value : Node) → truth r (evaluate_not r value) ≡ kleene_not (truth r value)
  unfolding evaluate_not
  truth-not v = ground (
    arith,
    laws.null-null_node,
    laws.null-make_boolean true,
    laws.ebv-make_boolean true,
    laws.null-make_boolean false,
    laws.ebv-make_boolean false,
  )

  any_of-not :
      (values : List Node)
      → any_of (map (truth r) (map (evaluate_not r) values))
        ≡ kleene_not (all_of (map (truth r) values))
  any_of-not [] = refl
  any_of-not (v ∷ vs) = ground (arith, any_of-not vs, truth-not v)

  -- De Morgan: the negation of a conjunction means the same as the disjunction of the negations,
  -- errors included.
  pub not-and :
      (values : List Node)
      → truth r (evaluate_not r (evaluate_and r values))
        ≡ truth r (evaluate_or r (map (evaluate_not r) values))
  not-and values = cc (
    truth-not (evaluate_and r values),
    (truth-and_or values).0,
    (truth-and_or (map (evaluate_not r) values)).1,
    any_of-not values,
  )
