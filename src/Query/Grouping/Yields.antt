-- ===== src/Query/Grouping/Yields.antt =====
-- What the loops over the groups yield, given the state of every group.
use tentris_lib.Prelude.{
  ℕ, ◌≡◌, refl, ap, ◌∙◌, Bool, true, false, not, List, [], ◌∷◌, map, Option, some, if◌then◌else◌,
  arith,
}
use tentris_lib.Rdf.{Rdf}
use tentris_lib.Expressions.Evaluate.{evaluate, clone}
use tentris_lib.Expressions.Grouped.{update_each}
use tentris_lib.Query.Entry.{CountedEntry}
use tentris_lib.Query.Ordering.{multiset_insert, multiset_insert_all, grouped_less}
use tentris_lib.Query.Project.{copy, Mapping, evaluate_mapping}
use tentris_lib.Prelude.Maps.{find}
use tentris_lib.Query.Grouping.{
  or_empty, Clauses, Groups, group_from, filters_satisfied, passes, solution_entry, yield_groups,
  group_keys,
}
use tentris_lib.Query.Grouping.Maps.{keys, AllEntries}
use tentris_lib.Query.Grouping.States.{rows_of, update_rows}

-- The elements that pass a test.
abbrev pub keep : (ℕ → Bool) → List ℕ → List ℕ
keep p [] = []
keep p (x ∷ xs) = if p x then x ∷ keep p xs else keep p xs

map-multiset_insert :
    {A B : Type 0} (f : A → B) (less : B → B → Bool) (a : A) (xs : List A)
    → multiset_insert less (f a) (map f xs) ≡ map f (multiset_insert (λ x y. less (f x) (f y)) a xs)
unfolding multiset_insert
map-multiset_insert f less a [] = refl
map-multiset_insert f less a (x ∷ xs) = ground (arith, map-multiset_insert f less a xs)

pub map-multiset_insert_all :
    {A B : Type 0} (f : A → B) (less : B → B → Bool) (xs ys : List A)
    → multiset_insert_all less (map f xs) (map f ys)
      ≡ map f (multiset_insert_all (λ x y. less (f x) (f y)) xs ys)
unfolding multiset_insert_all
map-multiset_insert_all f less [] ys = refl
map-multiset_insert_all f less (x ∷ xs) ys =
    ap (multiset_insert_all less (map f xs)) (map-multiset_insert f less x ys)
    ∙ map-multiset_insert_all f less xs (multiset_insert (λ x y. less (f x) (f y)) x ys)

module _ (r : Rdf) where
  open r use {Node, Variable}

  module _ (query : Clauses r) (entries : List (CountedEntry (List Node))) where
    -- A copy of some expressions of the query, told of all solutions of a group.
    abbrev pub state_of : Mapping r → ℕ → Mapping r
    state_of exprs h = update_rows r (copy r exprs) (rows_of r query.grouping_key h entries)

    -- The solution of a group, which occurs once.
    abbrev pub group_solution : ℕ → CountedEntry (List Node)
    group_solution h = record {
      key = evaluate_mapping r (state_of query.solution_mapping h);
      value = 1;
    }

    -- The same by itself: every projected expression, told of the group's solutions.
    abbrev pub solution_of : ℕ → CountedEntry (List Node)
    solution_of h = record {
      key =
          map (λ e. evaluate r (update_each r (clone r e) (rows_of r query.grouping_key h entries)))
            query.solution_mapping;
      value = 1;
    }

    -- The group satisfies HAVING.
    abbrev pub satisfies_having : ℕ → Bool
    satisfies_having h = filters_satisfied r (state_of query.solution_filters h)

    -- ORDER BY on groups, whose expressions the multiset copies.
    abbrev pub group_before : ℕ → ℕ → Bool
    group_before h k =
        grouped_less r query.ordering_type (copy r (state_of query.order_by_expressions h))
          (copy r (state_of query.order_by_expressions k))

    abbrev pub start : Groups r
    start = record { grouped_solutions = []; grouped_filters = []; grouped_orderings = [] }

    abbrev pub groups : Groups r
    groups = group_from r query entries query.grouping_key start

    abbrev pub GroupIs : ℕ → Mapping r → Type 0
    GroupIs h exprs =
        (exprs ≡ state_of query.solution_mapping h) × (passes r query groups h ≡ satisfies_having h)

    yield_step :
        (b b' : Bool) (k : ℕ) (exprs : Mapping r) (l : List (CountedEntry (List Node)))
        (hs : List ℕ)
        → exprs ≡ state_of query.solution_mapping k
        → b ≡ b'
        → l ≡ map group_solution hs
        → (if not b then l else solution_entry r exprs ∷ l)
          ≡ map group_solution (if b' then k ∷ hs else hs)
    yield_step true b' k exprs l hs same e rest = ground (arith, same, rest)
    yield_step false b' k exprs l hs same e rest = ground (arith, rest)

    pub yield_groups-map :
        (m : List (ℕ × Mapping r))
        → AllEntries GroupIs m
        → yield_groups r query groups m ≡ map group_solution (keep satisfies_having (keys m))
    unfolding yield_groups
    yield_groups-map [] h = refl
    yield_groups-map ((key, exprs) ∷ m) h =
        yield_step _ _ key exprs _ _ h.0.0 h.0.1 (yield_groups-map m h.1)

    abbrev pub with_order : ℕ → ℕ × Mapping r
    with_order h = (h, copy r (state_of query.order_by_expressions h))

    keys_step :
        (b b' : Bool) (k : ℕ) (o : Option (Mapping r)) (l : List (ℕ × Mapping r)) (hs : List ℕ)
        → o ≡ some (state_of query.order_by_expressions k)
        → b ≡ b'
        → l ≡ map with_order hs
        → (if not b then l else (k, copy r (or_empty o)) ∷ l)
          ≡ map with_order (if b' then k ∷ hs else hs)
    keys_step true b' k o l hs same e rest = ground (arith, same, rest)
    keys_step false b' k o l hs same e rest = ground (arith, rest)

    pub group_keys-map :
        (m : List (ℕ × Mapping r))
        → AllEntries GroupIs m
        → AllEntries
            (λ h exprs.
              find h groups.grouped_orderings ≡ some (state_of query.order_by_expressions h))
            m
        → group_keys r query groups m ≡ map with_order (keep satisfies_having (keys m))
    unfolding group_keys
    group_keys-map [] h k = refl
    group_keys-map ((key, exprs) ∷ m) h k =
        keys_step _ _ key _ _ _ k.0 h.0.1 (group_keys-map m h.1 k.1)
