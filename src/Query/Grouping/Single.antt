-- ===== src/Query/Grouping/Single.antt =====
-- The only group of a query that aggregates without GROUP BY.
use tentris_lib.Prelude.{
  ℕ, ◌≡◌, refl, ap, ◌∙◌, List, [], ◌∷◌, ◌++◌, map, if◌then◌else◌, ◌==◌, arith,
}
use tentris_lib.Rdf.{Rdf}
use tentris_lib.Expressions.Evaluate.{evaluate, clone}
use tentris_lib.Expressions.Grouped.{update_each}
use tentris_lib.Query.Entry.{CountedEntry, expand}
use tentris_lib.Query.Project.{copy, Mapping, update_mapping, evaluate_mapping}
use tentris_lib.Query.Grouping.{update_times, update_entries, evaluate_group}
use tentris_lib.Query.Grouping.States.{update_rows, update_times-rows, evaluate-update_rows}

module _ (r : Rdf) where
  open r use {Node, Variable}

  update_rows-append :
      (exprs : Mapping r) (xs ys : List (List Node))
      → update_rows r exprs (xs ++ ys) ≡ update_rows r (update_rows r exprs xs) ys
  update_rows-append exprs [] ys = refl
  update_rows-append exprs (x ∷ xs) ys = update_rows-append (update_mapping r exprs x) xs ys

  update_entries-expand :
      (exprs : Mapping r) (entries : List (CountedEntry (List Node)))
      → update_entries r exprs entries ≡ update_rows r exprs (expand entries)
  unfolding update_entries
  update_entries-expand exprs [] = refl
  update_entries-expand exprs (e ∷ entries) =
      update_entries-expand (update_times r e.value exprs e.key) entries
      ∙ update_times-rows r e.value exprs e.key (expand entries)

  told_rows :
      (size : ℕ) (exprs : Mapping r) (entries : List (CountedEntry (List Node)))
      → (if size == 0 then exprs else update_entries r exprs entries)
        ≡ update_rows r exprs (if size == 0 then [] else expand entries)
  told_rows size exprs entries = ground (arith, update_entries-expand exprs entries)

  -- A query that aggregates without GROUP BY has one solution, which occurs once: the values of the
  -- projected expressions when they are told of every solution as often as it occurs, or of none if
  -- the graph is empty.
  pub evaluate_group_correct :
      (solution_mapping : Mapping r) (size : ℕ) (entries : List (CountedEntry (List Node)))
      → evaluate_group r solution_mapping size entries
        ≡ record {
          key =
              map
                (λ e.
                  evaluate r (update_each r (clone r e) (if size == 0 then [] else expand entries)))
                solution_mapping;
          value = 1;
        }
          ∷ []
  unfolding evaluate_group
  evaluate_group_correct solution_mapping size entries =
      ap (λ key. record { key = key; value = 1 } ∷ [])
        (ap (evaluate_mapping r) (told_rows size (copy r solution_mapping) entries)
          ∙ evaluate-update_rows r solution_mapping (if size == 0 then [] else expand entries))
