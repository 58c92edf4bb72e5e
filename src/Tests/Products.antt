-- ===== src/Tests/Products.antt =====
-- The combinations of two small results.
use tentris_lib.Prelude.{ℕ, ◌≡◌, refl, List, [], ◌∷◌, Option, some, true, map, arith}
use tentris_lib.Graph.{range_from}
use tentris_lib.Query.Entry.{CountedEntry}
use tentris_lib.Query.Cartesian.{Cursor, iterate, restart, advance, update_entry_key}
use tentris_lib.Query.Cartesian.Combinations.{combinations, ranks, iterate_correct}

abbrev result : List ℕ → ℕ → CountedEntry (List ℕ)
result key n = record { key = key; value = n }

-- The first component writes position 0, the second one position 1.
abbrev cursor : Cursor ℕ
cursor = record {
  components =
      record {
        sub_result = result (1 ∷ 0 ∷ []) 2 ∷ result (2 ∷ 0 ∷ []) 1 ∷ [];
        result_poss = 0 ∷ [];
        iter_pos = 0;
      }
      ∷ record {
        sub_result = result (0 ∷ 5 ∷ []) 3 ∷ result (0 ∷ 6 ∷ []) 1 ∷ result (0 ∷ 7 ∷ []) 4 ∷ [];
        result_poss = 1 ∷ [];
        iter_pos = 0;
      }
      ∷ [];
  key = 0 ∷ 0 ∷ [];
  value = 1;
  ended = true;
}

-- The keys and counts at which the loop's body runs.
abbrev shown : Option (List (Cursor ℕ)) → List (List ℕ × ℕ)
shown Option.none = []
shown (some cursors) = map (λ (c : Cursor ℕ). (c.key, c.value)) cursors

six_products :
    shown (iterate 0 6 (restart 0 cursor))
    ≡ (1 ∷ 5 ∷ [], 6)
      ∷ (2 ∷ 5 ∷ [], 3)
      ∷ (1 ∷ 6 ∷ [], 2)
      ∷ (2 ∷ 6 ∷ [], 1)
      ∷ (1 ∷ 7 ∷ [], 8)
      ∷ (2 ∷ 7 ∷ [], 4)
      ∷ []
unfolding iterate restart advance update_entry_key
six_products = refl

iterate_correct_example :
    (cursors : List (Cursor ℕ)) × (iterate 0 (combinations cursor.components) (restart 0 cursor)
      ≡ some cursors)
    × (ranks 0 cursors ≡ range_from 0 (combinations cursor.components))
iterate_correct_example = iterate_correct 0 cursor (omega arith, (omega arith, tt))
