-- ===== src/Query/Distinct.antt =====
-- DISTINCT (libs/query/src/dice/query/operators/DistinctOperator.hpp). The hash function of keys is
-- that of a library, a parameter; the operator keeps hashes only, not keys.
use tentris_lib.Prelude.{ℕ, List, [], ◌∷◌, if◌then◌else◌}
use tentris_lib.Prelude.Sets.{mem}
use tentris_lib.Query.Entry.{CountedEntry}
pub mod Once

module _ {K : Type 0} (hash : K → ℕ) where
  -- The loop, with the set `found_entries`.
  unfoldable pub distinct_from : List ℕ → List (CountedEntry K) → List (CountedEntry K)
  distinct_from found_entries [] = []
  distinct_from found_entries (entry ∷ entries) =
      let skipped = distinct_from found_entries entries in
      let later = distinct_from (hash entry.key ∷ found_entries) entries in
      if mem (hash entry.key) found_entries
      then skipped
      else record { key = entry.key; value = 1 } ∷ later

  -- `DistinctOperator::evaluate`, over what the projection or the aggregation yields.
  unfoldable pub distinct : List (CountedEntry K) → List (CountedEntry K)
  unfolding distinct_from
  distinct = distinct_from []
