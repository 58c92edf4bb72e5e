-- ===== src/Query/Pagination.antt =====
-- LIMIT and OFFSET (libs/query/src/dice/query/operators/LimitPaginationOperator.hpp) over the
-- entries that its sub-operator yields. `limit`, `offset` and the two counters are `ssize_t`,
-- counts are `unsigned long`; all are words below 2 ^ 64, and -1 is `minus_one`.
use tentris_lib.Prelude.{ℕ, ◌+◌, ◌^◌, ◌<◌, Bool, not, ◌&&◌, List, [], ◌∷◌, if◌then◌else◌, ◌==◌, leb}
use tentris_lib.Prelude.Words.{add64, sub64, slt, minus_one}
use tentris_lib.Query.Entry.{CountedEntry}
pub mod Slice
pub mod Counts

-- `limit != -1`
abbrev limited : ℕ → Bool
limited limit = not (limit == minus_one)

module _ {K : Type 0} (limit offset : ℕ) where
  -- The loop, from the values of its two counters.
  unfoldable pub paginate_from : ℕ → ℕ → List (CountedEntry K) → List (CountedEntry K)
  paginate_from limit_counter offset_counter [] = []
  paginate_from limit_counter offset_counter (entry ∷ entries) =
      let skipped = add64 offset_counter entry.value in
      let value = sub64 skipped offset in
      let counted = add64 limit_counter entry.value in
      let after_skip = paginate_from limit_counter skipped entries in
      let after_part = paginate_from (add64 limit_counter value) skipped entries in
      let after_entry = paginate_from counted offset_counter entries in
      if slt offset_counter offset
      then (if slt offset skipped
          then (if limited limit && leb limit value
              then record { key = entry.key; value = limit } ∷ []
              else record { key = entry.key; value = value } ∷ after_part)
          else after_skip)
      else if limited limit && (counted == limit)
      then entry ∷ []
      else if limited limit && slt limit counted
      then record { key = entry.key; value = sub64 limit limit_counter } ∷ []
      else entry ∷ after_entry

  -- `LimitPaginationOperator::evaluate`
  unfoldable pub paginate : List (CountedEntry K) → List (CountedEntry K)
  unfolding paginate_from
  paginate = paginate_from 0 0
