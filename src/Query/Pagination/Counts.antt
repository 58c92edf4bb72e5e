-- ===== src/Query/Pagination/Counts.antt =====
-- The counts of the entries that LIMIT and OFFSET yield.
use tentris_lib.Prelude.{ℕ, ◌+◌, ◌-◌, ◌^◌, ◌≤◌, ◌<◌, ◌≡◌, List, [], ◌∷◌, arith, Bool}
use tentris_lib.Prelude.Words.{minus_one, slt, add64_small, sub64_small, slt_small, slt-minus_one}
use tentris_lib.Query.Entry.{CountedEntry, total}
use tentris_lib.Query.Pagination.{paginate_from, paginate}

-- Every entry stands for at least one solution.
abbrev pub AllPositive : {K : Type 0} → List (CountedEntry K) → Type 0
AllPositive [] = Unit
AllPositive (e ∷ es) = (0 < e.value) × AllPositive es

module _ {K : Type 0} (limit offset : ℕ) (small : limit < 2 ^ 63) where
  past_offset-AllPositive :
      (limit_counter offset_counter : ℕ) (entries : List (CountedEntry K))
      → slt offset_counter offset ≡ Bool.false
      → limit_counter < limit
      → limit_counter + total entries < 2 ^ 63
      → AllPositive entries
      → AllPositive (paginate_from limit offset limit_counter offset_counter entries)
  unfolding paginate_from
  past_offset-AllPositive lc oc [] past lt fits pos = tt
  past_offset-AllPositive lc oc (e ∷ es) past lt fits pos = ground (
    arith,
    add64_small lc e.value,
    slt_small limit (lc + e.value),
    sub64_small limit lc,
    past_offset-AllPositive (lc + e.value) oc es,
  )

  in_offset-AllPositive :
      (offset_counter : ℕ) (entries : List (CountedEntry K))
      → 0 < limit
      → offset < 2 ^ 63
      → offset_counter ≤ offset
      → offset_counter + total entries < 2 ^ 63
      → AllPositive entries
      → AllPositive (paginate_from limit offset 0 offset_counter entries)
  unfolding paginate_from
  in_offset-AllPositive oc [] lt so le fits pos = tt
  in_offset-AllPositive oc (e ∷ es) lt so le fits pos = ground (
    arith,
    add64_small oc e.value,
    add64_small 0 (oc + e.value - offset),
    slt_small oc offset,
    slt_small offset (oc + e.value),
    slt_small (oc + e.value) offset,
    sub64_small (oc + e.value) offset,
    past_offset-AllPositive 0 oc (e ∷ es),
    past_offset-AllPositive (oc + e.value - offset) (oc + e.value) es,
    in_offset-AllPositive (oc + e.value) es,
  )

  -- With a LIMIT of at least 1, an OFFSET, and no overflow, no entry with count 0 is yielded if the
  -- sub-operator yields none.
  pub paginate-AllPositive :
      (entries : List (CountedEntry K))
      → 0 < limit
      → offset < 2 ^ 63
      → total entries < 2 ^ 63
      → AllPositive entries
      → AllPositive (paginate limit offset entries)
  unfolding paginate
  paginate-AllPositive es lt so fits pos =
      in_offset-AllPositive 0 es lt so (omega arith) (omega arith) pos

-- LIMIT 0 without OFFSET does not stop before the first entry: if its count is below 2 ^ 63, it is
-- yielded with count 0, and nothing else.
pub paginate-zero :
    {K : Type 0} (entry : CountedEntry K) (entries : List (CountedEntry K))
    → entry.value < 2 ^ 63
    → paginate 0 minus_one (entry ∷ entries) ≡ record { key = entry.key; value = 0 } ∷ []
unfolding paginate paginate_from
paginate-zero e es fits =
    ground (arith, slt-minus_one 0, add64_small 0 e.value, slt_small 0 e.value, sub64_small 0 0)
