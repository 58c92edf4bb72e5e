-- ===== src/Tests/Entries.antt =====
-- LIMIT and OFFSET over three entries.
use tentris_lib.Prelude.{map, if◌then◌else◌, ℕ, refl, ◌≡◌, List, [], ◌∷◌, some, take, drop, arith}
use tentris_lib.Prelude.Words.{minus_one, add64, sub64, slt}
use tentris_lib.Prelude.Sets.{mem, count}
use tentris_lib.Query.Distinct.{distinct}
use tentris_lib.Query.Distinct.Once.{IsIn, distinct_correct}
use tentris_lib.Query.Entry.{CountedEntry, expand}
use tentris_lib.Query.Pagination.{paginate, paginate_from}
use tentris_lib.Query.Pagination.Slice.{expand-paginate}
use tentris_lib.Query.Pagination.Counts.{paginate-zero}

abbrev entry : ℕ → ℕ → CountedEntry ℕ
entry k n = record { key = k; value = n }

abbrev entries : List (CountedEntry ℕ)
entries = entry 7 2 ∷ entry 8 3 ∷ entry 9 1 ∷ []

-- LIMIT 3 OFFSET 1 cuts the second entry.
cut : paginate 3 1 entries ≡ entry 7 1 ∷ entry 8 2 ∷ []
unfolding paginate paginate_from add64 sub64 slt
cut = refl

expand-paginate_example : expand (paginate 3 1 entries) ≡ take 3 (drop 1 (expand entries))
expand-paginate_example =
    expand-paginate (some 3) (some 1) entries (omega arith) (omega arith) (omega arith)

paginate-zero_example : paginate 0 minus_one entries ≡ entry 7 0 ∷ []
paginate-zero_example = paginate-zero (entry 7 2) (entry 8 3 ∷ entry 9 1 ∷ []) (omega arith)

-- Two entries with the key 7.
abbrev repeated : List (CountedEntry ℕ)
repeated = entry 7 2 ∷ entry 8 3 ∷ entry 7 1 ∷ []

once : distinct (λ k. k) repeated ≡ entry 7 1 ∷ entry 8 1 ∷ []
unfolding distinct
once = refl

distinct_correct_example :
    ((k : ℕ) → IsIn k (expand (distinct (λ k. k) repeated)) → IsIn k (expand repeated))
    × ((h : ℕ)
        → count h (map (λ k. k) (expand (distinct (λ k. k) repeated)))
          ≡ (if mem h (map (λ k. k) (expand repeated)) then 1 else 0))
distinct_correct_example =
    distinct_correct (λ k. k) repeated (omega arith, (omega arith, (omega arith, tt)))
