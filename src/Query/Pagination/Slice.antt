-- ===== src/Query/Pagination/Slice.antt =====
-- What LIMIT and OFFSET select.
use tentris_lib.Prelude.{
  ℕ, ◌+◌, ◌-◌, ◌^◌, ◌≤◌, ◌<◌, ◌≡◌, refl, List, [], ◌∷◌, arith, take, drop, replicate, Option, none,
  some, take-replicate-le, take-replicate-ge, drop-replicate-le, drop-replicate-ge, take-nil,
  drop-nil, Bool, append-nil,
}
use tentris_lib.Prelude.Words.{
  minus_one, add64, slt, add64_small, sub64_small, slt_small, slt-minus_one,
}
use tentris_lib.Query.Entry.{CountedEntry, expand, total}
use tentris_lib.Query.Pagination.{paginate_from, paginate}

-- What the query says, `none` where it has no such clause, and the word that stands for it.
abbrev pub word : Option ℕ → ℕ
word none = minus_one
word (some n) = n

abbrev pub IsSmall : Option ℕ → Type 0
IsSmall none = Unit
IsSmall (some n) = n < 2 ^ 63

-- The specification of both clauses on a solution sequence.
abbrev pub take_limit : {K : Type 0} → Option ℕ → List K → List K
take_limit none xs = xs
take_limit (some n) xs = take n xs

abbrev pub drop_offset : {K : Type 0} → Option ℕ → List K → List K
drop_offset none xs = xs
drop_offset (some n) xs = drop n xs

sub-zero : (n : ℕ) → n - 0 ≡ n
sub-zero n = omega arith

module _ {K : Type 0} where
  -- Once the offset is consumed, what is left of the limit is taken.
  paginate_from-take :
      (limit offset limit_counter offset_counter : ℕ) (entries : List (CountedEntry K))
      → limit < 2 ^ 63
      → slt offset_counter offset ≡ Bool.false
      → limit_counter ≤ limit
      → limit_counter + total entries < 2 ^ 63
      → expand (paginate_from limit offset limit_counter offset_counter entries)
        ≡ take (limit - limit_counter) (expand entries)
  unfolding paginate_from
  paginate_from-take limit offset lc oc [] small past le fits = rw take-nil
  paginate_from-take limit offset lc oc (e ∷ es) small past le fits = ground (
    arith,
    add64_small lc e.value,
    slt_small limit (lc + e.value),
    sub64_small limit lc,
    append-nil (replicate (limit - lc) e.key),
    append-nil (replicate e.value e.key),
    take-replicate-ge (limit - lc) e.value e.key (expand es),
    take-replicate-le (limit - lc) e.value e.key (expand es),
    paginate_from-take limit offset (lc + e.value) oc es,
  )

  paginate_from-rest :
      (offset limit_counter offset_counter : ℕ) (entries : List (CountedEntry K))
      → slt offset_counter offset ≡ Bool.false
      → expand (paginate_from minus_one offset limit_counter offset_counter entries)
        ≡ expand entries
  unfolding paginate_from
  paginate_from-rest offset lc oc [] past = refl
  paginate_from-rest offset lc oc (e ∷ es) past =
      ground (arith, paginate_from-rest offset (add64 lc e.value) oc es)

  -- While the offset is consumed.
  paginate_from-drop :
      (limit offset offset_counter : ℕ) (entries : List (CountedEntry K))
      → limit < 2 ^ 63
      → offset < 2 ^ 63
      → offset_counter ≤ offset
      → offset_counter + total entries < 2 ^ 63
      → expand (paginate_from limit offset 0 offset_counter entries)
        ≡ take limit (drop (offset - offset_counter) (expand entries))
  unfolding paginate_from
  paginate_from-drop limit offset oc [] small small' le fits = rw (drop-nil, take-nil)
  paginate_from-drop limit offset oc (e ∷ es) small small' le fits = ground (
    arith,
    add64_small oc e.value,
    slt_small oc offset,
    slt_small offset (oc + e.value),
    slt_small (oc + e.value) offset,
    sub64_small (oc + e.value) offset,
    add64_small 0 (oc + e.value - offset),
    append-nil (replicate limit e.key),
    drop-replicate-ge (offset - oc) e.value e.key (expand es),
    drop-replicate-le (offset - oc) e.value e.key (expand es),
    take-replicate-ge limit (oc + e.value - offset) e.key (expand es),
    take-replicate-le limit (oc + e.value - offset) e.key (expand es),
    paginate_from-take limit offset 0 oc (e ∷ es),
    paginate_from-take limit offset (oc + e.value - offset) (oc + e.value) es,
    paginate_from-drop limit offset (oc + e.value) es,
  )

  paginate_from-drop_rest :
      (offset limit_counter offset_counter : ℕ) (entries : List (CountedEntry K))
      → offset < 2 ^ 63
      → offset_counter ≤ offset
      → offset_counter + total entries < 2 ^ 63
      → expand (paginate_from minus_one offset limit_counter offset_counter entries)
        ≡ drop (offset - offset_counter) (expand entries)
  unfolding paginate_from
  paginate_from-drop_rest offset lc oc [] small le fits = rw drop-nil
  paginate_from-drop_rest offset lc oc (e ∷ es) small le fits = ground (
    arith,
    add64_small oc e.value,
    slt_small oc offset,
    slt_small offset (oc + e.value),
    slt_small (oc + e.value) offset,
    sub64_small (oc + e.value) offset,
    drop-replicate-ge (offset - oc) e.value e.key (expand es),
    drop-replicate-le (offset - oc) e.value e.key (expand es),
    paginate_from-rest offset lc oc (e ∷ es),
    paginate_from-rest offset (add64 lc (oc + e.value - offset)) (oc + e.value) es,
    paginate_from-drop_rest offset lc (oc + e.value) es,
  )

  -- While no counter can overflow, the solutions that the operator yields, each as often as its
  -- count says, are those of its sub-operator without the first OFFSET ones, cut after LIMIT; -1
  -- stands for a clause that the query does not have.
  pub expand-paginate :
      (limit offset : Option ℕ) (entries : List (CountedEntry K))
      → IsSmall limit
      → IsSmall offset
      → total entries < 2 ^ 63
      → expand (paginate (word limit) (word offset) entries)
        ≡ take_limit limit (drop_offset offset (expand entries))
  unfolding paginate
  expand-paginate none none es sl so fits =
      paginate_from-rest minus_one 0 0 es (slt-minus_one 0 (omega arith))
  expand-paginate none (some o) es sl so fits =
      rw (sub-zero o) at (paginate_from-drop_rest o 0 0 es so (omega arith) (omega arith))
  expand-paginate (some l) none es sl so fits = rw (sub-zero l) at (
      paginate_from-take l minus_one 0 0 es sl (slt-minus_one 0 (omega arith)) (omega arith)
        (omega arith))
  expand-paginate (some l) (some o) es sl so fits =
      rw (sub-zero o) at (paginate_from-drop l o 0 es sl so (omega arith) (omega arith))
