-- ===== src/Query/Grouping/States.antt =====
-- The state of each group after the loop over the entries.
use tentris_lib.Prelude.{
  ℕ, zero, suc, ◌≡◌, refl, ap, sym, ◌∙◌, Bool, false, ◌||◌, List, [], ◌∷◌, ◌++◌, map, Option, none,
  some, if◌then◌else◌, ◌==◌, arith, replicate, length,
}
use tentris_lib.Rdf.{Rdf}
use tentris_lib.Expressions.Ast.{Expr}
use tentris_lib.Expressions.Evaluate.{evaluate, update_value, clone}
use tentris_lib.Expressions.Grouped.{update_each}
use tentris_lib.Query.Entry.{CountedEntry}
use tentris_lib.Query.Ordering.Weak.{AllPlain, values_at}
use tentris_lib.Query.Project.{copy, Mapping, update_mapping, evaluate_mapping}
use tentris_lib.Query.Project.Order.{
  evaluate-update_mapping, update_mapping-AllPlain, values_at-update_mapping,
}
use tentris_lib.Prelude.Maps.{find}
use tentris_lib.Query.Grouping.{upsert, update_times}
use tentris_lib.Query.Grouping.Maps.{or_else, find-upsert, HasDistinctKeys, upsert-HasDistinctKeys}

module _ (r : Rdf) where
  open r use {Node, Variable, hash_key}

  -- The hash of the grouping key of a solution.
  abbrev pub group_hash : Mapping r → List Node → ℕ
  group_hash grouping_key key = hash_key (values_at r grouping_key key)

  -- The solutions of a group, each as often as it occurs, in order.
  abbrev pub rows_of : Mapping r → ℕ → List (CountedEntry (List Node)) → List (List Node)
  rows_of grouping_key h [] = []
  rows_of grouping_key h (e ∷ es) =
      if group_hash grouping_key e.key == h
      then replicate e.value e.key ++ rows_of grouping_key h es
      else rows_of grouping_key h es

  -- Some entry belongs to the group.
  abbrev pub occurs : Mapping r → ℕ → List (CountedEntry (List Node)) → Bool
  occurs grouping_key h [] = false
  occurs grouping_key h (e ∷ es) = group_hash grouping_key e.key == h || occurs grouping_key h es

  -- Expressions that are told of several solutions.
  abbrev pub update_rows : Mapping r → List (List Node) → Mapping r
  update_rows exprs [] = exprs
  update_rows exprs (key ∷ rows) = update_rows (update_mapping r exprs key) rows

  pub update_times-rows :
      (n : ℕ) (exprs : Mapping r) (key : List Node) (rows : List (List Node))
      → update_rows (update_times r n exprs key) rows ≡ update_rows exprs (replicate n key ++ rows)
  unfolding update_times
  update_times-rows zero exprs key rows = refl
  update_times-rows (suc n) exprs key rows =
      update_times-rows n (update_mapping r exprs key) key rows

  -- The grouping key's expressions do not remember earlier solutions.
  rows_of-update :
      (gk : Mapping r) (key : List Node) (h : ℕ) (es : List (CountedEntry (List Node)))
      → AllPlain gk
      → rows_of (update_mapping r gk key) h es ≡ rows_of gk h es
  rows_of-update gk key h [] plain = refl
  rows_of-update gk key h (e ∷ es) plain =
      cc (values_at-update_mapping r gk key e.key plain, rows_of-update gk key h es plain)

  occurs-update :
      (gk : Mapping r) (key : List Node) (h : ℕ) (es : List (CountedEntry (List Node)))
      → AllPlain gk
      → occurs (update_mapping r gk key) h es ≡ occurs gk h es
  occurs-update gk key h [] plain = refl
  occurs-update gk key h (e ∷ es) plain =
      cc (values_at-update_mapping r gk key e.key plain, occurs-update gk key h es plain)

  -- What an entry does to the expressions of its group.
  abbrev pub told : CountedEntry (List Node) → Mapping r → Mapping r
  told e exprs = update_times r e.value exprs e.key

  -- The loop on a single one of the maps.
  abbrev pub fold_map :
      Mapping r
      → Mapping r
      → List (CountedEntry (List Node))
      → List (ℕ × Mapping r)
      → List (ℕ × Mapping r)
  fold_map gk fresh [] m = m
  fold_map gk fresh (e ∷ es) m =
      fold_map (update_mapping r gk e.key) fresh es
        (upsert (hash_key (evaluate_mapping r (update_mapping r gk e.key))) fresh (told e) m)

  abbrev pub grown :
      Mapping r
      → Mapping r
      → ℕ
      → List (CountedEntry (List Node))
      → Option (Mapping r)
      → Option (Mapping r)
  grown gk fresh h es none =
      if occurs gk h es then some (update_rows fresh (rows_of gk h es)) else none
  grown gk fresh h es (some exprs) = some (update_rows exprs (rows_of gk h es))

  grown-nil : (gk fresh : Mapping r) (h : ℕ) (o : Option (Mapping r)) → grown gk fresh h [] o ≡ o
  grown-nil gk fresh h none = refl
  grown-nil gk fresh h (some exprs) = refl

  grown-cons :
      (gk fresh : Mapping r) (h : ℕ) (e : CountedEntry (List Node))
      (es : List (CountedEntry (List Node))) (o : Option (Mapping r))
      → grown gk fresh h es (
          if group_hash gk e.key == h
          then some (update_times r e.value (or_else fresh o) e.key)
          else o)
        ≡ grown gk fresh h (e ∷ es) o
  grown-cons gk fresh h e es none =
      ground (arith, update_times-rows e.value fresh e.key (rows_of gk h es))
  grown-cons gk fresh h e es (some exprs) =
      ground (arith, update_times-rows e.value exprs e.key (rows_of gk h es))

  grown-update :
      (gk fresh : Mapping r) (key : List Node) (h : ℕ) (es : List (CountedEntry (List Node)))
      (o : Option (Mapping r))
      → AllPlain gk
      → grown (update_mapping r gk key) fresh h es o ≡ grown gk fresh h es o
  grown-update gk fresh key h es none plain =
      cc (rows_of-update gk key h es plain, occurs-update gk key h es plain)
  grown-update gk fresh key h es (some exprs) plain = cc (rows_of-update gk key h es plain)

  pub find-fold_map :
      (gk fresh : Mapping r) (h : ℕ) (es : List (CountedEntry (List Node)))
      (m : List (ℕ × Mapping r))
      → AllPlain gk
      → find h (fold_map gk fresh es m) ≡ grown gk fresh h es (find h m)
  find-fold_map gk fresh h [] m plain = sym (grown-nil gk fresh h (find h m))
  find-fold_map gk fresh h (e ∷ es) m plain =
      let gk' = update_mapping r gk e.key in
      let change = told e in
      let hash = hash_key (evaluate_mapping r gk') in
      find-fold_map gk' fresh h es (upsert hash fresh change m)
        (update_mapping-AllPlain r gk e.key plain)
      ∙ grown-update gk fresh e.key h es _ plain
      ∙ ap (grown gk fresh h es) (find-upsert h hash fresh change m)
      ∙ ap
          (λ k.
            grown gk fresh h es
              (if hash_key k == h then some (change (or_else fresh (find h m))) else find h m))
          (evaluate-update_mapping r gk e.key)
      ∙ grown-cons gk fresh h e es (find h m)

  pub fold_map-HasDistinctKeys :
      (gk fresh : Mapping r) (es : List (CountedEntry (List Node))) (m : List (ℕ × Mapping r))
      → HasDistinctKeys m
      → HasDistinctKeys (fold_map gk fresh es m)
  fold_map-HasDistinctKeys gk fresh [] m d = d
  fold_map-HasDistinctKeys gk fresh (e ∷ es) m d =
      fold_map-HasDistinctKeys (update_mapping r gk e.key) fresh es _
        (upsert-HasDistinctKeys _ fresh (told e) m d)

  length-update_mapping :
      (exprs : Mapping r) (key : List Node) → length (update_mapping r exprs key) ≡ length exprs
  unfolding update_mapping
  length-update_mapping [] key = refl
  length-update_mapping (e ∷ exprs) key = ap suc (length-update_mapping exprs key)

  pub length-update_rows :
      (exprs : Mapping r) (rows : List (List Node)) → length (update_rows exprs rows) ≡ length exprs
  length-update_rows exprs [] = refl
  length-update_rows exprs (key ∷ rows) =
      length-update_rows (update_mapping r exprs key) rows ∙ length-update_mapping exprs key

  pub update_rows-nil : (rows : List (List Node)) → update_rows [] rows ≡ []
  unfolding update_mapping
  update_rows-nil [] = refl
  update_rows-nil (key ∷ rows) = update_rows-nil rows

  update_rows-cons :
      (e : Expr Node Variable) (exprs : Mapping r) (rows : List (List Node))
      → update_rows (e ∷ exprs) rows ≡ update_each r e rows ∷ update_rows exprs rows
  unfolding update_mapping update_each
  update_rows-cons e exprs [] = refl
  update_rows-cons e exprs (key ∷ rows) =
      update_rows-cons (update_value r e key) (update_mapping r exprs key) rows

  -- The expressions of a group, evaluated, are the values of the single expressions.
  pub evaluate-update_rows :
      (exprs : Mapping r) (rows : List (List Node))
      → evaluate_mapping r (update_rows (copy r exprs) rows)
        ≡ map (λ e. evaluate r (update_each r (clone r e) rows)) exprs
  unfolding evaluate_mapping
  evaluate-update_rows [] rows = ap (evaluate_mapping r) (update_rows-nil rows)
  evaluate-update_rows (e ∷ exprs) rows =
      ap (evaluate_mapping r) (update_rows-cons (clone r e) (copy r exprs) rows)
      ∙ ap (◌∷◌ (evaluate r (update_each r (clone r e) rows))) (evaluate-update_rows exprs rows)
