-- ===== src/Tests/Library.antt =====
-- Small instances of the hypertrie library, of the graph library and of doubles to evaluate on.
use tentris_lib.Prelude.{
  ℕ, zero, suc, ◌*◌, ◌/◌, ◌^◌, Bool, true, false, not, ◌&&◌, List, [], ◌∷◌, map, if◌then◌else◌,
  ◌==◌, ltb, length, get_or,
}
use tentris_lib.Prelude.Sets.{mem}
use tentris_lib.Graph.{range_from}
use tentris_lib.Graph.Components.{Labelling, label_of}
use tentris_lib.Query.Operators.{Tries}
use tentris_lib.Query.Operators.Cardinality.{Doubles}
use tentris_lib.Tests.Toy.{Term, error, code}

-- A trie is the list of its entries.
abbrev pub Table : Type 0
Table = List (List Term)

abbrev is_nil : {A : Type 0} → List A → Bool
is_nil [] = true
is_nil (x ∷ xs) = false

abbrev drop_at : List Term → ℕ → List Term
drop_at [] pos = []
drop_at (x ∷ xs) zero = xs
drop_at (x ∷ xs) (suc pos) = x ∷ drop_at xs pos

abbrev slice_at : Term → ℕ → Table → Table
slice_at part pos [] = []
slice_at part pos (row ∷ rows) =
    let rest = slice_at part pos rows in
    if code (get_or row pos error) == code part then drop_at row pos ∷ rest else rest

abbrev slice : Term → List ℕ → Table → Table
slice part [] rows = rows
slice part (pos ∷ positions) rows = slice_at part pos rows

abbrev slices : Term → List Table → List (List ℕ) → List Table
slices part [] positions = []
slices part (rows ∷ tables) [] = []
slices part (rows ∷ tables) (here ∷ positions) = slice part here rows ∷ slices part tables positions

abbrev column : ℕ → Table → List ℕ → List Term
column pos [] seen = []
column pos (row ∷ rows) seen =
    let part = get_or row pos error in
    let fresh = part ∷ column pos rows (code part ∷ seen) in
    let rest = column pos rows seen in if mem (code part) seen then rest else fresh

-- The parts in the first operand that has the variable.
abbrev key_parts : List Table → List (List ℕ) → List Term
key_parts [] positions = []
key_parts (rows ∷ tables) [] = []
key_parts (rows ∷ tables) ([] ∷ positions) = key_parts tables positions
key_parts (rows ∷ tables) ((pos ∷ more) ∷ positions) = column pos rows []

abbrev none_empty : List Table → Bool
none_empty [] = true
none_empty (rows ∷ tables) = not (is_nil rows) && none_empty tables

abbrev all_slices : List Table → List (List ℕ) → List Term → List (Term × List Table)
all_slices tables positions [] = []
all_slices tables positions (part ∷ parts) =
    (part, slices part tables positions) ∷ all_slices tables positions parts

abbrev full_slices : List (Term × List Table) → List (Term × List Table)
full_slices [] = []
full_slices ((part, tables) ∷ rounds) =
    let rest = full_slices rounds in if none_empty tables then (part, tables) ∷ rest else rest

abbrev pub toy_tries : Tries Term
toy_tries = record {
  Trie = Table;
  scalar = λ b. if b then [] ∷ [] else [];
  is_empty = is_nil;
  depth = λ rows. length (get_or rows 0 []);
  trie_size = λ rows. length rows;
  entries = λ rows. rows;
  trie_hash = λ rows. length rows;
  get_cards = λ rows positions. map (λ pos. length (column pos rows [])) positions;
  hash_join =
      λ tables positions. full_slices (all_slices tables positions (key_parts tables positions));
  hash_join_optional =
      λ tables positions optional. all_slices tables positions (key_parts tables positions);
}

-- Whole numbers.
abbrev pub toy_doubles : Doubles
toy_doubles = record {
  Double = ℕ;
  of_nat = λ n. n;
  mul = λ m n. m * n;
  div = λ m n. m / n;
  less_than = ltb;
  equal_to = λ m n. m == n;
  infinity = 2 ^ 64;
}

abbrev relabel : ℕ → ℕ → List ℕ → List ℕ
relabel old new labels = map (λ l. if l == old then new else l) labels

abbrev join_ends : List (ℕ × ℕ) → List ℕ → List ℕ
join_ends [] labels = labels
join_ends ((s, t) ∷ edges) labels =
    join_ends edges (relabel (label_of labels t) (label_of labels s) labels)

abbrev distinct_labels : List ℕ → List ℕ → List ℕ
distinct_labels [] seen = []
distinct_labels (l ∷ labels) seen =
    let fresh = l ∷ distinct_labels labels (l ∷ seen) in
    let rest = distinct_labels labels seen in if mem l seen then rest else fresh

abbrev index_of : ℕ → List ℕ → ℕ
index_of l [] = 0
index_of l (x ∷ xs) = let later = suc (index_of l xs) in if x == l then 0 else later

-- The labels, from 0 on.
abbrev numbered : List ℕ → ℕ × List ℕ
numbered labels =
    let distinct = distinct_labels labels [] in
    (length distinct, map (λ l. index_of l distinct) labels)

abbrev steps_from : List (ℕ × ℕ) → List ℕ → List ℕ
steps_from [] seen = seen
steps_from ((s, t) ∷ edges) seen =
    steps_from edges (if mem s seen && not (mem t seen) then t ∷ seen else seen)

abbrev reached : ℕ → List (ℕ × ℕ) → List ℕ → List ℕ
reached zero edges seen = seen
reached (suc rounds) edges seen = reached rounds edges (steps_from edges seen)

abbrev first_mutual : ℕ → List (ℕ × ℕ) → ℕ → List ℕ → ℕ
first_mutual n edges v [] = v
first_mutual n edges v (w ∷ vertices) =
    let later = first_mutual n edges v vertices in
    if mem w (reached n edges (v ∷ [])) && mem v (reached n edges (w ∷ [])) then w else later

abbrev pub toy_boost : Labelling
toy_boost = record {
  connected_components = λ n edges. numbered (join_ends edges (range_from 0 n));
  strong_components =
      λ n edges. numbered (map (λ v. first_mutual n edges v (range_from 0 n)) (range_from 0 n));
}
