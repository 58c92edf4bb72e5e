-- ===== src/Graph/Variables/Lonely.antt =====
-- The lonely variables are those that occur once.
use tentris_lib.Prelude.{
  ℕ, suc, ◌≤◌, ◌≡◌, refl, ◌∙◌, ap, Bool, true, false, ◌||◌, List, [], ◌∷◌, ◌++◌, arith,
  if◌then◌else◌, ◌==◌, leb, Bool-cases, inl, inr,
}
use tentris_lib.Prelude.Sets.{
  mem, count, set_insert, set_erase, IsSorted, mem-set_insert, mem-set_erase, set_insert-IsSorted,
  set_erase-IsSorted, count-append,
}
use tentris_lib.Graph.{Graph, Vertex}
use tentris_lib.Graph.Variables.{LonelySets, see_var, see_vars, see_vertices, lonely_var_ids}

-- All occurrences of variables in a list of vertices, expressions included.
abbrev pub all_var_ids : {F S : Type 0} → List (Vertex F S) → List ℕ
all_var_ids [] = []
all_var_ids (v ∷ vs) = v.var_ids ++ all_var_ids vs

-- What the sets know after the variables `seen`.
record Knows (seen : List ℕ) (sets : LonelySets) : Type 0 where
  sorted : IsSorted sets.0
  lonely : (x : ℕ) → mem x sets.0 ≡ (count x seen == 1)
  visited : (x : ℕ) → mem x sets.1 ≡ leb 1 (count x seen)

counted_one : (n : ℕ) (m : Bool) → m ≡ (n == 1) → m ≡ true → n ≡ 1
counted_one n m h k = ground arith

counted_more : (n : ℕ) (m b : Bool) → m ≡ (n == 1) → m ≡ false → b ≡ leb 1 n → b ≡ true → 2 ≤ n
counted_more n m b h k h2 k2 = ground arith

counted_none : (n : ℕ) (b : Bool) → b ≡ leb 1 n → b ≡ false → n ≡ 0
counted_none n b h k = ground arith

-- The counts of two numbers agree where the numbers do.
same_count : (x v : ℕ) (seen : List ℕ) → x ≡ v → count x seen ≡ count v seen
same_count x v seen e = ap (λ y. count y seen) e

erased_once :
    (x v n c : ℕ) (m e : Bool)
    → c ≡ 1
    → (x ≡ v → n ≡ c)
    → m ≡ (n == 1)
    → e ≡ (if x == v then false else m)
    → e ≡ ((if x == v then suc n else n) == 1)
erased_once x v n c m e h k a b = ground arith

kept_once :
    (x v n c : ℕ) (m : Bool)
    → 2 ≤ c
    → (x ≡ v → n ≡ c)
    → m ≡ (n == 1)
    → m ≡ ((if x == v then suc n else n) == 1)
kept_once x v n c m h k a = ground arith

added_once :
    (x v n c : ℕ) (m e : Bool)
    → c ≡ 0
    → (x ≡ v → n ≡ c)
    → m ≡ (n == 1)
    → e ≡ (x == v || m)
    → e ≡ ((if x == v then suc n else n) == 1)
added_once x v n c m e h k a b = ground arith

still_visited :
    (x v n c : ℕ) (m : Bool)
    → 1 ≤ c
    → (x ≡ v → n ≡ c)
    → m ≡ leb 1 n
    → m ≡ leb 1 (if x == v then suc n else n)
still_visited x v n c m h k a = ground arith

now_visited :
    (x v n : ℕ) (m e : Bool)
    → m ≡ leb 1 n
    → e ≡ (x == v || m)
    → e ≡ leb 1 (if x == v then suc n else n)
now_visited x v n m e a b = ground arith

see_var-Knows :
    (v : ℕ) (seen : List ℕ) (sets : LonelySets)
    → Knows seen sets
    → Knows (v ∷ seen) (see_var v sets)
unfolding see_var
see_var-Knows v seen (lonely, visited) k = elim (Bool-cases (mem v lonely)) [
  | inl is_lonely ↦
      let c = counted_one (count v seen) (mem v lonely) (k.lonely v) is_lonely in
      rw (is_lonely) (record {
        sorted = set_erase-IsSorted v lonely k.sorted;
        lonely = λ x.
            erased_once x v (count x seen) (count v seen) (mem x lonely)
              (mem x (set_erase v lonely)) c (same_count x v seen) (k.lonely x)
              (mem-set_erase x v lonely k.sorted);
        visited = λ x.
            still_visited x v (count x seen) (count v seen) (mem x visited) (omega (arith, c))
              (same_count x v seen) (k.visited x);
      })
  | inr not_lonely ↦ elim (Bool-cases (mem v visited)) [
    | inl is_visited ↦
        let c =
          counted_more (count v seen) (mem v lonely) (mem v visited) (k.lonely v) not_lonely
            (k.visited v) is_visited in
        rw (not_lonely, is_visited)
          (record {
            sorted = k.sorted;
            lonely = λ x.
                kept_once x v (count x seen) (count v seen) (mem x lonely) c (same_count x v seen)
                  (k.lonely x);
            visited = λ x.
                still_visited x v (count x seen) (count v seen) (mem x visited) (omega (arith, c))
                  (same_count x v seen) (k.visited x);
          })
    | inr not_visited ↦
        let c = counted_none (count v seen) (mem v visited) (k.visited v) not_visited in
        rw (not_lonely, not_visited)
          (record {
            sorted = set_insert-IsSorted v lonely k.sorted;
            lonely = λ x.
                added_once x v (count x seen) (count v seen) (mem x lonely)
                  (mem x (set_insert v lonely)) c (same_count x v seen) (k.lonely x)
                  (mem-set_insert x v lonely);
            visited = λ x.
                now_visited x v (count x seen) (mem x visited) (mem x (set_insert v visited))
                  (k.visited x) (mem-set_insert x v visited);
          })
  ]
]

-- Only the counts of what was seen matter.
Knows-recount :
    (seen more : List ℕ) (sets : LonelySets)
    → ((x : ℕ) → count x seen ≡ count x more)
    → Knows seen sets
    → Knows more sets
Knows-recount seen more sets same k = record {
  sorted = k.sorted;
  lonely = λ x. k.lonely x ∙ ap (λ n. n == 1) (same x);
  visited = λ x. k.visited x ∙ ap (leb 1) (same x);
}

see_vars-Knows :
    (vs seen : List ℕ) (sets : LonelySets) → Knows seen sets → Knows (vs ++ seen) (see_vars vs sets)
unfolding see_vars
see_vars-Knows [] seen sets k = k
see_vars-Knows (v ∷ vs) seen sets k =
    Knows-recount (vs ++ v ∷ seen) (v ∷ (vs ++ seen)) (see_vars vs (see_var v sets))
      (λ x. count-insert x v vs seen)
      (see_vars-Knows vs (v ∷ seen) (see_var v sets) (see_var-Knows v seen sets k))
  where
    count-insert :
        (x v : ℕ) (vs seen : List ℕ) → count x (vs ++ v ∷ seen) ≡ count x (v ∷ (vs ++ seen))
    count-insert x v vs seen = ground (arith, count-append x vs (v ∷ seen), count-append x vs seen)

module _ {F S : Type 0} where
  see_vertices-Knows :
      (vs : List (Vertex F S)) (seen : List ℕ) (sets : LonelySets)
      → Knows seen sets
      → Knows (all_var_ids vs ++ seen) (see_vertices vs sets)
  unfolding see_vertices
  see_vertices-Knows [] seen sets k = k
  see_vertices-Knows (v ∷ vs) seen sets k =
      Knows-recount (all_var_ids vs ++ (v.var_ids ++ seen)) ((v.var_ids ++ all_var_ids vs) ++ seen)
        (see_vertices vs (see_vars v.var_ids sets)) (λ x. recount x)
        (see_vertices-Knows vs (v.var_ids ++ seen) (see_vars v.var_ids sets)
          (see_vars-Knows v.var_ids seen sets k))
    where
      recount :
          (x : ℕ)
          → count x (all_var_ids vs ++ (v.var_ids ++ seen))
            ≡ count x ((v.var_ids ++ all_var_ids vs) ++ seen)
      recount x = omega (
        arith,
        count-append x (all_var_ids vs) (v.var_ids ++ seen),
        count-append x v.var_ids seen,
        count-append x (v.var_ids ++ all_var_ids vs) seen,
        count-append x v.var_ids (all_var_ids vs),
      )

  -- The set `lonely_var_ids` is sorted without duplicates, and a variable is in it exactly if it
  -- occurs once in the variables of all vertices, operands and expressions, of the graph.
  pub lonely_var_ids_lem :
      (g : Graph F S)
      → IsSorted (lonely_var_ids g)
        × ((x : ℕ) → mem x (lonely_var_ids g) ≡ (count x (all_var_ids g.vertices) == 1))
  unfolding lonely_var_ids
  lonely_var_ids_lem g =
      let k = see_vertices-Knows g.vertices [] ([], []) nothing in
      (k.sorted, λ x. k.lonely x ∙ ap (λ n. n == 1) (drop_nil x))
    where
      nothing : Knows [] ([], [])
      nothing = record { sorted = tt; lonely = λ x. refl; visited = λ x. refl }

      drop_nil : (x : ℕ) → count x (all_var_ids g.vertices ++ []) ≡ count x (all_var_ids g.vertices)
      drop_nil x = omega (arith, count-append x (all_var_ids g.vertices) [])
