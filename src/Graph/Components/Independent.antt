-- ===== src/Graph/Components/Independent.antt =====
-- The independent strong component.
use tentris_lib.Prelude.{
  ℕ, ◌<◌, ◌≡◌, refl, ap, sym, ◌∙◌, ◌+◌, ◌^◌, ◌≤◌, leb, ltb, map, Bool, true, false, not, ◌&&◌, List,
  [], ◌∷◌, if◌then◌else◌, ◌==◌, arith, Bool-cases, inl, inr, choose_true, choose_false, ==_iff,
  subst,
}
use tentris_lib.Prelude.Sets.{mem}
use tentris_lib.Graph.{Graph, Edge, AllEdges, AllEdges-map, size, range_from, narrow}
use tentris_lib.Graph.Narrow.{map-narrow, narrow_either}
use tentris_lib.Graph.Prune.Correct.{mem-range_from}
use tentris_lib.Graph.Components.{
  Labelling, label_of, drop_label, erase_entered, in_candidates, isc_operands, ends,
}

pub AllEdges-both :
    (P Q : Edge → Type 0) (es : List Edge)
    → AllEdges P es
    → AllEdges Q es
    → AllEdges (λ e. P e × Q e) es
AllEdges-both P Q [] h k = tt
AllEdges-both P Q (e ∷ es) h k = ((h.0, k.0), AllEdges-both P Q es h.1 k.1)

mem-in_candidates :
    (components candidates : List ℕ) (v : ℕ) (vs : List ℕ)
    → mem v (in_candidates components candidates vs)
      ≡ (mem v vs && mem (label_of components v) candidates)
unfolding in_candidates
mem-in_candidates components candidates v [] = refl
mem-in_candidates components candidates v (x ∷ xs) =
    ground (arith, mem-in_candidates components candidates v xs)

mem-drop_label : (c d : ℕ) (xs : List ℕ) → mem d (drop_label c xs) ≡ (not (d == c) && mem d xs)
mem-drop_label c d [] = ground arith
mem-drop_label c d (x ∷ xs) = ground (arith, mem-drop_label c d xs)

erased_stays :
    (components : List ℕ) (es : List Edge) (c : ℕ) (candidates : List ℕ)
    → mem c candidates ≡ false
    → mem c (erase_entered components es candidates) ≡ false
unfolding erase_entered
erased_stays components [] c candidates h = h
erased_stays components (e ∷ es) c candidates h =
    erased_stays components es c _
      (ground (arith, h, mem-drop_label (label_of components e.target) c candidates))

entered_erased :
    (components : List ℕ) (es : List Edge) (candidates : List ℕ)
    → AllEdges
        (λ e.
          (label_of components e.target == label_of components e.source) ≡ false
          → mem (label_of components e.target) (erase_entered components es candidates) ≡ false)
        es
unfolding erase_entered
entered_erased components [] candidates = tt
entered_erased components (e ∷ es) candidates = (
  λ other. erased_stays components es (label_of components e.target) _ (
      ground (
        arith,
        other,
        mem-drop_label (label_of components e.target) (label_of components e.target) candidates,
      )),
  entered_erased components es _,
)

same_component :
    (s t n ls lt : ℕ) (candidates : List ℕ) (in_t in_s : Bool)
    → s < n
    → ((lt == ls) ≡ false → mem lt candidates ≡ false)
    → in_t ≡ true
    → in_t ≡ (mem t (range_from 0 n) && mem lt candidates)
    → in_s ≡ (mem s (range_from 0 n) && mem ls candidates)
    → in_s ≡ true
same_component s t n ls lt candidates in_t in_s range erased inside e f =
    elim (Bool-cases (lt == ls)) [
      | inl same ↦
          let moved : mem ls candidates ≡ mem lt candidates =
            ap (λ l. mem l candidates) (sym ((==_iff lt ls).0 same)) in
          ground (arith, inside, e, f, moved, mem-range_from s 0 n, range)
      | inr other ↦ absurd (ground (arith, inside, e, erased other))
    ]

within : (v n : ℕ) → n ≤ 2 ^ 8 → (leb 0 v && ltb v (0 + n)) ≡ true → v < 2 ^ 8
within v n few h = ground (arith, few, h)

abbrev Enters : List ℕ → Edge → Type 0
Enters vs e = mem e.target vs ≡ true → mem e.source vs ≡ true

nothing_comes_in :
    (num n : ℕ) (components labels : List ℕ) (es : List Edge)
    → AllEdges (λ e. e.source < n) es
    → AllEdges
        (Enters (
          if num == 1
          then range_from 0 n
          else in_candidates components (erase_entered components es labels) (range_from 0 n)))
        es
nothing_comes_in num n components labels es range = elim (Bool-cases (num == 1)) [
  | inl one ↦
      subst (λ vs. AllEdges (Enters vs) es) (sym (choose_true _ (range_from 0 n) _ one))
        (AllEdges-map (λ e. e.source < n) (Enters (range_from 0 n))
          (λ e lt inside. ground (arith, mem-range_from e.source 0 n, lt)) es range)
  | inr many ↦
      let candidates = erase_entered components es labels in
      subst (λ vs. AllEdges (Enters vs) es) (sym (choose_false _ (range_from 0 n) _ many))
        (AllEdges-map _ (Enters (in_candidates components candidates (range_from 0 n)))
          (λ e h inside.
            same_component e.source e.target n (label_of components e.source)
              (label_of components e.target) candidates _ _ h.0 h.1 inside
              (mem-in_candidates components candidates e.target (range_from 0 n))
              (mem-in_candidates components candidates e.source (range_from 0 n)))
          es (AllEdges-both _ _ es range (entered_erased components es labels)))
]

module _ {F S : Type 0} (boost : Labelling) where
  -- No edge leads into the independent strong component from outside of it, on a graph of at most
  -- 256 vertices, if the edges leave vertices of the graph, whatever component labels the graph library
  -- gives.
  pub isc_operands-IsIndependent :
      (g : Graph F S)
      → size g ≤ 2 ^ 8
      → AllEdges (λ e. e.source < size g) g.edges
      → AllEdges
          (λ e.
            mem e.target (isc_operands boost g) ≡ true → mem e.source (isc_operands boost g) ≡ true)
          g.edges
  unfolding isc_operands
  isc_operands-IsIndependent g few range =
      let (num_components, labels) = boost.strong_components (size g) (ends g.edges) in
      let components = map narrow labels in
      let first = map narrow (range_from 0 num_components) in
      let all = range_from 0 (size g) in
      let candidates = erase_entered components g.edges first in
      let low = λ (v : ℕ) (m : mem v all ≡ true).
        within v (size g) few (sym (mem-range_from v 0 (size g)) ∙ m) in
      let same =
        narrow_either (num_components == 1) all (in_candidates components candidates all)
          (map-narrow all low)
          (map-narrow (in_candidates components candidates all)
            (λ v m. low v (ground (arith, m, mem-in_candidates components candidates v all)))) in
      subst (λ vs. AllEdges (Enters vs) g.edges) (sym same)
        (nothing_comes_in num_components (size g) components first g.edges range)
