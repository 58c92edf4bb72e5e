-- ===== src/Query/Ordering/Sorted.antt =====
-- What a multiset makes of the elements that are inserted.
use mathlib.Core.List.{Perm, perm_middle}
use mathlib.Core.List.Perm
use tentris_lib.Prelude.{
  subst, Bool, true, false, not, ◌&&◌, ◌≡◌, refl, sym, ap, ◌∙◌, List, [], ◌∷◌, ◌++◌, arith,
  if◌then◌else◌, append_assoc, append-nil, Bool-cases, inl, inr,
}
use tentris_lib.Query.Ordering.{multiset_insert, multiset_insert_all}
use tentris_lib.Query.Ordering.Weak.{StrictWeak}

module _ {A : Type 0} (less : A → A → Bool) where
  -- No element is before the given one.
  abbrev pub NoneBefore : A → List A → Type 0
  NoneBefore a [] = Unit
  NoneBefore a (x ∷ xs) = (less x a ≡ false) × NoneBefore a xs

  -- No element is before an earlier one.
  abbrev pub IsOrdered : List A → Type 0
  IsOrdered [] = Unit
  IsOrdered (x ∷ xs) = NoneBefore x xs × IsOrdered xs

  -- The elements that are equivalent to the given one, in order.
  abbrev pub equivalent_to : A → List A → List A
  equivalent_to a [] = []
  equivalent_to a (x ∷ xs) =
      if not (less a x) && not (less x a) then x ∷ equivalent_to a xs else equivalent_to a xs

  module _ (weak : StrictWeak less) where
    NoneBefore-insert :
        (a x : A) (xs : List A)
        → less a x ≡ false
        → NoneBefore x xs
        → NoneBefore x (multiset_insert less a xs)
    unfolding multiset_insert
    NoneBefore-insert a x [] h k = (h, tt)
    NoneBefore-insert a x (y ∷ ys) h k = ground (arith, NoneBefore-insert a x ys h k.1)

    NoneBefore-less : (a x : A) (xs : List A) → less a x ≡ true → NoneBefore x xs → NoneBefore a xs
    NoneBefore-less a x [] h k = tt
    NoneBefore-less a x (y ∷ ys) h k =
        (weak.transitive y x a k.0 (weak.asymmetric a x h), NoneBefore-less a x ys h k.1)

    multiset_insert-IsOrdered :
        (a : A) (xs : List A) → IsOrdered xs → IsOrdered (multiset_insert less a xs)
    unfolding multiset_insert
    multiset_insert-IsOrdered a [] h = (tt, tt)
    multiset_insert-IsOrdered a (x ∷ xs) h = ground (
      arith,
      weak.asymmetric a x,
      NoneBefore-less a x xs,
      NoneBefore-insert a x xs,
      multiset_insert-IsOrdered a xs h.1,
    )

    -- Nothing behind a later element is equivalent to an earlier one.
    equivalent_to-before :
        (p a x : A) (xs : List A)
        → less a x ≡ true
        → NoneBefore x xs
        → less a p ≡ false
        → less p a ≡ false
        → equivalent_to p (x ∷ xs) ≡ []
    equivalent_to-before p a x [] h k l m =
        ground (arith, weak.transitive a p x, weak.transitive p x a)
    equivalent_to-before p a x (y ∷ ys) h k l m = ground (
      arith,
      weak.transitive a p x,
      weak.transitive a p y,
      weak.transitive a y x,
      equivalent_to-before p a x ys h k.1 l m,
    )

    equivalent_to-insert :
        (p a : A) (xs : List A)
        → IsOrdered xs
        → equivalent_to p (multiset_insert less a xs)
          ≡ equivalent_to p xs ++ equivalent_to p (a ∷ [])
    unfolding multiset_insert
    equivalent_to-insert p a [] h = refl
    equivalent_to-insert p a (x ∷ xs) h = ground (
      arith,
      equivalent_to-before p a x xs,
      append-nil (equivalent_to p (x ∷ xs)),
      append-nil (equivalent_to p xs),
      equivalent_to-insert p a xs h.1,
    )

  multiset_insert-perm : (a : A) (xs : List A) → Perm (a ∷ xs) (multiset_insert less a xs)
  unfolding multiset_insert
  multiset_insert-perm a [] = Perm.refl (a ∷ [])
  multiset_insert-perm a (x ∷ xs) = elim (Bool-cases (less a x)) [
    | inl before ↦ rw (before) (Perm.refl (a ∷ x ∷ xs))
    | inr behind ↦
        rw (behind) (Perm.trans (Perm.swap x a xs) (Perm.cons x (multiset_insert-perm a xs)))
  ]

  multiset_insert_all-perm : (xs ys : List A) → Perm (xs ++ ys) (multiset_insert_all less xs ys)
  unfolding multiset_insert_all
  multiset_insert_all-perm [] ys = Perm.refl ys
  multiset_insert_all-perm (x ∷ xs) ys = Perm.trans (Perm.symm (perm_middle xs ys)) (
      Perm.trans (Perm.append_left xs (multiset_insert-perm x ys))
        (multiset_insert_all-perm xs (multiset_insert less x ys)))

  multiset_insert_all-IsOrdered :
      StrictWeak less → (xs ys : List A) → IsOrdered ys → IsOrdered (multiset_insert_all less xs ys)
  unfolding multiset_insert_all
  multiset_insert_all-IsOrdered weak [] ys h = h
  multiset_insert_all-IsOrdered weak (x ∷ xs) ys h =
      multiset_insert_all-IsOrdered weak xs (multiset_insert less x ys)
        (multiset_insert-IsOrdered weak x ys h)

  equivalent_to-insert_all :
      StrictWeak less
      → (p : A) (xs ys : List A) → IsOrdered ys
      → equivalent_to p (multiset_insert_all less xs ys) ≡ equivalent_to p ys ++ equivalent_to p xs
  unfolding multiset_insert_all
  equivalent_to-insert_all weak p [] ys h = sym (append-nil (equivalent_to p ys))
  equivalent_to-insert_all weak p (x ∷ xs) ys h =
      equivalent_to-insert_all weak p xs (multiset_insert less x ys)
        (multiset_insert-IsOrdered weak x ys h)
      ∙ ap (λ l. l ++ equivalent_to p xs) (equivalent_to-insert weak p x ys h)
      ∙ append_assoc (equivalent_to p ys) (equivalent_to p (x ∷ [])) (equivalent_to p xs)
      ∙ ap (λ l. equivalent_to p ys ++ l) (single x xs)
    where
      single :
          (x : A) (xs : List A)
          → equivalent_to p (x ∷ []) ++ equivalent_to p xs ≡ equivalent_to p (x ∷ xs)
      single x xs = ground arith

  -- Inserting a sequence of elements into an empty multiset gives a permutation of it in which no
  -- element is before an earlier one, and in which the elements equivalent to any given one stand in
  -- the order in which they were inserted, if the comparator is a strict weak order.
  pub multiset_insert_all_correct :
      StrictWeak less
      → (xs : List A)
      → Perm xs (multiset_insert_all less xs [])
        × IsOrdered (multiset_insert_all less xs [])
        × ((p : A) → equivalent_to p (multiset_insert_all less xs []) ≡ equivalent_to p xs)
  multiset_insert_all_correct weak xs = (
    subst (λ l. Perm l (multiset_insert_all less xs [])) (append-nil xs)
        (multiset_insert_all-perm xs []),
    multiset_insert_all-IsOrdered weak xs [] tt,
    λ p. equivalent_to-insert_all weak p xs [] tt,
  )
