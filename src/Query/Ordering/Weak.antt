-- ===== src/Query/Ordering/Weak.antt =====
-- Both comparators are strict weak orders.
use tentris_lib.Prelude.{
  suc, Bool, true, false, ◌≡◌, refl, sym, ap, ◌∙◌, length, List, [], ◌∷◌, arith,
}
use tentris_lib.Rdf.{Rdf}
use tentris_lib.Expressions.Ast.{Expr}
use tentris_lib.Expressions.Evaluate.{evaluate}
use tentris_lib.Expressions.Grouped.{IsPlain, value_at, update_again}
use tentris_lib.Expressions.Grouped.Extremes.{NodeOrder}
use tentris_lib.Query.Ordering.{compare_round, incremental_less, grouped_less}

-- What the standard library asks of a comparator.
pub record StrictWeak {A : Type 0} (less : A → A → Bool) : Type 0 where
  pub irreflexive : (a : A) → less a a ≡ false
  pub asymmetric : (a b : A) → less a b ≡ true → less b a ≡ false
  pub transitive : (a b c : A) → less a b ≡ false → less b c ≡ false → less a c ≡ false

-- No aggregate occurs in the expressions.
abbrev pub AllPlain : {N V : Type 0} → List (Expr N V) → Type 0
AllPlain [] = Unit
AllPlain (e ∷ es) = IsPlain e × AllPlain es

-- The values of several expressions.
abbrev pub values_at : (r : Rdf) → List (Expr r.Node r.Variable) → List r.Node → List r.Node
values_at r [] key = []
values_at r (e ∷ es) key = value_at r e key ∷ values_at r es key

abbrev pub evaluate_each : (r : Rdf) → List (Expr r.Node r.Variable) → List r.Node
evaluate_each r [] = []
evaluate_each r (e ∷ es) = evaluate r e ∷ evaluate_each r es

module _ (r : Rdf) where
  open r use {Node, Variable}

  -- Both comparators compare lists of values.
  abbrev compare_values : List Bool → List Node → List Node → Bool
  compare_values (desc ∷ ordering) (a ∷ xs) (b ∷ ys) =
      compare_round r desc a b (compare_values ordering xs ys)
  compare_values _ _ _ = false

  grouped-values :
      (ordering : List Bool) (ls rs : List (Expr Node Variable))
      → grouped_less r ordering ls rs
        ≡ compare_values ordering (evaluate_each r ls) (evaluate_each r rs)
  unfolding grouped_less
  grouped-values [] ls rs = refl
  grouped-values (d ∷ ds) [] rs = refl
  grouped-values (d ∷ ds) (l ∷ ls) [] = refl
  grouped-values (d ∷ ds) (l ∷ ls) (x ∷ rs) = rw (grouped-values ds ls rs) refl

  incremental-values :
      (es : List (Expr Node Variable)) (ordering : List Bool) (lhs rhs : List Node)
      → AllPlain es
      → incremental_less r es ordering lhs rhs
        ≡ compare_values ordering (values_at r es lhs) (values_at r es rhs)
  unfolding incremental_less
  incremental-values [] [] lhs rhs plain = refl
  incremental-values [] (d ∷ ds) lhs rhs plain = refl
  incremental-values (e ∷ es) [] lhs rhs plain = refl
  incremental-values (e ∷ es) (d ∷ ds) lhs rhs plain =
      rw (update_again r e lhs rhs plain.0, incremental-values es ds lhs rhs plain.1) refl

  module _ (order : NodeOrder r) where
    round-transitive :
        (desc : Bool) (a b c : Node) (ab bc ac : Bool)
        → (ab ≡ false → bc ≡ false → ac ≡ false)
        → compare_round r desc a b ab ≡ false
        → compare_round r desc b c bc ≡ false
        → compare_round r desc a c ac ≡ false
    unfolding compare_round
    round-transitive desc a b c ab bc ac h k l = ground (
      arith,
      order.converse a b,
      order.converse b c,
      order.converse a c,
      order.transitive a b c,
      order.transitive c b a,
      order.transitive b a c,
      order.transitive c a b,
      order.transitive a c b,
      order.transitive b c a,
      order.asymmetric a b,
      order.asymmetric b c,
      order.asymmetric a c,
    )

    round-asymmetric :
        (desc : Bool) (a b : Node) (ab ba : Bool)
        → (ab ≡ true → ba ≡ false)
        → compare_round r desc a b ab ≡ true
        → compare_round r desc b a ba ≡ false
    unfolding compare_round
    round-asymmetric desc a b ab ba h k =
        ground (
          arith,
          order.converse a b,
          order.converse b a,
          order.asymmetric a b,
          order.asymmetric b a,
        )

    round-irreflexive :
        (desc : Bool) (a : Node) (later : Bool)
        → later ≡ false
        → compare_round r desc a a later ≡ false
    unfolding compare_round
    round-irreflexive desc a later h = ground (arith, order.converse a a, order.irreflexive a)

    values-irreflexive : (ds : List Bool) (xs : List Node) → compare_values ds xs xs ≡ false
    values-irreflexive [] xs = refl
    values-irreflexive (d ∷ ds) [] = refl
    values-irreflexive (d ∷ ds) (x ∷ xs) = round-irreflexive d x _ (values-irreflexive ds xs)

    values-asymmetric :
        (ds : List Bool) (xs ys : List Node)
        → compare_values ds xs ys ≡ true
        → compare_values ds ys xs ≡ false
    values-asymmetric [] xs ys h = refl
    values-asymmetric (d ∷ ds) [] [] h = refl
    values-asymmetric (d ∷ ds) [] (y ∷ ys) h = refl
    values-asymmetric (d ∷ ds) (x ∷ xs) [] h = refl
    values-asymmetric (d ∷ ds) (x ∷ xs) (y ∷ ys) h =
        round-asymmetric d x y _ _ (values-asymmetric ds xs ys) h

    values-transitive :
        (ds : List Bool) (xs ys zs : List Node)
        → length xs ≡ length ys
        → length ys ≡ length zs
        → compare_values ds xs ys ≡ false
        → compare_values ds ys zs ≡ false
        → compare_values ds xs zs ≡ false
    values-transitive [] xs ys zs p q h k = refl
    values-transitive (d ∷ ds) [] ys zs p q h k = refl
    values-transitive (d ∷ ds) (x ∷ xs) ys [] p q h k = refl
    values-transitive (d ∷ ds) (x ∷ xs) [] (z ∷ zs) p q h k = absurd (omega (arith, p))
    values-transitive (d ∷ ds) (x ∷ xs) (y ∷ ys) (z ∷ zs) p q h k =
        round-transitive d x y z _ _ _
          (values-transitive ds xs ys zs (omega (arith, p)) (omega (arith, q))) h k

  length-values_at :
      (es : List (Expr Node Variable)) (key : List Node) → length (values_at r es key) ≡ length es
  length-values_at [] key = refl
  length-values_at (e ∷ es) key = ap suc (length-values_at es key)

  length-evaluate_each : (es : List (Expr Node Variable)) → length (evaluate_each r es) ≡ length es
  length-evaluate_each [] = refl
  length-evaluate_each (e ∷ es) = ap suc (length-evaluate_each es)

  -- With ORDER BY expressions that have no aggregates, whatever their directions, the comparator of
  -- entries is a strict weak order on their keys, if the order of nodes is one.
  pub incremental_less-StrictWeak :
      NodeOrder r
      → (es : List (Expr Node Variable)) (ordering : List Bool) → AllPlain es
      → StrictWeak (incremental_less r es ordering)
  incremental_less-StrictWeak order es ordering plain = record {
    irreflexive = λ a.
        incremental-values es ordering a a plain
        ∙ values-irreflexive order ordering (values_at r es a);
    asymmetric = λ a b h.
        incremental-values es ordering b a plain
        ∙ values-asymmetric order ordering (values_at r es a) (values_at r es b)
            (sym (incremental-values es ordering a b plain) ∙ h);
    transitive = λ a b c h k.
        incremental-values es ordering a c plain
        ∙ values-transitive order ordering (values_at r es a) (values_at r es b) (values_at r es c)
            (length-values_at es a ∙ sym (length-values_at es b))
            (length-values_at es b ∙ sym (length-values_at es c))
            (sym (incremental-values es ordering a b plain) ∙ h)
            (sym (incremental-values es ordering b c plain) ∙ k);
  }

  -- On groups with equally many ORDER BY expressions, the comparator of groups is irreflexive and
  -- asymmetric, and not being before is transitive, if the order of nodes is a strict weak order.
  pub grouped_less_correct :
      NodeOrder r
      → (ordering : List Bool) (ls ms rs : List (Expr Node Variable)) → length ls ≡ length ms
      → length ms ≡ length rs
      → (grouped_less r ordering ls ls ≡ false)
        × (grouped_less r ordering ls ms ≡ true → grouped_less r ordering ms ls ≡ false)
        × (grouped_less r ordering ls ms ≡ false
            → grouped_less r ordering ms rs ≡ false
            → grouped_less r ordering ls rs ≡ false)
  grouped_less_correct order ds ls ms rs p q = (
    grouped-values ds ls ls ∙ values-irreflexive order ds (evaluate_each r ls),
    λ h.
        grouped-values ds ms ls
        ∙ values-asymmetric order ds (evaluate_each r ls) (evaluate_each r ms)
            (sym (grouped-values ds ls ms) ∙ h),
    λ h k.
        grouped-values ds ls rs
        ∙ values-transitive order ds (evaluate_each r ls) (evaluate_each r ms) (evaluate_each r rs)
            (length-evaluate_each ls ∙ p ∙ sym (length-evaluate_each ms))
            (length-evaluate_each ms ∙ q ∙ sym (length-evaluate_each rs))
            (sym (grouped-values ds ls ms) ∙ h) (sym (grouped-values ds ms rs) ∙ k),
  )
