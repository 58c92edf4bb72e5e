-- ===== src/Tests/Toy.antt =====
-- A small instance of the RDF library to evaluate on: the error, booleans, integers and IRIs.
use tentris_lib.Prelude.{
  ℕ, ◌+◌, ◌-◌, ◌*◌, ◌/◌, ◌≡◌, refl, Bool, true, false, not, List, [], ◌∷◌, arith, if◌then◌else◌,
  ◌==◌, ltb,
}
use tentris_lib.Rdf.{Rdf, PartialOrdering, less, equivalent, greater, BooleanLaws}
use tentris_lib.Expressions.Aggregates.{same_node}
use tentris_lib.Expressions.Grouped.Sums.{KeepsErrors}
use tentris_lib.Expressions.Grouped.Distinct.{IsEquivalence}
use tentris_lib.Expressions.Grouped.Extremes.{NodeOrder}

pub data Term : Type 0 where
  error : Term
  boolean : Bool → Term
  integer : ℕ → Term
  iri : ℕ → Term

-- A number for every term; the error has the least.
abbrev pub code : Term → ℕ
code error = 0
code (boolean false) = 1
code (boolean true) = 2
code (integer n) = 3 + 2 * n
code (iri n) = 4 + 2 * n

abbrev order_codes : ℕ → ℕ → PartialOrdering
order_codes m n = if ltb m n then less else if m == n then equivalent else greater

abbrev compare_terms : Term → Term → PartialOrdering
compare_terms a b = order_codes (code a) (code b)

abbrev is_error : Term → Bool
is_error error = true
is_error _ = false

abbrev literal_of : Term → Term
literal_of (iri n) = error
literal_of t = t

abbrev number_of : Term → ℕ
number_of (integer n) = n
number_of _ = 0

abbrev truth_of : Term → Bool
truth_of (boolean b) = b
truth_of (integer n) = not (n == 0)
truth_of _ = false

abbrev on_integers : (ℕ → ℕ → ℕ) → Term → Term → Term
on_integers f (integer a) (integer b) = integer (f a b)
on_integers f _ _ = error

abbrev is_iri_term : Term → Bool
is_iri_term (iri n) = true
is_iri_term _ = false

abbrev is_integer_term : Term → Bool
is_integer_term (integer n) = true
is_integer_term _ = false

abbrev is_literal_term : Term → Bool
is_literal_term (boolean b) = true
is_literal_term (integer n) = true
is_literal_term _ = false

abbrev sum_of_codes : List Term → ℕ
sum_of_codes [] = 0
sum_of_codes (t ∷ ts) = code t + 1000 * sum_of_codes ts

abbrev pub toy : Rdf
toy = record {
  Node = Term;
  Variable = ℕ;
  null_node = error;
  is_null = is_error;
  ebv = truth_of;
  make_boolean = boolean;
  make_integer = integer;
  integer_value = number_of;
  same_handle = λ a b. code a == code b;
  as_literal = literal_of;
  as_iri = λ t. if is_iri_term t then t else error;
  is_iri = is_iri_term;
  is_blank_node = λ t. false;
  is_literal = is_literal_term;
  is_numeric = is_integer_term;
  is_xsd_string = λ t. false;
  is_lang_string = λ t. false;
  compare_literals = compare_terms;
  compare_nodes = compare_terms;
  add = on_integers (λ a b. a + b);
  sub = on_integers (λ a b. a - b);
  mul = on_integers (λ a b. a * b);
  div = on_integers (λ a b. a / b);
  plus = λ t. t;
  minus = λ t. error;
  concat = λ a b. error;
  cast = λ type t. t;
  datatype = λ t. if is_literal_term t then iri 1 else error;
  iri_of_lexical = λ t. iri (code t);
  simple_of_identifier = λ t. integer (code t);
  simple_of_lexical = λ t. integer (code t);
  make_typed = λ a b. a;
  make_lang_tagged = λ a b. a;
  literal_fn1 = λ f a. a;
  literal_fn2 = λ f a b. a;
  literal_fn3 = λ f a b c. a;
  regex_replace_flags = λ a b c d. a;
  hash_key = sum_of_codes;
}

pub toy-BooleanLaws : BooleanLaws toy
toy-BooleanLaws = record {
  null-null_node = refl;
  null-make_boolean = λ b. refl;
  ebv-make_boolean = λ b. refl;
}

pub toy-KeepsErrors : KeepsErrors toy
toy-KeepsErrors error v h = refl
toy-KeepsErrors (boolean b) v h = absurd (ground arith)
toy-KeepsErrors (integer n) v h = absurd (ground arith)
toy-KeepsErrors (iri n) v h = absurd (ground arith)

code-least : (a b : Term) → is_error a ≡ true → is_error b ≡ false → ltb (code a) (code b) ≡ true
code-least error error h k = ground arith
code-least error (boolean true) h k = refl
code-least error (boolean false) h k = refl
code-least error (integer n) h k = ground arith
code-least error (iri n) h k = ground arith
code-least (boolean b) t h k = absurd (ground arith)
code-least (integer n) t h k = absurd (ground arith)
code-least (iri n) t h k = absurd (ground arith)

pub toy-NodeOrder : NodeOrder toy
toy-NodeOrder = record {
  irreflexive = λ a. ground arith;
  transitive = λ a b c h k. ground arith;
  asymmetric = λ a b h. ground arith;
  converse = λ a b. ground arith;
  null_lowest = λ a b h k. ground (arith, code-least a b);
}

pub toy-IsEquivalence : IsEquivalence (same_node toy)
toy-IsEquivalence = record {
  reflexive = λ a. ground arith;
  symmetric = λ a b h. ground arith;
  transitive = λ a b c h k. ground arith;
}
