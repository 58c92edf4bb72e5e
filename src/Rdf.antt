-- ===== src/Rdf.antt =====
-- What the query engine uses of rdf4cpp, the RDF library (not part of the repository): nodes, the
-- literal operations, casts and comparisons. Every definition over expressions takes such a record.
use tentris_lib.Prelude.{ℕ, Bool, true, false, ◌≡◌, List}

-- `std::partial_ordering`
pub data PartialOrdering : Type 0 where
  less equivalent greater unordered : PartialOrdering

-- Members of `rdf4cpp::rdf::Literal` with no argument beside the literal.
pub data LiteralFn1 : Type 0 where
  abs ceil floor round md5 sha1 sha256 sha384 sha512 : LiteralFn1
  as_language_tag as_strlen uppercase lowercase encode_for_uri : LiteralFn1
  as_year as_month as_day as_hours as_minutes as_seconds as_timezone as_tz : LiteralFn1

-- Members with one more literal.
pub data LiteralFn2 : Type 0 where
  as_contains as_str_starts_with substr_before substr_after as_str_ends_with lang_matches substr
        as_regex_matches :
      LiteralFn2

-- Members with two more literals.
pub data LiteralFn3 : Type 0 where
  substr_len regex_matches_flags regex_replace : LiteralFn3

-- The target types of the casts.
pub data XsdType : Type 0 where
  xsd_string xsd_integer xsd_decimal xsd_double xsd_float xsd_boolean : XsdType

-- Nodes, literals and IRIs are all nodes here: `as_literal` and `as_iri` give the null node where
-- the node is of another kind.
pub record Rdf : Type 1 where
  pub Node : Type 0
  pub Variable : Type 0
  pub null_node : Node
  pub is_null : Node → Bool
  pub ebv : Node → Bool
  pub make_boolean : Bool → Node
  pub make_integer : ℕ → Node
  pub integer_value : Node → ℕ
  -- equality of the backend handles
  pub same_handle : Node → Node → Bool
  pub as_literal : Node → Node
  pub as_iri : Node → Node
  pub is_iri : Node → Bool
  pub is_blank_node : Node → Bool
  pub is_literal : Node → Bool
  pub is_numeric : Node → Bool
  pub is_xsd_string : Node → Bool
  pub is_lang_string : Node → Bool
  -- `<=>` of literals, and of nodes
  pub compare_literals : Node → Node → PartialOrdering
  pub compare_nodes : Node → Node → PartialOrdering
  pub add : Node → Node → Node
  pub sub : Node → Node → Node
  pub mul : Node → Node → Node
  pub div : Node → Node → Node
  pub plus : Node → Node
  pub minus : Node → Node
  pub concat : Node → Node → Node
  pub cast : XsdType → Node → Node
  pub datatype : Node → Node
  -- the IRI with the literal's lexical form
  pub iri_of_lexical : Node → Node
  -- the simple literal with the IRI's identifier, or with the literal's lexical form
  pub simple_of_identifier : Node → Node
  pub simple_of_lexical : Node → Node
  pub make_typed : Node → Node → Node
  pub make_lang_tagged : Node → Node → Node
  pub literal_fn1 : LiteralFn1 → Node → Node
  pub literal_fn2 : LiteralFn2 → Node → Node → Node
  pub literal_fn3 : LiteralFn3 → Node → Node → Node → Node
  pub regex_replace_flags : Node → Node → Node → Node → Node
  -- the hash of a whole key
  pub hash_key : List Node → ℕ

-- What the library's documentation says of null nodes and of boolean literals.
pub record BooleanLaws (r : Rdf) : Type 0 where
  pub null-null_node : r.is_null r.null_node ≡ true
  pub null-make_boolean : (b : Bool) → r.is_null (r.make_boolean b) ≡ false
  pub ebv-make_boolean : (b : Bool) → r.ebv (r.make_boolean b) ≡ b
