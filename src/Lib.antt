-- ===== src/Lib.antt =====
-- Tentris: a verification library for the query engine of tentris-lib.
--
-- Tentris evaluates SPARQL queries over RDF graphs kept as hypertries. A parsed query is an operand
-- dependency graph, whose vertices are operands (slices of the hypertrie), filters and assignments
-- and whose edges say which depend on which; operators take the graph apart and yield counted
-- entries, which are solutions with a multiplicity; filters, assignments and aggregates are trees of
-- expressions that are told of each solution and then evaluated. LIMIT and OFFSET come last.
--
-- Files and what they model:
--   Prelude                  names, lists, sorted sets and 64-bit words that the others share
--   Rdf                      the part of rdf4cpp that the code calls, a parameter of everything
--   Query/Entry              CountedEntry (libs/query/src/dice/query/Commons.hpp)
--   Query/Pagination         LimitPaginationOperator::evaluate
--                            (libs/query/src/dice/query/operators/LimitPaginationOperator.hpp)
--   Query/Ordering           the comparators of ORDER BY
--                            (libs/query/src/dice/query/operators/Operator_predeclare.hpp)
--   Query/Project            ProjectOperator::evaluate (ProjectOperator.hpp there)
--   Query/Cartesian          FullCartesianResult of CartesianOperator (CartesianOperator.hpp there)
--   Query/Grouping           ExplicitAggregationOperator and ImplicitAggregationOperator
--                            (ExplicitAggregationOperator.hpp, ImplicitAggerationOperator.hpp there)
--   Query/Registry           the variables of a query (libs/query/src/dice/query/Query.hpp and
--                            libs/sparql/src/dice/sparql/SPARQLQuery.cpp)
--   Query/Operators          the operators on graphs and the choice between them: Operator.hpp,
--                            CardinalityEstimation.hpp, JoinOperator.hpp, LeftJoinOperator.hpp,
--                            UnionOperator.hpp, FilterOperator.hpp, ResolveOperator.hpp,
--                            CountOperator.hpp and EntryGeneratorOperator.hpp there
--   Query/Distinct           DistinctOperator::evaluate (DistinctOperator.hpp there)
--   Expressions/Ast          the classes under libs/sparql/src/dice/sparql/expressions
--   Expressions/Logical      conjunction, disjunction, negation, comparisons and IN
--                            (LogicalOperators.cpp, UnaryOperators.cpp there)
--   Expressions/Arithmetic   arithmetic and casts (ArithmeticExpressions.cpp, XSDFunctions.cpp)
--   Expressions/BuiltIn      built-in calls (BuiltInCalls.cpp)
--   Expressions/Aggregates   the state of aggregates (Aggregates.cpp)
--   Expressions/Evaluate     the virtual functions update_value, evaluate and clone_impl
--   Expressions/Variables    variables, aggregated_variables and non_aggregated_variables
--   Expressions/Grouped      aggregates over a whole group of solutions
--   Graph                    OperandDependencyGraph
--                            (libs/query/src/dice/query/OperandDependencyGraph.hpp): Graph/Build
--                            adds vertices and edges and merges graphs, Graph/Prune is prune_graph,
--                            Graph/Variables the lookups by variable,
--                            Graph/Remove is remove_vertices and remove_var_id, Graph/Components
--                            the union and cartesian components and the independent strong one
--   Storage                  the storage of nodes: MetallNodeStorageBackendImpl.cpp and
--                            MetallNodeTypeStorage.hpp in
--                            libs/metall-node-storage/src/dice/metall-node-storage
--   Tests                    concrete inputs
--
-- Conventions. An object that the code mutates is a value that the operation takes and gives back:
-- `update_value` of an expression is the updated expression, an operation on a graph gives the new
-- graph. A generator is the list of what it yields. `unsigned long` and `ssize_t` are numbers below
-- 2 ^ 64 with wrap-around written out, and signed comparison reads the top bit. The null node, which
-- stands for an error and for an unbound variable, is a node of the parameter `Rdf`, for which the
-- theorems name the documented laws that they need (BooleanLaws, KeepsErrors, NodeOrder,
-- IsEquivalence). Hypertries with their joins, doubles and the component labels of the Boost graph
-- library are parameters (Tries, Doubles, Labelling), and so is, for each operator, the one that
-- evaluates what it leaves of the graph (SubOperators): it yields entries, or counts, and leaves the
-- shared entry changed. The views of nodes are a parameter too (Views). Variable identifiers of a
-- graph (`char`) are numbers, the bit patterns. Vertices are numbers too; `narrow` is what a `Vertex`, a
-- `uint8_t`, keeps of one, and theorems on code that keeps vertices in it assume that the graph has at
-- most 256 vertices, or 255 where a loop counts in a `Vertex`.
--
-- Bounds and fuel. The work list of `prune_graph` is run with fuel, the number of empty operands plus
-- the number of edges: an edge is put on the list once, when its source is first visited. A
-- loop over the combinations of a cartesian product runs with as many rounds as there are
-- combinations. The theorems on LIMIT and OFFSET and on COUNT assume that counts stay below 2 ^ 63
-- and 2 ^ 64.
--
-- Not modelled: the parser and its visitors, the assignment operator, the sub-queries and the
-- slicing by resolved variables of Evaluation.hpp, the cartesian product over its sub-operators (its
-- iterator over combinations is modelled), the kinds of nodes in the storage of nodes, the storage of
-- triples, the foreign function interface, clocks and random sources (NOW, RAND, UUID), time-outs,
-- EXISTS, which evaluates a whole query, and the caches of graphs and queries, which keep what a
-- first call computed. The file generator.hpp and the LRU cache are copies of other projects' code.
pub mod Prelude
pub mod Query
pub mod Rdf
pub mod Expressions
pub mod Graph
pub mod Storage
mod Tests
