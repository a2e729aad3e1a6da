-- ===== src/Matching/Relationships.antt =====
-- matching.py: `RelationshipMatch`, the criteria of a selection of relationships, and the query that it is turned
-- into. There is no value where the source raises `ValueError`. A set of nodes is the list of its members in
-- the order in which `pop` gives them.
use py2neo.Prelude.{ℕ, ◌==◌, Bool, if◌then◌else◌, List, [], ◌∷◌, ◌++◌, Option, none, some}
use py2neo.Errors.{codes}
use py2neo.Cypher.Keys.{Identifiers, encode_key}
use py2neo.Cypher.Record.{assign}
use py2neo.Matching.{Criterion, Parameter, identity, Dict, join, property_predicates}
use py2neo.Matching.Query.{
  Condition, ◌>>=◌, consed, return_clauses, escaped_keys, conditions, finished, compiled_all,
  raw_all,
}

-- A graph is a number.
pub record BoundNode : Type 0 where
  pub graph : Option ℕ
  pub node_identity : Option ℕ

-- None or empty; a sequence; or a set, whose relationships go in any direction.
pub data Nodes : Type 0 where
  any_nodes : Nodes
  sequence set_of : List (Option BoundNode) → Nodes

pub data RelationshipType : Type 0 where
  any_type : RelationshipType
  one_of : List (List ℕ) → RelationshipType
  of_type : List ℕ → RelationshipType

pub record RelationshipMatch (V : Type 0) : Type 0 where
  pub graph : ℕ
  pub nodes : Nodes
  pub r_type : RelationshipType
  pub predicates : List (Condition V)
  pub order_by : List (List ℕ)
  pub skip : Option ℕ
  pub limit : Option ℕ

module _ (ids : Identifiers) where
  abbrev pub escaped_types : List (List ℕ) → Option (List (List ℕ))
  escaped_types [] = some []
  escaped_types (t ∷ ts) = consed (encode_key ids t) (escaped_types ts)

  abbrev pub relationship_detail : RelationshipType → Option (List ℕ)
  relationship_detail any_type = some []
  relationship_detail (one_of ts) =
      escaped_types ts >>= λ texts. some (codes ":" ++ join (codes "|") texts)
  relationship_detail (of_type t) = encode_key ids t >>= λ text. some (codes ":" ++ text)

abbrev pub identity_in : ℕ → Option ℕ → Option ℕ → Option ℕ
identity_in g none i = none
identity_in g (some h) i = if h == g then i else none

-- verify_node, and the node's identity
abbrev pub verified : ℕ → BoundNode → Option ℕ
verified g n = identity_in g n.graph n.node_identity

abbrev pub present : List (Option BoundNode) → List (Option BoundNode)
present [] = []
present (none ∷ rest) = present rest
present (some n ∷ rest) = some n ∷ present rest

module _ {V : Type 0} where
  -- One end of the relationship: its clause and its parameter.
  abbrev pub end_clause :
      ℕ
      → List ℕ
      → List ℕ
      → Option BoundNode
      → List (List ℕ) × Dict (Parameter V)
      → Option (List (List ℕ) × Dict (Parameter V))
  end_clause g clause name none (clauses, d) = some (clauses, d)
  end_clause g clause name (some n) (clauses, d) =
      verified g n >>= λ i. some (clauses ++ clause ∷ [], assign name (identity i) d)

  abbrev pub start_clause :
      ℕ
      → Option BoundNode
      → List (List ℕ) × Dict (Parameter V)
      → Option (List (List ℕ) × Dict (Parameter V))
  start_clause g = end_clause g (codes "MATCH (a) WHERE id(a) = $x") (codes "x")

  abbrev pub stop_clause :
      ℕ
      → Option BoundNode
      → List (List ℕ) × Dict (Parameter V)
      → Option (List (List ℕ) × Dict (Parameter V))
  stop_clause g = end_clause g (codes "MATCH (b) WHERE id(b) = $y") (codes "y")

  -- A sequence of at most two nodes, None for any.
  abbrev pub sequence_clauses :
      ℕ → List (Option BoundNode) → Option (List (List ℕ) × Dict (Parameter V))
  sequence_clauses g [] = some ([], [])
  sequence_clauses g (a ∷ []) = start_clause g a ([], [])
  sequence_clauses g (a ∷ b ∷ []) = start_clause g a ([], []) >>= stop_clause g b
  sequence_clauses g (a ∷ b ∷ c ∷ rest) = none

  abbrev pub pattern_clause :
      List ℕ → List ℕ → List (List ℕ) × Dict (Parameter V) → List (List ℕ) × Dict (Parameter V)
  pattern_clause detail end (clauses, d) =
      (clauses ++ (codes "MATCH (a)-[_" ++ (detail ++ end)) ∷ [], d)

  abbrev pub node_clauses : ℕ → Nodes → List ℕ → Option (List (List ℕ) × Dict (Parameter V))
  node_clauses g any_nodes detail = some (pattern_clause detail (codes "]->(b)") ([], []))
  node_clauses g (sequence []) detail = some (pattern_clause detail (codes "]->(b)") ([], []))
  node_clauses g (sequence (n ∷ ns)) detail =
      sequence_clauses g (n ∷ ns) >>= λ c. some (pattern_clause detail (codes "]->(b)") c)
  node_clauses g (set_of []) detail = some (pattern_clause detail (codes "]->(b)") ([], []))
  node_clauses g (set_of (n ∷ ns)) detail =
      sequence_clauses g (present (n ∷ ns)) >>= λ c. some (pattern_clause detail (codes "]-(b)") c)

  abbrev pub after_nodes :
      Bool → RelationshipMatch V → List (List ℕ) × Dict (Parameter V) → List ℕ × Dict (Parameter V)
  after_nodes counts m (clauses, d) =
      finished clauses (return_clauses counts m.order_by m.skip m.limit) (conditions m.predicates d)

  -- RelationshipMatch._query_and_parameters
  unfoldable pub relationship_query :
      Identifiers → Bool → RelationshipMatch V → Option (List ℕ × Dict (Parameter V))
  unfolding conditions
  relationship_query ids counts m = relationship_detail ids m.r_type >>= λ detail.
      node_clauses m.graph m.nodes detail >>= λ c. some (after_nodes counts m c)

  -- RelationshipMatcher.match
  unfoldable pub match_relationships :
      Identifiers
      → ℕ
      → Nodes
      → RelationshipType
      → List (List ℕ × Criterion V)
      → Option (RelationshipMatch V)
  unfolding property_predicates
  match_relationships ids g nodes r_type properties = escaped_keys ids properties >>= λ keyed.
      some (record {
        graph = g;
        nodes = nodes;
        r_type = r_type;
        predicates = compiled_all (property_predicates 1 keyed);
        order_by = [];
        skip = none;
        limit = none;
      })

  -- RelationshipMatch.where
  unfoldable pub relationship_where :
      Identifiers
      → List (List ℕ)
      → List (List ℕ × Criterion V)
      → RelationshipMatch V
      → Option (RelationshipMatch V)
  unfolding property_predicates
  relationship_where ids texts properties m = escaped_keys ids properties >>= λ keyed.
      some (record m {
        predicates = m.predicates ++ (raw_all texts ++ compiled_all (property_predicates 1 keyed));
      })

  unfoldable pub relationship_order_by : List (List ℕ) → RelationshipMatch V → RelationshipMatch V
  relationship_order_by fields m = record m { order_by = fields }

  unfoldable pub relationship_skip : Option ℕ → RelationshipMatch V → RelationshipMatch V
  relationship_skip amount m = record m { skip = amount }

  unfoldable pub relationship_limit : Option ℕ → RelationshipMatch V → RelationshipMatch V
  relationship_limit amount m = record m { limit = amount }
