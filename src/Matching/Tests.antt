-- ===== src/Matching/Tests.antt =====
-- Matches of nodes and of relationships on small inputs, and the theorems about them at those.
use py2neo.Prelude.{
  if◌then◌else◌, ℕ, ◌≡◌, refl, Bool, true, false, ◌&&◌, ◌||◌, ◌==◌, leb, List, [], ◌∷◌, ◌++◌, some,
  none,
}
use py2neo.Prelude.Decimal.{decimal}
use py2neo.Errors.{codes}
use py2neo.Cypher.Keys.{Identifiers, encode_key}
use py2neo.Cypher.Record.{lookup}
use py2neo.Matching.{
  Comparison, equal_to, Junction, and, or, either_or, Predicate, compares, is_in, connects,
  Predicates, Criterion, predicate, value, one, many, compile, property_predicates, Parameter,
  identity,
}
use py2neo.Matching.Meaning.{Logic, expression, meaning, evaluate}
use py2neo.Matching.Compiling.{compile-meaning, under}
use py2neo.Matching.Grammar.{Says}
use py2neo.Matching.Clauses.{Labels, Types, Escaped, Where, ending}
use py2neo.Matching.Nodes.{match_nodes-meaning}
use py2neo.Matching.Query.{
  compiled_all, NodeMatch, match_nodes, node_query, node_where, node_limit, node_skip,
}
use py2neo.Matching.Relationships.{
  BoundNode, sequence, set_of, of_type, one_of, any_nodes, RelationshipMatch, match_relationships,
  relationship_query,
}
use py2neo.Matching.Selecting.{property_values, property_meanings}
use py2neo.Matching.Bound.{BoundTo}
use py2neo.Matching.Ends.{relationship_query-ends}
use py2neo.Matching.Chaining.{chained-overwrites}

-- The letters of ASCII.
abbrev letters : Identifiers
letters = record { id_start = λ c. leb 65 c && leb c 122; id_continue = λ c. leb 65 c && leb c 122 }

abbrev any_of : Bool → List Bool → Bool
any_of b [] = b
any_of b (c ∷ cs) = b || any_of c cs

abbrev all_of : Bool → List Bool → Bool
all_of b [] = b
all_of b (c ∷ cs) = b && all_of c cs

abbrev odd_of : Bool → List Bool → Bool
odd_of b [] = b
odd_of b (c ∷ cs) = odd_of (if b then (if c then false else true) else c) cs

abbrev joined_by : Junction → Bool → List Bool → Bool
joined_by and b bs = all_of b bs
joined_by or b bs = any_of b bs
joined_by either_or b bs = odd_of b bs

abbrev compares_to_five : Comparison → ℕ → Bool
compares_to_five equal_to n = n == 5
compares_to_five c n = false

abbrev holds_five : List ℕ → Bool
holds_five [] = false
holds_five (n ∷ ns) = n == 5 || holds_five ns

-- Tests of a property whose value is five.
abbrev five : Logic ℕ Bool
five = record {
  null_value = false;
  not_null_value = true;
  test = compares_to_five;
  member = holds_five;
  junction = joined_by;
}

abbrev three_or_some : Predicate ℕ
three_or_some =
    connects or
      (Predicates.cons (compares equal_to 3) (Predicates.cons (is_in (4 ∷ 5 ∷ [])) Predicates.nil))

abbrev born : List (List ℕ × Criterion ℕ)
born = (codes "born", predicate three_or_some) ∷ (codes "name", value 5) ∷ []

compiles_to : compile three_or_some (codes "born") (codes "1") ≡ (
  codes "(_.born = $`1_1` OR _.born IN $`1_2`)",
  (codes "1_1", one 3) ∷ (codes "1_2", many (4 ∷ 5 ∷ [])) ∷ [],
)
unfolding compile decimal
compiles_to = refl

compile-meaning_example :
    Says
      (codes "born")
      (compile three_or_some (codes "born") (codes "1")).0
      (expression three_or_some (codes "1"))
    × (evaluate five
          (λ m. lookup m (compile three_or_some (codes "born") (codes "1")).1)
          (expression three_or_some (codes "1"))
        ≡ meaning five three_or_some)
compile-meaning_example = compile-meaning five three_or_some (codes "born") (codes "1")

abbrev born_parameters : List (List ℕ × Parameter ℕ)
born_parameters = (codes "1_1", one 3) ∷ (codes "1_2", many (4 ∷ 5 ∷ [])) ∷ (codes "2", one 5) ∷ []

abbrev people : NodeMatch ℕ
people = record {
  labels = codes "Person" ∷ [];
  predicates = compiled_all (property_predicates 1 born);
  order_by = [];
  skip = none;
  limit = none;
}

abbrev people_text : List ℕ
people_text =
    codes "MATCH (_:Person) WHERE (_.born = $`1_1` OR _.born IN $`1_2`) AND _.name = $`2` RETURN _"

people_match : match_nodes letters (codes "Person" ∷ []) born ≡ some people
unfolding match_nodes encode_key
people_match = refl

people_query : node_query letters false people ≡ some (people_text, born_parameters)
unfolding node_query property_predicates decimal encode_key
people_query = refl

match_nodes-meaning_example :
    (keyed : List (List ℕ × Criterion ℕ)) × (names wheres : List ℕ) × Escaped letters born keyed
    × Labels letters (codes "Person" ∷ []) names
    × Where keyed wheres
    × (people_text ≡ codes "MATCH (_" ++ (names ++ (codes ")" ++ (wheres ++ ending false))))
    × (property_values five (under five born_parameters) 1 keyed ≡ property_meanings five keyed)
match_nodes-meaning_example =
    match_nodes-meaning five letters (codes "Person" ∷ []) born false people people_text
      born_parameters people_match people_query

abbrev alice : BoundNode
alice = record { graph = some 0; node_identity = some 7 }

abbrev bob : BoundNode
bob = record { graph = some 0; node_identity = some 8 }

abbrev known : RelationshipMatch ℕ
known = record {
  graph = 0;
  nodes = sequence (some alice ∷ some bob ∷ []);
  r_type = of_type (codes "KNOWS");
  predicates = compiled_all (property_predicates 1 born);
  order_by = [];
  skip = none;
  limit = none;
}

abbrev known_text : List ℕ
known_text =
    codes "MATCH (a) WHERE id(a) = $x MATCH (b) WHERE id(b) = $y MATCH (a)-[_:KNOWS]->(b) "
    ++ codes "WHERE (_.born = $`1_1` OR _.born IN $`1_2`) AND _.name = $`2` RETURN count(_)"

known_match :
    match_relationships letters 0
      (sequence (some alice ∷ some bob ∷ []))
      (of_type (codes "KNOWS"))
      born
    ≡ some known
unfolding match_relationships encode_key
known_match = refl

known_query :
    relationship_query letters true known
    ≡ some (known_text, (codes "x", identity 7) ∷ (codes "y", identity 8) ∷ born_parameters)
unfolding relationship_query property_predicates decimal encode_key
known_query = refl

abbrev known_parameters : List (List ℕ × Parameter ℕ)
known_parameters = (codes "x", identity 7) ∷ (codes "y", identity 8) ∷ born_parameters

relationship_query-ends_example :
    (keyed : List (List ℕ × Criterion ℕ)) × (detail wheres : List ℕ) × (i j : ℕ) × Escaped letters
      born keyed
    × Types letters (of_type (codes "KNOWS")) detail
    × Where keyed wheres
    × (known_text
        ≡ codes "MATCH (a) WHERE id(a) = $x MATCH (b) WHERE id(b) = $y MATCH (a)-[_"
          ++ (detail ++ (codes "]->(b)" ++ (wheres ++ ending true))))
    × BoundTo 0 alice i
    × BoundTo 0 bob j
    × (lookup (codes "x") known_parameters ≡ some (identity i))
    × (lookup (codes "y") known_parameters ≡ some (identity j))
    × (property_values five (under five known_parameters) 1 keyed ≡ property_meanings five keyed)
relationship_query-ends_example =
    relationship_query-ends five letters 0 alice bob (of_type (codes "KNOWS")) born true known
      known_text known_parameters known_match known_query

-- A set of nodes gives a pattern without a direction; a node of another graph is refused.
undirected :
    relationship_query letters false
      (record known { nodes = set_of (none ∷ some bob ∷ []); predicates = [] })
    ≡ some (
      codes "MATCH (a) WHERE id(a) = $x MATCH (a)-[_:KNOWS]-(b) RETURN _",
      (codes "x", identity 8) ∷ [],
    )
unfolding relationship_query encode_key
undirected = refl

other_graph : relationship_query letters false (record known { graph = 1 }) ≡ none
unfolding relationship_query encode_key
other_graph = refl

-- No types at all leave a colon.
no_types :
    relationship_query letters false
      (record known { nodes = any_nodes; r_type = one_of []; predicates = [] })
    ≡ some (codes "MATCH (a)-[_:]->(b) RETURN _", [])
unfolding relationship_query encode_key
no_types = refl

-- The count is of all that match, whatever is skipped and however few are to be returned.
count_ignores_limit :
    node_query letters true (node_skip (some 2) (node_limit (some 1) people))
    ≡ node_query letters true people
unfolding node_query node_skip node_limit
count_ignores_limit = refl

-- Two calls, each with one property.
abbrev young : NodeMatch ℕ
young = record people {
  labels = [];
  predicates = compiled_all (property_predicates 1 ((codes "a", value 1) ∷ []));
}

abbrev old : NodeMatch ℕ
old = record young {
  predicates =
      compiled_all (property_predicates 1 ((codes "a", value 1) ∷ []))
      ++ compiled_all (property_predicates 1 ((codes "b", value 2) ∷ []));
}

young_match : match_nodes letters [] ((codes "a", value 1) ∷ []) ≡ some young
unfolding match_nodes encode_key
young_match = refl

old_where : node_where letters [] ((codes "b", value 2) ∷ []) young ≡ some old
unfolding node_where encode_key
old_where = refl

old_query :
    node_query letters false old
    ≡ some (codes "MATCH (_) WHERE _.a = $`1` AND _.b = $`1` RETURN _", (codes "1", one 2) ∷ [])
unfolding node_query property_predicates decimal encode_key
old_query = refl

abbrev one_parameter : List (List ℕ × Parameter ℕ)
one_parameter = (codes "1", one 2) ∷ []

abbrev old_text : List ℕ
old_text = codes "MATCH (_) WHERE _.a = $`1` AND _.b = $`1` RETURN _"

chained-overwrites_example :
    (names t1 t2 : List ℕ) × Labels letters [] names
    × (encode_key letters (codes "a") ≡ some t1)
    × (encode_key letters (codes "b") ≡ some t2)
    × (old_text
        ≡ codes "MATCH (_"
          ++ (names
              ++ (codes ") WHERE _."
                  ++ (t1
                      ++ (codes " = $`1` AND _." ++ (t2 ++ (codes " = $`1`" ++ ending false)))))))
    × (one_parameter ≡ (codes "1", one 2) ∷ [])
chained-overwrites_example =
    chained-overwrites letters [] (codes "a") (codes "b") 1 2 false young old old_text one_parameter
      young_match old_where old_query
