-- ===== src/Matching/Ends.antt =====
-- The query for relationships between two nodes: whose nodes they are, and which parameters name them.
use py2neo.Prelude.{
  ℕ, ◌≡◌, refl, sym, ◌∙◌, ap, Bool, List, [], ◌∷◌, none, some, arith, append_assoc, ◌++◌,
}
use py2neo.Errors.{codes}
use py2neo.Cypher.Keys.{Identifiers}
use py2neo.Cypher.Record.{lookup}
use py2neo.Matching.{Criterion, Parameter, identity, Dict, property_predicates, join}
use py2neo.Matching.Query.{
  where_clause, return_clauses, escaped_keys, some-bind, some-pair, compiled_all, conditions,
}
use py2neo.Matching.Selecting.{
  property_texts, property_values, property_meanings, conditions-Selects,
}
use py2neo.Matching.Clauses.{
  Escaped, Types, Where, ending, finished-Where, escaped_keys-Escaped, relationship_detail-Types,
}
use py2neo.Matching.Meaning.{Logic}
use py2neo.Matching.Names.{Extends-refl, Old}
use py2neo.Matching.Compiling.{under}
use py2neo.Matching.Places.{place}
use py2neo.Matching.Relationships.{
  BoundNode, sequence, RelationshipType, RelationshipMatch, match_relationships, relationship_query,
  relationship_detail, node_clauses, sequence_clauses,
}
use py2neo.Matching.Bound.{BoundTo, ends, ends-Old, sequence_clauses-ends}

abbrev matched : List ℕ → List (List ℕ)
matched detail =
    codes "MATCH (a) WHERE id(a) = $x"
    ∷ codes "MATCH (b) WHERE id(b) = $y"
    ∷ (codes "MATCH (a)-[_" ++ (detail ++ codes "]->(b)"))
    ∷ []

abbrev text_of : List (List ℕ) → List (List ℕ) → Bool → List ℕ
text_of clauses texts counts =
    join (codes " ") (clauses ++ (where_clause texts ++ return_clauses counts [] none none))

module _ {V : Type 0} where
  -- The match of relationships, its properties escaped.
  abbrev between :
      ℕ
      → BoundNode
      → BoundNode
      → RelationshipType
      → List (List ℕ × Criterion V)
      → RelationshipMatch V
  between g a b r_type keyed = record {
    graph = g;
    nodes = sequence (some a ∷ some b ∷ []);
    r_type = r_type;
    predicates = compiled_all (property_predicates 1 keyed);
    order_by = [];
    skip = none;
    limit = none;
  }

  match_relationships-between :
      (ids : Identifiers) (g : ℕ) (a b : BoundNode) (r_type : RelationshipType)
      (properties keyed : List (List ℕ × Criterion V)) (m : RelationshipMatch V)
      → escaped_keys ids properties ≡ some keyed
      → match_relationships ids g (sequence (some a ∷ some b ∷ [])) r_type properties ≡ some m
      → m ≡ between g a b r_type keyed
  unfolding match_relationships
  match_relationships-between ids g a b r_type properties keyed m e f =
      let h : some (between g a b r_type keyed) ≡ some m = rw e at f in cc

  abbrev conditions_of :
      List (List ℕ × Criterion V) → Dict (Parameter V) → List (List ℕ) × Dict (Parameter V)
  conditions_of keyed d = conditions (compiled_all (property_predicates 1 keyed)) d

  -- The conditions keep the parameters of the ends.
  conditions-ends :
      {T : Type 0} (logic : Logic V T) (keyed : List (List ℕ × Criterion V)) (i j : ℕ)
      (d : Dict (Parameter V))
      → d ≡ (conditions (compiled_all (property_predicates 1 keyed)) (ends i j)).1
      → ((conditions (compiled_all (property_predicates 1 keyed)) (ends i j)).0
          ≡ property_texts 1 keyed)
        × (lookup (codes "x") d ≡ some (identity i))
        × (lookup (codes "y") d ≡ some (identity j))
        × (property_values logic (under logic d) 1 keyed ≡ property_meanings logic keyed)
  conditions-ends logic keyed i j d e =
      let old : Old place 3 (ends i j) =
        λ m x f. let (k, l, ext) = ends-Old i j m x f in (k, omega (arith, l), ext) in
      let (written, values, keep) =
        conditions-Selects logic keyed 1 (ends i j) old (refl, (refl, tt)) in
      (
        written,
        ap (lookup (codes "x")) e ∙ keep (codes "x") 0 (omega arith) (Extends-refl (codes "x")),
        ap (lookup (codes "y")) e ∙ keep (codes "y") 1 (omega arith) (Extends-refl (codes "y")),
        ap (λ x. property_values logic (under logic x) 1 keyed) e ∙ values,
      )

  -- The three MATCH clauses of a query between two nodes.
  three_matches :
      (detail : List ℕ) (texts : List (List ℕ)) (keyed : List (List ℕ × Criterion V))
      (counts : Bool)
      → texts ≡ property_texts 1 keyed
      → (wheres : List ℕ) × Where keyed wheres
        × (join (codes " ") (
              codes "MATCH (a) WHERE id(a) = $x"
              ∷ codes "MATCH (b) WHERE id(b) = $y"
              ∷ (codes "MATCH (a)-[_" ++ (detail ++ codes "]->(b)"))
              ∷ (where_clause texts ++ return_clauses counts [] none none))
            ≡ codes "MATCH (a) WHERE id(a) = $x MATCH (b) WHERE id(b) = $y MATCH (a)-[_"
              ++ (detail ++ (codes "]->(b)" ++ (wheres ++ ending counts))))
  three_matches detail texts keyed counts e =
      let pattern = codes "MATCH (a)-[_" ++ (detail ++ codes "]->(b)") in
      let (wheres, says, finished) = finished-Where pattern keyed counts in
      (
        wheres,
        says,
        ap
              (λ ts.
                codes "MATCH (a) WHERE id(a) = $x MATCH (b) WHERE id(b) = $y "
                ++ join (codes " ")
                    (pattern ∷ (where_clause ts ++ return_clauses counts [] none none)))
              e
            ∙ ap (λ z. codes "MATCH (a) WHERE id(a) = $x MATCH (b) WHERE id(b) = $y " ++ z)
                (finished
                  ∙ ap (λ z. codes "MATCH (a)-[_" ++ z)
                      (append_assoc detail (codes "]->(b)") (wheres ++ ending counts))),
      )

  -- Where a match of relationships from one node to another has a query, both nodes are bound to the match's graph.
  -- The text matches the node with the identity `$x`, the node with the identity `$y`, and the relationships of
  -- the given types, escaped, from the one to the other, and has WHERE with a condition for each property, in
  -- order and with AND between them, or no WHERE without properties, and RETURN of the relationships or of
  -- their count. The parameters `x` and `y` are the identities of the two nodes whatever the properties are,
  -- the text of each condition says the criterion, its key escaped, in the grammar of Cypher, and under the
  -- query's parameters it has the value that the criterion means.
  pub relationship_query-ends :
      {T : Type 0} (logic : Logic V T) (ids : Identifiers) (g : ℕ) (a b : BoundNode)
      (r_type : RelationshipType) (properties : List (List ℕ × Criterion V)) (counts : Bool)
      (m : RelationshipMatch V) (text : List ℕ) (d : Dict (Parameter V))
      → match_relationships ids g (sequence (some a ∷ some b ∷ [])) r_type properties ≡ some m
      → relationship_query ids counts m ≡ some (text, d)
      → (keyed : List (List ℕ × Criterion V)) × (detail wheres : List ℕ) × (i j : ℕ) × Escaped ids
          properties keyed
        × Types ids r_type detail
        × Where keyed wheres
        × (text
            ≡ codes "MATCH (a) WHERE id(a) = $x MATCH (b) WHERE id(b) = $y MATCH (a)-[_"
              ++ (detail ++ (codes "]->(b)" ++ (wheres ++ ending counts))))
        × BoundTo g a i
        × BoundTo g b j
        × (lookup (codes "x") d ≡ some (identity i))
        × (lookup (codes "y") d ≡ some (identity j))
        × (property_values logic (under logic d) 1 keyed ≡ property_meanings logic keyed)
  unfolding match_relationships relationship_query
  relationship_query-ends logic ids g a b r_type properties counts m text d f h =
      let (keyed, escaped, f') = some-bind (escaped_keys ids properties) _ m f in
      let is_between = match_relationships-between ids g a b r_type properties keyed m escaped f in
      let h' = rw is_between at h in
      let (detail, typed, h2) = some-bind (relationship_detail ids r_type) _ (text, d) h' in
      let (c, clauses, h3) =
        some-bind (node_clauses g (sequence (some a ∷ some b ∷ [])) detail) _ (text, d) h2 in
      let (c0, both, h4) = some-bind (sequence_clauses g (some a ∷ some b ∷ [])) _ c clauses in
      let (i, j, bound_a, bound_b, matches, h5) = sequence_clauses-ends g a b c0.0 c0.1 both in
      let dict_eq : c.1 ≡ ends i j = sym (some-pair _ c h4).1 ∙ h5 in
      let (texts, x, y, values) =
        conditions-ends logic keyed i j d
          (sym (some-pair _ (text, d) h3).1 ∙ ap (λ z. (conditions_of keyed z).1) dict_eq) in
      let clauses_eq : c.0
          ≡ codes "MATCH (a) WHERE id(a) = $x"
            ∷ codes "MATCH (b) WHERE id(b) = $y"
            ∷ (codes "MATCH (a)-[_" ++ (detail ++ codes "]->(b)"))
            ∷ [] =
        sym (some-pair _ c h4).0
        ∙ ap (λ z. z ++ (codes "MATCH (a)-[_" ++ (detail ++ codes "]->(b)")) ∷ []) matches in
      let (wheres, says, written) =
        three_matches detail (conditions (compiled_all (property_predicates 1 keyed)) (ends i j)).0
          keyed counts texts in
      (
        keyed,
        detail,
        wheres,
        i,
        j,
        escaped_keys-Escaped ids properties keyed escaped,
        relationship_detail-Types ids r_type detail typed,
        says,
        sym (some-pair _ (text, d) h3).0
            ∙ ap (λ z. text_of z (conditions_of keyed c.1).0 counts) clauses_eq
            ∙ ap (λ z. text_of (matched detail) (conditions_of keyed z).0 counts) dict_eq
            ∙ written,
        bound_a,
        bound_b,
        x,
        y,
        values,
      )
