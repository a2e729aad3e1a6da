-- ===== src/Matching/Nodes.antt =====
-- The query of a match of nodes.
use py2neo.Prelude.{ℕ, ◌≡◌, sym, ◌∙◌, ap, append_assoc, Bool, List, [], ◌∷◌, ◌++◌, none, some}
use py2neo.Errors.{codes}
use py2neo.Cypher.Keys.{Identifiers}
use py2neo.Matching.{Criterion, Parameter, Dict, join, property_predicates}
use py2neo.Matching.Meaning.{Logic}
use py2neo.Matching.Compiling.{under}
use py2neo.Matching.Query.{
  NodeMatch, escaped_keys, match_nodes, node_query, escaped_labels, where_clause, return_clauses,
  some-bind, some-pair, compiled_all,
}
use py2neo.Matching.Selecting.{property_values, property_meanings, conditions-Selects}
use py2neo.Matching.Clauses.{
  Labels, Escaped, Where, ending, escaped_labels-Labels, escaped_keys-Escaped, finished-Where,
}

module _ {V T : Type 0} (logic : Logic V T) where
  -- The match of nodes, its properties escaped.
  abbrev plain_match : List (List ℕ) → List (List ℕ × Criterion V) → NodeMatch V
  plain_match labels keyed = record {
    labels = labels;
    predicates = compiled_all (property_predicates 1 keyed);
    order_by = [];
    skip = none;
    limit = none;
  }

  match_nodes-plain_match :
      (ids : Identifiers) (labels : List (List ℕ)) (properties keyed : List (List ℕ × Criterion V))
      (m : NodeMatch V)
      → escaped_keys ids properties ≡ some keyed
      → match_nodes ids labels properties ≡ some m
      → m ≡ plain_match labels keyed
  unfolding match_nodes
  match_nodes-plain_match ids labels properties keyed m e f =
      let g : some (plain_match labels keyed) ≡ some m = rw e at f in cc

  -- Where a match of nodes has a query, its text is MATCH with each label after a colon, WHERE with a condition
  -- for each property, in order and with AND between them, or no WHERE without properties, and RETURN of the
  -- nodes or of their count; labels and keys are escaped, the text of each condition says the criterion in
  -- the grammar of Cypher, and under the query's parameters it has the value that the criterion means.
  pub match_nodes-meaning :
      (ids : Identifiers) (labels : List (List ℕ)) (properties : List (List ℕ × Criterion V))
      (counts : Bool) (m : NodeMatch V) (text : List ℕ) (d : Dict (Parameter V))
      → match_nodes ids labels properties ≡ some m
      → node_query ids counts m ≡ some (text, d)
      → (keyed : List (List ℕ × Criterion V)) × (names wheres : List ℕ) × Escaped ids properties
          keyed
        × Labels ids labels names
        × Where keyed wheres
        × (text ≡ codes "MATCH (_" ++ (names ++ (codes ")" ++ (wheres ++ ending counts))))
        × (property_values logic (under logic d) 1 keyed ≡ property_meanings logic keyed)
  unfolding match_nodes node_query
  match_nodes-meaning ids labels properties counts m text d f g =
      let (keyed, escaped, f') = some-bind (escaped_keys ids properties) _ m f in
      let h = match_nodes-plain_match ids labels properties keyed m escaped f in
      let g' = rw h at g in
      let (texts, labelled, done) = some-bind (escaped_labels ids labels) _ (text, d) g' in
      let (written, values, keep) = conditions-Selects logic keyed 1 [] (λ m x e. cc) tt in
      let (text_eq, dict_eq) = some-pair _ (text, d) done in
      let (wheres, says, finished) =
        finished-Where (codes "MATCH (_" ++ (join [] texts ++ codes ")")) keyed counts in
      (
        keyed,
        join [] texts,
        wheres,
        escaped_keys-Escaped ids properties keyed escaped,
        escaped_labels-Labels ids labels texts labelled,
        says,
        sym text_eq
            ∙ ap
                (λ ts. join (codes " ") (
                  (codes "MATCH (_" ++ (join [] texts ++ codes ")"))
                  ∷ (where_clause ts ++ return_clauses counts [] none none)))
                written
            ∙ finished
            ∙ ap (λ z. codes "MATCH (_" ++ z)
                (append_assoc (join [] texts) (codes ")") (wheres ++ ending counts)),
        ap (λ x. property_values logic (under logic x) 1 keyed) (sym dict_eq) ∙ values,
      )
