-- ===== src/Matching/Chaining.antt =====
-- What becomes of the parameters where one query has the properties of two calls.
use py2neo.Prelude.{
  ℕ, ◌≡◌, refl, sym, ◌∙◌, ap, Bool, List, [], ◌∷◌, ◌++◌, Option, none, some, false, true,
  append_assoc,
}
use py2neo.Prelude.Decimal.{decimal}
use py2neo.Cypher.Keys.{Identifiers, encode_key}
use py2neo.Matching.{
  Criterion, value, Parameter, one, Dict, property_predicates, join, cast, compile,
}
use py2neo.Errors.{codes}
use py2neo.Matching.Clauses.{Labels, ending, escaped_labels-Labels}
use py2neo.Matching.Query.{
  where_clause, return_clauses, escaped_labels, NodeMatch, escaped_keys, match_nodes, node_where,
  node_query, conditions, some-bind, consed, ◌>>=◌, Condition, some-eq, some-pair, compiled_all,
}

chained_text :
    (names t1 t2 : List ℕ) (counts : Bool)
    → join (codes " ") (
        (codes "MATCH (_" ++ (names ++ codes ")"))
        ∷ (where_clause (
              (codes "_." ++ (t1 ++ codes " = $`1`"))
              ∷ (codes "_." ++ (t2 ++ codes " = $`1`"))
              ∷ [])
            ++ return_clauses counts [] none none))
      ≡ codes "MATCH (_"
        ++ (names
            ++ (codes ") WHERE _."
                ++ (t1 ++ (codes " = $`1` AND _." ++ (t2 ++ (codes " = $`1`" ++ ending counts))))))
chained_text names t1 t2 true = simp append_assoc
chained_text names t1 t2 false = simp append_assoc

module _ {V : Type 0} where
  escaped_keys-single :
      (ids : Identifiers) (k : List ℕ) (v : V) (keyed : List (List ℕ × Criterion V))
      → escaped_keys ids ((k, value v) ∷ []) ≡ some keyed
      → (t : List ℕ) × (encode_key ids k ≡ some t) × (keyed ≡ (t, value v) ∷ [])
  escaped_keys-single ids k v keyed e = go (encode_key ids k) e
    where
      go :
          (o : Option (List ℕ))
          → consed (o >>= λ t. some (t, value v)) (some []) ≡ some keyed
          → (t : List ℕ) × (o ≡ some t) × (keyed ≡ (t, value v) ∷ [])
      go none f = absurd cc
      go (some t) f = (t, refl, cc)

  abbrev single : List ℕ → V → List (Condition V)
  single t v = compiled_all (property_predicates 1 ((t, value v) ∷ []))

  abbrev plain : List (List ℕ) → List (Condition V) → NodeMatch V
  plain labels conds = record {
    labels = labels;
    predicates = conds;
    order_by = [];
    skip = none;
    limit = none;
  }

  abbrev extended : NodeMatch V → List (Condition V) → NodeMatch V
  extended m conds = record m { predicates = m.predicates ++ conds }

  -- The conditions of one property, and then of another.
  overwritten :
      (t1 t2 : List ℕ) (v1 v2 : V)
      → (conditions (single t1 v1 ++ single t2 v2) []).1 ≡ (codes "1", one v2) ∷ []
  unfolding conditions property_predicates decimal
  overwritten t1 t2 v1 v2 = refl

  -- The texts of both name the first parameter.
  both_first :
      (t1 t2 : List ℕ) (v1 v2 : V)
      → (conditions (single t1 v1 ++ single t2 v2) []).0
        ≡ (codes "_." ++ (t1 ++ codes " = $`1`")) ∷ (codes "_." ++ (t2 ++ codes " = $`1`")) ∷ []
  unfolding conditions property_predicates cast compile decimal
  both_first t1 t2 v1 v2 = refl

  -- Each call numbers its properties from 1: where `match` and then `where` are given one value each for a
  -- property, the query has both conditions, joined by AND, on the one parameter `1`, and that is the value of
  -- the second call, which takes the place of the first one's.
  pub chained-overwrites :
      (ids : Identifiers) (labels : List (List ℕ)) (k1 k2 : List ℕ) (v1 v2 : V) (counts : Bool)
      (m m' : NodeMatch V) (text : List ℕ) (d : Dict (Parameter V))
      → match_nodes ids labels ((k1, value v1) ∷ []) ≡ some m
      → node_where ids [] ((k2, value v2) ∷ []) m ≡ some m'
      → node_query ids counts m' ≡ some (text, d)
      → (names t1 t2 : List ℕ) × Labels ids labels names
        × (encode_key ids k1 ≡ some t1)
        × (encode_key ids k2 ≡ some t2)
        × (text
            ≡ codes "MATCH (_"
              ++ (names
                  ++ (codes ") WHERE _."
                      ++ (t1
                          ++ (codes " = $`1` AND _."
                              ++ (t2 ++ (codes " = $`1`" ++ ending counts)))))))
        × (d ≡ (codes "1", one v2) ∷ [])
  unfolding match_nodes node_where node_query
  chained-overwrites ids labels k1 k2 v1 v2 counts m m' text d e f g =
      let (keyed1, escaped1, e') = some-bind (escaped_keys ids ((k1, value v1) ∷ [])) _ m e in
      let (keyed2, escaped2, f') = some-bind (escaped_keys ids ((k2, value v2) ∷ [])) _ m' f in
      let (t1, key1, one_key) = escaped_keys-single ids k1 v1 keyed1 escaped1 in
      let (t2, key2, other_key) = escaped_keys-single ids k2 v2 keyed2 escaped2 in
      let match : m ≡ plain labels (single t1 v1) =
        sym (some-eq _ m e')
        ∙ ap (λ z. plain labels (compiled_all (property_predicates 1 z))) one_key in
      let whole : m' ≡ plain labels (single t1 v1 ++ single t2 v2) =
        sym (some-eq _ m' f')
        ∙ ap (λ z. extended m (compiled_all (property_predicates 1 z))) other_key
        ∙ ap (λ z. extended z (single t2 v2)) match in
      let g0 = rw whole at g in
      let (texts, labelled, g') = some-bind (escaped_labels ids labels) _ (text, d) g0 in
      (
        join [] texts,
        t1,
        t2,
        escaped_labels-Labels ids labels texts labelled,
        key1,
        key2,
        sym (some-pair _ (text, d) g').0
            ∙ ap
                (λ ts. join (codes " ") (
                  (codes "MATCH (_" ++ (join [] texts ++ codes ")"))
                  ∷ (where_clause ts ++ return_clauses counts [] none none)))
                (both_first t1 t2 v1 v2)
            ∙ chained_text (join [] texts) t1 t2 counts,
        sym (some-pair _ (text, d) g').1 ∙ overwritten t1 t2 v1 v2,
      )
