-- ===== src/Matching/Query.antt =====
-- matching.py: `NodeMatch`, the criteria of a selection of nodes, and the query that it is turned into. There is
-- no value where the source raises `ValueError`. A set of labels is the list of its members in the order in which
-- Python's set gives them. Amounts to skip or to return are numbers from 0. The key of each property is
-- escaped, which the source leaves out for a connective of nothing.
use py2neo.Prelude.{
  ◌≡◌, refl, ap, ℕ, zero, suc, Bool, true, false, List, [], ◌∷◌, ◌++◌, Option, none, some,
}
use py2neo.Prelude.Decimal.{decimal}
use py2neo.Errors.{codes}
use py2neo.Cypher.Keys.{Identifiers, encode_key}
use py2neo.Matching.{Criterion, Parameter, Dict, join, merge, property_predicates}

-- A condition of a match: text of the caller, or a compiled predicate.
pub data Condition (V : Type 0) : Type 0 where
  raw : List ℕ → Condition V
  compiled : List ℕ × Dict (Parameter V) → Condition V

pub record NodeMatch (V : Type 0) : Type 0 where
  pub labels : List (List ℕ)
  pub predicates : List (Condition V)
  pub order_by : List (List ℕ)
  pub skip : Option ℕ
  pub limit : Option ℕ

infixl 20 ◌>>=◌
abbrev pub ◌>>=◌ : {A B : Type 0} → Option A → (A → Option B) → Option B
none >>= f = none
some a >>= f = f a

abbrev pub consed : {A : Type 0} → Option A → Option (List A) → Option (List A)
consed (some x) (some xs) = some (x ∷ xs)
consed (some x) none = none
consed none xs = none

pub some-bind :
    {A B : Type 0} (o : Option A) (f : A → Option B) (y : B)
    → (o >>= f) ≡ some y
    → (x : A) × (o ≡ some x) × (f x ≡ some y)
some-bind none f y e = absurd (cc)
some-bind (some x) f y e = (x, refl, e)

pub some-eq : {A : Type 0} (x y : A) → some x ≡ some y → x ≡ y
some-eq x y e = cc

pub some-pair : {A B : Type 0} (x y : A × B) → some x ≡ some y → (x.0 ≡ y.0) × (x.1 ≡ y.1)
some-pair x y e = let f : x ≡ y = cc in (ap (λ z. z.0) f, ap (λ z. z.1) f)

-- The amount as it is tested: 0 counts as no amount to skip.
abbrev pub skip_clause : Option ℕ → List (List ℕ)
skip_clause none = []
skip_clause (some zero) = []
skip_clause (some (suc n)) = (codes "SKIP " ++ decimal (suc n)) ∷ []

abbrev pub limit_clause : Option ℕ → List (List ℕ)
limit_clause none = []
limit_clause (some n) = (codes "LIMIT " ++ decimal n) ∷ []

abbrev pub order_clause : List (List ℕ) → List (List ℕ)
order_clause [] = []
order_clause (field ∷ fields) = (codes "ORDER BY " ++ join (codes ", ") (field ∷ fields)) ∷ []

-- The clauses from RETURN on.
abbrev pub return_clauses : Bool → List (List ℕ) → Option ℕ → Option ℕ → List (List ℕ)
return_clauses true order_by skip limit = codes "RETURN count(_)" ∷ []
return_clauses false order_by skip limit =
    codes "RETURN _" ∷ (order_clause order_by ++ (skip_clause skip ++ limit_clause limit))

module _ (ids : Identifiers) where
  abbrev pub escaped_labels : List (List ℕ) → Option (List (List ℕ))
  escaped_labels [] = some []
  escaped_labels (label ∷ labels) =
      consed (encode_key ids label >>= λ text. some (codes ":" ++ text)) (escaped_labels labels)

  -- The keys are escaped as the predicates are compiled.
  abbrev pub escaped_keys :
      {V : Type 0} → List (List ℕ × Criterion V) → Option (List (List ℕ × Criterion V))
  escaped_keys [] = some []
  escaped_keys ((key, c) ∷ properties) =
      consed (encode_key ids key >>= λ text. some (text, c)) (escaped_keys properties)

abbrev pub where_clause : List (List ℕ) → List (List ℕ)
where_clause [] = []
where_clause (text ∷ texts) = (codes "WHERE " ++ join (codes " AND ") (text ∷ texts)) ∷ []

module _ {V : Type 0} where
  -- The loop over the predicates of a query: their texts, and all of their parameters.
  unfoldable pub conditions :
      List (Condition V) → Dict (Parameter V) → List (List ℕ) × Dict (Parameter V)
  conditions [] d = ([], d)
  conditions (raw text ∷ rest) d = let (texts, d') = conditions rest d in (text ∷ texts, d')
  conditions (compiled (text, q) ∷ rest) d =
      let (texts, d') = conditions rest (merge d q) in (text ∷ texts, d')

  -- The query from WHERE on, after other clauses and parameters.
  abbrev pub finished :
      List (List ℕ)
      → List (List ℕ)
      → List (List ℕ) × Dict (Parameter V)
      → List ℕ × Dict (Parameter V)
  finished before after (texts, d) = (join (codes " ") (before ++ (where_clause texts ++ after)), d)

  -- NodeMatch._query_and_parameters
  unfoldable pub node_query :
      Identifiers → Bool → NodeMatch V → Option (List ℕ × Dict (Parameter V))
  unfolding conditions
  node_query ids counts m = escaped_labels ids m.labels >>= λ labels. some (
      finished ((codes "MATCH (_" ++ (join [] labels ++ codes ")")) ∷ [])
        (return_clauses counts m.order_by m.skip m.limit) (conditions m.predicates []))

  abbrev pub compiled_all : List (List ℕ × Dict (Parameter V)) → List (Condition V)
  compiled_all [] = []
  compiled_all (c ∷ cs) = compiled c ∷ compiled_all cs

  abbrev pub raw_all : List (List ℕ) → List (Condition V)
  raw_all [] = []
  raw_all (text ∷ texts) = raw text ∷ raw_all texts

  -- NodeMatcher.match, with the labels in one list
  unfoldable pub match_nodes :
      Identifiers → List (List ℕ) → List (List ℕ × Criterion V) → Option (NodeMatch V)
  unfolding property_predicates
  match_nodes ids labels properties = escaped_keys ids properties >>= λ keyed. some (record {
    labels = labels;
    predicates = compiled_all (property_predicates 1 keyed);
    order_by = [];
    skip = none;
    limit = none;
  })

  -- NodeMatch.where
  unfoldable pub node_where :
      Identifiers → List (List ℕ) → List (List ℕ × Criterion V) → NodeMatch V → Option (NodeMatch V)
  unfolding property_predicates
  node_where ids texts properties m = escaped_keys ids properties >>= λ keyed. some (record m {
    predicates = m.predicates ++ (raw_all texts ++ compiled_all (property_predicates 1 keyed));
  })

  unfoldable pub node_order_by : List (List ℕ) → NodeMatch V → NodeMatch V
  node_order_by fields m = record m { order_by = fields }

  unfoldable pub node_skip : Option ℕ → NodeMatch V → NodeMatch V
  node_skip amount m = record m { skip = amount }

  unfoldable pub node_limit : Option ℕ → NodeMatch V → NodeMatch V
  node_limit amount m = record m { limit = amount }
