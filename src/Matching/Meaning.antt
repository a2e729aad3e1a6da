-- ===== src/Matching/Meaning.antt =====
-- What a predicate means, and what the condition that it is compiled to means under some parameters. The truth
-- values are of any type, since Cypher's logic has three, and how it evaluates tests is a parameter.
use py2neo.Prelude.{ℕ, ◌+◌, List, [], ◌∷◌, ◌++◌, Option, none, some, ◌≡◌, refl}
use py2neo.Errors.{codes}
use py2neo.Matching.{
  Criterion, nothing, predicate, collection, value, cast, equal_to, Comparison, Junction, Predicate,
  is_null, is_not_null, compares, is_in, connects, Predicates, Parameter, one, many, identity,
  test_text, symbol, word, join, child,
}

mutual
  -- A condition on the property, with the names of its parameters.
  pub data Expression : Type 0 where
    null not_null : Expression
    tests : Comparison → List ℕ → Expression
    within : List ℕ → Expression
    joins : Junction → Expressions → Expression

  pub data Expressions : Type 0 where
    empty : Expressions
    put : Expression → Expressions → Expressions

abbrev mutual
  -- The condition of a predicate: each test has a parameter of its own, named by its place.
  pub expression : {V : Type 0} → Predicate V → List ℕ → Expression
  expression is_null name = null
  expression is_not_null name = not_null
  expression (compares c v) name = tests c name
  expression (is_in vs) name = within name
  expression (connects c ps) name = joins c (expressions ps name 1)

  pub expressions : {V : Type 0} → Predicates V → List ℕ → ℕ → Expressions
  expressions Predicates.nil name j = empty
  expressions (Predicates.cons p ps) name j =
      put (expression p (child name j)) (expressions ps name (j + 1))

-- The condition of what is given for a property.
abbrev pub criterion_expression : {V : Type 0} → Criterion V → List ℕ → Expression
criterion_expression nothing name = null
criterion_expression (predicate p) name = expression p name
criterion_expression (collection vs) name = within name
criterion_expression (value v) name = tests equal_to name

pub cast-expression :
    {V : Type 0} (c : Criterion V) (name : List ℕ)
    → expression (cast c) name ≡ criterion_expression c name
unfolding cast
cast-expression nothing name = refl
cast-expression (predicate p) name = refl
cast-expression (collection vs) name = refl
cast-expression (value v) name = refl

abbrev mutual
  -- The text of a condition on the property with a key.
  pub print : Expression → List ℕ → List ℕ
  print null key = codes "_." ++ (key ++ codes " IS NULL")
  print not_null key = codes "_." ++ (key ++ codes " IS NOT NULL")
  print (tests c name) key = test_text key (symbol c) name
  print (within name) key = test_text key (codes " IN ") name
  print (joins c es) key = codes "(" ++ (join (word c) (print_each es key) ++ codes ")")

  pub print_each : Expressions → List ℕ → List (List ℕ)
  print_each empty key = []
  print_each (put e es) key = print e key ∷ print_each es key

-- How Cypher evaluates tests of the property and the junction of one or more conditions.
pub record Logic (V T : Type 0) : Type 0 where
  pub null_value : T
  pub not_null_value : T
  pub test : Comparison → V → T
  pub member : List V → T
  pub junction : Junction → T → List T → T

module _ {V T : Type 0} (logic : Logic V T) where
  abbrev pub consed : Option T → Option (List T) → Option (List T)
  consed (some t) (some ts) = some (t ∷ ts)
  consed (some t) none = none
  consed none ts = none

  -- A connective of nothing has no value.
  abbrev pub joined_value : Junction → Option (List T) → Option T
  joined_value c none = none
  joined_value c (some []) = none
  joined_value c (some (t ∷ ts)) = some (logic.junction c t ts)

  abbrev mutual
    pub meaning : Predicate V → Option T
    meaning is_null = some logic.null_value
    meaning is_not_null = some logic.not_null_value
    meaning (compares c v) = some (logic.test c v)
    meaning (is_in vs) = some (logic.member vs)
    meaning (connects c ps) = joined_value c (meaning_each ps)

    pub meaning_each : Predicates V → Option (List T)
    meaning_each Predicates.nil = some []
    meaning_each (Predicates.cons p ps) = consed (meaning p) (meaning_each ps)

  -- What is given for a property: no value at all, a predicate, one of several values, or a value.
  abbrev pub criterion_meaning : Criterion V → Option T
  criterion_meaning nothing = some logic.null_value
  criterion_meaning (predicate p) = meaning p
  criterion_meaning (collection vs) = some (logic.member vs)
  criterion_meaning (value v) = some (logic.test equal_to v)

  pub cast-meaning : (c : Criterion V) → meaning (cast c) ≡ criterion_meaning c
  unfolding cast
  cast-meaning nothing = refl
  cast-meaning (predicate p) = refl
  cast-meaning (collection vs) = refl
  cast-meaning (value v) = refl

  -- The parameter has to be there, and of the right kind.
  abbrev pub tested : Comparison → Option (Parameter V) → Option T
  tested c (some (one v)) = some (logic.test c v)
  tested c (some (many vs)) = none
  tested c (some (identity i)) = none
  tested c none = none

  abbrev pub tested_within : Option (Parameter V) → Option T
  tested_within (some (many vs)) = some (logic.member vs)
  tested_within (some (one v)) = none
  tested_within (some (identity i)) = none
  tested_within none = none

  abbrev mutual
    -- The value of a condition under some parameters.
    pub evaluate : (List ℕ → Option (Parameter V)) → Expression → Option T
    evaluate parameters null = some logic.null_value
    evaluate parameters not_null = some logic.not_null_value
    evaluate parameters (tests c name) = tested c (parameters name)
    evaluate parameters (within name) = tested_within (parameters name)
    evaluate parameters (joins c es) = joined_value c (evaluate_each parameters es)

    pub evaluate_each : (List ℕ → Option (Parameter V)) → Expressions → Option (List T)
    evaluate_each parameters empty = some []
    evaluate_each parameters (put e es) =
        consed (evaluate parameters e) (evaluate_each parameters es)
