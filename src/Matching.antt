-- ===== src/Matching.antt =====
-- matching.py: predicates on properties, and how they are compiled to a condition in Cypher text with
-- parameters. A text is the list of its code points. The values that a property is compared with are of any
-- type `V`; the parameter of a membership test is a list of them,
-- and that of a node its identity. `key` is the property key as
-- `cypher_escape` wrote it, which is the same at each place.
mod Names
pub mod Query
pub mod Relationships
pub mod Meaning
pub mod Grammar
pub mod Compiling
pub mod Places
pub mod Selecting
pub mod Clauses
pub mod Nodes
pub mod Bound
pub mod Ends
pub mod Chaining
mod Tests
use py2neo.Prelude.{ℕ, suc, ◌+◌, List, [], ◌∷◌, ◌++◌, Option, none, some, map}
use py2neo.Prelude.Decimal.{decimal}
use py2neo.Errors.{codes}
use py2neo.Cypher.Record.{assign}

-- The classes that compare a property with one value.
pub data Comparison : Type 0 where
  equal_to not_equal_to less_than less_than_or_equal_to greater_than : Comparison
  greater_than_or_equal_to starts_with ends_with contains like : Comparison

pub data Junction : Type 0 where
  and or either_or : Junction

mutual
  pub data Predicate (V : Type 0) : Type 0 where
    is_null is_not_null : Predicate V
    compares : Comparison → V → Predicate V
    is_in : List V → Predicate V
    connects : Junction → Predicates V → Predicate V

  pub data Predicates (V : Type 0) : Type 0 where
    nil : Predicates V
    cons : Predicate V → Predicates V → Predicates V

-- What may be given for a property: None, a predicate, a tuple or set, or any other value.
pub data Criterion (V : Type 0) : Type 0 where
  nothing : Criterion V
  predicate : Predicate V → Criterion V
  collection : List V → Criterion V
  value : V → Criterion V

pub data Parameter (V : Type 0) : Type 0 where
  one : V → Parameter V
  many : List V → Parameter V
  identity : ℕ → Parameter V

abbrev pub Dict : Type 0 → Type 0
Dict A = List (List ℕ × A)

abbrev pub symbol : Comparison → List ℕ
symbol equal_to = codes " = "
symbol not_equal_to = codes " <> "
symbol less_than = codes " < "
symbol less_than_or_equal_to = codes " <= "
symbol greater_than = codes " > "
symbol greater_than_or_equal_to = codes " >= "
symbol starts_with = codes " STARTS WITH "
symbol ends_with = codes " ENDS WITH "
symbol contains = codes " CONTAINS "
symbol like = codes " =~ "

abbrev pub word : Junction → List ℕ
word and = codes " AND "
word or = codes " OR "
word either_or = codes " XOR "

-- separator.join(texts)
abbrev pub join : List ℕ → List (List ℕ) → List ℕ
join separator [] = []
join separator (text ∷ []) = text
join separator (text ∷ next ∷ rest) = text ++ (separator ++ join separator (next ∷ rest))

-- "$`%s`" % name
abbrev pub placeholder : List ℕ → List ℕ
placeholder name = codes "$`" ++ (name ++ codes "`")

-- "%s_%s" % (name, j)
abbrev pub child : List ℕ → ℕ → List ℕ
child name j = name ++ (codes "_" ++ decimal j)

-- "_.%s = $`%s`" % (key, name), and so on
abbrev pub test_text : List ℕ → List ℕ → List ℕ → List ℕ
test_text key sign name = codes "_." ++ (key ++ (sign ++ placeholder name))

module _ {V : Type 0} where
  -- d.update(entries)
  abbrev pub merge : Dict (Parameter V) → Dict (Parameter V) → Dict (Parameter V)
  merge d [] = d
  merge d ((k, v) ∷ entries) = merge (assign k v d) entries

  -- Predicate.cast
  unfoldable pub cast : Criterion V → Predicate V
  cast nothing = is_null
  cast (predicate p) = p
  cast (collection vs) = is_in vs
  cast (value v) = compares equal_to v

  -- The end of the loop of a connective over its predicates.
  abbrev pub joined : Junction → List (List ℕ) × Dict (Parameter V) → List ℕ × Dict (Parameter V)
  joined c (texts, d) = (codes "(" ++ (join (word c) texts ++ codes ")"), d)

  abbrev pub after_child :
      (Dict (Parameter V) → List (List ℕ) × Dict (Parameter V))
      → Dict (Parameter V)
      → List ℕ × Dict (Parameter V)
      → List (List ℕ) × Dict (Parameter V)
  after_child rest d (text, q) = let (texts, d') = rest (merge d q) in (text ∷ texts, d')

  unfoldable mutual
    pub compile : Predicate V → List ℕ → List ℕ → List ℕ × Dict (Parameter V)
    compile is_null key name = (codes "_." ++ (key ++ codes " IS NULL"), [])
    compile is_not_null key name = (codes "_." ++ (key ++ codes " IS NOT NULL"), [])
    compile (compares c v) key name = (test_text key (symbol c) name, (name, one v) ∷ [])
    compile (is_in vs) key name = (test_text key (codes " IN ") name, (name, many vs) ∷ [])
    compile (connects c ps) key name = joined c (compile_each ps key name 1 [])

    pub compile_each :
        Predicates V → List ℕ → List ℕ → ℕ → Dict (Parameter V) → List (List ℕ) × Dict (Parameter V)
    compile_each nil key name j d = ([], d)
    compile_each (cons p ps) key name j d =
        after_child (compile_each ps key name (j + 1)) d (compile p key (child name j))

  -- _property_predicates, over the properties in order, with their keys written
  unfoldable pub property_predicates :
      ℕ → List (List ℕ × Criterion V) → List (List ℕ × Dict (Parameter V))
  unfolding cast compile
  property_predicates i [] = []
  property_predicates i ((key, c) ∷ properties) =
      compile (cast c) key (decimal i) ∷ property_predicates (i + 1) properties
