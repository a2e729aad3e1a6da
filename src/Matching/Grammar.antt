-- ===== src/Matching/Grammar.antt =====
-- The text of a condition in Cypher, as a grammar: what a text says about the property with a key.
use py2neo.Prelude.{ℕ, List, [], ◌++◌}
use py2neo.Errors.{codes}
use py2neo.Matching.{
  Junction, and, or, either_or, word, join, equal_to, not_equal_to, less_than,
  less_than_or_equal_to, greater_than, greater_than_or_equal_to, starts_with, ends_with, contains,
  like,
}
use py2neo.Matching.Meaning.{
  Expression, null, not_null, tests, within, joins, Expressions, empty, put, print, print_each,
}

mutual
  pub data Says (key : List ℕ) : List ℕ → Expression → Type 0 where
    says_null : Says key (codes "_." ++ (key ++ codes " IS NULL")) null
    says_not_null : Says key (codes "_." ++ (key ++ codes " IS NOT NULL")) not_null
    says_equal :
        (n : List ℕ)
        → Says key (codes "_." ++ (key ++ (codes " = $`" ++ (n ++ codes "`")))) (tests equal_to n)
    says_unequal :
        (n : List ℕ)
        → Says key
            (codes "_." ++ (key ++ (codes " <> $`" ++ (n ++ codes "`"))))
            (tests not_equal_to n)
    says_less :
        (n : List ℕ)
        → Says key (codes "_." ++ (key ++ (codes " < $`" ++ (n ++ codes "`")))) (tests less_than n)
    says_at_most :
        (n : List ℕ)
        → Says key
            (codes "_." ++ (key ++ (codes " <= $`" ++ (n ++ codes "`"))))
            (tests less_than_or_equal_to n)
    says_greater :
        (n : List ℕ)
        → Says key
            (codes "_." ++ (key ++ (codes " > $`" ++ (n ++ codes "`"))))
            (tests greater_than n)
    says_at_least :
        (n : List ℕ)
        → Says key
            (codes "_." ++ (key ++ (codes " >= $`" ++ (n ++ codes "`"))))
            (tests greater_than_or_equal_to n)
    says_starts :
        (n : List ℕ)
        → Says key
            (codes "_." ++ (key ++ (codes " STARTS WITH $`" ++ (n ++ codes "`"))))
            (tests starts_with n)
    says_ends :
        (n : List ℕ)
        → Says key
            (codes "_." ++ (key ++ (codes " ENDS WITH $`" ++ (n ++ codes "`"))))
            (tests ends_with n)
    says_contains :
        (n : List ℕ)
        → Says key
            (codes "_." ++ (key ++ (codes " CONTAINS $`" ++ (n ++ codes "`"))))
            (tests contains n)
    says_like :
        (n : List ℕ)
        → Says key (codes "_." ++ (key ++ (codes " =~ $`" ++ (n ++ codes "`")))) (tests like n)
    says_in :
        (n : List ℕ)
        → Says key (codes "_." ++ (key ++ (codes " IN $`" ++ (n ++ codes "`")))) (within n)
    says_joined :
        (c : Junction) (t : List ℕ) (es : Expressions)
        → SaysEach key c t es
        → Says key (codes "(" ++ (t ++ codes ")")) (joins c es)

  -- Conditions with the word of their junction between them.
  pub data SaysEach (key : List ℕ) : Junction → List ℕ → Expressions → Type 0 where
    says_none : (c : Junction) → SaysEach key c [] empty
    says_last :
        (c : Junction) (t : List ℕ) (e : Expression) → Says key t e → SaysEach key c t (put e empty)
    says_and :
        (t u : List ℕ) (e f : Expression) (es : Expressions)
        → Says key t e
        → SaysEach key and u (put f es)
        → SaysEach key and (t ++ (codes " AND " ++ u)) (put e (put f es))
    says_or :
        (t u : List ℕ) (e f : Expression) (es : Expressions)
        → Says key t e
        → SaysEach key or u (put f es)
        → SaysEach key or (t ++ (codes " OR " ++ u)) (put e (put f es))
    says_xor :
        (t u : List ℕ) (e f : Expression) (es : Expressions)
        → Says key t e
        → SaysEach key either_or u (put f es)
        → SaysEach key either_or (t ++ (codes " XOR " ++ u)) (put e (put f es))

mutual
  pub print-Says : (e : Expression) (key : List ℕ) → Says key (print e key) e
  print-Says null key = says_null
  print-Says not_null key = says_not_null
  print-Says (tests equal_to n) key = says_equal n
  print-Says (tests not_equal_to n) key = says_unequal n
  print-Says (tests less_than n) key = says_less n
  print-Says (tests less_than_or_equal_to n) key = says_at_most n
  print-Says (tests greater_than n) key = says_greater n
  print-Says (tests greater_than_or_equal_to n) key = says_at_least n
  print-Says (tests starts_with n) key = says_starts n
  print-Says (tests ends_with n) key = says_ends n
  print-Says (tests contains n) key = says_contains n
  print-Says (tests like n) key = says_like n
  print-Says (within n) key = says_in n
  print-Says (joins c es) key =
      says_joined c (join (word c) (print_each es key)) es (print_each-Says c es key)

  print_each-Says :
      (c : Junction) (es : Expressions) (key : List ℕ)
      → SaysEach key c (join (word c) (print_each es key)) es
  print_each-Says c empty key = says_none c
  print_each-Says c (put e empty) key = says_last c (print e key) e (print-Says e key)
  print_each-Says and (put e (put f es)) key =
      says_and (print e key) (join (word and) (print_each (put f es) key)) e f es (print-Says e key)
        (print_each-Says and (put f es) key)
  print_each-Says or (put e (put f es)) key =
      says_or (print e key) (join (word or) (print_each (put f es) key)) e f es (print-Says e key)
        (print_each-Says or (put f es) key)
  print_each-Says either_or (put e (put f es)) key =
      says_xor (print e key) (join (word either_or) (print_each (put f es) key)) e f es
        (print-Says e key) (print_each-Says either_or (put f es) key)
