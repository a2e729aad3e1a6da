-- ===== src/Matching/Selecting.antt =====
-- The conditions of a query that selects nodes or relationships by properties, under its parameters.
use py2neo.Prelude.{ℕ, suc, ◌+◌, ◌<◌, ◌≡◌, refl, ◌∙◌, List, [], ◌∷◌, Option, arith, sym}
use py2neo.Prelude.Decimal.{decimal}
use py2neo.Cypher.Record.{lookup}
use py2neo.Matching.{Criterion, Parameter, Dict, cast, compile, property_predicates, merge}
use py2neo.Matching.Meaning.{
  Logic, criterion_expression, criterion_meaning, cast-expression, cast-meaning, print, evaluate,
}
use py2neo.Matching.Names.{
  Extends, Distinct, Old, merge-Distinct, merge-Old, lookup-merge_child, lookup-merge_old,
}
use py2neo.Matching.Compiling.{Env, under, evaluate_agree, compile-Compiles}
use py2neo.Matching.Places.{place, place_apart}
use py2neo.Matching.Query.{conditions, compiled_all}

-- The texts of the conditions on properties, numbered.
abbrev pub property_texts : {V : Type 0} → ℕ → List (List ℕ × Criterion V) → List (List ℕ)
property_texts i [] = []
property_texts i ((key, c) ∷ properties) =
    print (criterion_expression c (decimal i)) key ∷ property_texts (i + 1) properties

module _ {V T : Type 0} (logic : Logic V T) where
  abbrev pub Criteria : Type 0
  Criteria = List (List ℕ × Criterion V)

  -- The values of the conditions under some parameters.
  abbrev pub property_values : Env logic → ℕ → Criteria → List (Option T)
  property_values env i [] = []
  property_values env i ((key, c) ∷ properties) =
      evaluate logic env (criterion_expression c (decimal i))
      ∷ property_values env (i + 1) properties

  -- What the criteria mean.
  abbrev pub property_meanings : Criteria → List (Option T)
  property_meanings [] = []
  property_meanings ((key, c) ∷ properties) =
      criterion_meaning logic c ∷ property_meanings properties

  abbrev pub Selects :
      Criteria → ℕ → Dict (Parameter V) → List (List ℕ) × Dict (Parameter V) → Type 0
  Selects properties i d (texts, d') =
      (texts ≡ property_texts i properties)
      × (property_values (under logic d') i properties ≡ property_meanings properties)
      × ((m : List ℕ) (k : ℕ) → k < suc (suc i) → Extends (place k) m → lookup m d' ≡ lookup m d)

  Old-next :
      (i : ℕ) (d : Dict (Parameter V))
      → Old place (suc (suc i) + 1) d
      → Old place (suc (suc (i + 1))) d
  Old-next i d old m x e = let (k, l, ext) = old m x e in (k, omega (arith, l), ext)

  pub conditions-Selects :
      (properties : Criteria) (i : ℕ) (d : Dict (Parameter V))
      → Old place (suc (suc i)) d
      → Distinct d
      → Selects properties i d (conditions (compiled_all (property_predicates i properties)) d)
  unfolding conditions property_predicates
  conditions-Selects [] i d old distinct = (refl, refl, λ m k l e. refl)
  conditions-Selects ((key, c) ∷ properties) i d old distinct =
      let q = (compile (cast c) key (decimal i)).1 in
      let (text, value, names, own) = compile-Compiles logic (cast c) key (decimal i) in
      let (texts, values, keep) =
        conditions-Selects properties (i + 1) (merge d q)
          (Old-next i (merge d q) (merge-Old place place_apart (suc (suc i)) d q old names own))
          (merge-Distinct d q distinct) in
      let d' = (conditions (compiled_all (property_predicates (i + 1) properties)) (merge d q)).1 in
      let agree : (m : List ℕ) → Extends (decimal i) m → lookup m d' ≡ lookup m q = λ m e.
        keep m (suc (suc i)) (omega arith) e
        ∙ lookup-merge_child place place_apart (suc (suc i)) d q old names own m e in
      (
        rw (text, cast-expression c (decimal i), texts) refl,
        rw
            (
              sym (cast-expression c (decimal i)),
              evaluate_agree logic (under logic d') (under logic q) (cast c) (decimal i) agree,
              value,
              cast-meaning logic c,
              values,
            )
            refl,
        λ m k l e.
            keep m k (omega (arith, l)) e
            ∙ lookup-merge_old place place_apart (suc (suc i)) d q old names own m k l e,
      )
