-- ===== src/Matching/Compiling.antt =====
-- A compiled predicate means what the predicate means.
use py2neo.Prelude.{
  ℕ, ◌+◌, ◌<◌, ◌≡◌, refl, ap, ◌∙◌, List, [], ◌∷◌, Option, none, some, arith, Bool-cases, inl, inr,
  subst, sym,
}
use py2neo.Errors.{same}
use py2neo.Cypher.Record.{lookup}
use py2neo.Cypher.Record.Lookup.{same_refl, same_eq}
use py2neo.Matching.{
  Predicate, is_null, is_not_null, compares, is_in, connects, Predicates, Parameter, one, many,
  Dict, compile, compile_each, after_child, child, merge,
}
use py2neo.Matching.Meaning.{
  Logic, expression, expressions, print, print_each, meaning, meaning_each, evaluate, evaluate_each,
  joined_value, tested, tested_within,
}
use py2neo.Matching.Grammar.{Says, print-Says}
use py2neo.Matching.Names.{
  child_apart, Extends, Extends-refl, Extends-child, Distinct, Confined, Old, merge-Distinct,
  merge-Old, lookup-merge_child, lookup-merge_old,
}

module _ {V T : Type 0} (logic : Logic V T) where
  abbrev pub Env : Type 0
  Env = List ℕ → Option (Parameter V)

  mutual
    -- A condition reads the parameters with its own names alone.
    pub evaluate_agree :
        (f g : Env) (p : Predicate V) (n : List ℕ)
        → ((m : List ℕ) → Extends n m → f m ≡ g m)
        → evaluate logic f (expression p n) ≡ evaluate logic g (expression p n)
    evaluate_agree f g is_null n h = refl
    evaluate_agree f g is_not_null n h = refl
    evaluate_agree f g (compares c v) n h = ap (tested logic c) (h n (Extends-refl n))
    evaluate_agree f g (is_in vs) n h = ap (tested_within logic) (h n (Extends-refl n))
    evaluate_agree f g (connects c ps) n h =
        ap (joined_value logic c) (evaluate_each_agree f g ps n 1 h)

    evaluate_each_agree :
        (f g : Env) (ps : Predicates V) (n : List ℕ) (j : ℕ)
        → ((m : List ℕ) → Extends n m → f m ≡ g m)
        → evaluate_each logic f (expressions ps n j) ≡ evaluate_each logic g (expressions ps n j)
    evaluate_each_agree f g Predicates.nil n j h = refl
    evaluate_each_agree f g (Predicates.cons p ps) n j h =
        rw
          (
            evaluate_agree f g p (child n j) (λ m e. h m (Extends-child n m j e)),
            evaluate_each_agree f g ps n (j + 1) h,
          )
          refl

  abbrev pub under : Dict (Parameter V) → Env
  under d m = lookup m d

  -- A compiled predicate: its text, the value of its condition under its parameters, and their names.
  abbrev pub Compiles : Predicate V → List ℕ → List ℕ → List ℕ × Dict (Parameter V) → Type 0
  Compiles p key n (text, d) =
      (text ≡ print (expression p n) key)
      × (evaluate logic (under d) (expression p n) ≡ meaning logic p)
      × Confined n d
      × Distinct d

  abbrev CompilesEach :
      Predicates V
      → List ℕ
      → List ℕ
      → ℕ
      → Dict (Parameter V)
      → List (List ℕ) × Dict (Parameter V)
      → Type 0
  CompilesEach ps key n j d (texts, d') =
      (texts ≡ print_each (expressions ps n j) key)
      × (evaluate_each logic (under d') (expressions ps n j) ≡ meaning_each logic ps)
      × ((m : List ℕ) (i : ℕ) → i < j → Extends (child n i) m → lookup m d' ≡ lookup m d)
      × ((m : List ℕ) (x : Parameter V) → lookup m d' ≡ some x → (i : ℕ) × Extends (child n i) m)
      × Distinct d'

  single-Confined : (n : List ℕ) (x : Parameter V) → Confined n ((n, x) ∷ [])
  single-Confined n x m y e = elim (Bool-cases (same m n)) [
    | inl h ↦ rw (same_eq m n h) (Extends-refl n)
    | inr h ↦ let no : none ≡ some y = rw h at e in cc
  ]

  single-lookup : (n : List ℕ) (x : Parameter V) → lookup n ((n, x) ∷ []) ≡ some x
  single-lookup n x = rw (same_refl n) refl

  step-CompilesEach :
      (p : Predicate V) (ps : Predicates V) (key n : List ℕ) (j : ℕ) (d : Dict (Parameter V))
      (q : List ℕ × Dict (Parameter V))
      (rest : Dict (Parameter V) → List (List ℕ) × Dict (Parameter V))
      → Old (child n) j d
      → Distinct d
      → Compiles p key (child n j) q
      → ((d1 : Dict (Parameter V))
          → Old (child n) (j + 1) d1
          → Distinct d1
          → CompilesEach ps key n (j + 1) d1 (rest d1))
      → CompilesEach (Predicates.cons p ps) key n j d (after_child rest d q)
  step-CompilesEach p ps key n j d (text, q) rest old distinct (t, v, names, own) ih =
      let d1 = merge d q in
      let (ts, vs, keep, within_n, dist) =
        ih d1 (merge-Old (child n) (child_apart n) j d q old names own)
          (merge-Distinct d q distinct) in
      let agree : (m : List ℕ) → Extends (child n j) m → lookup m (rest d1).1 ≡ lookup m q = λ m e.
        keep m j (omega arith) e
        ∙ lookup-merge_child (child n) (child_apart n) j d q old names own m e in
      (
        rw (t, ts) refl,
        rw (evaluate_agree (under (rest d1).1) (under q) p (child n j) agree, v, vs) refl,
        λ m i l e.
            keep m i (omega (arith, l)) e
            ∙ lookup-merge_old (child n) (child_apart n) j d q old names own m i l e,
        within_n,
        dist,
      )

  mutual
    unfolding compile

    pub compile-Compiles : (p : Predicate V) (key n : List ℕ) → Compiles p key n (compile p key n)
    compile-Compiles is_null key n = (refl, refl, λ m x e. cc, tt)
    compile-Compiles is_not_null key n = (refl, refl, λ m x e. cc, tt)
    compile-Compiles (compares c v) key n =
        (refl, ap (tested logic c) (single-lookup n (one v)), single-Confined n (one v), (refl, tt))
    compile-Compiles (is_in vs) key n = (
      refl,
      ap (tested_within logic) (single-lookup n (many vs)),
      single-Confined n (many vs),
      (refl, tt),
    )
    compile-Compiles (connects c ps) key n =
        let (ts, vs, keep, names, dist) = compile_each-Compiles ps key n 1 [] (λ m x e. cc) tt in
        (
          rw ts refl,
          rw vs refl,
          λ m x e. let (i, ext) = names m x e in Extends-child n m i ext,
          dist,
        )

    compile_each-Compiles :
        (ps : Predicates V) (key n : List ℕ) (j : ℕ) (d : Dict (Parameter V))
        → Old (child n) j d
        → Distinct d
        → CompilesEach ps key n j d (compile_each ps key n j d)
    compile_each-Compiles Predicates.nil key n j d old distinct =
        (refl, refl, λ m i l e. refl, λ m x e. let (i, l, ext) = old m x e in (i, ext), distinct)
    compile_each-Compiles (Predicates.cons p ps) key n j d old distinct =
        step-CompilesEach p ps key n j d (compile p key (child n j)) (compile_each ps key n (j + 1))
          old distinct (compile-Compiles p key (child n j)) (compile_each-Compiles ps key n (j + 1))

  -- The text of a compiled predicate says, in the grammar of Cypher's conditions, the condition in which every
  -- comparison names a parameter of its own, and the value of that condition under the dictionary compiled
  -- with it is the predicate's meaning.
  pub compile-meaning :
      (p : Predicate V) (key name : List ℕ)
      → Says key (compile p key name).0 (expression p name)
        × (evaluate logic (λ m. lookup m (compile p key name).1) (expression p name)
            ≡ meaning logic p)
  compile-meaning p key name =
      let (t, v, names, own) = compile-Compiles p key name in
      (subst (λ x. Says key x (expression p name)) (sym t) (print-Says (expression p name) key), v)
