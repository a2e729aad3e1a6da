-- ===== src/Matching/Bound.antt =====
-- The nodes between which relationships are matched: each is bound to the graph, and its identity is a parameter.
use py2neo.Prelude.{
  ℕ, ◌==◌, ◌≡◌, sym, ◌∙◌, ap, Bool-cases, inl, inr, List, [], ◌∷◌, Option, none, some, arith, ◌++◌,
}
use py2neo.Errors.{codes, same}
use py2neo.Cypher.Record.{assign}
use py2neo.Cypher.Record.Lookup.{same_eq}
use py2neo.Matching.{Parameter, identity, Dict}
use py2neo.Matching.Query.{some-bind, some-pair}
use py2neo.Matching.Names.{Extends-refl, Old}
use py2neo.Matching.Places.{place}
use py2neo.Matching.Relationships.{
  BoundNode, end_clause, identity_in, sequence_clauses, start_clause, stop_clause, verified,
}

-- The node is bound to the graph, under an identity.
abbrev pub BoundTo : ℕ → BoundNode → ℕ → Type 0
BoundTo g n i = (n.graph ≡ some g) × (n.node_identity ≡ some i)

verified-BoundTo : (g i : ℕ) (n : BoundNode) → verified g n ≡ some i → BoundTo g n i
verified-BoundTo g i n e = go n.graph n.node_identity e
  where
    go : (o q : Option ℕ) → identity_in g o q ≡ some i → (o ≡ some g) × (q ≡ some i)
    go none q f = absurd cc
    go (some h) q f = elim (Bool-cases (h == g)) [
      | inl same_graph ↦ (ap some (ground (arith, same_graph)), rw same_graph at f)
      | inr other ↦ let no : none ≡ some i = rw other at f in absurd cc
    ]

module _ {V : Type 0} where
  -- The parameters of the two ends.
  abbrev pub ends : ℕ → ℕ → Dict (Parameter V)
  ends i j = (codes "x", identity i) ∷ (codes "y", identity j) ∷ []

  pub ends-Old : (i j : ℕ) → Old place 2 (ends i j)
  ends-Old i j m x e = elim (Bool-cases (same m (codes "x"))) [
    | inl h ↦ (0, omega arith, rw (same_eq m (codes "x") h) (Extends-refl (codes "x")))
    | inr h ↦ elim (Bool-cases (same m (codes "y"))) [
      | inl k ↦ (1, omega arith, rw (same_eq m (codes "y") k) (Extends-refl (codes "y")))
      | inr k ↦ let no : none ≡ some x = rw (h, k) at e in absurd cc
    ]
  ]

  end_clause-some :
      (g : ℕ) (clause name : List ℕ) (n : BoundNode) (c r : List (List ℕ) × Dict (Parameter V))
      → end_clause g clause name (some n) c ≡ some r
      → (i : ℕ) × BoundTo g n i × (r.0 ≡ c.0 ++ clause ∷ []) × (r.1 ≡ assign name (identity i) c.1)
  end_clause-some g clause name n (clauses, d) r e =
      let (i, bound, f) = some-bind (verified g n) _ r e in
      (i, verified-BoundTo g i n bound, sym (some-pair _ r f).0, sym (some-pair _ r f).1)

  pub sequence_clauses-ends :
      (g : ℕ) (a b : BoundNode) (cl : List (List ℕ)) (d : Dict (Parameter V))
      → sequence_clauses g (some a ∷ some b ∷ []) ≡ some (cl, d)
      → (i j : ℕ) × BoundTo g a i
        × BoundTo g b j
        × (cl ≡ codes "MATCH (a) WHERE id(a) = $x" ∷ codes "MATCH (b) WHERE id(b) = $y" ∷ [])
        × (d ≡ ends i j)
  sequence_clauses-ends g a b cl d e =
      let (c, first, e') =
        some-bind (start_clause g (some a) ([], [])) (stop_clause g (some b)) (cl, d) e in
      let (i, bound_a, t, f) = end_clause-some g _ (codes "x") a ([], []) c first in
      let (j, bound_b, u, h) = end_clause-some g _ (codes "y") b c (cl, d) e' in
      (
        i,
        j,
        bound_a,
        bound_b,
        u ∙ ap (λ z. z ++ codes "MATCH (b) WHERE id(b) = $y" ∷ []) t,
        h ∙ ap (assign (codes "y") (identity j)) f,
      )
