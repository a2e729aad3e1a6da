-- ===== src/Errors/Codes.antt =====
-- A status code is taken apart as it was put together.
use py2neo.Prelude.{ℕ, refl, ◌≡◌, ◌≢◌, ◌∙◌, ap, true, List, [], ◌∷◌, ◌++◌, some, All, arith}
use py2neo.Errors.{
  codes, dot, split, Status, four_parts, split_code, should_retry, should_invalidate_routing_table,
  Neo4jError,
}

-- A text without dots.
abbrev pub IsPart : List ℕ → Type 0
IsPart text = All (λ c. c ≢ dot) text

split_last : (part : List ℕ) → IsPart part → split part ≡ part ∷ []
split_last [] p = refl
split_last (c ∷ cs) p = ground (arith, p.0, split_last cs p.1)

split_part : (part rest : List ℕ) → IsPart part → split (part ++ dot ∷ rest) ≡ part ∷ split rest
split_part [] rest p = refl
split_part (c ∷ cs) rest p = ground (arith, p.0, split_part cs rest p.1)

-- The code of a status.
abbrev pub code_of : Status → List ℕ
code_of s = codes "Neo" ++ (dot ∷ (s.classification ++ (dot ∷ (s.category ++ (dot ∷ s.title)))))

-- The code made of three parts without dots splits into these parts.
pub split_code-code_of :
    (s : Status)
    → IsPart s.classification
    → IsPart s.category
    → IsPart s.title
    → split_code (some (code_of s)) ≡ some s
unfolding split_code
split_code-code_of s p q r = ap four_parts (
    split_part (codes "Neo") (s.classification ++ (dot ∷ (s.category ++ (dot ∷ s.title))))
      (omega arith)
    ∙ ap (λ x. codes "Neo" ∷ x)
        (split_part s.classification (s.category ++ (dot ∷ s.title)) p
          ∙ ap (λ x. s.classification ∷ x)
              (split_part s.category s.title q ∙ ap (λ x. s.category ∷ x) (split_last s.title r))))

retry_of_invalidate :
    (e : Neo4jError) → should_invalidate_routing_table e ≡ true → should_retry e ≡ true
unfolding should_invalidate_routing_table should_retry
retry_of_invalidate e h = ground arith
