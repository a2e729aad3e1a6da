-- ===== src/Matching/Clauses.antt =====
-- The clauses of a query, as what their text has to be.
use py2neo.Prelude.{
  ℕ, ◌+◌, ◌≡◌, refl, sym, ◌∙◌, ap, Bool, true, false, List, [], ◌∷◌, ◌++◌, Option, none, some,
  append-nil,
}
use py2neo.Prelude.Decimal.{decimal}
use py2neo.Errors.{codes}
use py2neo.Cypher.Keys.{Identifiers, encode_key}
use py2neo.Matching.{Criterion, join}
use py2neo.Matching.Meaning.{criterion_expression, print}
use py2neo.Matching.Grammar.{Says, print-Says}
use py2neo.Matching.Query.{
  consed, some-bind, some-eq, escaped_labels, escaped_keys, where_clause, return_clauses,
}
use py2neo.Matching.Relationships.{
  RelationshipType, any_type, one_of, of_type, escaped_types, relationship_detail,
}
use py2neo.Matching.Selecting.{property_texts}

-- What comes last: the nodes or relationships, or their count.
abbrev pub ending : Bool → List ℕ
ending true = codes " RETURN count(_)"
ending false = codes " RETURN _"

-- Each label is escaped and has a colon before it.
abbrev pub Labels : Identifiers → List (List ℕ) → List ℕ → Type 0
Labels ids [] text = text ≡ []
Labels ids (label ∷ labels) text =
    (escaped rest : List ℕ) × (encode_key ids label ≡ some escaped)
    × Labels ids labels rest
    × (text ≡ codes ":" ++ (escaped ++ rest))

-- Types with bars between them.
abbrev pub Alternatives : Identifiers → List (List ℕ) → List ℕ → Type 0
Alternatives ids [] text = text ≡ []
Alternatives ids (t ∷ []) text = encode_key ids t ≡ some text
Alternatives ids (t ∷ u ∷ ts) text =
    (escaped rest : List ℕ) × (encode_key ids t ≡ some escaped)
    × Alternatives ids (u ∷ ts) rest
    × (text ≡ escaped ++ (codes "|" ++ rest))

abbrev pub Types : Identifiers → RelationshipType → List ℕ → Type 0
Types ids any_type text = text ≡ []
Types ids (of_type t) text =
    (escaped : List ℕ) × (encode_key ids t ≡ some escaped) × (text ≡ codes ":" ++ escaped)
Types ids (one_of ts) text = (rest : List ℕ) × Alternatives ids ts rest × (text ≡ codes ":" ++ rest)

-- The same criteria in the same order, with the keys escaped.
abbrev pub Escaped :
    {V : Type 0} → Identifiers → List (List ℕ × Criterion V) → List (List ℕ × Criterion V) → Type 0
Escaped ids [] keyed = keyed ≡ []
Escaped ids ((key, c) ∷ properties) [] = ⊥
Escaped ids ((key, c) ∷ properties) ((text, c') ∷ keyed) =
    (encode_key ids key ≡ some text) × (c' ≡ c) × Escaped ids properties keyed

-- The conditions of the criteria, numbered, with AND between them.
abbrev pub Conjunction : {V : Type 0} → ℕ → List (List ℕ × Criterion V) → List ℕ → Type 0
Conjunction i [] text = text ≡ []
Conjunction i ((key, c) ∷ []) text = Says key text (criterion_expression c (decimal i))
Conjunction i ((key, c) ∷ next ∷ properties) text =
    (first rest : List ℕ) × Says key first (criterion_expression c (decimal i))
    × Conjunction (i + 1) (next ∷ properties) rest
    × (text ≡ first ++ (codes " AND " ++ rest))

abbrev pub Where : {V : Type 0} → List (List ℕ × Criterion V) → List ℕ → Type 0
Where [] text = text ≡ []
Where (p ∷ properties) text =
    (rest : List ℕ) × Conjunction 1 (p ∷ properties) rest × (text ≡ codes " WHERE " ++ rest)

consed-some :
    {A : Type 0} (o : Option A) (os : Option (List A)) (ys : List A)
    → consed o os ≡ some ys
    → (x : A) × (xs : List A) × (o ≡ some x) × (os ≡ some xs) × (ys ≡ x ∷ xs)
consed-some none os ys e = absurd cc
consed-some (some x) none ys e = absurd cc
consed-some (some x) (some xs) ys e = (x, xs, refl, refl, sym (some-eq _ ys e))

module _ (ids : Identifiers) where
  pub escaped_labels-Labels :
      (labels texts : List (List ℕ))
      → escaped_labels ids labels ≡ some texts
      → Labels ids labels (join [] texts)
  escaped_labels-Labels [] texts e = ap (join []) (sym (some-eq [] texts e))
  escaped_labels-Labels (label ∷ labels) texts e =
      let (x, xs, f, fs, split) = consed-some _ (escaped_labels ids labels) texts e in
      let (text, escaped, written) = some-bind (encode_key ids label) _ x f in
      (
        text,
        join [] xs,
        escaped,
        escaped_labels-Labels labels xs fs,
        ap (join []) (split ∙ ap (λ z. z ∷ xs) (sym (some-eq _ x written)))
            ∙ go (codes ":" ++ text) xs,
      )
    where
      go : (t : List ℕ) (xs : List (List ℕ)) → join [] (t ∷ xs) ≡ t ++ join [] xs
      go t [] = sym (append-nil t)
      go t (y ∷ ys) = refl

  pub escaped_keys-Escaped :
      {V : Type 0} (properties keyed : List (List ℕ × Criterion V))
      → escaped_keys ids properties ≡ some keyed
      → Escaped ids properties keyed
  escaped_keys-Escaped [] keyed e = sym (some-eq [] keyed e)
  escaped_keys-Escaped ((key, c) ∷ properties) [] e =
      let (x, xs, f, fs, split) = consed-some _ (escaped_keys ids properties) [] e in absurd cc
  escaped_keys-Escaped ((key, c) ∷ properties) ((text, c') ∷ keyed) e =
      let (x, xs, f, fs, split) =
        consed-some _ (escaped_keys ids properties) ((text, c') ∷ keyed) e in
      let (t, escaped, written) = some-bind (encode_key ids key) _ x f in
      let head : (text, c') ≡ x = cc in
      let rest : keyed ≡ xs = cc in
      let whole : (text, c') ≡ (t, c) = head ∙ sym (some-eq _ x written) in
      (
        escaped ∙ ap (λ z. some z.0) (sym whole),
        ap (λ z. z.1) whole,
        escaped_keys-Escaped properties keyed (fs ∙ ap some (sym rest)),
      )

  escaped_types-Alternatives :
      (ts texts : List (List ℕ))
      → escaped_types ids ts ≡ some texts
      → Alternatives ids ts (join (codes "|") texts)
  escaped_types-Alternatives [] texts e = ap (join (codes "|")) (sym (some-eq [] texts e))
  escaped_types-Alternatives (t ∷ []) texts e =
      let (x, xs, f, fs, split) = consed-some (encode_key ids t) (some []) texts e in
      let single : texts ≡ x ∷ [] = split ∙ ap (λ z. x ∷ z) (sym (some-eq [] xs fs)) in
      f ∙ ap (λ z. some (join (codes "|") z)) (sym single)
  escaped_types-Alternatives (t ∷ u ∷ ts) texts e =
      let (x, xs, f, fs, split) =
        consed-some (encode_key ids t) (escaped_types ids (u ∷ ts)) texts e in
      let (y, ys, g, gs, split') = consed-some (encode_key ids u) (escaped_types ids ts) xs fs in
      (
        x,
        join (codes "|") xs,
        f,
        escaped_types-Alternatives (u ∷ ts) xs fs,
        ap (join (codes "|")) (split ∙ ap (λ z. x ∷ z) split')
            ∙ ap (λ z. x ++ (codes "|" ++ join (codes "|") z)) (sym split'),
      )

  pub relationship_detail-Types :
      (r_type : RelationshipType) (text : List ℕ)
      → relationship_detail ids r_type ≡ some text
      → Types ids r_type text
  relationship_detail-Types any_type text e = sym (some-eq [] text e)
  relationship_detail-Types (of_type t) text e =
      let (x, escaped, f) = some-bind (encode_key ids t) _ text e in
      (x, escaped, sym (some-eq _ text f))
  relationship_detail-Types (one_of ts) text e =
      let (texts, escaped, f) = some-bind (escaped_types ids ts) _ text e in
      (join (codes "|") texts, escaped_types-Alternatives ts texts escaped, sym (some-eq _ text f))

-- The text from WHERE to before RETURN.
abbrev filter_text : List (List ℕ) → List ℕ
filter_text [] = []
filter_text (t ∷ ts) = codes " WHERE " ++ join (codes " AND ") (t ∷ ts)

-- A query after its first clause.
join-finished :
    (clause : List ℕ) (texts : List (List ℕ)) (counts : Bool)
    → join (codes " ") (clause ∷ (where_clause texts ++ return_clauses counts [] none none))
      ≡ clause ++ (filter_text texts ++ ending counts)
join-finished clause [] true = refl
join-finished clause [] false = refl
join-finished clause (t ∷ ts) true = refl
join-finished clause (t ∷ ts) false = refl

module _ {V : Type 0} where
  property_texts-Conjunction :
      (i : ℕ) (keyed : List (List ℕ × Criterion V))
      → Conjunction i keyed (join (codes " AND ") (property_texts i keyed))
  property_texts-Conjunction i [] = refl
  property_texts-Conjunction i ((key, c) ∷ []) = print-Says (criterion_expression c (decimal i)) key
  property_texts-Conjunction i ((key, c) ∷ next ∷ properties) = (
    print (criterion_expression c (decimal i)) key,
    join (codes " AND ") (property_texts (i + 1) (next ∷ properties)),
    print-Says (criterion_expression c (decimal i)) key,
    property_texts-Conjunction (i + 1) (next ∷ properties),
    refl,
  )

  filter_text-Where :
      (keyed : List (List ℕ × Criterion V)) → Where keyed (filter_text (property_texts 1 keyed))
  filter_text-Where [] = refl
  filter_text-Where (p ∷ keyed) = (
    join (codes " AND ") (property_texts 1 (p ∷ keyed)),
    property_texts-Conjunction 1 (p ∷ keyed),
    refl,
  )

  -- The text of a query after its first clause says what the criteria are.
  pub finished-Where :
      (clause : List ℕ) (keyed : List (List ℕ × Criterion V)) (counts : Bool)
      → (conditions : List ℕ) × Where keyed conditions
        × (join (codes " ") (
              clause
              ∷ (where_clause (property_texts 1 keyed) ++ return_clauses counts [] none none))
            ≡ clause ++ (conditions ++ ending counts))
  finished-Where clause keyed counts = (
    filter_text (property_texts 1 keyed),
    filter_text-Where keyed,
    join-finished clause (property_texts 1 keyed) counts,
  )
