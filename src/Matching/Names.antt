-- ===== src/Matching/Names.antt =====
-- The names of parameters: a name and its extensions, and dictionaries whose keys are known.
use py2neo.Prelude.{
  ℕ, ◌+◌, ◌<◌, ◌≡◌, inl, inr, refl, sym, ap, ◌∙◌, true, false, Bool-cases, List, [], ◌∷◌, ◌++◌,
  append_assoc, Option, none, some, All, arith, append-nil,
}
use py2neo.Prelude.Decimal.{decimal, decimal-Prints, decimal_injective, IsDigit}
use py2neo.Errors.{same}
use py2neo.Cypher.Record.{assign, lookup}
use py2neo.Cypher.Record.Lookup.{same_refl, same_eq, lookup-assign}
use py2neo.Matching.{Parameter, Dict, merge, child}

-- Nothing, or an underscore and more.
abbrev pub Continues : List ℕ → Type 0
Continues [] = Unit
Continues (c ∷ cs) = c ≡ 95

abbrev pub Extends : List ℕ → List ℕ → Type 0
Extends n m = (s : List ℕ) × (m ≡ n ++ s) × Continues s

pub Extends-refl : (n : List ℕ) → Extends n n
Extends-refl n = ([], sym (append-nil n), tt)

pub Extends-child : (n m : List ℕ) (j : ℕ) → Extends (child n j) m → Extends n m
Extends-child n m j (s, e, c) = (95 ∷ (decimal j ++ s), e ∙ append_assoc n (95 ∷ decimal j) s, refl)

cancel : (n xs ys : List ℕ) → n ++ xs ≡ n ++ ys → xs ≡ ys
cancel [] xs ys e = e
cancel (c ∷ n) xs ys e = cancel n xs ys (tail-eq e)
  where
    rest : List ℕ → List ℕ
    rest [] = []
    rest (x ∷ l) = l

    tail-eq : (c ∷ n) ++ xs ≡ (c ∷ n) ++ ys → n ++ xs ≡ n ++ ys
    tail-eq e = ap rest e

-- Digits end where the name does or an underscore comes.
digits_end :
    (xs ys s t : List ℕ)
    → All IsDigit xs
    → All IsDigit ys
    → Continues s
    → Continues t
    → xs ++ s ≡ ys ++ t
    → xs ≡ ys
digits_end [] [] s t h k c d e = refl
digits_end [] (y ∷ ys) [] t h k c d e = cc
digits_end [] (y ∷ ys) (a ∷ s) t h k c d e = let f : a ≡ y = cc in absurd (omega (arith, f, c, k.0))
digits_end (x ∷ xs) [] s [] h k c d e = cc
digits_end (x ∷ xs) [] s (a ∷ t) h k c d e = let f : x ≡ a = cc in absurd (omega (arith, f, d, h.0))
digits_end (x ∷ xs) (y ∷ ys) s t h k c d e =
    let f : x ≡ y = cc in
    let g : xs ++ s ≡ ys ++ t = cc in rw (f, digits_end xs ys s t h.1 k.1 c d g) refl

pub child_apart : (n m : List ℕ) (i j : ℕ) → Extends (child n i) m → Extends (child n j) m → i ≡ j
child_apart n m i j (s, e, c) (t, f, d) = decimal_injective i j (
    digits_end (decimal i) (decimal j) s t (decimal-Prints i).1 (decimal-Prints j).1 c d (
      cancel (n ++ 95 ∷ []) (decimal i ++ s) (decimal j ++ t)
        (regroup i s ∙ sym e ∙ f ∙ sym (regroup j t))))
  where
    regroup : (k : ℕ) (r : List ℕ) → (n ++ 95 ∷ []) ++ (decimal k ++ r) ≡ child n k ++ r
    regroup k r = simp append_assoc

same_sym : (k l : List ℕ) → same k l ≡ false → same l k ≡ false
same_sym k l e = elim (Bool-cases (same l k)) [
  | inl h ↦ let f : same k l ≡ true = ap (same k) (same_eq l k h) ∙ same_refl k in cc
  | inr h ↦ h
]

pub decimal_apart : (m : List ℕ) (i j : ℕ) → Extends (decimal i) m → Extends (decimal j) m → i ≡ j
decimal_apart m i j (s, e, c) (t, f, d) = decimal_injective i j (
    digits_end (decimal i) (decimal j) s t (decimal-Prints i).1 (decimal-Prints j).1 c d
      (sym e ∙ f))

module _ {A : Type 0} where
  abbrev pub or_else : Option A → Option A → Option A
  or_else none y = y
  or_else (some x) y = some x

  -- No key stands twice.
  abbrev pub Distinct : Dict A → Type 0
  Distinct [] = Unit
  Distinct ((k, v) ∷ d) = (lookup k d ≡ none) × Distinct d

  -- Every key extends a name.
  abbrev pub Confined : List ℕ → Dict A → Type 0
  Confined n d = (m : List ℕ) (x : A) → lookup m d ≡ some x → Extends n m

  -- Every key extends one of the first names of a numbering.
  abbrev pub Old : (ℕ → List ℕ) → ℕ → Dict A → Type 0
  Old name j d = (m : List ℕ) (x : A) → lookup m d ≡ some x → (i : ℕ) × (i < j) × Extends (name i) m

  assign-Distinct : (k : List ℕ) (v : A) (d : Dict A) → Distinct d → Distinct (assign k v d)
  assign-Distinct k v [] h = (refl, tt)
  assign-Distinct k v ((key, old) ∷ d) h = elim (Bool-cases (same k key)) [
    | inl e ↦ rw e h
    | inr e ↦
        rw e ((lookup-assign key k v d ∙ rw (same_sym k key e) h.0, assign-Distinct k v d h.1))
  ]

module _ {V : Type 0} where
  pub merge-Distinct : (d q : Dict (Parameter V)) → Distinct d → Distinct (merge d q)
  merge-Distinct d [] h = h
  merge-Distinct d ((k, v) ∷ q) h = merge-Distinct (assign k v d) q (assign-Distinct k v d h)

  -- What is merged in goes first.
  pub lookup-merge :
      (m : List ℕ) (d q : Dict (Parameter V))
      → Distinct q
      → lookup m (merge d q) ≡ or_else (lookup m q) (lookup m d)
  lookup-merge m d [] h = refl
  lookup-merge m d ((k, v) ∷ q) h =
      lookup-merge m (assign k v d) q h.1
      ∙ rw (lookup-assign m k v d) (elim (Bool-cases (same m k)) [
        | inl e ↦ rw (e, same_eq m k e, h.0) refl
        | inr e ↦ rw e refl
      ])

  -- What has the name `j` is merged into a dictionary of earlier names, which are told apart.
  module _ (name : ℕ → List ℕ)
      (apart : (m : List ℕ) (i j : ℕ) → Extends (name i) m → Extends (name j) m → i ≡ j) (j : ℕ)
      (d q : Dict (Parameter V)) (old : Old name j d) (new : Confined (name j) q)
      (distinct : Distinct q) where
    pub merge-Old : Old name (j + 1) (merge d q)
    merge-Old m x e = go (lookup m q) refl (sym (lookup-merge m d q distinct) ∙ e)
      where
        go :
            (o : Option (Parameter V))
            → lookup m q ≡ o
            → or_else o (lookup m d) ≡ some x
            → (i : ℕ) × (i < j + 1) × Extends (name i) m
        go none f e = let (i, l, ext) = old m x e in (i, omega (arith, l), ext)
        go (some y) f e = (j, omega arith, new m y f)

    -- The child's own names are found in its dictionary.
    pub lookup-merge_child : (m : List ℕ) → Extends (name j) m → lookup m (merge d q) ≡ lookup m q
    lookup-merge_child m ext = lookup-merge m d q distinct ∙ go (lookup m q) (lookup m d) refl
      where
        go : (o p : Option (Parameter V)) → lookup m d ≡ p → or_else o p ≡ o
        go (some x) p f = refl
        go none none f = refl
        go none (some y) f =
            let (i, l, ext') = old m y f in
            let same_place : i ≡ j = apart m i j ext' ext in absurd (omega (arith, same_place, l))

    pub lookup-merge_old :
        (m : List ℕ) (i : ℕ) → i < j → Extends (name i) m → lookup m (merge d q) ≡ lookup m d
    lookup-merge_old m i l ext = lookup-merge m d q distinct ∙ go (lookup m q) refl
      where
        go : (o : Option (Parameter V)) → lookup m q ≡ o → or_else o (lookup m d) ≡ lookup m d
        go none f = refl
        go (some y) f =
            let same_place : i ≡ j = apart m i j ext (new m y f) in
            absurd (omega (arith, same_place, l))
