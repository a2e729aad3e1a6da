-- ===== src/Cypher/Record/Lookup.antt =====
-- What the dictionary of a record holds.
use py2neo.Prelude.{
  ℕ, zero, suc, ◌≡◌, ◌<◌, refl, ◌∙◌, ap, sym, Bool, true, false, ◌||◌, Bool-cases, inl, inr,
  if◌then◌else◌, List, [], ◌∷◌, Option, none, some, length, get_elem?, map, arith, ◌==◌, lt→ltb,
  All,
}
use py2neo.Errors.{same}
use py2neo.Cypher.Record.{
  Record, named, Result, ok, err, place, next_place, index, get_item, get, get_at, or_default,
  entry_at, keyed, Entries, assign, lookup, data_each, dict_each, data_of, or_key_error,
}

pub same_refl : (k : List ℕ) → same k k ≡ true
same_refl [] = refl
same_refl (x ∷ xs) = ground (arith, same_refl xs)

same_head : (x y : ℕ) → (x == y) ≡ true → x ≡ y
same_head x y e = ground (arith, e)

pub same_eq : (k l : List ℕ) → same k l ≡ true → k ≡ l
same_eq [] [] e = refl
same_eq [] (y ∷ ys) e = cc
same_eq (x ∷ xs) [] e = cc
same_eq (x ∷ xs) (y ∷ ys) e = elim (Bool-cases (x == y)) [
  | inl h ↦ rw (same_head x y h, same_eq xs ys (ground (arith, h, e))) refl
  | inr h ↦ absurd (ground (arith, h, e))
]

-- Whether a key is among some.
abbrev pub among : List ℕ → List (List ℕ) → Bool
among k [] = false
among k (name ∷ names) = same k name || among k names

next_zero : (o : Option ℕ) → next_place o ≡ some 0 → ⊥
next_zero none e = cc
next_zero (some j) e = let f : suc j ≡ 0 = cc in omega (arith, f)

next_suc : (o : Option ℕ) (i : ℕ) → next_place o ≡ some (suc i) → o ≡ some i
next_suc none i e = cc
next_suc (some j) i e = let f : suc j ≡ suc i = cc in ap some (omega (arith, f))

zero_suc : (i : ℕ) → some 0 ≡ some (suc i) → ⊥
zero_suc i e = let f : 0 ≡ suc i = cc in omega (arith, f)

place_lem :
    (k : List ℕ) (keys : List (List ℕ)) (i : ℕ)
    → place k keys ≡ some i
    → (get_elem? keys i ≡ some k) × (i < length keys)
place_lem k [] i e = cc
place_lem k (key ∷ keys) zero e = elim (Bool-cases (same k key)) [
  | inl h ↦ (ap some (sym (same_eq k key h)), omega arith)
  | inr h ↦ absurd (next_zero (place k keys) (rw h at e))
]
place_lem k (key ∷ keys) (suc i) e = elim (Bool-cases (same k key)) [
  | inl h ↦ absurd (zero_suc i (rw h at e))
  | inr h ↦
      let (got, lt) = place_lem k keys i (next_suc (place k keys) i (rw h at e)) in
      (got, omega (arith, lt))
]

module _ {B : Type 0} where
  pub lookup-assign :
      (k l : List ℕ) (v : B) (d : List (List ℕ × B))
      → lookup k (assign l v d) ≡ (if same k l then some v else lookup k d)
  lookup-assign k l v [] = refl
  lookup-assign k l v ((key, old) ∷ d) = elim (Bool-cases (same l key)) [
    | inl h ↦ rw h (rw (same_eq l key h) (shadowed (same k key)))
    | inr h ↦ rw h (rw (lookup-assign k l v d) (apart (same k key) (same k l) refl refl h))
  ]
    where
      shadowed :
          (b : Bool)
          → (if b then some v else lookup k d)
            ≡ (if b then some v else (if b then some old else lookup k d))
      shadowed true = refl
      shadowed false = refl

      apart :
          (b c : Bool)
          → same k key ≡ b
          → same k l ≡ c
          → same l key ≡ false
          → (if b then some old else (if c then some v else lookup k d))
            ≡ (if c then some v else (if b then some old else lookup k d))
      apart true true e f h =
          let agree : same l key ≡ true = ap (λ x. same x key) (sym (same_eq k l f)) ∙ e in
          let no : true ≡ false = sym agree ∙ h in cc
      apart true false e f h = refl
      apart false true e f h = refl
      apart false false e f h = refl

or_default-none : {V : Type 0} (o : Option V) → o ≡ or_default none o
or_default-none none = refl
or_default-none (some v) = refl

-- The keys of a list have places in it, and keep one when the list grows.
next-Placed :
    (key : List ℕ) (keys names : List (List ℕ))
    → All (λ k. (i : ℕ) × (place k keys ≡ some i)) names
    → All (λ k. (i : ℕ) × (place k (key ∷ keys) ≡ some i)) names
next-Placed key keys [] p = tt
next-Placed key keys (name ∷ names) p = (
  elim (Bool-cases (same name key)) [
    | inl h ↦ (0, rw h refl)
    | inr h ↦ (suc p.0.0, rw (h, p.0.1) refl)
  ],
  next-Placed key keys names p.1,
)

all-Placed : (keys : List (List ℕ)) → All (λ k. (i : ℕ) × (place k keys ≡ some i)) keys
all-Placed [] = tt
all-Placed (key ∷ keys) =
    ((0, rw (same_refl key) refl), next-Placed key keys keys (all-Placed keys))

module _ {V : Type 0} (r : Record V) where
  -- A loop over names gives each its value.
  Holds : List (List ℕ) → Entries V → Result (Entries V) → Type 0
  Holds names d (ok d') =
      (k : List ℕ) → lookup k d' ≡ (if among k names then some (get k none r) else lookup k d)
  Holds names d (err e) = ⊥

  assigned-Holds :
      (name : List ℕ) (names : List (List ℕ)) (rest : Entries V → Result (Entries V))
      (d : Entries V)
      → Holds names (assign name (get name none r) d) (rest (assign name (get name none r) d))
      → Holds (name ∷ names) d (rest (assign name (get name none r) d))
  unfolding Holds
  assigned-Holds name names rest d h = go (rest (assign name (get name none r) d)) h
    where
      mixed :
          (k : List ℕ) (b c : Bool)
          → same k name ≡ c
          → (if b then some (get k none r) else (if c then some (get name none r) else lookup k d))
            ≡ (if c || b then some (get k none r) else lookup k d)
      mixed k true true e = refl
      mixed k true false e = refl
      mixed k false true e = rw (same_eq k name e) refl
      mixed k false false e = refl

      go :
          (m : Result (Entries V))
          → Holds names (assign name (get name none r) d) m
          → Holds (name ∷ names) d m
      go (ok d') h = λ k.
          h k
          ∙ rw (lookup-assign k name (get name none r) d)
              (mixed k (among k names) (same k name) refl)
      go (err e) h = h

  entry_at_lem : (k : List ℕ) → entry_at (named k) (index (named k) r) r ≡ ok (k, get k none r)
  unfolding index get
  entry_at_lem k = go (place k r.keys) refl
    where
      go :
          (o : Option ℕ)
          → place k r.keys ≡ o
          → entry_at (named k) (or_key_error o) r ≡ ok (k, get_at o none r)
      go none e = refl
      go (some i) e =
          let (got, lt) = place_lem k r.keys i e in
          rw (got, lt→ltb i (length r.keys) lt)
            (ap (λ v. ok (k, v)) (or_default-none (get_elem? r.values i)))

  data_each-Holds :
      (names : List (List ℕ)) (d : Entries V) → Holds names d (data_each (map named names) r d)
  unfolding Holds data_each
  data_each-Holds [] d = λ k. refl
  data_each-Holds (name ∷ names) d = rw (entry_at_lem name) (
      assigned-Holds name names (data_each (map named names) r) d
        (data_each-Holds names (assign name (get name none r) d)))

  -- Every name is a key of the record.
  Known : List (List ℕ) → Type 0
  Known names = All (λ k. (i : ℕ) × (place k r.keys ≡ some i)) names

  get_item_lem :
      (k : List ℕ) (i : ℕ)
      → place k r.keys ≡ some i
      → keyed k (get_item (named k) r) ≡ ok (k, get k none r)
  unfolding get_item index get
  get_item_lem k i e = rw e (ap (λ v. ok (k, v)) (or_default-none (get_elem? r.values i)))

  dict_each-Holds :
      (names : List (List ℕ)) (d : Entries V) → Known names → Holds names d (dict_each names r d)
  unfolding Holds dict_each Known
  dict_each-Holds [] d p = λ k. refl
  dict_each-Holds (name ∷ names) d p = rw (get_item_lem name p.0.0 p.0.1) (
      assigned-Holds name names (dict_each names r) d
        (dict_each-Holds names (assign name (get name none r) d) p.1))

  keys-Known : Known r.keys
  unfolding Known
  keys-Known = all-Placed r.keys

  -- The names that a call of `data` with some names asks for.
  abbrev pub asked : List (List ℕ) → List (List ℕ)
  asked [] = r.keys
  asked (name ∷ names) = name ∷ names

  data_of-Holds : (names : List (List ℕ)) → Holds (asked names) [] (data_of (map named names) r)
  unfolding data_of
  data_of-Holds [] = dict_each-Holds r.keys [] keys-Known
  data_of-Holds (name ∷ names) = data_each-Holds (name ∷ names) []

  -- `data` of names never raises. Its dictionary holds for each of the names, or for each of the
  -- keys of the record where no names are given, what `get` finds, which is None for an unknown name, and
  -- nothing else.
  data_of-get :
      (names : List (List ℕ)) (k : List ℕ)
      → (d : Entries V) × (data_of (map named names) r ≡ ok d)
        × (lookup k d ≡ (if among k (asked names) then some (get k none r) else none))
  unfolding Holds
  data_of-get names k = go (data_of (map named names) r) (data_of-Holds names)
    where
      go :
          (m : Result (Entries V))
          → Holds (asked names) [] m
          → (d : Entries V) × (m ≡ ok d)
            × (lookup k d ≡ (if among k (asked names) then some (get k none r) else none))
      go (ok d) h = (d, refl, h k)
      go (err e) h = absurd h
