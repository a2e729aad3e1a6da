-- ===== src/Cypher/Keys/Reading.antt =====
-- A key that was encoded reads back as itself, whatever stands in it: it cannot end early and let its
-- text run on as Cypher.
use mathlib.Core.Bool.{false≢true}
use py2neo.Prelude.{
  sym, ℕ, refl, ◌≡◌, ◌≢◌, ◌∙◌, ap, Bool, Bool-cases, true, false, ◌&&◌, ◌==◌, if◌then◌else◌, List,
  [], ◌∷◌, ◌++◌, Option, none, some, arith, inl, inr, append_assoc,
}
use py2neo.Cypher.Keys.{
  Identifiers, backtick, double_backticks, all_continue, is_safe_key, encode_key,
}

-- What was read, and the text behind it.
abbrev pub Parsed : Type 0
Parsed = Option (List ℕ × List ℕ)

abbrev pub prefixed : ℕ → Parsed → Parsed
prefixed c none = none
prefixed c (some (name, rest)) = some (c ∷ name, rest)

-- The inside of a quoted name; the flag says that a backtick was read which may be the first of two.
abbrev pub read_quoted : Bool → List ℕ → Parsed
read_quoted false [] = none
read_quoted true [] = some ([], [])
read_quoted false (c ∷ cs) =
    let ends = read_quoted true cs in
    let more = prefixed c (read_quoted false cs) in if c == backtick then ends else more
read_quoted true (c ∷ cs) =
    let more = prefixed backtick (read_quoted false cs) in
    if c == backtick then more else some ([], c ∷ cs)

-- The rest of a name without quotes.
abbrev pub read_plain : Identifiers → List ℕ → List ℕ × List ℕ
read_plain ids [] = ([], [])
read_plain ids (c ∷ cs) =
    let more = read_plain ids cs in if ids.id_continue c then (c ∷ more.0, more.1) else ([], c ∷ cs)

-- A name of Cypher's grammar, quoted or not, at the start of a text.
abbrev pub read_name : Identifiers → List ℕ → Parsed
read_name ids [] = none
read_name ids (c ∷ cs) =
    let more = read_plain ids cs in
    if c == backtick
    then read_quoted false cs
    else if ids.id_start c
    then some (c ∷ more.0, more.1)
    else none

-- The text behind a name does not go on with it.
abbrev pub Separates : Identifiers → List ℕ → Type 0
Separates ids [] = Unit
Separates ids (c ∷ cs) = (c ≢ backtick) × (ids.id_continue c ≡ false)

module _ (ids : Identifiers) (rest : List ℕ) (separates : Separates ids rest) where
  read_end : read_quoted true rest ≡ some ([], rest)
  read_end = go rest separates
    where
      go : (t : List ℕ) → Separates ids t → read_quoted true t ≡ some ([], t)
      go [] s = refl
      go (c ∷ cs) s = ground (arith, s.0)

  read_quoted-double_backticks :
      (key : List ℕ)
      → read_quoted false (double_backticks key ++ backtick ∷ rest) ≡ some (key, rest)
  read_quoted-double_backticks [] = read_end
  read_quoted-double_backticks (c ∷ cs) = elim (Bool-cases (c == backtick)) [
    | inl same ↦
        let e : backtick ≡ c = ground (arith, same) in
        rw same (
          ap (prefixed backtick) (read_quoted-double_backticks cs)
          ∙ ap (λ x. some (x ∷ cs, rest)) e)
    | inr other ↦ rw other (rw other (ap (prefixed c) (read_quoted-double_backticks cs)))
  ]

  read_plain_end : read_plain ids rest ≡ ([], rest)
  read_plain_end = go rest separates
    where
      go : (t : List ℕ) → Separates ids t → read_plain ids t ≡ ([], t)
      go [] s = refl
      go (c ∷ cs) s = rw (s.1) refl

  read_plain-append :
      (key : List ℕ) → all_continue ids key ≡ true → read_plain ids (key ++ rest) ≡ (key, rest)
  read_plain-append [] h = read_plain_end
  read_plain-append (c ∷ cs) h =
      let start : ids.id_continue c ≡ true = ground (arith, h) in
      let others : all_continue ids cs ≡ true = ground (arith, h) in
      rw start (ap (λ (p : List ℕ × List ℕ). (c ∷ p.0, p.1)) (read_plain-append cs others))

  not_backtick :
      (c : ℕ) → ids.id_start backtick ≡ false → ids.id_start c ≡ true → (c == backtick) ≡ false
  not_backtick c plain start = elim (Bool-cases (c == backtick)) [
    | inl same ↦
        let e : backtick ≡ c = ground (arith, same) in
        absurd (false≢true (sym plain ∙ (ap ids.id_start e ∙ start)))
    | inr other ↦ other
  ]

  read_safe :
      (c : ℕ) (cs : List ℕ)
      → ids.id_start backtick ≡ false
      → (ids.id_start c && all_continue ids cs) ≡ true
      → read_name ids ((c ∷ cs) ++ rest) ≡ some (c ∷ cs, rest)
  read_safe c cs plain h =
      let start : ids.id_start c ≡ true = ground (arith, h) in
      let others : all_continue ids cs ≡ true = ground (arith, h) in
      let differs : (c == backtick) ≡ false = not_backtick c plain start in
      rw differs
        (rw start (ap (λ (p : List ℕ × List ℕ). some (c ∷ p.0, p.1)) (read_plain-append cs others)))

  read_unsafe :
      (key : List ℕ)
      → read_name ids ((backtick ∷ (double_backticks key ++ backtick ∷ [])) ++ rest)
        ≡ some (key, rest)
  read_unsafe key =
      ap (read_quoted false) (append_assoc (double_backticks key) (backtick ∷ []) rest)
      ∙ read_quoted-double_backticks key

-- Every key but the empty one is encoded, and a reader of Cypher reads the text back as this key and stops
-- right behind it, whatever characters the key holds: no key can run on as Cypher. This holds for a text
-- behind it that does not begin with a backtick or a character of a name; no plain name begins with a
-- backtick.
pub encode_key-read_name :
    (ids : Identifiers) (key rest : List ℕ)
    → ids.id_start backtick ≡ false
    → key ≢ []
    → Separates ids rest
    → (text : List ℕ) × (encode_key ids key ≡ some text)
      × (read_name ids (text ++ rest) ≡ some (key, rest))
unfolding encode_key is_safe_key
encode_key-read_name ids [] rest plain h s = absurd (h refl)
encode_key-read_name ids (c ∷ cs) rest plain h s =
    elim (Bool-cases (ids.id_start c && all_continue ids cs)) [
      | inl safe ↦ (c ∷ cs, rw safe refl, read_safe ids rest s c cs plain safe)
      | inr unsafe ↦ (
        backtick ∷ (double_backticks (c ∷ cs) ++ backtick ∷ []),
        rw unsafe refl,
        read_unsafe ids rest s (c ∷ cs),
      )
    ]
