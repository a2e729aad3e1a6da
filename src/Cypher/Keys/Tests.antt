-- ===== src/Cypher/Keys/Tests.antt =====
-- Keys in ASCII, and the theorem about keys at them.
use py2neo.Prelude.{
  ℕ, refl, ◌≡◌, Bool, ◌&&◌, ◌||◌, ◌==◌, leb, List, [], ◌∷◌, ◌++◌, some, none, arith,
}
use py2neo.Cypher.Keys.{Identifiers, encode_key}
use py2neo.Cypher.Keys.Reading.{read_name, encode_key-read_name}

-- The letters, the digits and the underscore of ASCII.
abbrev letter : ℕ → Bool
letter c = (leb 65 c && leb c 90) || (leb 97 c && leb c 122) || c == 95

abbrev ascii : Identifiers
ascii = record { id_start = letter; id_continue = λ c. letter c || (leb 48 c && leb c 57) }

safe_key_stays : encode_key ascii (97 ∷ 49 ∷ []) ≡ some (97 ∷ 49 ∷ [])
unfolding encode_key
safe_key_stays = refl

-- A key that starts with a digit is quoted.
digit_is_quoted : encode_key ascii (49 ∷ []) ≡ some (96 ∷ 49 ∷ 96 ∷ [])
unfolding encode_key
digit_is_quoted = refl

empty_key_raises : encode_key ascii [] ≡ none
unfolding encode_key
empty_key_raises = refl

encode_key-read_name_example :
    (text : List ℕ) × (encode_key ascii (97 ∷ 96 ∷ 41 ∷ []) ≡ some text)
    × (read_name ascii (text ++ 41 ∷ []) ≡ some (97 ∷ 96 ∷ 41 ∷ [], 41 ∷ []))
encode_key-read_name_example =
    encode_key-read_name ascii (97 ∷ 96 ∷ 41 ∷ []) (41 ∷ []) refl (λ x. cc)
      ((λ x. omega arith), refl)
