-- ===== src/Cypher/Keys.antt =====
-- cypher/encoding.py: `encode_key` of `CypherEncoder`, which writes a label, a type or a property key into
-- Cypher text. A string is the list of its code points. Which characters `ID_START` and `ID_CONTINUE` hold
-- depends on the tables of unicodedata, so the two sets are parameters.
pub mod Reading
mod Tests
use py2neo.Prelude.{
  ℕ, Bool, true, false, ◌&&◌, ◌==◌, if◌then◌else◌, List, [], ◌∷◌, ◌++◌, Option, none, some,
}

pub record Identifiers : Type 0 where
  pub id_start : ℕ → Bool
  pub id_continue : ℕ → Bool

abbrev pub backtick : ℕ
backtick = 96

-- key.replace(u"`", u"``")
abbrev pub double_backticks : List ℕ → List ℕ
double_backticks [] = []
double_backticks (c ∷ cs) =
    let rest = double_backticks cs in if c == backtick then backtick ∷ backtick ∷ rest else c ∷ rest

abbrev pub all_continue : Identifiers → List ℕ → Bool
all_continue ids [] = true
all_continue ids (c ∷ cs) = ids.id_continue c && all_continue ids cs

-- There is no value where `key[0]` raises.
unfoldable pub is_safe_key : Identifiers → List ℕ → Option Bool
is_safe_key ids [] = none
is_safe_key ids (c ∷ cs) = some (ids.id_start c && all_continue ids cs)

abbrev pub quoted_unless : List ℕ → Option Bool → Option (List ℕ)
quoted_unless key none = none
quoted_unless key (some safe) =
    some (if safe then key else backtick ∷ (double_backticks key ++ backtick ∷ []))

-- There is no value where the source raises `ValueError`.
unfoldable pub encode_key : Identifiers → List ℕ → Option (List ℕ)
unfolding is_safe_key
encode_key ids [] = none
encode_key ids (c ∷ cs) = quoted_unless (c ∷ cs) (is_safe_key ids (c ∷ cs))
