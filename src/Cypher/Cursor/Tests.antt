-- ===== src/Cypher/Cursor/Tests.antt =====
-- Records of a query for names and ages, and the theorems about them.
use py2neo.Prelude.{ℕ, ◌≡◌, refl, [], ◌∷◌, some, none, true, false, arith}
use py2neo.Errors.{codes}
use py2neo.Bolt.Result.{take_record, new_response}
use py2neo.Bolt.Result.Records.{remaining}
use py2neo.Cypher.Record.{get_item, Record, ok, err, pos, at, named, key_error, get}
use py2neo.Cypher.Cursor.{Cursor, forward, evaluate}
use py2neo.Cypher.Cursor.Forward.{forward-take}

abbrev keanu : Record ℕ
keanu = record { keys = codes "name" ∷ codes "age" ∷ []; values = 7 ∷ 56 ∷ [] }

abbrev two_people : Cursor ℕ
two_people = record {
  result = record {
    items =
        new_response none false
        ∷ record (new_response none false) {
          records = (7 ∷ 56 ∷ []) ∷ (8 ∷ 53 ∷ []) ∷ [];
          status = 1;
        }
        ∷ [];
    is_complete = true;
    last_taken = 0;
  };
  fields = codes "name" ∷ codes "age" ∷ [];
  hydrant = none;
  current = none;
  sample_size = 3;
}

forward-take_example :
    ((forward (pos 5) two_people).0 ≡ ok 2)
    × ((forward (pos 5) two_people).1.current
        ≡ some (record { keys = codes "name" ∷ codes "age" ∷ []; values = 8 ∷ 53 ∷ [] }))
    × (remaining (forward (pos 5) two_people).1.result ≡ [])
forward-take_example = forward-take 5 two_people (omega arith)

missing_index_is_none : (evaluate (at (pos 2)) two_people).0 ≡ ok none
unfolding evaluate take_record get_item
missing_index_is_none = refl

missing_name_raises : (evaluate (named (codes "born")) two_people).0 ≡ err key_error
unfolding evaluate take_record get_item
missing_name_raises = refl

-- `get` takes an index for a name.
index_as_name : get (codes "0") none keanu ≡ none
unfolding get
index_as_name = refl
