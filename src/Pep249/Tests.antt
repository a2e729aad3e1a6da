-- ===== src/Pep249/Tests.antt =====
-- A DB API connection to a server that answers one query, and the theorems about connections there.
use py2neo.Prelude.{ℕ, refl, ◌≡◌, [], ◌∷◌, List, some, none, true, false, arith}
use py2neo.Bolt.Result.{BoltResult, new_response}
use py2neo.Bolt.Result.Records.{remaining}
use py2neo.Pep249.{
  Connection, returns, neo4j_error, ok, err, programming_error, close, begin, commit, rollback,
}
use py2neo.Pep249.Cursor.{
  Cursor, cursor, executemany, check_cursor, execute, fetchone, fetchmany, fetchall,
}
use py2neo.Pep249.Cursor.Fetching.{fetchmany-take}
use py2neo.Pep249.Tracking.{Tracks}
use py2neo.Pep249.Protocol.{
  Call, begins_tx, executes, commits_tx, closes_connection, run, run-Tracks,
}
use py2neo.Pep249.Closing.{close-programming_error}

abbrev three_records : BoltResult ℕ
three_records = record {
  items = record (new_response none false) { records = 4 ∷ 5 ∷ 6 ∷ []; status = 1 } ∷ [];
  is_complete = true;
  last_taken = 0;
}

abbrev connection : Connection ℕ
connection = record {
  has_cx = true;
  closed = false;
  broken = false;
  tx = none;
  next_tx = 0;
  replies =
      returns three_records ∷ returns three_records ∷ returns three_records ∷ neo4j_error ∷ [];
  log = [];
}

abbrev cursor_with_result : Cursor ℕ
cursor_with_result = record { result = some three_records; closed = false; arraysize = 2 }

abbrev calls : List (Call ℕ)
calls = begins_tx ∷ executes cursor_with_result ∷ commits_tx ∷ closes_connection ∷ []

-- The server refuses the commit; the transaction is forgotten.
commit_refused : (run calls connection).tx ≡ none
unfolding begin rollback execute commit close
commit_refused = refl

run-Tracks_example : Tracks (run calls connection)
run-Tracks_example = run-Tracks calls connection refl

checked : check_cursor cursor_with_result connection ≡ (ok tt, connection)
unfolding check_cursor
checked = refl

fetchmany-take_example :
    (res : BoltResult ℕ) × (fetchmany none cursor_with_result connection
      ≡ (ok (4 ∷ 5 ∷ [], record cursor_with_result { result = some res }), connection))
    × (remaining res ≡ 6 ∷ [])
fetchmany-take_example =
    fetchmany-take none cursor_with_result connection three_records checked refl (omega arith)

closes_well : (close connection).0 ≡ ok tt
unfolding close
closes_well = refl

close-programming_error_example :
    (begin (close connection).1 ≡ (err programming_error, (close connection).1))
    × (commit (close connection).1 ≡ (err programming_error, (close connection).1))
    × (rollback (close connection).1 ≡ (err programming_error, (close connection).1))
    × (cursor (close connection).1 ≡ (err programming_error, (close connection).1))
    × (execute cursor_with_result (close connection).1
        ≡ (err programming_error, (close connection).1))
    × (executemany 2 cursor_with_result (close connection).1
        ≡ (err programming_error, (close connection).1))
    × (fetchone cursor_with_result (close connection).1
        ≡ (err programming_error, (close connection).1))
    × (fetchmany none cursor_with_result (close connection).1
        ≡ (err programming_error, (close connection).1))
    × (fetchall cursor_with_result (close connection).1
        ≡ (err programming_error, (close connection).1))
close-programming_error_example =
    close-programming_error connection cursor_with_result none 2 refl closes_well
