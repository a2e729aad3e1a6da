-- ===== src/Bolt/Result/Tests.antt =====
-- A result of two responses, and the theorems about results there.
use py2neo.Prelude.{ℕ, refl, ◌≡◌, [], ◌∷◌, ◌++◌, List, none, some, false, arith}
use py2neo.Bolt.Result.{BoltResult, new_response, take_record, audit}
use py2neo.Bolt.Result.Records.{remaining, IsPlaced, take_record-remaining}
use py2neo.Bolt.Result.Queue.{Event, asks, arrives, takes, run, run-remaining}
use py2neo.Bolt.Result.Auditing.{audit-first_failure}

-- The header is done and empty, and the first records are there.
abbrev two_responses : BoltResult ℕ
two_responses = record {
  items =
      record (new_response none false) { status = 1 }
      ∷ record (new_response none false) { records = 4 ∷ 5 ∷ [] }
      ∷ [];
  is_complete = false;
  last_taken = 0;
}

abbrev broken_off : BoltResult ℕ
broken_off = record two_responses {
  items =
      two_responses.items ++ record (new_response none false) { status = 2; failure = some 9 } ∷ [];
}

abbrev events : List (Event ℕ)
events = takes ∷ asks false ∷ arrives (6 ∷ 7 ∷ []) ∷ takes ∷ takes ∷ []

taken_over_responses : (take_record two_responses).0 ≡ some 4
unfolding take_record
taken_over_responses = refl

take_record-remaining_example :
    ((take_record two_responses).0 ≡ some 4)
    × (remaining (take_record two_responses).1 ≡ 5 ∷ [])
    × IsPlaced (take_record two_responses).1
take_record-remaining_example = take_record-remaining two_responses (omega arith)

run-remaining_example :
    (run events two_responses).0 ++ remaining (run events two_responses).1 ≡ 4 ∷ 5 ∷ 6 ∷ 7 ∷ []
run-remaining_example = run-remaining events two_responses (omega arith)

audit-first_failure_example :
    ((audit broken_off).0 ≡ some 9)
    × ((audit (audit broken_off).1).0 ≡ (audit broken_off).0)
    × (remaining (audit broken_off).1 ≡ 4 ∷ 5 ∷ [])
audit-first_failure_example = audit-first_failure broken_off
