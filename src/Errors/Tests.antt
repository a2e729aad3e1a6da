-- ===== src/Errors/Tests.antt =====
-- Status codes of a server, and the theorem about codes at one of them.
use py2neo.Prelude.{refl, ◌≡◌, some, none, true, arith}
use py2neo.Errors.{codes, Status, split_code, hydrate, should_retry, transient_error}
use py2neo.Errors.Codes.{code_of, split_code-code_of}

abbrev deadlock : Status
deadlock = record {
  classification = codes "TransientError";
  category = codes "Transaction";
  title = codes "DeadlockDetected";
}

deadlock_is_transient :
    hydrate (some (codes "Neo.TransientError.Transaction.DeadlockDetected"))
    ≡ some (record { error_class = transient_error; status = deadlock })
unfolding hydrate
deadlock_is_transient = refl

deadlock_is_retried :
    should_retry (record { error_class = transient_error; status = deadlock }) ≡ true
unfolding should_retry
deadlock_is_retried = refl

short_code_raises : hydrate (some (codes "Neo.ClientError.Cluster")) ≡ none
unfolding hydrate
short_code_raises = refl

split_code-code_of_example : split_code (some (code_of deadlock)) ≡ some deadlock
split_code-code_of_example = split_code-code_of deadlock (omega arith) (omega arith) (omega arith)
