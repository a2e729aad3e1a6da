-- ===== src/Database/Tests.antt =====
-- Transactions over a script of what the server does.
use py2neo.Prelude.{arith, ◌++◌, ◌≡◌, ◌⊎◌, ◌≤◌, refl, true, false, [], ◌∷◌, some}
use py2neo.Client.Connector
use py2neo.Errors.{Neo4jError, codes, transient_error, should_retry}
use py2neo.Database.Retrying.{with_replies, script, acquiring, pulling, query_live}
use py2neo.Client.Connector.{
  server_error, connection_unavailable, Connector, Result, ok, err, connection_broken, Command,
  is_ok,
}
use py2neo.Database.{query, Session, run, update, commit, rollback, retry, attempt, begin}
use py2neo.Database.Ending.{LastCommit}
use py2neo.Database.Committing.{counted, committed, update-committed, run-IsWork}
use py2neo.Database.Closed.{runs_query, commits_tx, perform, ends, perform-ends}

-- The first commit meets a connection that breaks, the second attempt goes through.
abbrev flaky : Connector
flaky = record {
  bolt = true;
  next_tx = 1;
  replies =
      ok tt
      ∷ ok tt
      ∷ ok tt
      ∷ ok tt
      ∷ err connection_broken
      ∷ ok tt
      ∷ ok tt
      ∷ ok tt
      ∷ ok tt
      ∷ ok tt
      ∷ [];
  log = [];
}

update-committed_example :
    (committed (update run [] flaky).1 ≡ counted (is_ok (update run [] flaky).0) (committed flaky))
    × ((is_ok (update run [] flaky).0 ≡ false) ⊎ LastCommit (update run [] flaky).1)
update-committed_example = update-committed run run-IsWork [] flaky

-- The second attempt commits.
one_commit : committed (update run [] flaky).1 ≡ 1
unfolding update retry attempt begin run commit rollback Connector.begin Connector.run
    Connector.pull Connector.commit Connector.rollback Connector.reacquire Connector.ask
one_commit = refl

abbrev opened_tx : Session
opened_tx = record {
  tx = record {
    ref = some (record { txid = 1; live = true });
    readonly = false;
    closed = false;
    has_summary = false;
  };
  connector = flaky;
}

perform-ends_example :
    ((perform (runs_query ∷ commits_tx ∷ []) opened_tx).tx.closed ≡ false)
      × (ends (perform (runs_query ∷ commits_tx ∷ []) opened_tx).connector ≡ 0)
    ⊎ (ends (perform (runs_query ∷ commits_tx ∷ []) opened_tx).connector ≤ 1)
      × (perform (commits_tx ∷ []) (perform (runs_query ∷ commits_tx ∷ []) opened_tx)
          ≡ perform (runs_query ∷ commits_tx ∷ []) opened_tx)
perform-ends_example = perform-ends (runs_query ∷ commits_tx ∷ []) (commits_tx ∷ []) opened_tx refl

-- The first attempt finds no connection, and a deadlock undoes the second.
abbrev deadlock : Neo4jError
deadlock = record {
  error_class = transient_error;
  status = record {
    classification = codes "TransientError";
    category = codes "Transaction";
    title = codes "DeadlockDetected";
  };
}

deadlock_is_transient : should_retry deadlock ≡ true
unfolding should_retry
deadlock_is_transient = refl

query_live_example :
    (query [] (
      with_replies
        (script (acquiring connection_unavailable ∷ pulling (server_error deadlock) ∷ [])
          ++ ok tt ∷ ok tt ∷ ok tt ∷ [])
        flaky)).0
    ≡ ok tt
query_live_example =
    query_live [] (acquiring connection_unavailable ∷ pulling (server_error deadlock) ∷ []) [] flaky
      (tt, (deadlock_is_transient, tt)) (omega arith)
