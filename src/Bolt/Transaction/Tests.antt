-- ===== src/Bolt/Transaction/Tests.antt =====
-- Transactions over a script of the server's messages.
use py2neo.Prelude.{if◌then◌else◌, ◌==◌, ◌<◌, ℕ, ◌≡◌, refl, true, false, List, [], ◌∷◌, none, some}
use py2neo.Bolt.Transaction.First
use py2neo.Bolt.Result.{
  set_failure, set_ignored, audit_response, full, response_done, set_success, new_response,
}
use py2neo.Bolt.Exchange.{Incoming, success, failure, ignored}
use py2neo.Bolt.Transaction.Refusal.{ready, commit_refused}
use py2neo.Bolt.Transaction.Resetting.{audit_transaction-resets}
use py2neo.Bolt.Transaction.{
  audit_items, audit_results, audit_transaction, server_error, Bolt, begin, commit, rollback,
  returns, raises,
}

abbrev idle : List (Incoming ℕ) → Bolt ℕ
idle incoming = record {
  exchange = record {
    responses = [];
    store = λ i. new_response none false;
    wire_closed = false;
    incoming = incoming;
  };
  next_response = 0;
  sends = [];
  sent = [];
  broken = false;
  results = λ i. record { tx = 0; items = []; is_complete = false };
  next_result = 0;
  txs = λ t. record { items = []; is_complete = false; broken = false };
  next_tx = 0;
  transaction = none;
  releases = 0;
}

-- A transaction is open, in which nothing was run.
abbrev opened : List (Incoming ℕ) → Bolt ℕ
opened answers = record (idle answers) { transaction = some 0; next_tx = 1 }

commit_refused_example :
    ((commit 0 (ready 0 (failure 7) [] (opened []))).0 ≡ returns tt)
    × ((rollback 0 (ready 0 (failure 7) [] (opened []))).0 ≡ returns tt)
commit_refused_example = commit_refused 0 (failure 7) [] (opened []) tt refl tt

-- The second of two queries of the transaction failed.
abbrev failing : Bolt ℕ
failing = record (opened []) {
  exchange = record {
    responses = [];
    store = λ i.
        if i == 1
        then record (new_response none false) { status = 2; failure = some 7 }
        else record (new_response none false) { status = 1 };
    wire_closed = false;
    incoming = [];
  };
  next_response = 2;
  results = λ i. record { tx = 0; items = i ∷ []; is_complete = true };
  next_result = 2;
  txs = λ t. record { items = 0 ∷ 1 ∷ []; is_complete = false; broken = false };
}

failing_raises :
    (audit_results (0 ∷ 1 ∷ []) (ready 0 (success none) [] failing)).0 ≡ raises (server_error 7)
unfolding audit_items audit_response
failing_raises = refl

audit_transaction-resets_example :
    ((audit_transaction (some 0) (ready 0 (success none) [] failing)).0 ≡ raises (server_error 7))
    × ((audit_transaction (some 0) (ready 0 (success none) [] failing)).1.transaction ≡ none)
    × ((audit_transaction (some 0) (ready 0 (success none) [] failing)).1.sent ≡ 15 ∷ [])
    × (0 < (audit_transaction (some 0) (ready 0 (success none) [] failing)).1.releases)
audit_transaction-resets_example = audit_transaction-resets 0 7 none [] failing failing_raises

begin_opens : (begin (idle (success none ∷ []))).0 ≡ returns (some 0)
unfolding begin full response_done set_success
begin_opens = refl

-- Bolt1 sends two requests; the second is ignored after the failure of the first.
first_refused_returns : (First.end_tx 0 (opened (failure 7 ∷ ignored ∷ []))).0 ≡ returns tt
unfolding First.end_tx full response_done set_failure set_ignored
first_refused_returns = refl
