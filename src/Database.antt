-- ===== src/Database.antt =====
-- database.py: `Transaction`, and the methods of `Graph` that begin, commit, roll back and retry. The reference
-- of a transaction over Bolt counts as false once the server refused a query in it, as its `__bool__` says;
-- over HTTP it never does.
mod Running
pub mod Ending
pub mod Committing
pub mod Closed
pub mod Retrying
mod Tests
use py2neo.Prelude.{
  ℕ, zero, suc, ◌+◌, Bool, true, false, not, ◌&&◌, ◌||◌, if◌then◌else◌, List, [], ◌∷◌, Option, none,
  some,
}
use py2neo.Errors.{Neo4jError, should_retry, should_invalidate_routing_table}
use py2neo.Client.Connector
use py2neo.Client.Connector.{
  Connector, Action, Result, ok, err, ◌>>=◌, Fault, connection_unavailable, connection_broken,
  connection_limit, server_error, type_error, write_service_unavailable, service_unavailable, is_ok,
}

-- `live` is what the reference counts as.
pub record TransactionRef : Type 0 where
  pub txid : ℕ
  pub live : Bool

-- Of the summary of a commit or rollback, `has_summary` says that there is one.
pub record Transaction : Type 0 where
  pub ref : Option TransactionRef
  pub readonly : Bool
  pub closed : Bool
  pub has_summary : Bool

-- A transaction is an object, and keeps its state when a method raises.
pub record Session : Type 0 where
  pub tx : Transaction
  pub connector : Connector

abbrev pub TxAction : Type 0 → Type 0
TxAction A = Session → Result A × Session

-- Graph.auto
unfoldable pub auto : Bool → Transaction
auto readonly = record { ref = none; readonly = readonly; closed = false; has_summary = false }

abbrev pub opened : Bool → Result ℕ × Connector → Result Transaction × Connector
opened readonly (ok t, k) = (
  ok (record {
    ref = some (record { txid = t; live = true });
    readonly = readonly;
    closed = false;
    has_summary = false;
  }),
  k,
)
opened readonly (err e, k) = (err e, k)

-- Graph.begin
unfoldable pub begin : Bool → Action Transaction
begin readonly k = opened readonly (Connector.begin k)

abbrev pub is_live : Option TransactionRef → Bool
is_live none = false
is_live (some ref) = ref.live

-- What an error of the server makes of the reference.
abbrev pub ref_after : Bool → Result (Unit {0}) → Option TransactionRef → Option TransactionRef
ref_after bolt r none = none
ref_after bolt (err (server_error e)) (some ref) = some (record ref { live = ref.live && not bolt })
ref_after bolt r (some ref) = some ref

-- The call that `run` makes of the connector: within the transaction, or by itself.
abbrev pub run_ref : Option TransactionRef → Action (Unit {0})
run_ref none k = Connector.auto_run k
run_ref (some ref) k = if ref.live then Connector.run ref.txid k else Connector.auto_run k

-- `finally`: a transaction without a live reference is closed.
abbrev pub ran : Transaction → Result (Unit {0}) × Connector → Result (Unit {0}) × Session
ran tx (r, k) = (
  r,
  record {
    tx = record tx {
      ref = ref_after k.bolt r tx.ref;
      closed = tx.closed || not (is_live (ref_after k.bolt r tx.ref));
    };
    connector = k;
  },
)

-- Transaction.run, the records of the result apart
unfoldable pub run : TxAction (Unit {0})
run s =
    if s.tx.closed
    then (err type_error, s)
    else ran s.tx (run_ref s.tx.ref s.connector >>= λ _ k. Connector.pull k)

abbrev pub ended : Transaction → Result (Unit {0}) × Connector → Result (Unit {0}) × Session
ended tx (r, k) = (
  r,
  record {
    tx = record tx { closed = true; has_summary = tx.has_summary || is_ok r };
    connector = k;
  },
)

-- `tx.ref` is None for an auto-commit transaction, which the connector cannot take.
abbrev pub ref_commit : Option TransactionRef → Action (Unit {0})
ref_commit none k = (err Connector.other_error, k)
ref_commit (some ref) k = Connector.commit ref.txid k

-- Graph.commit
unfoldable pub commit : TxAction (Unit {0})
commit s = if s.tx.closed then (err type_error, s) else ended s.tx (ref_commit s.tx.ref s.connector)

-- `except (ConnectionUnavailable, ConnectionBroken): pass`
abbrev pub passing : Result (Unit {0}) × Session → Result (Unit {0}) × Session
passing (err connection_unavailable, s) = (ok tt, s)
passing (err connection_broken, s) = (ok tt, s)
passing (r, s) = (r, s)

abbrev pub ref_rollback : Option TransactionRef → Action (Unit {0})
ref_rollback none k = (err Connector.other_error, k)
ref_rollback (some ref) k = Connector.rollback ref.txid k

-- Graph.rollback
unfoldable pub rollback : TxAction (Unit {0})
rollback s =
    if s.tx.closed then (ok tt, s) else passing (ended s.tx (ref_rollback s.tx.ref s.connector))

-- How a turn of a retrying loop ends.
pub data Turn (A : Type 0) : Type 0 where
  done : A → Turn A
  again : Turn A
  raises : Fault → Turn A

-- `except Neo4jError`
abbrev pub judge : {A : Type 0} → Neo4jError → Connector → Turn A × Connector
judge e k =
    let k' =
      if should_invalidate_routing_table e then Connector.invalidate_routing_table k else k in
    (if should_retry e then again else raises (server_error e), k')

-- The three handlers, after the rollback.
abbrev pub handle : {A : Type 0} → Fault → Connector → Turn A × Connector
handle connection_unavailable k = (again, k)
handle connection_broken k = (again, k)
handle connection_limit k = (again, k)
handle (server_error e) k = judge e k
handle e k = (raises e, k)

-- An error of the rollback takes the place of the first.
abbrev pub handle_in : Fault → Result (Unit {0}) × Session → Turn (Unit {0}) × Connector
handle_in e (ok a, s) = handle e s.connector
handle_in e (err f, s) = (raises f, s.connector)

abbrev pub settled : Result (Unit {0}) × Session → Turn (Unit {0}) × Connector
settled (ok a, s) = (done a, s.connector)
settled (err e, s) = handle_in e (rollback s)

abbrev pub worked : Result (Unit {0}) × Session → Turn (Unit {0}) × Connector
worked (ok a, s) = settled (commit s)
worked (err e, s) = handle_in e (rollback s)

-- `rollback(None)` does nothing.
abbrev pub begun :
    TxAction (Unit {0}) → Result Transaction × Connector → Turn (Unit {0}) × Connector
begun work (ok tx, k) = worked (work (record { tx = tx; connector = k }))
begun work (err e, k) = handle e k

unfoldable pub attempt : TxAction (Unit {0}) → Connector → Turn (Unit {0}) × Connector
attempt work k = begun work (begin false k)

abbrev pub next_turn :
    {A : Type 0} → (Connector → Result A × Connector) → Turn A × Connector → Result A × Connector
next_turn rest (done a, k) = (ok a, k)
next_turn rest (again, k) = rest k
next_turn rest (raises e, k) = (err e, k)

-- The loops of `_update` and `query`, over the turns that are left.
unfoldable pub retry : {A : Type 0} → Fault → (Connector → Turn A × Connector) → ℕ → Action A
retry last turn zero k = (err last, k)
retry last turn (suc n) k = next_turn (retry last turn n) (turn k)

-- Timer.repeat: three turns, and more while the clock says that time remains.
abbrev pub turns : List Bool → ℕ
turns [] = 3
turns (true ∷ remaining) = suc (turns remaining)
turns (false ∷ remaining) = 3

-- _update, over the readings of the clock
unfoldable pub update : TxAction (Unit {0}) → List Bool → Action (Unit {0})
unfolding retry attempt
update work remaining k = retry write_service_unavailable (attempt work) (turns remaining) k

abbrev pub queried : Result (Unit {0}) × Session → Turn (Unit {0}) × Connector
queried (ok a, s) = (done a, s.connector)
queried (err e, s) = handle e s.connector

unfoldable pub query_turn : Connector → Turn (Unit {0}) × Connector
query_turn k = queried (run (record { tx = auto true; connector = k }))

-- query, over the readings of the clock
unfoldable pub query : List Bool → Action (Unit {0})
unfolding retry query_turn
query remaining k = retry service_unavailable query_turn (turns remaining) k
