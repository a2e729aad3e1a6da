-- ===== src/Lib.antt =====
-- A model of the core of py2neo, a client library for the Neo4j graph database: what carries bytes and
-- messages to a server, the transactions over them, the pool of connections and the routing to the
-- servers, and the interfaces on top: the DB API, the retrying methods of a graph, and cursors.
--
-- Wiring (py2neo/wiring.py) models `Wire`, a buffered socket. The socket is the operating system's:
-- its coming answers to `recv` and `send` are lists of the state, of any length, and where they run out
-- the call never returns (`blocked`). `read`, `peek`, `write`, `send`, `close` and `__mark_broken` are
-- functions on the state that return a result and the new state. The loops run over the answers, one
-- for each call. Sizes and bytes are natural numbers. `Wiring/Reading` and `Wiring/Sending` hold the
-- theorems.
--
-- Bolt.Message (py2neo/client/bolt.py) models `BoltMessageWriter` and `BoltMessageReader`, which cut
-- messages into chunks and put them together again over a `Wire`; the buffer of the writer is the
-- BytesIO of the source, with its position. Packing and unpacking of values is the package interchange,
-- which is not in the repository: it is the parameter `PackStream`, and what a round trip needs of it is
-- a hypothesis. The loops run on fuel: the writer's on the length of its buffer, of which each round but
-- the last takes a byte or more, the reader's on the length of the stream, of which each round takes two
-- bytes or more, and the peek's on the length of the buffered data.
--
-- Bolt.Result (py2neo/client/bolt.py) models `BoltResponse`, `ItemizedTask` and `BoltResult`, which hold
-- the records of a query while they arrive and are taken. `Queue` composes their operations to runs.
-- The loops run over the list of responses.
--
-- Bolt.Exchange (py2neo/client/bolt.py) models `_fetch` and `_wait`, which sort incoming messages to the
-- responses they belong to. Responses are shared objects and stand in a store. `_wait` runs on fuel: each
-- round takes one of the messages that will come.
--
-- Bolt.Transaction (py2neo/client/bolt.py) models the transactions of `Bolt3` and `Bolt4x0` on top of
-- Bolt.Exchange: begin, run, pull, discard, commit, rollback, and the audits and resets between them.
-- Responses, results and transactions stand in stores. A reset whose response the server refuses closes the
-- wire, so that the second reset which follows is the last; resets run on the fuel 2.
-- Bolt.Transaction.First models what `Bolt1` does in another way.
--
-- Client.Pool (py2neo/client/__init__.py) models `ConnectionPool`: the three lists of connections, the
-- limits, and a store of the connections' flags, since the same connection is known to the pool and to
-- its user. What a `reset` or `close` of a connection or an attempt to open one does is up to the server,
-- and is a list of outcomes of the state; the callback `on_broken` belongs to the pool's owner, and is
-- a parameter. The loop of `acquire` runs on fuel: each round that does not end it uses up a free
-- connection or an attempt to connect. `Calls` composes the operations to the runs of a pool.
--
-- Client.Router (py2neo/client/__init__.py) models `Router` and `RoutingTable`, which know the servers of
-- a cluster. Tables are shared objects, so the dictionary of the router gives the number of a table and
-- a store holds the tables. `Refining` has the view that its callers have of a graph's runners.
--
-- Cypher.Keys (py2neo/cypher/encoding.py) models `encode_key`, by which names get into Cypher text, against
-- a reader of Cypher's names. The character classes of unicodedata are parameters.
--
-- Data.Walk (py2neo/data.py) models `Path.walk` over the sequences of nodes, relationships and paths.
--
-- Pep249 (py2neo/pep249.py) models `Connection` and `Cursor` of the DB API. The connection they wrap is a
-- parameter: what its coming calls do is a list of the state, of any length, and a call that finds it
-- empty meets a connection that breaks. What was asked of it is noted in a log, against which `Tracking` and
-- `Protocol` hold what a server allows.
--
-- Cypher.Record and Cypher.Cursor (py2neo/cypher/__init__.py) model `Record` and `Cursor`, by which the records
-- of a result are read, over Bolt.Result. The iteration over all records runs on one turn more than there are
-- records.
--
-- Errors (py2neo/errors.py) models status codes and the decisions that depend on them.
--
-- Client.Connector (py2neo/client/__init__.py) models the methods of `Connector` that pass calls of a
-- transaction on to its connection, over a list of outcomes as in Pep249.
--
-- Matching (py2neo/matching.py) models predicates, with their compilation to a condition and its parameters,
-- `NodeMatch` and `RelationshipMatch` in Query and Relationships, and the queries that these become. `Meaning`
-- says what a predicate means and what a condition means under parameters, for any logic of the database;
-- `Grammar` and `Clauses` say what the text of a condition and of a query has to be, with Cypher's own words.
--
-- Client.Choosing (py2neo/client/__init__.py) models how `Connector` chooses a server: `_add_pools`, `prune`,
-- `_on_broken`, `refresh_routing_table`, `_get_profiles`, `_acquire_ro` and `_acquire_rw`, on top of Client.Router
-- and of pools of any type with the operations of `Pooling`. The loops of `_get_profiles` and `_acquire`, which
-- wait for the servers without a limit in the source, run on fuel that the theorems leave open.
--
-- Addressing (py2neo/addressing.py) models how an `Address` is parsed and printed; the builtin `int` is a parameter.
--
-- Database (py2neo/database.py, py2neo/timing.py) models `Transaction` and the methods of `Graph` that begin,
-- commit, roll back and retry, on top of Errors and Client.Connector. The loops run over the turns that
-- `Timer.repeat` gives for a list of readings of the clock.
--
-- Prelude holds the Boolean comparisons, lists over the native numbers, decimal digits, and the lemmas
-- that the parts share.
--
-- Not modelled: opening sockets and TLS, which are calls of the operating system; threads that interleave
-- within one call of a pool; the passing of time within a call; the text of error messages and
-- the log; the greetings and the routing of the Bolt protocol, the other graph data, Cypher values and
-- clauses, and the object mapper; the HTTP client, the command line and the vendored code.
mod Prelude
pub mod Wiring
pub mod Bolt
pub mod Client
pub mod Cypher
pub mod Data
pub mod Pep249
pub mod Errors
pub mod Database
pub mod Matching
pub mod Addressing
