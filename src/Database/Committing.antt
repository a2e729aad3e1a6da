-- ===== src/Database/Committing.antt =====
-- How often `update` commits.
use py2neo.Prelude.{
  ℕ, zero, suc, ◌≡◌, inl, inr, refl, ◌∙◌, ap, Bool, true, false, List, ◌+◌, Option, none, some,
  arith, if◌then◌else◌, ◌⊎◌,
}
use py2neo.Errors.{Neo4jError, should_retry, should_invalidate_routing_table}
use py2neo.Client.Connector
use py2neo.Client.Connector.{
  ◌>>=◌, Connector, Command, Fault, Result, ok, err, commits, rolls_back, runs, pulls, begins,
  auto_runs, is_ok, connection_unavailable, connection_broken, connection_limit, server_error,
  type_error, write_service_unavailable, service_unavailable, other_error, invalidates,
  invalidate_routing_table,
}
use py2neo.Client.Connector.Tally.{
  Weight, tally, Asks, commit-Asks, rollback-Asks, begin-Asks, no_weight,
}
use py2neo.Database.Ending.{is_done, LastCommit, EndsOk, EndsDone, handle-Ends, worked-Ends}
use py2neo.Database.{
  Transaction, TransactionRef, Session, TxAction, begin, begun, opened, commit, rollback, run,
  run_ref, ran, ended, passing, ref_commit, ref_rollback, Turn, done, again, raises, judge, handle,
  handle_in, settled, worked, attempt, next_turn, retry, update, turns,
}
use py2neo.Database.Running.{run_pull-tally, passing-session}

abbrev bit : Bool → ℕ
bit true = 1
bit false = 0

-- One more, if the flag says so.
abbrev pub counted : Bool → ℕ → ℕ
counted true n = suc n
counted false n = n

counted_add : (b : Bool) (n : ℕ) → bit b + n ≡ counted b n
counted_add true n = omega arith
counted_add false n = omega arith

-- A commit that returned counts.
abbrev pub is_commit : Weight
is_commit (commits t) b = bit b
is_commit c b = 0

-- The number of commits that returned.
abbrev pub committed : Connector → ℕ
committed k = tally is_commit k.log

ref_commit-committed :
    (ref : Option TransactionRef) (k : Connector)
    → committed (ref_commit ref k).1 ≡ counted (is_ok (ref_commit ref k).0) (committed k)
ref_commit-committed none k = refl
ref_commit-committed (some ref) k =
    go (Connector.commit ref.txid k) (commit-Asks is_commit (λ b. (refl, refl)) ref.txid k)
  where
    go :
        (r : Result (Unit {0}) × Connector)
        → Asks is_commit (λ b. (refl, refl)) (commits ref.txid) k r
        → committed r.1 ≡ counted (is_ok r.0) (committed k)
    go r (inl (e, same)) = rw e same
    go r (inr e) = e ∙ counted_add (is_ok r.0) (committed k)

commit-committed :
    (s : Session)
    → committed (commit s).1.connector ≡ counted (is_ok (commit s).0) (committed s.connector)
unfolding commit
commit-committed s = go s.tx.closed
  where
    go :
        (b : Bool)
        → committed
            (if b
              then (err type_error, s)
              else ended s.tx (ref_commit s.tx.ref s.connector)).1.connector
          ≡ counted
              (is_ok
                (if b then (err type_error, s) else ended s.tx (ref_commit s.tx.ref s.connector)).0)
              (committed s.connector)
    go true = refl
    go false = ref_commit-committed s.tx.ref s.connector

ref_rollback-committed :
    (ref : Option TransactionRef) (k : Connector) → committed (ref_rollback ref k).1 ≡ committed k
ref_rollback-committed none k = refl
ref_rollback-committed (some ref) k =
    no_weight is_commit (λ b. (refl, refl)) (rolls_back ref.txid) k (Connector.rollback ref.txid k)
      (λ b. refl) (rollback-Asks is_commit (λ b. (refl, refl)) ref.txid k)

rollback-committed : (s : Session) → committed (rollback s).1.connector ≡ committed s.connector
unfolding rollback
rollback-committed s = go s.tx.closed
  where
    go :
        (b : Bool)
        → committed
            (if b
              then (ok tt, s)
              else passing (ended s.tx (ref_rollback s.tx.ref s.connector))).1.connector
          ≡ committed s.connector
    go true = refl
    go false =
        ap (λ (q : Session). committed q.connector)
          (passing-session (ended s.tx (ref_rollback s.tx.ref s.connector)))
        ∙ ref_rollback-committed s.tx.ref s.connector

begin-committed : (k : Connector) → committed (Connector.begin k).1 ≡ committed k
begin-committed k =
    no_weight is_commit (λ b. (refl, refl)) (begins k.next_tx) k (Connector.begin k) (λ b. refl)
      (begin-Asks is_commit (λ b. (refl, refl)) k)

-- What a turn, or the whole, adds to the commits.
abbrev Adds : {A : Type 0} → Connector → Turn A × Connector → Type 0
Adds k r = committed r.1 ≡ counted (is_done r.0) (committed k)

judge-Adds : (A : Type 0) (e : Neo4jError) (k : Connector) → Adds {A = A} k (judge e k)
unfolding invalidate_routing_table
judge-Adds A e k = go (should_invalidate_routing_table e) (should_retry e)
  where
    go :
        (i r : Bool)
        → Adds {A = A} k (
          (if r then again else raises (server_error e)),
          (if i then invalidate_routing_table k else k),
        )
    go true true = omega arith
    go true false = omega arith
    go false true = refl
    go false false = refl

handle-Adds : (A : Type 0) (e : Fault) (k : Connector) → Adds {A = A} k (handle e k)
handle-Adds A connection_unavailable k = refl
handle-Adds A connection_broken k = refl
handle-Adds A connection_limit k = refl
handle-Adds A service_unavailable k = refl
handle-Adds A (server_error e) k = judge-Adds A e k
handle-Adds A type_error k = refl
handle-Adds A write_service_unavailable k = refl
handle-Adds A other_error k = refl

handle_in-Adds :
    (e : Fault) (k : Connector) (r : Result (Unit {0}) × Session)
    → committed r.1.connector ≡ committed k
    → Adds k (handle_in e r)
handle_in-Adds e k (ok a, s) same =
    handle-Adds (Unit {0}) e s.connector
    ∙ ap (λ n. counted (is_done (handle {A = Unit {0}} e s.connector).0) n) same
handle_in-Adds e k (err f, s) same = same

settled-Adds :
    (k : Connector) (r : Result (Unit {0}) × Session)
    → committed r.1.connector ≡ counted (is_ok r.0) (committed k)
    → Adds k (settled r)
settled-Adds k (ok a, s) e = e
settled-Adds k (err f, s) e = handle_in-Adds f k (rollback s) (rollback-committed s ∙ e)

worked-Adds :
    (k : Connector) (r : Result (Unit {0}) × Session)
    → committed r.1.connector ≡ committed k
    → Adds k (worked r)
worked-Adds k (ok a, s) e =
    settled-Adds k (commit s) (commit-committed s ∙ ap (λ n. counted (is_ok (commit s).0) n) e)
worked-Adds k (err f, s) e = handle_in-Adds f k (rollback s) (rollback-committed s ∙ e)

-- A unit of work that does not commit.
abbrev pub IsWork : TxAction (Unit {0}) → Type 0
IsWork work = (s : Session) → committed (work s).1.connector ≡ committed s.connector

module _ (work : TxAction (Unit {0})) (is_work : IsWork work) where
  begun-Adds :
      (k : Connector) (r : Result ℕ × Connector)
      → committed r.1 ≡ committed k
      → Adds k (begun work (opened false r))
  begun-Adds k (ok t, q) e = worked-Adds k (work s) (is_work s ∙ e)
    where
      s : Session
      s = record {
        tx = record {
          ref = some (record { txid = t; live = true });
          readonly = false;
          closed = false;
          has_summary = false;
        };
        connector = q;
      }
  begun-Adds k (err f, q) e =
      handle-Adds (Unit {0}) f q ∙ ap (λ n. counted (is_done (handle {A = Unit {0}} f q).0) n) e

  attempt-Adds : (k : Connector) → Adds k (attempt work k)
  unfolding attempt begin
  attempt-Adds k = begun-Adds k (Connector.begin k) (begin-committed k)

  retry-committed :
      (f : Fault) (n : ℕ) (k : Connector)
      → committed (retry f (attempt work) n k).1
        ≡ counted (is_ok (retry f (attempt work) n k).0) (committed k)
  unfolding retry
  retry-committed f zero k = refl
  retry-committed f (suc n) k = go (attempt work k) (attempt-Adds k) (retry-committed f n)
    where
      go :
          (r : Turn (Unit {0}) × Connector)
          → Adds k r
          → ((q : Connector)
              → committed (retry f (attempt work) n q).1
                ≡ counted (is_ok (retry f (attempt work) n q).0) (committed q))
          → committed (next_turn (retry f (attempt work) n) r).1
            ≡ counted (is_ok (next_turn (retry f (attempt work) n) r).0) (committed k)
      go (done a, q) e h = e
      go (again, q) e h = h q ∙ ap (λ m. counted (is_ok (retry f (attempt work) n q).0) m) e
      go (raises g, q) e h = e

  begun-Ends : (r : Result Transaction × Connector) → EndsDone (begun work r)
  begun-Ends (ok tx, k) = worked-Ends (work (record { tx = tx; connector = k }))
  begun-Ends (err e, k) = handle-Ends e k

  attempt-Ends : (k : Connector) → EndsDone (attempt work k)
  unfolding attempt
  attempt-Ends k = begun-Ends (begin false k)

  next_turn-Ends :
      (rest : Connector → Result (Unit {0}) × Connector) (r : Turn (Unit {0}) × Connector)
      → EndsDone r
      → ((q : Connector) → EndsOk (rest q))
      → EndsOk (next_turn rest r)
  next_turn-Ends rest (done a, q) e h = e
  next_turn-Ends rest (again, q) e h = h q
  next_turn-Ends rest (raises g, q) e h = inl refl

  retry-Ends : (f : Fault) (n : ℕ) (k : Connector) → EndsOk (retry f (attempt work) n k)
  unfolding retry
  retry-Ends f zero k = inl refl
  retry-Ends f (suc n) k =
      next_turn-Ends (retry f (attempt work) n) (attempt work k) (attempt-Ends k) (retry-Ends f n)

  -- With a unit of work that asks for no commit itself, an `update` that returns has had one commit return, and
  -- asks nothing of the connector after it: that commit is the last entry of the log, so that no attempt
  -- begins after it. An `update` that raises has had no commit return.
  pub update-committed :
      (remaining : List Bool) (k : Connector)
      → (committed (update work remaining k).1
          ≡ counted (is_ok (update work remaining k).0) (committed k))
        × ((is_ok (update work remaining k).0 ≡ false) ⊎ LastCommit (update work remaining k).1)
  unfolding update
  update-committed remaining k = (
    retry-committed write_service_unavailable (turns remaining) k,
    retry-Ends write_service_unavailable (turns remaining) k,
  )

-- A query is a unit of work.
pub run-IsWork : IsWork run
unfolding run
run-IsWork s = go s.tx.closed
  where
    r : Result (Unit {0}) × Connector
    r = run_ref s.tx.ref s.connector >>= λ _ k. Connector.pull k

    go :
        (b : Bool)
        → committed (if b then (err type_error, s) else ran s.tx r).1.connector
          ≡ committed s.connector
    go true = refl
    go false =
        run_pull-tally is_commit (λ b. (refl, refl)) (λ t b. (refl, refl, refl)) s.tx.ref
          s.connector
