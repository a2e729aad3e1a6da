-- ===== src/Client/Connector.antt =====
-- client/__init__.py: the methods of `Connector` that pass a transaction's calls on to its connection. What
-- acquiring a connection does, and what the connection does with a call, is the list `replies`; where it
-- ends, the connection breaks. What was asked is noted in `log`, the last call first. Over Bolt a transaction
-- is bound to its connection; over HTTP one is acquired for each call.
pub mod Tally
use py2neo.Prelude.{ℕ, ◌+◌, Bool, true, false, if◌then◌else◌, List, [], ◌∷◌}
use py2neo.Errors.{Neo4jError}

pub data Command : Type 0 where
  acquires auto_runs pulls prunes invalidates : Command
  begins commits rolls_back runs : ℕ → Command

pub data Fault : Type 0 where
  connection_unavailable connection_broken connection_limit service_unavailable : Fault
  server_error : Neo4jError → Fault
  type_error write_service_unavailable other_error : Fault

pub data Result {ℓ} (A : Type ℓ) : Type ℓ where
  ok : A → Result A
  err : Fault → Result A

pub record Connector : Type 0 where
  pub bolt : Bool
  pub next_tx : ℕ
  pub replies : List (Result (Unit {0}))
  pub log : List (Command × Bool)

abbrev pub Action : Type 0 → Type 0
Action A = Connector → Result A × Connector

infixl 5 ◌>>=◌
abbrev pub ◌>>=◌ : {A B : Type 0} → Result A × Connector → (A → Action B) → Result B × Connector
(ok a, k) >>= f = f a k
(err e, k) >>= f = (err e, k)

abbrev pub is_ok {ℓ} : {A : Type ℓ} → Result A → Bool
is_ok (ok a) = true
is_ok (err e) = false

-- The flag in the log says that the call returned.
abbrev pub noted : Command → Result (Unit {0}) → List (Result (Unit {0})) → Connector → Connector
noted c r rest k = record k { replies = rest; log = (c, is_ok r) ∷ k.log }

abbrev pub answer : List (Result (Unit {0})) → Command → Action (Unit {0})
answer [] c k = (err connection_broken, noted c (err connection_broken) [] k)
answer (r ∷ rest) c k = (r, noted c r rest k)

unfoldable pub ask : Command → Action (Unit {0})
ask c k = answer k.replies c k

-- What needs no answer.
abbrev pub note : Command → Connector → Connector
note c k = record k { log = (c, true) ∷ k.log }

-- `except (ConnectionUnavailable, ConnectionBroken)`: the pool of the connection is pruned.
abbrev pub pruning : Result (Unit {0}) × Connector → Result (Unit {0}) × Connector
pruning (ok a, k) = (ok a, k)
pruning (err connection_unavailable, k) = (err connection_unavailable, note prunes k)
pruning (err connection_broken, k) = (err connection_broken, note prunes k)
pruning (err e, k) = (err e, k)

-- _reacquire
unfoldable pub reacquire : Action (Unit {0})
unfolding ask
reacquire k = if k.bolt then (ok tt, k) else ask acquires k

abbrev pub numbered : ℕ → Result (Unit {0}) × Connector → Result ℕ × Connector
numbered t (ok a, k) = (ok t, record k { next_tx = t + 1 })
numbered t (err e, k) = (err e, k)

unfoldable pub begin : Action ℕ
unfolding ask
begin k = numbered k.next_tx (ask acquires k >>= λ _ q. pruning (ask (begins k.next_tx) q))

unfoldable pub auto_run : Action (Unit {0})
unfolding ask
auto_run k = ask acquires k >>= λ _ q. pruning (ask auto_runs q)

unfoldable pub commit : ℕ → Action (Unit {0})
unfolding reacquire ask
commit t k = reacquire k >>= λ _ q. pruning (ask (commits t) q)

unfoldable pub rollback : ℕ → Action (Unit {0})
unfolding reacquire ask
rollback t k = reacquire k >>= λ _ q. pruning (ask (rolls_back t) q)

unfoldable pub run : ℕ → Action (Unit {0})
unfolding reacquire ask
run t k = reacquire k >>= λ _ q. pruning (ask (runs t) q)

-- `pull` of all records
unfoldable pub pull : Action (Unit {0})
unfolding reacquire ask
pull k = reacquire k >>= λ _ q. pruning (ask pulls q)

unfoldable pub invalidate_routing_table : Connector → Connector
invalidate_routing_table k = note invalidates k
