-- ===== src/Pep249.antt =====
-- pep249.py: `Connection`, the DB API 2.0 interface to a connection of the client. That connection is
-- a parameter in the shape of a script: what its coming calls do is the list `replies`, and where the list
-- ends it breaks. What was asked of it is noted in `log`, the last call first. A transaction is the number
-- that `begin` gave it.
pub mod Cursor
pub mod Tracking
pub mod Protocol
pub mod Closing
mod Tests
use py2neo.Prelude.{
  ℕ, ◌+◌, Bool, true, false, not, ◌&&◌, ◌||◌, if◌then◌else◌, List, [], ◌∷◌, Option, none, some,
}
use py2neo.Bolt.Result.{BoltResult}

pub data Command : Type 0 where
  begins commits rolls_back runs pulls : ℕ → Command
  closes : Command

-- What a call does: it returns (with a result, where it has one), raises an error of the server, or raises
-- another error, which may have broken the connection.
pub data Reply (R : Type 0) : Type 0 where
  returns : BoltResult R → Reply R
  neo4j_error : Reply R
  other_error : Bool → Reply R

-- How a call ended, for the log.
pub data Ending : Type 0 where
  returned failed interrupted : Ending

pub data Fault : Type 0 where
  programming_error operational_error : Fault
  -- an error that is no `Neo4jError`, and passes through
  unexpected : Fault

pub data Result {ℓ} (A : Type ℓ) : Type ℓ where
  ok : A → Result A
  err : Fault → Result A

pub record Connection (R : Type 0) : Type 0 where
  -- `_cx` is not None
  pub has_cx : Bool
  pub closed : Bool
  pub broken : Bool
  pub tx : Option ℕ
  pub next_tx : ℕ
  pub replies : List (Reply R)
  pub log : List (Command × Ending)

abbrev pub Action : Type 0 → Type 0 → Type 0
Action R A = Connection R → Result A × Connection R

infixl 5 ◌>>=◌
abbrev pub ◌>>=◌ :
    {R A B : Type 0} → Result A × Connection R → (A → Action R B) → Result B × Connection R
(ok a, k) >>= f = f a k
(err e, k) >>= f = (err e, k)

-- What a reply means where `except Neo4jError` raises an `OperationalError` from it.
abbrev pub translated : {R : Type 0} → Reply R → Result (Unit {0})
translated (returns r) = ok tt
translated neo4j_error = err operational_error
translated (other_error breaks) = err unexpected

module _ {R : Type 0} where
  abbrev pub noted : Command → Ending → List (Reply R) → Connection R → Connection R
  noted c e rest k = record k { replies = rest; log = (c, e) ∷ k.log }

  -- A call of the wrapped connection.
  abbrev pub answer : List (Reply R) → Command → Connection R → Reply R × Connection R
  answer [] c k = (other_error true, record (noted c interrupted [] k) { broken = true })
  answer (returns r ∷ rest) c k = (returns r, noted c returned rest k)
  answer (neo4j_error ∷ rest) c k = (neo4j_error, noted c failed rest k)
  answer (other_error breaks ∷ rest) c k =
      (other_error breaks, record (noted c interrupted rest k) { broken = k.broken || breaks })

  unfoldable pub ask : Command → Connection R → Reply R × Connection R
  ask c k = answer k.replies c k

  unfoldable pub check : Action R (Unit {0})
  check k =
      if not k.has_cx || k.closed
      then (err programming_error, k)
      else if k.broken
      then (err operational_error, k)
      else (ok tt, k)

  -- `finally: self._tx = None`
  abbrev pub finished : Reply R × Connection R → Result (Unit {0}) × Connection R
  finished (r, k) = (translated r, record k { tx = none })

  abbrev pub commit_tx : Option ℕ → Action R (Unit {0})
  commit_tx none k = (ok tt, k)
  commit_tx (some t) k = finished (ask (commits t) k)

  unfoldable pub commit : Action R (Unit {0})
  unfolding check ask
  commit k = check k >>= λ _ q. commit_tx q.tx q

  abbrev pub rollback_tx : Option ℕ → Action R (Unit {0})
  rollback_tx none k = (ok tt, k)
  rollback_tx (some t) k = finished (ask (rolls_back t) k)

  unfoldable pub rollback : Action R (Unit {0})
  unfolding check ask
  rollback k = check k >>= λ _ q. rollback_tx q.tx q

  abbrev pub begun : ℕ → Reply R × Connection R → Result (Unit {0}) × Connection R
  begun t (returns r, k) = (ok tt, record k { tx = some t; next_tx = t + 1 })
  begun t (neo4j_error, k) = (err operational_error, record k { next_tx = t + 1 })
  begun t (other_error breaks, k) = (err unexpected, record k { next_tx = t + 1 })

  unfoldable pub begin : Action R (Unit {0})
  unfolding rollback
  begin k = rollback k >>= λ _ q. begun q.next_tx (ask (begins q.next_tx) q)

  -- An error of the server forgets the transaction.
  abbrev pub executed : Reply R × Connection R → Result (BoltResult R) × Connection R
  executed (returns r, k) = (ok r, k)
  executed (neo4j_error, k) = (err operational_error, record k { tx = none })
  executed (other_error breaks, k) = (err unexpected, k)

  -- `run` raises `ValueError` without a transaction.
  abbrev pub execute_in : Option ℕ → Action R (BoltResult R)
  execute_in none k = (err unexpected, k)
  execute_in (some t) k = executed (ask (runs t) k) >>= λ _ q. executed (ask (pulls t) q)

  -- __execute__
  unfoldable pub execute_query : Action R (BoltResult R)
  unfolding ask
  execute_query k = execute_in k.tx k

  -- `except Neo4jError: pass`
  abbrev pub forgiven : Reply R × Connection R → Result (Unit {0}) × Connection R
  forgiven (returns r, k) = (ok tt, record k { tx = none })
  forgiven (neo4j_error, k) = (ok tt, record k { tx = none })
  forgiven (other_error breaks, k) = (err unexpected, record k { tx = none })

  abbrev pub drop_tx : Option ℕ → Action R (Unit {0})
  drop_tx none k = (ok tt, k)
  drop_tx (some t) k = forgiven (ask (rolls_back t) k)

  abbrev pub dropped : Reply R × Connection R → Result (Unit {0}) × Connection R
  dropped (returns r, k) = (ok tt, record k { has_cx = false })
  dropped (neo4j_error, k) = (err unexpected, k)
  dropped (other_error breaks, k) = (err unexpected, k)

  unfoldable pub close : Action R (Unit {0})
  unfolding ask
  close k =
      if k.has_cx && (not k.closed && not k.broken)
      then (drop_tx k.tx k >>= λ _ q. dropped (ask closes q))
      else (ok tt, k)
