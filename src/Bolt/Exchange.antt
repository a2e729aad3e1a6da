-- ===== src/Bolt/Exchange.antt =====
-- client/bolt.py: `_fetch` and `_wait` of `Bolt1`, which sort the incoming messages to the responses that
-- they belong to. A response is shared between the connection's queue and the result or transaction that
-- asked for it, so the queue holds numbers, and `store` the responses. What `read_message` returns is
-- a list of the state; where it ends, `read_message` raises `ConnectionBroken`. Closing the wire is a flag.
pub mod Waiting
mod Tests
use py2neo.Prelude.{
  ℕ, zero, suc, Bool, true, false, ◌||◌, ◌==◌, if◌then◌else◌, List, [], ◌∷◌, Option, length,
}
use py2neo.Bolt.Result.{
  BoltResponse, add_records, set_success, set_failure, set_ignored, full, response_done,
}

-- The messages with the tags 0x70, 0x71, 0x7F and 0x7E, and with any other; and a message inside which the wire
-- breaks, which raises `BrokenWireError`.
pub data Incoming (R : Type 0) : Type 0 where
  success : Option Bool → Incoming R
  records : List R → Incoming R
  failure : ℕ → Incoming R
  ignored other cut : Incoming R

pub data Outcome : Type 0 where
  ok connection_broken broken_wire index_error protocol_error out_of_fuel : Outcome

pub record Exchange (R : Type 0) : Type 0 where
  pub responses : List ℕ
  pub store : ℕ → BoltResponse R
  pub wire_closed : Bool
  pub incoming : List (Incoming R)

module _ {R : Type 0} where
  abbrev pub change :
      ℕ → (BoltResponse R → BoltResponse R) → (ℕ → BoltResponse R) → ℕ → BoltResponse R
  change i f store j = if i == j then f (store j) else store j

  -- The first response leaves the queue, and is changed.
  abbrev pub settle : ℕ → List ℕ → (BoltResponse R → BoltResponse R) → Exchange R → Exchange R
  settle i rest f e = record e { responses = rest; store = change i f e.store }

  -- The branches of `_fetch`, over the queue.
  abbrev pub handle : Incoming R → List ℕ → Exchange R → Outcome × Exchange R
  handle cut queue e = (broken_wire, e)
  handle other queue e = (protocol_error, record e { wire_closed = true })
  handle (success more) [] e = (index_error, e)
  handle (success more) (i ∷ rest) e = (ok, settle i rest (set_success more) e)
  handle (records values) [] e = (index_error, e)
  handle (records values) (i ∷ rest) e =
      (ok, record e { store = change i (add_records values) e.store })
  handle (failure error) [] e = (index_error, e)
  handle (failure error) (i ∷ rest) e = (
    ok,
    record (settle i rest (set_failure error) e) {
      wire_closed = e.wire_closed || (e.store i).vital;
    },
  )
  handle ignored [] e = (index_error, e)
  handle ignored (i ∷ rest) e =
      if (e.store i).vital
      then (protocol_error, record e { wire_closed = true })
      else (ok, settle i rest set_ignored e)

  abbrev pub fetch_from : List (Incoming R) → Exchange R → Outcome × Exchange R
  fetch_from [] e = (connection_broken, e)
  fetch_from (m ∷ ms) e = handle m e.responses (record e { incoming = ms })

  unfoldable pub fetch : Exchange R → Outcome × Exchange R
  fetch e = fetch_from e.incoming e

  abbrev pub after_fetch :
      (Exchange R → Outcome × Exchange R) → Outcome × Exchange R → Outcome × Exchange R
  after_fetch again (ok, e) = again e
  after_fetch again (fault, e) = (fault, e)

  -- not (not response.full() and not response.done())
  abbrev pub is_awaited : ℕ → Exchange R → Bool
  is_awaited i e = full (e.store i) || response_done (e.store i)

  -- The loop of `_wait`.
  unfoldable pub wait_loop : ℕ → ℕ → Exchange R → Outcome × Exchange R
  unfolding fetch
  wait_loop zero i e = (out_of_fuel, e)
  wait_loop (suc fuel) i e =
      let rest = after_fetch (wait_loop fuel i) (fetch e) in
      if is_awaited i e then (ok, e) else rest

  -- Each round takes a message.
  unfoldable pub wait : ℕ → Exchange R → Outcome × Exchange R
  unfolding wait_loop
  wait i e = wait_loop (suc (length e.incoming)) i e
