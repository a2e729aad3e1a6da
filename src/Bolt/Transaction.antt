-- ===== src/Bolt/Transaction.antt =====
-- client/bolt.py: the transactions of `Bolt3` and of `Bolt4x0`, which share `reset`, `run`, `_sync` and `_audit` with
-- `Bolt1`. Responses, results and transactions are shared objects and stand in stores. The server is the
-- list of incoming messages of the exchange; whether the coming sends succeed is the list `sends`. The
-- requests are noted by their tags, the last first; their fields and the bookmarks are left out.
pub mod First
pub mod Refusal
pub mod Resetting
mod Tests
use py2neo.Prelude.{
  ℕ, zero, suc, ◌+◌, Bool, true, false, not, ◌&&◌, ◌||◌, ◌==◌, if◌then◌else◌, List, [], ◌∷◌, ◌++◌,
  Option, none, some,
}
use py2neo.Bolt.Result.{
  BoltResponse, new_response, response_done, response_failed, audit_response, or_false,
}
use py2neo.Bolt.Exchange.{
  Exchange, Outcome, ok, connection_broken, broken_wire, index_error, protocol_error, out_of_fuel,
  wait, change,
}

-- The items of a result are responses, and those of a transaction are results.
pub record Result : Type 0 where
  pub tx : ℕ
  pub items : List ℕ
  pub is_complete : Bool

pub record Tx : Type 0 where
  pub items : List ℕ
  pub is_complete : Bool
  pub broken : Bool

pub record Bolt (R : Type 0) : Type 0 where
  pub exchange : Exchange R
  pub next_response : ℕ
  pub sends : List Bool
  pub sent : List ℕ
  pub broken : Bool
  pub results : ℕ → Result
  pub next_result : ℕ
  pub txs : ℕ → Tx
  pub next_tx : ℕ
  pub transaction : Option ℕ
  pub releases : ℕ

pub data Fault : Type 0 where
  unavailable connection_lost wire_broken value_error type_error consumed unexpected no_fuel : Fault
  server_error : ℕ → Fault

pub data Reply {ℓ} (A : Type ℓ) : Type ℓ where
  returns : A → Reply A
  raises : Fault → Reply A

abbrev pub Action : Type 0 → Type 0 → Type 0
Action R A = Bolt R → Reply A × Bolt R

infixl 5 ◌>>=◌
abbrev pub ◌>>=◌ : {R A B : Type 0} → Reply A × Bolt R → (A → Action R B) → Reply B × Bolt R
(returns a, b) >>= f = f a b
(raises e, b) >>= f = (raises e, b)

-- An entry of a store is changed.
abbrev pub store_at : {A : Type 0} → ℕ → A → (ℕ → A) → ℕ → A
store_at i a store j = if i == j then a else store j

abbrev pub fault_of : Outcome → Reply (Unit {0})
fault_of ok = returns tt
fault_of connection_broken = raises connection_lost
fault_of broken_wire = raises wire_broken
fault_of index_error = raises unexpected
fault_of protocol_error = raises unexpected
fault_of out_of_fuel = raises no_fuel

-- Reading from a wire that breaks marks it as broken.
abbrev pub breaks : Outcome → Bool
breaks connection_broken = true
breaks broken_wire = true
breaks _ = false

-- ItemizedTask.done of a result and of a transaction
abbrev pub last_is : (ℕ → Bool) → List ℕ → Bool
last_is test [] = true
last_is test (i ∷ []) = test i
last_is test (i ∷ j ∷ rest) = last_is test (j ∷ rest)

abbrev pub any : (ℕ → Bool) → List ℕ → Bool
any test [] = false
any test (i ∷ rest) = test i || any test rest

abbrev pub is_current : ℕ → Option ℕ → Bool
is_current t none = false
is_current t (some u) = u == t

abbrev pub others : List ℕ → List ℕ
others [] = []
others (i ∷ rest) = rest

module _ {R : Type 0} where
  abbrev pub result_done : Bolt R → ℕ → Bool
  result_done b r =
      (b.results r).is_complete
      && last_is (λ i. response_done (b.exchange.store i)) (b.results r).items

  abbrev pub result_failed : Bolt R → ℕ → Bool
  result_failed b r = any (λ i. response_failed (b.exchange.store i)) (b.results r).items

  -- ItemizedTask.__bool__, where there is a transaction
  abbrev pub is_true : Bolt R → Option ℕ → Bool
  is_true b none = false
  is_true b (some t) =
      not ((b.txs t).is_complete && last_is (result_done b) (b.txs t).items)
      && not (any (result_failed b) (b.txs t).items)

  -- _assert_open
  abbrev pub assert_open : Action R (Unit {0})
  assert_open b =
      if b.exchange.wire_closed || b.broken then (raises unavailable, b) else (returns tt, b)

  abbrev pub assert_no_transaction : Action R (Unit {0})
  assert_no_transaction b =
      if is_true b b.transaction then (raises type_error, b) else (returns tt, b)

  abbrev pub assert_transaction_open : ℕ → Action R (Unit {0})
  assert_transaction_open t b =
      if not (is_current t b.transaction) || (b.txs t).broken
      then (raises value_error, b)
      else (returns tt, b)

  unfoldable pub append_message : ℕ → Option ℕ → Bool → Bolt R → ℕ × Bolt R
  append_message tag capacity vital b = (
    b.next_response,
    record b {
      exchange = record b.exchange {
        responses = b.exchange.responses ++ b.next_response ∷ [];
        store = store_at b.next_response (new_response capacity vital) b.exchange.store;
      };
      next_response = b.next_response + 1;
      sent = tag ∷ b.sent;
    },
  )

  -- BoltMessageWriter.send over the wire
  abbrev pub send_from : List Bool → Action R (Unit {0})
  send_from [] b = (returns tt, b)
  send_from (true ∷ rest) b = (returns tt, record b { sends = rest })
  send_from (false ∷ rest) b = (raises connection_lost, record b { sends = rest; broken = true })

  abbrev pub waited : Outcome × Exchange R → Action R (Unit {0})
  waited (o, e) b = (fault_of o, record b { exchange = e; broken = b.broken || breaks o })

  -- _sync, for one response
  unfoldable pub sync : ℕ → Action R (Unit {0})
  unfolding wait
  sync i b = send_from b.sends b >>= λ _ c. waited (wait i c.exchange) c

  abbrev pub release : Bolt R → Bolt R
  release b = record b { releases = b.releases + 1 }

  -- `finally`
  abbrev pub release_idle : {A : Type 0} → Reply A × Bolt R → Reply A × Bolt R
  release_idle (r, b) = (r, if is_true b b.transaction then b else release b)

  -- One turn of the loop of `audit`: `others` are the later turns.
  abbrev pub audited :
      Action R (Unit {0}) → ℕ → Bolt R → Option ℕ × BoltResponse R → Reply (Unit {0}) × Bolt R
  audited others i b (none, rsp) = others b
  audited others i b (some e, rsp) = (
    raises (server_error e),
    record b { exchange = record b.exchange { store = store_at i rsp b.exchange.store } },
  )

  unfoldable pub audit_items : List ℕ → Action R (Unit {0})
  unfolding audit_response
  audit_items [] b = (returns tt, b)
  audit_items (i ∷ rest) b = audited (audit_items rest) i b (audit_response (b.exchange.store i))

  abbrev pub audit_results : List ℕ → Action R (Unit {0})
  audit_results [] b = (returns tt, b)
  audit_results (r ∷ rest) b = audit_items (b.results r).items b >>= λ _. audit_results rest

  -- `except Neo4jError: self.reset(force=True); raise`
  abbrev pub reset_after :
      Action R (Unit {0}) → Reply (Unit {0}) × Bolt R → Reply (Unit {0}) × Bolt R
  reset_after reset (raises (server_error e), b) = reset b >>= λ _ c. (raises (server_error e), c)
  reset_after reset (r, b) = (r, b)

  abbrev pub forget : Bolt R → Reply (Unit {0}) × Bolt R
  forget b = (returns tt, record b { transaction = none })

  -- reset(force=True). Its own audit resets again where the server refused the reset.
  unfoldable pub force_reset : ℕ → Action R (Unit {0})
  unfolding append_message sync audit_items
  force_reset zero b = (raises no_fuel, b)
  force_reset (suc fuel) b = assert_open b >>= λ _ c.
      let (i, d) = append_message 15 none true c in
      sync i d >>= λ _ e.
      release_idle (reset_after (force_reset fuel) (audit_items (i ∷ []) e)) >>= λ _ q. forget q

  unfoldable pub reset : Bool → Action R (Unit {0})
  unfolding force_reset
  reset force b = assert_open b >>= λ _ c.
      if force || is_true c c.transaction then force_reset 2 c else (returns tt, c)

  -- _audit of the transaction
  unfoldable pub audit_transaction : Option ℕ → Action R (Unit {0})
  unfolding audit_items force_reset
  audit_transaction none b = (returns tt, b)
  audit_transaction (some t) b =
      release_idle (reset_after (force_reset 2) (audit_results (b.txs t).items b))

  abbrev pub new_tx : Bolt R → Reply (Unit {0}) × Bolt R
  new_tx b = (
    returns tt,
    record b {
      txs = store_at b.next_tx (record { items = []; is_complete = false; broken = false }) b.txs;
      transaction = some b.next_tx;
      next_tx = b.next_tx + 1;
    },
  )

  -- `except BrokenWireError`, where the transaction is marked, or not
  abbrev pub reworded : (Bolt R → Bolt R) → Reply (Unit {0}) × Bolt R → Reply (Unit {0}) × Bolt R
  reworded mark (raises wire_broken, b) = (raises connection_lost, mark b)
  reworded mark (r, b) = (r, b)

  abbrev pub mark_broken : ℕ → Bolt R → Bolt R
  mark_broken t b = record b { txs = store_at t (record (b.txs t) { broken = true }) b.txs }

  unfoldable pub begin : Action R (Option ℕ)
  unfolding append_message sync audit_transaction
  begin b = assert_open b >>= λ _ c. assert_no_transaction c >>= λ _ d. new_tx d >>= λ _ e.
      let (i, f) = append_message 17 none false e in
      reworded (λ q. q) (sync i f) >>= λ _ g.
      audit_transaction g.transaction g >>= λ _ h. (returns h.transaction, h)

  abbrev pub set_complete : ℕ → Bolt R → Bolt R
  set_complete t b = record b { txs = store_at t (record (b.txs t) { is_complete = true }) b.txs }

  -- `except Neo4jError` of a commit or a rollback
  abbrev pub ended : ℕ → Reply (Unit {0}) × Bolt R → Reply (Unit {0}) × Bolt R
  ended t (raises (server_error e), b) = (raises connection_lost, mark_broken t b)
  ended t (r, b) = (r, b)

  -- What commit and rollback share.
  unfoldable pub end_tx : ℕ → ℕ → Action R (Unit {0})
  unfolding append_message sync audit_transaction
  end_tx tag t b = assert_open b >>= λ _ c. assert_transaction_open t c >>= λ _ d.
      let (i, e) = append_message tag none false (set_complete t d) in
      reworded (mark_broken t) (sync i e) >>= λ _ f. ended t (audit_transaction f.transaction f)

  unfoldable pub commit : ℕ → Action R (Unit {0})
  unfolding end_tx
  commit t b = end_tx 18 t b

  unfoldable pub rollback : ℕ → Action R (Unit {0})
  unfolding end_tx
  rollback t b = end_tx 19 t b

  -- The result is new, and the last item of the transaction.
  abbrev pub add_result : ℕ → ℕ → Bool → Bolt R → Reply ℕ × Bolt R
  add_result t i final b = (
    returns b.next_result,
    record b {
      results =
          store_at b.next_result (record { tx = t; items = i ∷ []; is_complete = false }) b.results;
      next_result = b.next_result + 1;
      txs =
          store_at t
            (record (b.txs t) {
              items = (b.txs t).items ++ b.next_result ∷ [];
              is_complete = (b.txs t).is_complete || final;
            })
            b.txs;
    },
  )

  -- Bolt3._run, of the transaction of the connection
  abbrev pub run_in : Option ℕ → Bool → Action R ℕ
  run_in none final b = (raises unexpected, b)
  run_in (some t) final b = let (i, c) = append_message 16 none false b in add_result t i final c

  unfoldable pub auto_run : Action R ℕ
  unfolding append_message
  auto_run b = assert_open b >>= λ _ c.
      assert_no_transaction c >>= λ _ d. new_tx d >>= λ _ e. run_in e.transaction true e

  -- Bolt1.run, where the transaction is not None
  unfoldable pub run : ℕ → Action R ℕ
  unfolding append_message
  run t b =
      assert_open b >>= λ _ c. assert_transaction_open t c >>= λ _ d. run_in d.transaction false d

  abbrev pub all_more : Bolt R → List ℕ → Bool
  all_more b [] = true
  all_more b (i ∷ rest) = or_false (b.exchange.store i).has_more && all_more b rest

  -- Bolt4x0._assert_result_consumable; the number of the query is a field of the request, and left out
  abbrev pub assert_consumable : ℕ → Action R (Unit {0})
  assert_consumable r b =
      if (b.results r).is_complete
      then (raises consumed, b)
      else if all_more b (others (b.results r).items)
      then (returns tt, b)
      else (raises consumed, b)

  abbrev pub add_response : ℕ → ℕ → Bool → Bolt R → Bolt R
  add_response r i final b = record b {
    results =
        store_at r
          (record (b.results r) {
            items = (b.results r).items ++ i ∷ [];
            is_complete = (b.results r).is_complete || final;
          })
          b.results;
  }

  -- What pull and discard share.
  unfoldable pub consume : ℕ → Option ℕ → Bool → ℕ → Action R ℕ
  unfolding append_message sync audit_transaction
  consume tag capacity final r b = assert_open b >>= λ _ c. assert_consumable r c >>= λ _ d.
      let (i, e) = append_message tag capacity false d in
      reworded (mark_broken (d.results r).tx) (sync i (add_response r i final e)) >>= λ _ f.
      audit_transaction f.transaction f >>= λ _ g. (returns i, g)

  -- Bolt4x0.pull; `n` is absent where it is -1
  unfoldable pub pull : ℕ → Option ℕ → Option ℕ → Action R ℕ
  unfolding consume
  pull r none capacity b = consume 63 capacity true r b
  pull r (some n) capacity b = consume 63 capacity false r b

  unfoldable pub discard : ℕ → Action R ℕ
  unfolding consume
  discard r b = consume 47 none true r b
