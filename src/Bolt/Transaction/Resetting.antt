-- ===== src/Bolt/Transaction/Resetting.antt =====
-- What follows when the audit of a transaction finds an error of the server.
use py2neo.Prelude.{
  ℕ, ◌+◌, ◌≡◌, ◌≤◌, refl, Bool, true, false, List, [], ◌∷◌, Option, none, some, arith, ◌==◌,
  if◌then◌else◌, ◌<◌, ap,
}
use py2neo.Bolt.Result.{
  BoltResponse, new_response, audit_response, set_success, full, response_done,
}
use py2neo.Bolt.Exchange.{Incoming, success, change, settle, wait, wait_loop, fetch}
use py2neo.Bolt.Transaction.{
  reset_after, audited, store_at, ◌>>=◌, Bolt, Reply, returns, raises, audit_items, audit_results,
  append_message, sync, force_reset, release_idle, is_true, release, forget, audit_transaction,
  server_error,
}
use py2neo.Bolt.Transaction.Refusal.{ready}

same_index : (i : ℕ) → (i == i) ≡ true
same_index i = ground arith

module _ {R : Type 0} where
  Resets : Bolt R → Reply (Unit {0}) × Bolt R → Type 0
  Resets b (r, c) =
      (r ≡ returns tt) × (c.transaction ≡ none) × (c.sent ≡ 15 ∷ b.sent) × (b.releases ≤ c.releases)

  release_idle-Resets :
      (b c : Bolt R)
      → c.sent ≡ 15 ∷ b.sent
      → c.releases ≡ b.releases
      → Resets b (release_idle (returns tt, c) >>= λ _ q. forget q)
  unfolding Resets
  release_idle-Resets b c s r = go (is_true c c.transaction)
    where
      go : (idle : Bool) → Resets b (forget (if idle then c else release c))
      go true = (refl, refl, s, omega (arith, r))
      go false = (refl, refl, s, omega (arith, r))

  answered :
      (i : ℕ) (x : Option Bool) (store : ℕ → BoltResponse R)
      → audit_response (change i (set_success x) (store_at i (new_response none true) store) i)
        ≡ (none, change i (set_success x) (store_at i (new_response none true) store) i)
  unfolding audit_response set_success
  answered i x store = rw (same_index i) refl

  force_reset-Resets :
      (t : ℕ) (x : Option Bool) (more : List (Incoming R)) (b : Bolt R)
      → Resets b (force_reset 2 (ready t (success x) more b))
  unfolding force_reset append_message sync wait wait_loop fetch full response_done set_success
      audit_items audit_response
  force_reset-Resets t x more b = rw (same_index b.next_response) (
      rw (answered b.next_response x b.exchange.store) (
        release_idle-Resets b
          (record b {
            exchange = settle b.next_response [] (set_success x) (record {
              responses = b.next_response ∷ [];
              store = store_at b.next_response (new_response none true) b.exchange.store;
              wire_closed = false;
              incoming = more;
            });
            next_response = b.next_response + 1;
            sends = [];
            sent = 15 ∷ b.sent;
            broken = false;
            transaction = some t;
          })
          refl refl))

  -- An audit changes nothing but responses.
  Audits : Bolt R → Reply (Unit {0}) × Bolt R → Type 0
  Audits b (r, c) =
      (store : ℕ → BoltResponse R) × (c
        ≡ record b { exchange = record b.exchange { store = store } })

  audit_items-Audits : (l : List ℕ) (b : Bolt R) → Audits b (audit_items l b)
  unfolding Audits audit_items
  audit_items-Audits [] b = (b.exchange.store, refl)
  audit_items-Audits (i ∷ l) b = go (audit_response (b.exchange.store i)) (audit_items-Audits l b)
    where
      go :
          (o : Option ℕ × BoltResponse R)
          → Audits b (audit_items l b)
          → Audits b (audited (audit_items l) i b o)
      go (none, rsp) h = h
      go (some e, rsp) h = (store_at i rsp b.exchange.store, refl)

  audit_results-Audits : (rs : List ℕ) (b : Bolt R) → Audits b (audit_results rs b)
  unfolding Audits
  audit_results-Audits [] b = (b.exchange.store, refl)
  audit_results-Audits (r ∷ rs) b =
      go (audit_items (b.results r).items b) (audit_items-Audits (b.results r).items b)
        (λ c. audit_results-Audits rs c)
    where
      go :
          (m : Reply (Unit {0}) × Bolt R)
          → Audits b m
          → ((c : Bolt R) → Audits c (audit_results rs c))
          → Audits b (m >>= λ _. audit_results rs)
      go (returns a, c) (store, e) h =
          rw e (h (record b { exchange = record b.exchange { store = store } }))
      go (raises f, c) h k = h

  -- The error is raised again, and the connection was reset, is idle and was given back.
  abbrev IsReset : ℕ → Bolt R → Reply (Unit {0}) × Bolt R → Type 0
  IsReset e b r =
      (r.0 ≡ raises (server_error e))
      × (r.1.transaction ≡ none)
      × (r.1.sent ≡ 15 ∷ b.sent)
      × (b.releases < r.1.releases)

  returned-IsReset :
      (e : ℕ) (b : Bolt R) (m : Reply (Unit {0}) × Bolt R)
      → Resets b m
      → IsReset e b (release_idle (m >>= λ _ c. (raises (server_error e), c)))
  unfolding Resets
  returned-IsReset e b (returns a, c) (ok, idle, s, n) =
      let falsy : is_true c c.transaction ≡ false = ap (is_true c) idle in
      rw falsy (refl, idle, s, omega (arith, n))
  returned-IsReset e b (raises f, c) (ok, idle, s, n) = cc

  -- Where the audit of a transaction finds an error of the server, and the server then accepts the reset, the
  -- error is raised, a RESET is the one request that was sent, no transaction is left on the
  -- connection, and the connection was released.
  pub audit_transaction-resets :
      (t e : ℕ) (x : Option Bool) (more : List (Incoming R)) (b : Bolt R)
      → (audit_results (b.txs t).items (ready t (success x) more b)).0 ≡ raises (server_error e)
      → ((audit_transaction (some t) (ready t (success x) more b)).0 ≡ raises (server_error e))
        × ((audit_transaction (some t) (ready t (success x) more b)).1.transaction ≡ none)
        × ((audit_transaction (some t) (ready t (success x) more b)).1.sent ≡ 15 ∷ b.sent)
        × (b.releases < (audit_transaction (some t) (ready t (success x) more b)).1.releases)
  unfolding audit_transaction Audits Resets
  audit_transaction-resets t e x more b h =
      go (audit_results (b.txs t).items (ready t (success x) more b))
        (audit_results-Audits (b.txs t).items (ready t (success x) more b)) h
    where
      go :
          (m : Reply (Unit {0}) × Bolt R)
          → Audits (ready t (success x) more b) m
          → m.0 ≡ raises (server_error e)
          → IsReset e b (release_idle (reset_after (force_reset 2) m))
      go (returns a, c) (store, eq) h = cc
      go (raises f, c) (store, eq) h =
          let same : f ≡ server_error e = cc in
          let q = record b { exchange = record b.exchange { store = store } } in
          rw (same, eq)
            (returned-IsReset e b (force_reset 2 (ready t (success x) more q))
              (force_reset-Resets t x more q))
