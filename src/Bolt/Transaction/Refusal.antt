-- ===== src/Bolt/Transaction/Refusal.antt =====
-- What a transaction makes of the server's answer to its end.
use py2neo.Prelude.{
  ℕ, ◌≡◌, ◌<◌, ◌≢◌, refl, Bool, true, false, ◌==◌, List, [], ◌∷◌, none, All, arith, ◌∙◌, ap, some,
  ◌+◌,
}
use py2neo.Bolt.Result.{
  BoltResponse, new_response, audit_response, set_success, set_failure, full, response_done,
}
use py2neo.Bolt.Exchange.{
  connection_broken, broken_wire, index_error, protocol_error, out_of_fuel, Exchange, Incoming,
  success, failure, ignored, records, other, cut, ok, wait, wait_loop, fetch, is_awaited, Outcome,
  change,
}
use py2neo.Bolt.Transaction.{
  Bolt, returns, audit_items, audit_results, store_at, end_tx, Reply, audit_transaction, ended,
  append_message, sync, raises, commit, reworded, mark_broken, rollback, waited, ◌>>=◌,
}

same_index : (i : ℕ) → (i == i) ≡ true
same_index i = ground arith

other_index : (i j : ℕ) → j ≢ i → (i == j) ≡ false
other_index i j ne = ground (arith, ne)

module _ {R : Type 0} where
  -- The server accepts or refuses a request.
  abbrev pub IsAnswer : Incoming R → Type 0
  IsAnswer (success more) = Unit
  IsAnswer (failure e) = Unit
  IsAnswer _ = ⊥

  -- One request is out, and its answer comes next.
  abbrev asked : ℕ → (ℕ → BoltResponse R) → Incoming R → List (Incoming R) → Exchange R
  asked i store m more = record {
    responses = i ∷ [];
    store = store_at i (new_response none false) store;
    wire_closed = false;
    incoming = m ∷ more;
  }

  -- The wait for the answer returns, and changes the response asked for alone.
  Answered : ℕ → (ℕ → BoltResponse R) → Outcome × Exchange R → Type 0
  Answered i store (o, e) = (o ≡ ok) × ((j : ℕ) → j ≢ i → e.store j ≡ store j)

  not_yet :
      (i : ℕ) (store : ℕ → BoltResponse R) (m : Incoming R) (more : List (Incoming R))
      → is_awaited i (asked i store m more) ≡ false
  unfolding full response_done
  not_yet i store m more = rw (same_index i) refl

  -- The answer marks the response with `f`.
  abbrev marked :
      ℕ
      → (ℕ → BoltResponse R)
      → (BoltResponse R → BoltResponse R)
      → Bool
      → List (Incoming R)
      → Exchange R
  marked i store f closed more = record {
    responses = [];
    store = change i f (store_at i (new_response none false) store);
    wire_closed = closed;
    incoming = more;
  }

  marked-store :
      (i : ℕ) (store : ℕ → BoltResponse R) (f : BoltResponse R → BoltResponse R) (c : Bool)
      (more : List (Incoming R)) (j : ℕ)
      → j ≢ i
      → (marked i store f c more).store j ≡ store j
  marked-store i store f c more j ne = rw (other_index i j ne) refl

  wait-Answered :
      (i : ℕ) (store : ℕ → BoltResponse R) (m : Incoming R) (more : List (Incoming R))
      → IsAnswer m
      → Answered i store (wait i (asked i store m more))
  unfolding Answered wait wait_loop fetch full response_done set_success set_failure
  wait-Answered i store (success x) more h =
      rw (same_index i) (refl, marked-store i store (set_success x) false more)
  wait-Answered i store (failure e) more h =
      rw (same_index i) (refl, marked-store i store (set_failure e) false more)
  wait-Answered i store (records x) more h = elim h [ ]
  wait-Answered i store ignored more h = elim h [ ]
  wait-Answered i store other more h = elim h [ ]
  wait-Answered i store cut more h = elim h [ ]

  -- No response of the results has failed.
  abbrev pub Clean : Bolt R → List ℕ → Type 0
  Clean b rs =
      All
        (λ r.
          All (λ i. ((b.exchange.store i).failure ≡ none) × (i < b.next_response))
            (b.results r).items)
        rs

  audit_items-Clean :
      (b : Bolt R) (l : List ℕ)
      → All (λ i. (b.exchange.store i).failure ≡ none) l
      → audit_items l b ≡ (returns tt, b)
  unfolding audit_items audit_response
  audit_items-Clean b [] h = refl
  audit_items-Clean b (i ∷ l) h = rw h.0 (audit_items-Clean b l h.1)

  audit_results-Clean :
      (b : Bolt R) (rs : List ℕ)
      → All (λ r. All (λ i. (b.exchange.store i).failure ≡ none) (b.results r).items) rs
      → audit_results rs b ≡ (returns tt, b)
  audit_results-Clean b [] h = refl
  audit_results-Clean b (r ∷ rs) h =
      rw (audit_items-Clean b (b.results r).items h.0) (audit_results-Clean b rs h.1)

  -- A response that was there is not the next one.
  kept_items :
      (b c : Bolt R) (l : List ℕ)
      → ((j : ℕ) → j ≢ b.next_response → c.exchange.store j ≡ b.exchange.store j)
      → All (λ i. ((b.exchange.store i).failure ≡ none) × (i < b.next_response)) l
      → All (λ i. (c.exchange.store i).failure ≡ none) l
  kept_items b c [] k h = tt
  kept_items b c (i ∷ l) k h = (
    ap (λ (rsp : BoltResponse R). rsp.failure) (k i (λ e. omega (arith, e, h.0.1))) ∙ h.0.0,
    kept_items b c l k h.1,
  )

  kept_results :
      (b c : Bolt R) (rs : List ℕ)
      → c.results ≡ b.results
      → ((j : ℕ) → j ≢ b.next_response → c.exchange.store j ≡ b.exchange.store j)
      → Clean b rs
      → All (λ r. All (λ i. (c.exchange.store i).failure ≡ none) (c.results r).items) rs
  kept_results b c [] same k h = tt
  kept_results b c (r ∷ rs) same k h =
      (rw same (kept_items b c (b.results r).items k h.0), kept_results b c rs same k h.1)

  -- The transaction is the open one of an idle connection, whose next answer is `m`.
  abbrev pub ready : ℕ → Incoming R → List (Incoming R) → Bolt R → Bolt R
  ready t m more b = record b {
    exchange = record b.exchange { responses = []; wire_closed = false; incoming = m ∷ more };
    sends = [];
    broken = false;
    transaction = some t;
  }

  audit_transaction-Clean :
      (t : ℕ) (c : Bolt R)
      → All
          (λ r. All (λ i. (c.exchange.store i).failure ≡ none) (c.results r).items)
          (c.txs t).items
      → (audit_transaction (some t) c).0 ≡ returns tt
  unfolding audit_transaction
  audit_transaction-Clean t c h = rw (audit_results-Clean c (c.txs t).items h) refl

  ended-returns :
      (t : ℕ) (r : Reply (Unit {0}) × Bolt R) → r.0 ≡ returns tt → (ended t r).0 ≡ returns tt
  ended-returns t (returns a, c) e = refl
  ended-returns t (raises f, c) e = cc

  -- The request is out.
  abbrev out : ℕ → ℕ → Incoming R → List (Incoming R) → Bolt R → Bolt R
  out tag t m more b = record b {
    exchange = asked b.next_response b.exchange.store m more;
    next_response = b.next_response + 1;
    sends = [];
    sent = tag ∷ b.sent;
    broken = false;
    txs = store_at t (record (b.txs t) { is_complete = true }) b.txs;
    transaction = some t;
  }

  waited-Clean :
      (tag t : ℕ) (m : Incoming R) (more : List (Incoming R)) (b : Bolt R)
      (r : Outcome × Exchange R)
      → Clean b (b.txs t).items
      → Answered b.next_response b.exchange.store r
      → (reworded (mark_broken t) (waited r (out tag t m more b)) >>= λ _ f.
          ended t (audit_transaction f.transaction f)).0
        ≡ returns tt
  unfolding Answered
  waited-Clean tag t m more b (ok, e) clean (p, q) =
      let c = record (out tag t m more b) { exchange = e } in
      let old = kept_results b c (b.txs t).items refl q clean in
      ended-returns t (audit_transaction (some t) c)
        (audit_transaction-Clean t c (rw (same_index t) old))
  waited-Clean tag t m more b (connection_broken, e) clean (p, q) = cc
  waited-Clean tag t m more b (broken_wire, e) clean (p, q) = cc
  waited-Clean tag t m more b (index_error, e) clean (p, q) = cc
  waited-Clean tag t m more b (protocol_error, e) clean (p, q) = cc
  waited-Clean tag t m more b (out_of_fuel, e) clean (p, q) = cc

  end_tx-Clean :
      (tag t : ℕ) (m : Incoming R) (more : List (Incoming R)) (b : Bolt R)
      → IsAnswer m
      → (b.txs t).broken ≡ false
      → Clean b (b.txs t).items
      → (end_tx tag t (ready t m more b)).0 ≡ returns tt
  unfolding end_tx append_message sync
  end_tx-Clean tag t m more b h sound clean =
      rw (same_index t, sound)
        (waited-Clean tag t m more b
          (wait b.next_response (asked b.next_response b.exchange.store m more)) clean
          (wait-Answered b.next_response b.exchange.store m more h))

  -- A commit, and a rollback, of a transaction without a failed response returns, whether the server accepts or
  -- refuses the end of the transaction: the audit that follows is of the queries, and does not see the answer.
  -- The connection is open, the transaction is its current one, and the answer is the next message.
  pub commit_refused :
      (t : ℕ) (m : Incoming R) (more : List (Incoming R)) (b : Bolt R)
      → IsAnswer m
      → (b.txs t).broken ≡ false
      → Clean b (b.txs t).items
      → ((commit t (ready t m more b)).0 ≡ returns tt)
        × ((rollback t (ready t m more b)).0 ≡ returns tt)
  unfolding commit rollback
  commit_refused t m more b h sound clean =
      (end_tx-Clean 18 t m more b h sound clean, end_tx-Clean 19 t m more b h sound clean)
