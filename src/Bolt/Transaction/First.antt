-- ===== src/Bolt/Transaction/First.antt =====
-- client/bolt.py: what `Bolt1` and `Bolt2` do in another way than `Bolt3`. A transaction begins and ends by a pair of
-- requests, a query and the discarding of its result. Metadata and timeouts, which raise, and the names of
-- graphs are left out.
use py2neo.Prelude.{
  ℕ, Bool, true, false, not, ◌==◌, if◌then◌else◌, List, [], ◌∷◌, Option, none, some,
}
use py2neo.Bolt.Exchange.{wait}
use py2neo.Bolt.Transaction.{
  waited, is_true, Bolt, Action, returns, raises, type_error, consumed, ◌>>=◌, append_message, sync,
  reworded, mark_broken, audit_transaction, assert_open, assert_no_transaction,
  assert_transaction_open, new_tx, set_complete, ended, run_in, add_response,
}

-- `result is not tx.last()`
abbrev pub is_last : ℕ → List ℕ → Bool
is_last r [] = false
is_last r (i ∷ []) = i == r
is_last r (i ∷ j ∷ rest) = is_last r (j ∷ rest)

module _ {R : Type 0} where
  -- _sync, for two responses; what was sent for the first is not sent again.
  unfoldable pub sync_both : ℕ → ℕ → Action R (Unit {0})
  unfolding sync
  sync_both i j b = sync i b >>= λ _ c. waited (wait j c.exchange) c

  -- _set_transaction
  abbrev pub set_transaction : Action R (Unit {0})
  set_transaction b = assert_open b >>= λ _ c. assert_no_transaction c >>= λ _ d. new_tx d

  -- The query BEGIN, COMMIT or ROLLBACK, and the discarding of its result.
  abbrev pub exchange_pair : Action R (Unit {0})
  exchange_pair b =
      let (i, c) = append_message 16 none false b in
      let (j, d) = append_message 47 none false c in sync_both i j d

  unfoldable pub begin : Action R (Option ℕ)
  unfolding append_message sync_both audit_transaction
  begin b = set_transaction b >>= λ _ c. reworded (λ q. q) (exchange_pair c) >>= λ _ d.
      audit_transaction d.transaction d >>= λ _ e. (returns e.transaction, e)

  -- What commit and rollback share, which differ in the text of the query.
  unfoldable pub end_tx : ℕ → Action R (Unit {0})
  unfolding append_message sync_both audit_transaction
  end_tx t b = assert_open b >>= λ _ c. assert_transaction_open t c >>= λ _ d.
      reworded (mark_broken t) (exchange_pair (set_complete t d)) >>= λ _ e.
      ended t (audit_transaction e.transaction e)

  unfoldable pub auto_run : Action R ℕ
  unfolding append_message
  auto_run b = set_transaction b >>= λ _ c. run_in c.transaction true c

  abbrev pub assert_consumable : ℕ → Action R (Unit {0})
  assert_consumable r b =
      if not (is_last r (b.txs (b.results r).tx).items)
      then (raises type_error, b)
      else if (b.results r).is_complete
      then (raises consumed, b)
      else (returns tt, b)

  -- `if self._transaction: self._transaction.mark_broken()`
  abbrev pub mark_current : Option ℕ → Bolt R → Bolt R
  mark_current none b = b
  mark_current (some t) b = if is_true b (some t) then mark_broken t b else b

  -- What pull and discard share.
  abbrev pub consume : ℕ → Option ℕ → ℕ → Action R ℕ
  consume tag capacity r b =
      let (i, c) = append_message tag capacity false b in
      reworded (λ q. mark_current q.transaction q) (sync i (add_response r i true c)) >>= λ _ d.
      audit_transaction d.transaction d >>= λ _ e. (returns i, e)

  -- `n` is absent where it is -1
  unfoldable pub pull : ℕ → Option ℕ → Option ℕ → Action R ℕ
  unfolding append_message sync audit_transaction
  pull r none capacity b =
      assert_open b >>= λ _ c. assert_consumable r c >>= λ _ d. consume 63 capacity r d
  pull r (some n) capacity b =
      assert_open b >>= λ _ c. assert_consumable r c >>= λ _ d. (raises consumed, d)

  unfoldable pub discard : ℕ → Action R ℕ
  unfolding append_message sync audit_transaction
  discard r b = assert_open b >>= λ _ c. assert_consumable r c >>= λ _ d. consume 47 none r d
