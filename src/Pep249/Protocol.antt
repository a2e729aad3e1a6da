-- ===== src/Pep249/Protocol.antt =====
-- What a server sees of a DB API connection: one transaction at a time, each of its commands inside.
use py2neo.Pep249.Cursor.{Cursor, check_cursor, ensure_tx, execute, execute_each, executemany}
use py2neo.Bolt.Result.{BoltResult}
use py2neo.Prelude.{
  Bool-cases, inl, inr, not, ◌&&◌, ◌||◌, ℕ, ◌≡◌, List, [], ◌∷◌, Option, none, some, arith, refl,
  ◌∙◌, Bool, suc, zero,
}
use py2neo.Pep249.{
  Command, runs, pulls, closes, Reply, returns, neo4j_error, other_error, Connection, answer, ask,
  executed, dropped, drop_tx, Result, commit, begin, BoltResult, close, rollback, execute_in, ok,
  ◌>>=◌, err, execute_query,
}
use py2neo.Pep249.Tracking.{
  Tracks, executed-Tracks, drop_tx-Tracks, dropped-Tracks, bind-Tracks, check-Tracks, commit-Tracks,
  rollback-Tracks, begin-Tracks,
}

module _ {R : Type 0} where
  executed_tx :
      (rs : List (Reply R)) (c : Command) (k : Connection R) (r : BoltResult R)
      → (executed (answer rs c k)).0 ≡ ok r
      → (executed (answer rs c k)).1.tx ≡ k.tx
  executed_tx [] c k r e = cc
  executed_tx (returns s ∷ rs) c k r e = refl
  executed_tx (neo4j_error ∷ rs) c k r e = cc
  executed_tx (other_error b ∷ rs) c k r e = cc

  execute_in-Tracks :
      (t : Option ℕ) (k : Connection R) → k.tx ≡ t → Tracks k → Tracks (execute_in t k).1
  unfolding ask
  execute_in-Tracks none k e v = v
  execute_in-Tracks (some t) k e v =
      go (executed (answer k.replies (runs t) k)) (executed-Tracks k.replies t k e v).0
        (executed_tx k.replies (runs t) k)
    where
      go :
          (r : Result (BoltResult R) × Connection R)
          → Tracks r.1
          → ((b : BoltResult R) → r.0 ≡ ok b → r.1.tx ≡ k.tx)
          → Tracks (r >>= λ _ q. executed (answer q.replies (pulls t) q)).1
      go (ok b, q) w h = (executed-Tracks q.replies t q (h b refl ∙ e) w).1
      go (err f, q) w h = w

  ensure_tx-Tracks : (t : Option ℕ) (k : Connection R) → Tracks k → Tracks (ensure_tx t k).1
  ensure_tx-Tracks none k v = begin-Tracks k v
  ensure_tx-Tracks (some t) k v = v

  check_cursor-Tracks : (c : Cursor R) (k : Connection R) → Tracks k → Tracks (check_cursor c k).1
  unfolding check_cursor
  check_cursor-Tracks c k v = ground (arith, v, check-Tracks k v)

  execute-Tracks : (c : Cursor R) (k : Connection R) → Tracks k → Tracks (execute c k).1
  unfolding execute execute_query
  execute-Tracks c k v =
      bind-Tracks (check_cursor c k)
        (λ _ q. ensure_tx q.tx q >>= λ _ s.
          execute_query s >>= λ r w. (ok (record c { result = some r }), w))
        (check_cursor-Tracks c k v)
        λ _ q w.
          bind-Tracks (ensure_tx q.tx q)
            (λ _ s. execute_query s >>= λ r w. (ok (record c { result = some r }), w))
            (ensure_tx-Tracks q.tx q w)
            λ _ s x.
              bind-Tracks (execute_query s) (λ r w. (ok (record c { result = some r }), w))
                (execute_in-Tracks s.tx s refl x) (λ _ t y. y)

  execute_each-Tracks :
      (n : ℕ) (c : Cursor R) (k : Connection R) → Tracks k → Tracks (execute_each n c k).1
  unfolding execute_each
  execute_each-Tracks zero c k v = v
  execute_each-Tracks (suc n) c k v =
      bind-Tracks (execute c k) (execute_each n) (execute-Tracks c k v) (execute_each-Tracks n)

  executemany-Tracks :
      (n : ℕ) (c : Cursor R) (k : Connection R) → Tracks k → Tracks (executemany n c k).1
  unfolding executemany
  executemany-Tracks n c k v =
      bind-Tracks (check_cursor c k) (λ _ q. execute_each n c q) (check_cursor-Tracks c k v)
        (λ _. execute_each-Tracks n c)

  close-Tracks : (k : Connection R) → Tracks k → Tracks (close k).1
  unfolding close
  close-Tracks k v = elim (Bool-cases (k.has_cx && (not k.closed && not k.broken))) [
    | inl open_cx ↦
        rw open_cx
          (go (drop_tx k.tx k) (drop_tx-Tracks k.tx k refl v).0 (drop_tx-Tracks k.tx k refl v).1)
    | inr gone ↦ rw gone v
  ]
    where
      go :
          (r : Result (Unit {0}) × Connection R)
          → Tracks r.1
          → r.1.tx ≡ none
          → Tracks (r >>= λ _ q. dropped (ask closes q)).1
      go (ok a, q) w e = unfold ask in dropped-Tracks q.replies q e w
      go (err f, q) w e = w

-- What the users of a connection do, and what may befall it meanwhile.
pub data Call (R : Type 0) : Type 0 where
  begins_tx commits_tx rolls_tx_back closes_connection : Call R
  executes : Cursor R → Call R
  executes_many : Cursor R → ℕ → Call R
  is_lost : Bool → Bool → Call R

module _ {R : Type 0} where
  abbrev pub step : Call R → Connection R → Connection R
  step begins_tx k = (begin k).1
  step commits_tx k = (commit k).1
  step rolls_tx_back k = (rollback k).1
  step closes_connection k = (close k).1
  step (executes c) k = (execute c k).1
  step (executes_many c n) k = (executemany n c k).1
  step (is_lost closed broken) k = record k {
    closed = k.closed || closed;
    broken = k.broken || broken;
  }

  abbrev pub run : List (Call R) → Connection R → Connection R
  run [] k = k
  run (c ∷ cs) k = run cs (step c k)

  step-Tracks : (c : Call R) (k : Connection R) → Tracks k → Tracks (step c k)
  step-Tracks begins_tx k v = begin-Tracks k v
  step-Tracks commits_tx k v = commit-Tracks k v
  step-Tracks rolls_tx_back k v = rollback-Tracks k v
  step-Tracks closes_connection k v = close-Tracks k v
  step-Tracks (executes c) k v = execute-Tracks c k v
  step-Tracks (executes_many c n) k v = executemany-Tracks n c k v
  step-Tracks (is_lost closed broken) k v = v

  -- However the users of a connection and of its cursors interleave their calls, whatever the server answers
  -- and whenever the connection is lost, the server sees one transaction at a time: none begins inside
  -- another, each query and each end belongs to the one that is open, and the connection is closed only
  -- outside of any. The connection knows the open transaction throughout.
  pub run-Tracks : (cs : List (Call R)) (k : Connection R) → Tracks k → Tracks (run cs k)
  run-Tracks [] k v = v
  run-Tracks (c ∷ cs) k v = run-Tracks cs (step c k) (step-Tracks c k v)
