-- ===== src/Pep249/Closing.antt =====
-- A DB API connection that was closed.
use py2neo.Prelude.{
  [], ◌∷◌, Bool-cases, inl, inr, ℕ, refl, ◌≡◌, ap, List, Option, none, some, true, false, not, ◌&&◌,
  ◌||◌, arith,
}
use py2neo.Pep249.{
  Action, rollback_tx, begun, begins, commit_tx, execute_query, Connection, Result, ok, err,
  programming_error, check, commit, rollback, begin, close, ◌>>=◌, drop_tx, dropped, ask, closes,
  Reply, returns, neo4j_error, other_error, answer,
}
use py2neo.Pep249.Cursor.{
  Cursor, ensure_tx, fetchone_from, fetchmany_from, fetchall_from, or_arraysize, check_cursor,
  cursor, executemany, execute_each, execute, fetchone, fetchmany, fetchall,
}

module _ {R : Type 0} where
  -- The connection is no more.
  abbrev IsGone : Connection R → Type 0
  IsGone k = (not k.has_cx || k.closed) ≡ true

  dropped-IsGone :
      (rs : List (Reply R)) (k : Connection R)
      → (dropped (answer rs closes k)).0 ≡ ok tt
      → IsGone (dropped (answer rs closes k)).1
  dropped-IsGone [] k e = cc
  dropped-IsGone (returns r ∷ rs) k e = refl
  dropped-IsGone (neo4j_error ∷ rs) k e = cc
  dropped-IsGone (other_error b ∷ rs) k e = cc

  close-IsGone : (k : Connection R) → k.broken ≡ false → (close k).0 ≡ ok tt → IsGone (close k).1
  unfolding close
  close-IsGone k sound e = elim (Bool-cases (k.has_cx && (not k.closed && not k.broken))) [
    | inl whole ↦ rw whole (go (drop_tx k.tx k) (rw whole at e))
    | inr gone ↦ rw gone (ground (arith, gone, sound))
  ]
    where
      go :
          (r : Result (Unit {0}) × Connection R)
          → (r >>= λ _ q. dropped (ask closes q)).0 ≡ ok tt
          → IsGone (r >>= λ _ q. dropped (ask closes q)).1
      go (ok a, q) e = unfold ask in dropped-IsGone q.replies q e
      go (err f, q) e = cc

  check-IsGone : (k : Connection R) → IsGone k → check k ≡ (err programming_error, k)
  unfolding check
  check-IsGone k g = rw g refl

  check_cursor-IsGone :
      (c : Cursor R) (k : Connection R) → IsGone k → check_cursor c k ≡ (err programming_error, k)
  unfolding check_cursor
  check_cursor-IsGone c k g = elim (Bool-cases c.closed) [
    | inl shut ↦ rw shut refl
    | inr opened ↦ rw opened (check-IsGone k g)
  ]

  stops :
      {A B : Type 0} (r : Result A × Connection R) (f : A → Action R B) (k : Connection R)
      → r ≡ (err programming_error, k)
      → (r >>= f) ≡ (err programming_error, k)
  stops {A} r f k e = ap (λ (x : Result A × Connection R). x >>= f) e

  -- After a `close` that returned on a connection that was whole, `begin`, `commit`, `rollback` and `cursor` raise
  -- `ProgrammingError` and change nothing, and so do `execute`, `executemany`, `fetchone`, `fetchmany` and
  -- `fetchall` of any of its cursors.
  pub close-programming_error :
      (k : Connection R) (c : Cursor R) (size : Option ℕ) (n : ℕ)
      → k.broken ≡ false
      → (close k).0 ≡ ok tt
      → (begin (close k).1 ≡ (err programming_error, (close k).1))
        × (commit (close k).1 ≡ (err programming_error, (close k).1))
        × (rollback (close k).1 ≡ (err programming_error, (close k).1))
        × (cursor (close k).1 ≡ (err programming_error, (close k).1))
        × (execute c (close k).1 ≡ (err programming_error, (close k).1))
        × (executemany n c (close k).1 ≡ (err programming_error, (close k).1))
        × (fetchone c (close k).1 ≡ (err programming_error, (close k).1))
        × (fetchmany size c (close k).1 ≡ (err programming_error, (close k).1))
        × (fetchall c (close k).1 ≡ (err programming_error, (close k).1))
  unfolding begin rollback commit cursor execute executemany fetchone fetchmany fetchall
  close-programming_error k c size n sound e =
      let q = (close k).1 in
      let gone = close-IsGone k sound e in
      let h = check-IsGone q gone in
      let hc = check_cursor-IsGone c q gone in
      let rolled = stops (check q) (λ _ p. rollback_tx p.tx p) q h in
      (
        stops (rollback q) (λ _ p. begun p.next_tx (ask (begins p.next_tx) p)) q rolled,
        stops (check q) (λ _ p. commit_tx p.tx p) q h,
        rolled,
        stops (check q) (λ _ p. (ok (record { result = none; closed = false; arraysize = 1 }), p)) q
            h,
        stops (check_cursor c q)
            (λ _ p. ensure_tx p.tx p >>= λ _ s.
              execute_query s >>= λ r v. (ok (record c { result = some r }), v))
            q hc,
        stops (check_cursor c q) (λ _ p. execute_each n c p) q hc,
        stops (check_cursor c q) (λ _ p. fetchone_from c.result c p) q hc,
        stops (check_cursor c q) (λ _ p. fetchmany_from c.result (or_arraysize size c) c p) q hc,
        stops (check_cursor c q) (λ _ p. fetchall_from c.result c p) q hc,
      )
