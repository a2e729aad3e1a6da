-- ===== src/Pep249/Tracking.antt =====
-- The transaction that a server has open after what was asked of it, and that each command keeps the DB API
-- connection in step with it.
use py2neo.Prelude.{ℕ, ◌≡◌, List, [], ◌∷◌, Option, none, some, ◌==◌, if◌then◌else◌, arith, refl}
use py2neo.Pep249.{
  Command, begins, commits, rolls_back, runs, pulls, closes, Reply, returns, neo4j_error,
  other_error, Ending, returned, failed, interrupted, Connection, answer, ask, finished, commit_tx,
  rollback_tx, executed, begun, dropped, drop_tx, forgiven, check, Result, commit, begin, rollback,
  ok, Action, ◌>>=◌, err,
}

-- The transaction that is open at the server after a command, where it was allowed: a new one needs that
-- there is none, a query and the end of a transaction need theirs, and nothing is left open at the close.
-- An error of the server ends the transaction.
abbrev pub accept : Command → Ending → Option ℕ → Option (Option ℕ)
accept (begins t) e (some u) = none
accept (begins t) returned none = some (some t)
accept (begins t) failed none = some none
accept (begins t) interrupted none = some none
accept (commits t) e none = none
accept (commits t) e (some u) = if u == t then some none else none
accept (rolls_back t) e none = none
accept (rolls_back t) e (some u) = if u == t then some none else none
accept (runs t) e none = none
accept (runs t) returned (some u) = if u == t then some (some u) else none
accept (runs t) failed (some u) = if u == t then some none else none
accept (runs t) interrupted (some u) = if u == t then some (some u) else none
accept (pulls t) e none = none
accept (pulls t) returned (some u) = if u == t then some (some u) else none
accept (pulls t) failed (some u) = if u == t then some none else none
accept (pulls t) interrupted (some u) = if u == t then some (some u) else none
accept closes e none = some none
accept closes e (some u) = none

abbrev pub accept_next : Command → Ending → Option (Option ℕ) → Option (Option ℕ)
accept_next c e none = none
accept_next c e (some open_tx) = accept c e open_tx

-- The transaction that is open after the commands of a log, if all were allowed.
abbrev pub follow : List (Command × Ending) → Option (Option ℕ)
follow [] = some none
follow ((c, e) ∷ log) = accept_next c e (follow log)

module _ {R : Type 0} where
  -- The log is allowed, and the connection knows the transaction that is open.
  abbrev pub Tracks : Connection R → Type 0
  Tracks k = follow k.log ≡ some k.tx

  commit_tx-Tracks :
      (t : Option ℕ) (k : Connection R) → k.tx ≡ t → Tracks k → Tracks (commit_tx t k).1
  unfolding ask
  commit_tx-Tracks none k e v = v
  commit_tx-Tracks (some t) k e v = go k.replies
    where
      go : (rs : List (Reply R)) → Tracks (finished (answer rs (commits t) k)).1
      go [] = ground (arith, e, v)
      go (returns r ∷ rs) = ground (arith, e, v)
      go (neo4j_error ∷ rs) = ground (arith, e, v)
      go (other_error b ∷ rs) = ground (arith, e, v)

  rollback_tx-Tracks :
      (t : Option ℕ) (k : Connection R) → k.tx ≡ t → Tracks k → Tracks (rollback_tx t k).1
  unfolding ask
  rollback_tx-Tracks none k e v = v
  rollback_tx-Tracks (some t) k e v = go k.replies
    where
      go : (rs : List (Reply R)) → Tracks (finished (answer rs (rolls_back t) k)).1
      go [] = ground (arith, e, v)
      go (returns r ∷ rs) = ground (arith, e, v)
      go (neo4j_error ∷ rs) = ground (arith, e, v)
      go (other_error b ∷ rs) = ground (arith, e, v)

  begun-Tracks :
      (rs : List (Reply R)) (t : ℕ) (k : Connection R)
      → k.tx ≡ none
      → Tracks k
      → Tracks (begun t (answer rs (begins t) k)).1
  begun-Tracks [] t k e v = ground (arith, e, v)
  begun-Tracks (returns r ∷ rs) t k e v = ground (arith, e, v)
  begun-Tracks (neo4j_error ∷ rs) t k e v = ground (arith, e, v)
  begun-Tracks (other_error b ∷ rs) t k e v = ground (arith, e, v)

  pub executed-Tracks :
      (rs : List (Reply R)) (t : ℕ) (k : Connection R)
      → k.tx ≡ some t
      → Tracks k
      → Tracks (executed (answer rs (runs t) k)).1 × Tracks (executed (answer rs (pulls t) k)).1
  executed-Tracks [] t k e v = ground (arith, e, v)
  executed-Tracks (returns r ∷ rs) t k e v = ground (arith, e, v)
  executed-Tracks (neo4j_error ∷ rs) t k e v = ground (arith, e, v)
  executed-Tracks (other_error b ∷ rs) t k e v = ground (arith, e, v)

  pub drop_tx-Tracks :
      (t : Option ℕ) (k : Connection R)
      → k.tx ≡ t
      → Tracks k
      → Tracks (drop_tx t k).1 × ((drop_tx t k).1.tx ≡ none)
  unfolding ask
  drop_tx-Tracks none k e v = (v, e)
  drop_tx-Tracks (some t) k e v = go k.replies
    where
      go :
          (rs : List (Reply R))
          → Tracks (forgiven (answer rs (rolls_back t) k)).1
            × ((forgiven (answer rs (rolls_back t) k)).1.tx ≡ none)
      go [] = (ground (arith, e, v), refl)
      go (returns r ∷ rs) = (ground (arith, e, v), refl)
      go (neo4j_error ∷ rs) = (ground (arith, e, v), refl)
      go (other_error b ∷ rs) = (ground (arith, e, v), refl)

  pub dropped-Tracks :
      (rs : List (Reply R)) (k : Connection R)
      → k.tx ≡ none
      → Tracks k
      → Tracks (dropped (answer rs closes k)).1
  dropped-Tracks [] k e v = ground (arith, e, v)
  dropped-Tracks (returns r ∷ rs) k e v = ground (arith, e, v)
  dropped-Tracks (neo4j_error ∷ rs) k e v = ground (arith, e, v)
  dropped-Tracks (other_error b ∷ rs) k e v = ground (arith, e, v)

  pub bind-Tracks :
      {A B : Type 0} (r : Result A × Connection R) (f : A → Action R B)
      → Tracks r.1
      → ((a : A) (q : Connection R) → Tracks q → Tracks (f a q).1)
      → Tracks (r >>= f).1
  bind-Tracks (ok a, q) f v h = h a q v
  bind-Tracks (err e, q) f v h = v

  pub check-Tracks : (k : Connection R) → Tracks k → Tracks (check k).1
  unfolding check
  check-Tracks k v = ground (arith, v)

  pub commit-Tracks : (k : Connection R) → Tracks k → Tracks (commit k).1
  unfolding commit
  commit-Tracks k v =
      bind-Tracks (check k) (λ _ q. commit_tx q.tx q) (check-Tracks k v)
        (λ _ q w. commit_tx-Tracks q.tx q refl w)

  pub rollback-Tracks : (k : Connection R) → Tracks k → Tracks (rollback k).1
  unfolding rollback
  rollback-Tracks k v =
      bind-Tracks (check k) (λ _ q. rollback_tx q.tx q) (check-Tracks k v)
        (λ _ q w. rollback_tx-Tracks q.tx q refl w)

  rollback_tx-none : (t : Option ℕ) (k : Connection R) → k.tx ≡ t → (rollback_tx t k).1.tx ≡ none
  rollback_tx-none none k e = e
  rollback_tx-none (some t) k e = refl

  rollback-none : (k : Connection R) → (rollback k).0 ≡ ok tt → (rollback k).1.tx ≡ none
  unfolding rollback
  rollback-none k e = go (check k) e
    where
      go :
          (r : Result (Unit {0}) × Connection R)
          → (r >>= λ _ q. rollback_tx q.tx q).0 ≡ ok tt
          → (r >>= λ _ q. rollback_tx q.tx q).1.tx ≡ none
      go (ok a, q) e = rollback_tx-none q.tx q refl
      go (err f, q) e = cc

  pub begin-Tracks : (k : Connection R) → Tracks k → Tracks (begin k).1
  unfolding begin
  begin-Tracks k v = go (rollback k) (rollback-Tracks k v) (rollback-none k)
    where
      go :
          (r : Result (Unit {0}) × Connection R)
          → Tracks r.1
          → (r.0 ≡ ok tt → r.1.tx ≡ none)
          → Tracks (r >>= λ _ q. begun q.next_tx (ask (begins q.next_tx) q)).1
      go (ok a, q) w e = unfold ask in begun-Tracks q.replies q.next_tx q (e refl) w
      go (err f, q) w e = w
