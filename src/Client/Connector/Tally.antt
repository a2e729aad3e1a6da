-- ===== src/Client/Connector/Tally.antt =====
-- Counting what was asked of a connector, by a weight for each command and outcome.
use py2neo.Prelude.{
  ℕ, ◌≡◌, ◌⊎◌, inl, inr, refl, ◌∙◌, ap, Bool, true, false, List, [], ◌∷◌, ◌+◌, arith, if◌then◌else◌,
}
use py2neo.Client.Connector.{
  Connector, Command, Result, ok, err, acquires, prunes, begin, answer, reacquire, is_ok, rollback,
  run, commit, pruning, ask, numbered, auto_run, pull, commits, ◌>>=◌, runs, server_error, pulls,
  rolls_back, auto_runs, begins, connection_unavailable, connection_broken, connection_limit,
  service_unavailable, type_error, write_service_unavailable, other_error,
}

abbrev pub Weight : Type 0
Weight = Command → Bool → ℕ

abbrev pub tally : Weight → List (Command × Bool) → ℕ
tally w [] = 0
tally w ((c, b) ∷ log) = w c b + tally w log

module _ (w : Weight) (idle : (b : Bool) → (w acquires b ≡ 0) × (w prunes b ≡ 0)) where
  abbrev pub Same : {A : Type 0} → Connector → Result A × Connector → Type 0
  Same k r = tally w r.1.log ≡ tally w k.log

  -- The command was asked, or an error came before.
  abbrev pub Asks : {A : Type 0} → Command → Connector → Result A × Connector → Type 0
  Asks c k r =
      ((is_ok r.0 ≡ false) × Same k r) ⊎ (tally w r.1.log ≡ w c (is_ok r.0) + tally w k.log)

  answer-tally :
      (rs : List (Result (Unit {0}))) (c : Command) (k : Connector)
      → tally w (answer rs c k).1.log ≡ w c (is_ok (answer rs c k).0) + tally w k.log
  answer-tally [] c k = refl
  answer-tally (r ∷ rs) c k = refl

  pruning-tally :
      (r : Result (Unit {0}) × Connector)
      → (tally w (pruning r).1.log ≡ tally w r.1.log) × (is_ok (pruning r).0 ≡ is_ok r.0)
  pruning-tally (ok a, k) = (refl, refl)
  pruning-tally (err connection_unavailable, k) = (ground (arith, idle true), refl)
  pruning-tally (err connection_broken, k) = (ground (arith, idle true), refl)
  pruning-tally (err connection_limit, k) = (refl, refl)
  pruning-tally (err service_unavailable, k) = (refl, refl)
  pruning-tally (err (server_error e), k) = (refl, refl)
  pruning-tally (err type_error, k) = (refl, refl)
  pruning-tally (err write_service_unavailable, k) = (refl, refl)
  pruning-tally (err other_error, k) = (refl, refl)

  acquires-Same : (k : Connector) → Same k (ask acquires k)
  unfolding ask
  acquires-Same k =
      ground
        (arith, answer-tally k.replies acquires k, idle (is_ok (answer k.replies acquires k).0))

  reacquire-Same : (k : Connector) → Same k (reacquire k)
  unfolding reacquire
  reacquire-Same k = go k.bolt
    where
      go : (b : Bool) → Same k (if b then (ok tt, k) else ask acquires k)
      go true = refl
      go false = acquires-Same k

  call-Asks :
      (c : Command) (k : Connector) (r : Result (Unit {0}) × Connector)
      → Same k r
      → Asks c k (r >>= λ _ q. pruning (ask c q))
  unfolding ask
  call-Asks c k (ok a, q) e = inr (
      pruning_lem (answer q.replies c q) (pruning-tally (answer q.replies c q))
        (answer-tally q.replies c q))
    where
      pruning_lem :
          (s : Result (Unit {0}) × Connector)
          → (tally w (pruning s).1.log ≡ tally w s.1.log) × (is_ok (pruning s).0 ≡ is_ok s.0)
          → tally w s.1.log ≡ w c (is_ok s.0) + tally w q.log
          → tally w (pruning s).1.log ≡ w c (is_ok (pruning s).0) + tally w k.log
      pruning_lem s (same, flag) asked = rw flag (same ∙ asked ∙ ap (λ n. w c (is_ok s.0) + n) e)
  call-Asks c k (err f, q) e = inl (refl, e)

  pub commit-Asks : (t : ℕ) (k : Connector) → Asks (commits t) k (commit t k)
  unfolding commit
  commit-Asks t k = call-Asks (commits t) k (reacquire k) (reacquire-Same k)

  pub rollback-Asks : (t : ℕ) (k : Connector) → Asks (rolls_back t) k (rollback t k)
  unfolding rollback
  rollback-Asks t k = call-Asks (rolls_back t) k (reacquire k) (reacquire-Same k)

  pub run-Asks : (t : ℕ) (k : Connector) → Asks (runs t) k (run t k)
  unfolding run
  run-Asks t k = call-Asks (runs t) k (reacquire k) (reacquire-Same k)

  pub pull-Asks : (k : Connector) → Asks pulls k (pull k)
  unfolding pull
  pull-Asks k = call-Asks pulls k (reacquire k) (reacquire-Same k)

  pub auto_run-Asks : (k : Connector) → Asks auto_runs k (auto_run k)
  unfolding auto_run
  auto_run-Asks k = call-Asks auto_runs k (ask acquires k) (acquires-Same k)

  numbered-Asks :
      (t : ℕ) (c : Command) (k : Connector) (r : Result (Unit {0}) × Connector)
      → Asks c k r
      → Asks c k (numbered t r)
  numbered-Asks t c k (ok a, q) h = h
  numbered-Asks t c k (err e, q) h = h

  pub begin-Asks : (k : Connector) → Asks (begins k.next_tx) k (begin k)
  unfolding begin
  begin-Asks k =
      numbered-Asks k.next_tx (begins k.next_tx) k
        (ask acquires k >>= λ _ q. pruning (ask (begins k.next_tx) q))
        (call-Asks (begins k.next_tx) k (ask acquires k) (acquires-Same k))

  -- Where the command has no weight, the count stays.
  pub no_weight :
      {A : Type 0} (c : Command) (k : Connector) (r : Result A × Connector)
      → ((b : Bool) → w c b ≡ 0)
      → Asks c k r
      → Same k r
  no_weight c k r h (inl (e, same)) = same
  no_weight c k r h (inr e) = ground (arith, e, h (is_ok r.0))
