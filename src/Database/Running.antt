-- ===== src/Database/Running.antt =====
-- What the calls of a transaction add to a count of commands without queries.
use py2neo.Prelude.{refl, ◌≡◌, true, none, false, Bool, ◌∙◌, ℕ, Option, some, if◌then◌else◌}
use py2neo.Client.Connector
use py2neo.Client.Connector.{
  ◌>>=◌, runs, pulls, auto_runs, type_error, ok, err, Connector, Result, connection_unavailable,
  connection_broken, connection_limit, service_unavailable, server_error, write_service_unavailable,
  other_error, acquires, prunes,
}
use py2neo.Client.Connector.Tally.{Weight, tally, run-Asks, pull-Asks, auto_run-Asks, no_weight}
use py2neo.Database.{Session, TransactionRef, run_ref, passing}

pub passing-session : (r : Result (Unit {0}) × Session) → (passing r).1 ≡ r.1
passing-session (ok a, s) = refl
passing-session (err connection_unavailable, s) = refl
passing-session (err connection_broken, s) = refl
passing-session (err connection_limit, s) = refl
passing-session (err service_unavailable, s) = refl
passing-session (err (server_error e), s) = refl
passing-session (err type_error, s) = refl
passing-session (err write_service_unavailable, s) = refl
passing-session (err other_error, s) = refl

module _ (w : Weight) (idle : (b : Bool) → (w acquires b ≡ 0) × (w prunes b ≡ 0))
    (quiet : (t : ℕ) (b : Bool) → (w (runs t) b ≡ 0) × (w pulls b ≡ 0) × (w auto_runs b ≡ 0)) where
  auto_run-tally : (k : Connector) → tally w (Connector.auto_run k).1.log ≡ tally w k.log
  auto_run-tally k =
      no_weight w idle auto_runs k (Connector.auto_run k) (λ b. (quiet 0 b).2)
        (auto_run-Asks w idle k)

  run_ref-tally :
      (ref : Option TransactionRef) (k : Connector) → tally w (run_ref ref k).1.log ≡ tally w k.log
  run_ref-tally none k = auto_run-tally k
  run_ref-tally (some ref) k = go ref.live
    where
      go :
          (b : Bool)
          → tally w (if b then Connector.run ref.txid k else Connector.auto_run k).1.log
            ≡ tally w k.log
      go true =
          no_weight w idle (runs ref.txid) k (Connector.run ref.txid k) (λ b. (quiet ref.txid b).0)
            (run-Asks w idle ref.txid k)
      go false = auto_run-tally k

  pub run_pull-tally :
      (ref : Option TransactionRef) (k : Connector)
      → tally w (run_ref ref k >>= λ _ q. Connector.pull q).1.log ≡ tally w k.log
  run_pull-tally ref k = go (run_ref ref k) (run_ref-tally ref k)
    where
      go :
          (r : Result (Unit {0}) × Connector)
          → tally w r.1.log ≡ tally w k.log
          → tally w (r >>= λ _ q. Connector.pull q).1.log ≡ tally w k.log
      go (ok a, q) e =
          no_weight w idle pulls q (Connector.pull q) (λ b. (quiet 0 b).1) (pull-Asks w idle q) ∙ e
      go (err f, q) e = e
