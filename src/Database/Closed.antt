-- ===== src/Database/Closed.antt =====
-- A transaction in the hands of its user, from its begin to its end.
use py2neo.Prelude.{
  Bool, arith, ◌≤◌, false, true, Option, ◌∷◌, ◌∙◌, ℕ, none, ◌+◌, ◌≡◌, ap, inr, ◌⊎◌, refl, List,
  some, inl, [], sym,
}
use py2neo.Client.Connector
use py2neo.Client.Connector.{
  connection_unavailable, connection_broken, connection_limit, service_unavailable, server_error,
  write_service_unavailable, other_error, ◌>>=◌, commits, rolls_back, runs, pulls, auto_runs,
  type_error, ok, err, Connector, Command, Result, is_ok,
}
use py2neo.Client.Connector.Tally.{Weight, tally, Asks, commit-Asks, rollback-Asks}
use py2neo.Database.Running.{run_pull-tally, passing-session}
use py2neo.Database.{
  Session, TransactionRef, run, commit, rollback, ended, ref_commit, ref_rollback,
}

-- The end of a transaction was asked for, whether it returned or not.
abbrev pub is_end : Weight
is_end (commits t) b = 1
is_end (rolls_back t) b = 1
is_end c b = 0

-- How often a commit or a rollback was asked for.
abbrev pub ends : Connector → ℕ
ends k = tally is_end k.log

pub data Call : Type 0 where
  runs_query commits_tx rolls_tx_back : Call

abbrev pub step : Call → Session → Session
step runs_query s = (run s).1
step commits_tx s = (commit s).1
step rolls_tx_back s = (rollback s).1

-- The calls of a user, whatever they raise.
abbrev pub perform : List Call → Session → Session
perform [] s = s
perform (c ∷ calls) s = perform calls (step c s)

Asks-one :
    {A : Type 0} (c : Command) (k : Connector) (r : Result A × Connector)
    → ((b : Bool) → is_end c b ≡ 1)
    → Asks is_end (λ b. (refl, refl)) c k r
    → ends r.1 ≤ ends k + 1
Asks-one c k r h (inl (e, same)) = omega (arith, same)
Asks-one c k r h (inr e) = ground (arith, e, h (is_ok r.0))

ref_commit-ends :
    (ref : Option TransactionRef) (k : Connector) → ends (ref_commit ref k).1 ≤ ends k + 1
ref_commit-ends none k = omega arith
ref_commit-ends (some ref) k =
    Asks-one (commits ref.txid) k (Connector.commit ref.txid k) (λ b. refl)
      (commit-Asks is_end (λ b. (refl, refl)) ref.txid k)

ref_rollback-ends :
    (ref : Option TransactionRef) (k : Connector) → ends (ref_rollback ref k).1 ≤ ends k + 1
ref_rollback-ends none k = omega arith
ref_rollback-ends (some ref) k =
    Asks-one (rolls_back ref.txid) k (Connector.rollback ref.txid k) (λ b. refl)
      (rollback-Asks is_end (λ b. (refl, refl)) ref.txid k)

step-closed : (c : Call) (s : Session) → s.tx.closed ≡ true → step c s ≡ s
unfolding run commit rollback
step-closed runs_query s e = rw e refl
step-closed commits_tx s e = rw e refl
step-closed rolls_tx_back s e = rw e refl

perform-closed : (calls : List Call) (s : Session) → s.tx.closed ≡ true → perform calls s ≡ s
perform-closed [] s e = refl
perform-closed (c ∷ calls) s e = ap (perform calls) (step-closed c s e) ∙ perform-closed calls s e

-- What calls made of an open transaction: it is open and its end was not asked for, or it is closed.
abbrev pub Progress : Session → Session → Type 0
Progress s s' =
    ((s'.tx.closed ≡ false) × (ends s'.connector ≡ ends s.connector))
    ⊎ ((s'.tx.closed ≡ true) × (ends s'.connector ≤ ends s.connector + 1))

ran-Progress :
    (b : Bool) (s s' : Session)
    → s'.tx.closed ≡ b
    → ends s'.connector ≡ ends s.connector
    → Progress s s'
ran-Progress true s s' e same = inr (e, omega (arith, same))
ran-Progress false s s' e same = inl (e, same)

step-Progress : (c : Call) (s : Session) → s.tx.closed ≡ false → Progress s (step c s)
unfolding run commit rollback
step-Progress runs_query s e =
    ran-Progress (step runs_query s).tx.closed s (step runs_query s) refl (
      rw e (
        run_pull-tally is_end (λ b. (refl, refl)) (λ t b. (refl, refl, refl)) s.tx.ref s.connector))
step-Progress commits_tx s e = inr (rw e (refl, ref_commit-ends s.tx.ref s.connector))
step-Progress rolls_tx_back s e = inr (
    rw e (
      rw (passing-session (ended s.tx (ref_rollback s.tx.ref s.connector)))
        (refl, ref_rollback-ends s.tx.ref s.connector)))

perform-Progress :
    (calls : List Call) (s : Session) → s.tx.closed ≡ false → Progress s (perform calls s)
perform-Progress [] s e = inl (e, refl)
perform-Progress (c ∷ calls) s e = elim (step-Progress c s e) [
  | inl (opened, same) ↦ rw (sym same) (perform-Progress calls (step c s) opened)
  | inr (closed, once) ↦ rw (perform-closed calls (step c s) closed) (inr (closed, once))
]

-- Whatever the user of an open transaction calls, and whatever the calls raise: either the transaction is
-- still open and neither a commit nor a rollback was asked for, or one was asked for at most once and
-- no further calls change the transaction or ask anything of the connector.
pub perform-ends :
    (calls more : List Call) (s : Session)
    → s.tx.closed ≡ false
    → (((perform calls s).tx.closed ≡ false)
        × (ends (perform calls s).connector ≡ ends s.connector))
      ⊎ ((ends (perform calls s).connector ≤ ends s.connector + 1)
          × (perform more (perform calls s) ≡ perform calls s))
perform-ends calls more s e = elim (perform-Progress calls s e) [
  | inl open_tx ↦ inl open_tx
  | inr (closed, once) ↦ inr (once, perform-closed more (perform calls s) closed)
]
