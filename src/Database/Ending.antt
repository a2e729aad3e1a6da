-- ===== src/Database/Ending.antt =====
-- How a turn of `update` ends: with a commit that returned, or not done.
use py2neo.Prelude.{
  ℕ, ◌≡◌, inl, Bool-cases, inr, refl, Bool, true, false, List, Option, none, some, if◌then◌else◌,
  ◌∷◌, ◌⊎◌, [],
}
use py2neo.Errors.{should_retry}
use py2neo.Client.Connector
use py2neo.Client.Connector.{
  ◌>>=◌, Connector, Command, Fault, Result, ok, err, commits, rolls_back, runs, pulls, pruning,
  answer, ask, Action, begins, auto_runs, is_ok, connection_unavailable, connection_broken,
  connection_limit, server_error, type_error, write_service_unavailable, service_unavailable,
  other_error, invalidates, invalidate_routing_table,
}
use py2neo.Database.{
  TransactionRef, Session, commit, rollback, ref_commit, Turn, done, again, raises, handle,
  handle_in, settled, worked,
}

-- The turns of `update`.
abbrev pub is_done : {A : Type 0} → Turn A → Bool
is_done (done a) = true
is_done again = false
is_done (raises e) = false

-- A commit that returned is the last call in the log.
abbrev pub LastCommit : Connector → Type 0
LastCommit k = (t : ℕ) × (rest : List (Command × Bool)) × (k.log ≡ (commits t, true) ∷ rest)

abbrev pub EndsOk : Result (Unit {0}) × Connector → Type 0
EndsOk r = (is_ok r.0 ≡ false) ⊎ LastCommit r.1

abbrev pub EndsDone : Turn (Unit {0}) × Connector → Type 0
EndsDone r = (is_done r.0 ≡ false) ⊎ LastCommit r.1

refused :
    (e : Fault) (rs : List (Result (Unit {0}))) (t : ℕ) (k : Connector)
    → is_ok (pruning (answer (err e ∷ rs) (commits t) k)).0 ≡ false
refused connection_unavailable rs t k = refl
refused connection_broken rs t k = refl
refused connection_limit rs t k = refl
refused service_unavailable rs t k = refl
refused (server_error e) rs t k = refl
refused type_error rs t k = refl
refused write_service_unavailable rs t k = refl
refused other_error rs t k = refl

ask_commit-Ends : (t : ℕ) (k : Connector) → EndsOk (pruning (ask (commits t) k))
unfolding ask
ask_commit-Ends t k = go k.replies
  where
    go : (rs : List (Result (Unit {0}))) → EndsOk (pruning (answer rs (commits t) k))
    go [] = inl refl
    go (ok a ∷ rs) = inr (t, k.log, refl)
    go (err e ∷ rs) = inl (refused e rs t k)

then-Ends :
    (c : Result (Unit {0}) × Connector) (f : Unit {0} → Action (Unit {0}))
    → ((k : Connector) → EndsOk (f tt k))
    → EndsOk (c >>= f)
then-Ends (ok a, k) f h = h k
then-Ends (err e, k) f h = inl refl

ref_commit-Ends : (o : Option TransactionRef) (k : Connector) → EndsOk (ref_commit o k)
unfolding Connector.commit
ref_commit-Ends none k = inl refl
ref_commit-Ends (some ref) k =
    then-Ends (Connector.reacquire k) (λ _ q. pruning (ask (commits ref.txid) q))
      (ask_commit-Ends ref.txid)

commit-Ends : (s : Session) → EndsOk ((commit s).0, (commit s).1.connector)
unfolding commit
commit-Ends s = elim (Bool-cases s.tx.closed) [
  | inl e ↦ rw e (inl refl)
  | inr e ↦ rw e (ref_commit-Ends s.tx.ref s.connector)
]

pub handle-Ends : (e : Fault) (k : Connector) → EndsDone (handle e k)
handle-Ends connection_unavailable k = inl refl
handle-Ends connection_broken k = inl refl
handle-Ends connection_limit k = inl refl
handle-Ends service_unavailable k = inl refl
handle-Ends (server_error e) k = inl (go (should_retry e))
  where
    go : (b : Bool) → is_done {A = Unit {0}} (if b then again else raises (server_error e)) ≡ false
    go true = refl
    go false = refl
handle-Ends type_error k = inl refl
handle-Ends write_service_unavailable k = inl refl
handle-Ends other_error k = inl refl

handle_in-Ends : (e : Fault) (r : Result (Unit {0}) × Session) → EndsDone (handle_in e r)
handle_in-Ends e (ok a, s) = handle-Ends e s.connector
handle_in-Ends e (err f, s) = inl refl

settled-Ends :
    (r : Result (Unit {0}) × Session) → EndsOk (r.0, r.1.connector) → EndsDone (settled r)
settled-Ends (ok a, s) (inl e) = absurd cc
settled-Ends (ok a, s) (inr e) = inr e
settled-Ends (err f, s) e = handle_in-Ends f (rollback s)

pub worked-Ends : (r : Result (Unit {0}) × Session) → EndsDone (worked r)
worked-Ends (ok a, s) = settled-Ends (commit s) (commit-Ends s)
worked-Ends (err f, s) = handle_in-Ends f (rollback s)
