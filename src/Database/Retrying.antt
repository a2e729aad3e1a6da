-- ===== src/Database/Retrying.antt =====
-- `query` against a server that fails for a while.
use py2neo.Prelude.{
  ℕ, zero, suc, ◌≡◌, ◌<◌, refl, Bool, true, false, List, [], ◌∷◌, ◌++◌, All, arith, length,
  if◌then◌else◌,
}
use py2neo.Errors.{should_retry, should_invalidate_routing_table}
use py2neo.Client.Connector
use py2neo.Client.Connector.{
  ◌>>=◌, Connector, Fault, Result, ok, err, connection_unavailable, connection_broken,
  connection_limit, server_error, service_unavailable, type_error, write_service_unavailable,
  other_error, invalidate_routing_table,
}
use py2neo.Database.{
  raises, ran, auto, Turn, again, done, handle, next_turn, queried, query, query_turn, retry, turns,
  run,
}

-- Another attempt is worth it.
abbrev pub IsTransient : Fault → Type 0
IsTransient connection_unavailable = Unit
IsTransient connection_broken = Unit
IsTransient connection_limit = Unit
IsTransient (server_error e) = should_retry e ≡ true
IsTransient _ = ⊥

-- Where an attempt fails: as it acquires a connection, runs the query, or pulls the records.
pub data Failing : Type 0 where
  acquiring running pulling : Fault → Failing

abbrev pub fault : Failing → Fault
fault (acquiring f) = f
fault (running f) = f
fault (pulling f) = f

-- What the server does in these attempts, over Bolt.
abbrev pub script : List Failing → List (Result (Unit {0}))
script [] = []
script (acquiring f ∷ rest) = err f ∷ script rest
script (running f ∷ rest) = ok tt ∷ err f ∷ script rest
script (pulling f ∷ rest) = ok tt ∷ ok tt ∷ err f ∷ script rest

-- A connector over Bolt, with the coming outcomes.
abbrev pub Ready : List (Result (Unit {0})) → Connector → Type 0
Ready rs k = (k.replies ≡ rs) × (k.bolt ≡ true)

-- A failed turn: the next one is made with the outcomes that are left.
Again : List (Result (Unit {0})) → Turn (Unit {0}) × Connector → Type 0
Again rs (again, k) = Ready rs k
Again rs (_, k) = ⊥

handle-Again :
    (f : Fault) (rs : List (Result (Unit {0}))) (k : Connector)
    → IsTransient f
    → Ready rs k
    → Again rs (handle f k)
unfolding Again invalidate_routing_table
handle-Again connection_unavailable rs k h r = r
handle-Again connection_broken rs k h r = r
handle-Again connection_limit rs k h r = r
handle-Again (server_error e) rs k h r = rw h (go (should_invalidate_routing_table e))
  where
    go : (b : Bool) → Ready rs (if b then invalidate_routing_table k else k)
    go true = r
    go false = r
handle-Again service_unavailable rs k h r = absurd h
handle-Again type_error rs k h r = absurd h
handle-Again write_service_unavailable rs k h r = absurd h
handle-Again other_error rs k h r = absurd h

-- What a call leaves when it fails.
Fails : Fault → List (Result (Unit {0})) → Result (Unit {0}) × Connector → Type 0
Fails f rs (ok a, k) = ⊥
Fails f rs (err g, k) = (g ≡ f) × Ready rs k

pruning-Fails :
    (f : Fault) (rs : List (Result (Unit {0}))) (k : Connector)
    → Ready rs k
    → Fails f rs (Connector.pruning (err f, k))
unfolding Fails
pruning-Fails connection_unavailable rs k r = (refl, r)
pruning-Fails connection_broken rs k r = (refl, r)
pruning-Fails connection_limit rs k r = (refl, r)
pruning-Fails service_unavailable rs k r = (refl, r)
pruning-Fails (server_error e) rs k r = (refl, r)
pruning-Fails type_error rs k r = (refl, r)
pruning-Fails write_service_unavailable rs k r = (refl, r)
pruning-Fails other_error rs k r = (refl, r)

-- A connector is given by its fields.
abbrev pub with_replies : List (Result (Unit {0})) → Connector → Connector
with_replies rs k = record k { replies = rs; bolt = true }

run_call : Connector → Result (Unit {0}) × Connector
unfolding Connector.auto_run Connector.pull Connector.ask Connector.reacquire
run_call k = Connector.auto_run k >>= λ _ q. Connector.pull q

bind-Fails :
    (f : Fault) (rs : List (Result (Unit {0}))) (r : Result (Unit {0}) × Connector)
    → Fails f rs r
    → Fails f rs (r >>= λ _ q. Connector.pull q)
unfolding Fails
bind-Fails f rs (ok a, k) h = absurd h
bind-Fails f rs (err g, k) h = h

run_call-Fails :
    (x : Failing) (rest : List (Result (Unit {0}))) (k : Connector)
    → Fails (fault x) rest (run_call (with_replies (script (x ∷ []) ++ rest) k))
unfolding run_call Fails
run_call-Fails (acquiring f) rest k = (refl, (refl, refl))
run_call-Fails (running f) rest k =
    let q = record k {
      bolt = true;
      replies = rest;
      log = (Connector.auto_runs, false) ∷ (Connector.acquires, true) ∷ k.log;
    } in
    bind-Fails f rest (Connector.pruning (err f, q)) (pruning-Fails f rest q (refl, refl))
run_call-Fails (pulling f) rest k =
    pruning-Fails f rest
      (record k {
        bolt = true;
        replies = rest;
        log =
            (Connector.pulls, false)
            ∷ (Connector.auto_runs, true)
            ∷ (Connector.acquires, true)
            ∷ k.log;
      })
      (refl, refl)

turn-Again :
    (f : Fault) (rs : List (Result (Unit {0}))) (r : Result (Unit {0}) × Connector)
    → IsTransient f
    → Fails f rs r
    → Again rs (queried (ran (auto true) r))
unfolding Fails auto
turn-Again f rs (ok a, k) h x = absurd x
turn-Again f rs (err g, k) h (same, r) = rw same (handle-Again f rs k h r)

query_turn-Again :
    (x : Failing) (rest : List (Result (Unit {0}))) (k : Connector)
    → IsTransient (fault x)
    → Again rest (query_turn (with_replies (script (x ∷ []) ++ rest) k))
unfolding query_turn run auto run_call
query_turn-Again x rest k h =
    turn-Again (fault x) rest (run_call (with_replies (script (x ∷ []) ++ rest) k)) h
      (run_call-Fails x rest k)

script_one :
    (x : Failing) (xs : List Failing) (rest : List (Result (Unit {0})))
    → script (x ∷ xs) ++ rest ≡ script (x ∷ []) ++ (script xs ++ rest)
script_one (acquiring f) xs rest = refl
script_one (running f) xs rest = refl
script_one (pulling f) xs rest = refl

retry-live :
    (last : Fault) (n : ℕ) (failing : List Failing) (rest : List (Result (Unit {0})))
    (k : Connector)
    → All (λ x. IsTransient (fault x)) failing
    → length failing < n
    → (retry last query_turn n (with_replies (script failing ++ ok tt ∷ ok tt ∷ ok tt ∷ rest) k)).0
      ≡ ok tt
unfolding retry Again
retry-live last zero failing rest k h l = absurd (omega arith)
retry-live last (suc n) [] rest k h l =
    unfold query_turn run auto Connector.auto_run Connector.pull Connector.ask
      Connector.reacquire in
    refl
retry-live last (suc n) (x ∷ xs) rest k h l = rw (script_one x xs (ok tt ∷ ok tt ∷ ok tt ∷ rest)) (
    go (query_turn (with_replies (script (x ∷ []) ++ later) k)) (query_turn-Again x later k h.0)
      (λ q. retry-live last n xs rest q h.1 (omega arith)))
  where
    later : List (Result (Unit {0}))
    later = script xs ++ ok tt ∷ ok tt ∷ ok tt ∷ rest

    go :
        (r : Turn (Unit {0}) × Connector)
        → Again later r
        → ((q : Connector) → (retry last query_turn n (with_replies later q)).0 ≡ ok tt)
        → (next_turn (retry last query_turn n) r).0 ≡ ok tt
    go (again, q) (rs, bolt) ih = rw (rs, bolt) (ih q)
    go (done a, q) h ih = absurd h
    go (raises e, q) h ih = absurd h

-- Over Bolt, a `query` returns where the server fails it for a while, in fewer attempts than the loop makes,
-- at least 3, and only by errors that are worth another attempt, as it acquires a connection, runs the query
-- or pulls the records, and then lets it through.
pub query_live :
    (remaining : List Bool) (failing : List Failing) (rest : List (Result (Unit {0})))
    (k : Connector)
    → All (λ x. IsTransient (fault x)) failing
    → length failing < turns remaining
    → (query remaining (with_replies (script failing ++ ok tt ∷ ok tt ∷ ok tt ∷ rest) k)).0 ≡ ok tt
unfolding query
query_live remaining failing rest k h l =
    retry-live service_unavailable (turns remaining) failing rest k h l
