-- ===== src/Client/Choosing.antt =====
-- client/__init__.py: how `Connector` chooses the server for a connection: its pools, the routing table of a
-- graph and its refresh. A pool is a shared object, which a caller may hold after the connector has forgotten it:
-- the dictionary gives its number, and `pools` holds the pools, of any type with the operations of `Pooling`. What
-- the servers answer, what a new pool is and how `random` falls out are lists of the state. Another thread that
-- refreshes the table leaves the router as the next of `waits`. The tags of connections are left out.
pub mod Refreshing
pub mod Acquiring
mod Held
pub mod Fresh
mod Finding
pub mod Serving
pub mod Locking
mod Tests
use py2neo.Prelude.{
  ℕ, zero, suc, ◌+◌, Bool, true, false, not, ◌&&◌, ◌||◌, ◌==◌, leb, if◌then◌else◌, List, [], ◌∷◌,
  ◌++◌, Option, none, some,
}
use py2neo.Client.Router.{
  Router, RoutingTable, get_routing_table, runners, update, set_broken, store_at, lookup, delete,
}

-- What `acquire` of a pool does: `refused` stands for ConnectionUnavailable and ConnectionBroken, `full` for
-- ConnectionLimit.
pub data Acquired : Type 0 where
  got : ℕ → Acquired
  refused full raises : Acquired

-- With what an operation does goes, for each time that it called `on_broken`, whether the pool was empty after
-- the pruning there.
pub record Pooling (P : Type 0) : Type 0 where
  pub acquire : Bool → P → Acquired × List Bool × P
  pub release : ℕ → P → Bool × List Bool × P
  pub prune : P → Bool × List Bool × P
  pub size : P → ℕ
  pub in_use : P → ℕ
  pub age : P → ℕ

-- What a router answers; a call may break the connection.
pub data Route : Type 0 where
  routes : List ℕ → List ℕ → List ℕ → ℕ → Route
  route_fails route_raises : List Bool → Route

pub record Connector (P : Type 0) : Type 0 where
  pub pools : ℕ → P
  pub entries : List (ℕ × ℕ)
  pub next_pool : ℕ
  pub router : Option Router
  pub initial_routers : List ℕ
  pub refresh_ttl : Option ℕ
  pub openings : List (Option P × List Bool)
  pub replies : List Route
  pub draws : List Bool
  pub waits : List Router

-- With each of `openings` go the calls of `on_broken` while the pool is opened. `raised` is what an operation of a
-- pool raised; `blocked` where the environment has no more to give.
pub data Fault : Type 0 where
  service_unavailable type_error runtime_error raised blocked out_of_fuel : Fault

pub data Result {ℓ} (A : Type ℓ) : Type ℓ where
  ok : A → Result A
  err : Fault → Result A

-- The end of a round of `_acquire_ro` or `_acquire_rw`: a profile and a connection, or none yet.
pub data Tried : Type 0 where
  found : ℕ → ℕ → Tried
  again : Tried

abbrev pub Action : Type 0 → Type 0 → Type 0
Action P A = Connector P → Result A × Connector P

abbrev pub is_routed : Option Router → Bool
is_routed none = false
is_routed (some r) = true

abbrev pub broken_for : ℕ → Option Router → Option Router
broken_for profile none = none
broken_for profile (some r) = some (set_broken profile r)

-- Any entries of a list that pass a test.
abbrev pub filter : {A : Type 0} → (A → Bool) → List A → List A
filter test [] = []
filter test (x ∷ xs) = if test x then x ∷ filter test xs else filter test xs

module _ {P : Type 0} where
  infixl 5 ◌>>=◌
  abbrev pub ◌>>=◌ :
      {A B : Type 0} → Result A × Connector P → (A → Action P B) → Result B × Connector P
  (ok a, s) >>= f = f a s
  (err e, s) >>= f = (err e, s)

  -- del self._pools[profile], where there is a router and the pool is empty
  abbrev pub forget_if : ℕ → Bool → Connector P → Connector P
  forget_if profile empty s = record s {
    entries = if is_routed s.router && empty then delete profile s.entries else s.entries;
  }

  -- _on_broken, once the pool is pruned
  abbrev pub on_broken : ℕ → Bool → Connector P → Connector P
  on_broken profile empty s =
      forget_if profile empty (record s { router = broken_for profile s.router })

  unfoldable pub noticed : ℕ → List Bool → Connector P → Connector P
  noticed profile [] s = s
  noticed profile (e ∷ es) s = noticed profile es (on_broken profile e s)

  abbrev pub put_pool : ℕ → P → Connector P → Connector P
  put_pool i p s = record s { pools = λ j. if j == i then p else s.pools j }

  abbrev pub unless : Bool → Connector P → Result (Unit {0}) × Connector P
  unless true s = (err raised, s)
  unless false s = (ok tt, s)

  module _ (ops : Pooling P) where
    unfoldable pub pool_acquire : ℕ → ℕ → Bool → Connector P → Acquired × Connector P
    unfolding noticed
    pool_acquire profile i can_overfill s =
        let (a, es, p) = ops.acquire can_overfill (s.pools i) in
        (a, noticed profile es (put_pool i p s))

    abbrev pub prune_pool : Option ℕ → ℕ → Action P (Unit {0})
    prune_pool none profile s = (ok tt, s)
    prune_pool (some i) profile s =
        let (fails, es, p) = ops.prune (s.pools i) in
        unless fails (noticed profile es (put_pool i p s)) >>= λ _ t.
        (ok tt, forget_if profile (ops.size p == 0) t)

    unfoldable pub prune : ℕ → Action P (Unit {0})
    unfolding noticed
    prune profile s = prune_pool (lookup profile s.entries) profile s

    unfoldable pub prune_all : List ℕ → Action P (Unit {0})
    unfolding prune
    prune_all [] s = (ok tt, s)
    prune_all (profile ∷ profiles) s = prune profile s >>= λ _ t. prune_all profiles t
