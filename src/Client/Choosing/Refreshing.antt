-- ===== src/Client/Choosing/Refreshing.antt =====
-- client/__init__.py: `_add_pools`, `refresh_routing_table` and `_get_profiles` of `Connector`. The loop of
-- `_get_profiles` has no limit in the source: it runs on fuel, a round for each look at the table.
use py2neo.Prelude.{
  ℕ, ◌+◌, Bool, true, false, if◌then◌else◌, List, [], ◌∷◌, ◌++◌, Option, none, some,
}
use py2neo.Client.Router.{Router, get_routing_table, update, store_at, lookup}
use py2neo.Client.Choosing.{
  Acquired, got, refused, full, raises, Pooling, Route, routes, route_fails, route_raises,
  Connector, service_unavailable, type_error, runtime_error, raised, blocked, Result, ok, err,
  Action, ◌>>=◌, noticed, put_pool, pool_acquire, prune_all,
}

abbrev pub with_router : Option Router → (Router → Router) → Option Router
with_router none f = none
with_router (some r) f = some (f r)

-- The table's own lock: acquire(False).
abbrev pub lock : ℕ → Router → Router
lock t r = record r { store = store_at t (record (r.store t) { updating = true }) r.store }

abbrev pub unlock : ℕ → Router → Router
unlock t r = record r { store = store_at t (record (r.store t) { updating = false }) r.store }

abbrev pub is_locked : ℕ → Option Router → Bool
is_locked t none = false
is_locked t (some r) = (r.store t).updating

abbrev pub ttl_of : Option ℕ → ℕ → ℕ
ttl_of none ttl = ttl
ttl_of (some t) ttl = t

module _ {P : Type 0} where
  -- self._pools[profile] = pool
  abbrev pub enter : ℕ → P → Connector P → Connector P
  enter profile p s =
      put_pool s.next_pool p (record s {
        entries = s.entries ++ (profile, s.next_pool) ∷ [];
        next_pool = s.next_pool + 1;
      })

  -- ConnectionPool.open raises where the next of `openings` is no pool; its seed connections may break.
  abbrev pub open_pool : List (Option P × List Bool) → ℕ → Action P (Unit {0})
  open_pool [] profile s = (err blocked, s)
  open_pool ((none, es) ∷ rest) profile s =
      (err raised, noticed profile es (record s { openings = rest }))
  open_pool ((some p, es) ∷ rest) profile s =
      (ok tt, enter profile p (noticed profile es (record s { openings = rest })))

  abbrev pub add_pool : Option ℕ → ℕ → Action P (Unit {0})
  add_pool (some i) profile s = (ok tt, s)
  add_pool none profile s = open_pool s.openings profile s

  -- _add_pools
  unfoldable pub add_pools : List ℕ → Action P (Unit {0})
  unfolding noticed
  add_pools [] s = (ok tt, s)
  add_pools (profile ∷ profiles) s =
      add_pool (lookup profile s.entries) profile s >>= λ _ t. add_pools profiles t

  -- `finally: rt.set_not_updating()`, which raises where the lock is free.
  abbrev pub unlocked : {A : Type 0} → ℕ → Result A × Connector P → Result A × Connector P
  unlocked t (r, s) = (
    if is_locked t s.router then r else err runtime_error,
    record s { router = with_router s.router (unlock t) },
  )

  abbrev pub updated :
      Option Router → ℕ → List ℕ → List ℕ → List ℕ → ℕ → Connector P → List ℕ × Connector P
  updated none g routers readers writers ttl s = ([], s)
  updated (some r) g routers readers writers ttl s =
      let (old, r') = update g routers readers writers ttl r in (old, record s { router = some r' })

  -- The table of the graph is there, or is made.
  abbrev pub tabled : ℕ → Connector P → Connector P
  tabled g s = record s { router = with_router s.router (λ r. (get_routing_table g r).1) }

  module _ (ops : Pooling P) where
    -- `finally: cx.release()`
    unfoldable pub released :
        {A : Type 0} → ℕ → ℕ → ℕ → Result A × Connector P → Result A × Connector P
    unfolding noticed
    released profile i cx (r, s) =
        let (fails, es, p) = ops.release cx (s.pools i) in
        (if fails then err raised else r, noticed profile es (put_pool i p s))

    -- The pools of old profiles are pruned, and the loop is left.
    abbrev pub finish : ℕ → List ℕ × Connector P → Result Bool × Connector P
    finish g (old, s) = prune_all ops old s >>= λ _ t. (ok false, tabled g t)

    -- What is done with the answer of a router; the flag says that the loop goes on.
    abbrev pub answered : ℕ → ℕ → Route → Action P Bool
    answered g profile (routes routers readers writers ttl) s = add_pools routers s >>= λ _ s1.
        add_pools readers s1 >>= λ _ s2. add_pools writers s2 >>= λ _ s3.
        finish g (updated s3.router g routers readers writers (ttl_of s3.refresh_ttl ttl) s3)
    answered g profile (route_fails es) s = (ok true, noticed profile es s)
    answered g profile (route_raises es) s = (err raised, noticed profile es s)

    abbrev pub ask_route : List Route → ℕ → ℕ → Action P Bool
    ask_route [] g profile s = (err blocked, s)
    ask_route (reply ∷ rest) g profile s = answered g profile reply (record s { replies = rest })

    abbrev pub route_over : ℕ → ℕ → ℕ → Acquired × Connector P → Result Bool × Connector P
    route_over g profile i (got cx, s) = released profile i cx (ask_route s.replies g profile s)
    route_over g profile i (refused, s) = (ok true, s)
    route_over g profile i (full, s) = (ok true, s)
    route_over g profile i (raises, s) = (err raised, s)

    abbrev pub ask_router : Option ℕ → ℕ → ℕ → Action P Bool
    ask_router none g profile s = (ok true, s)
    ask_router (some i) g profile s = route_over g profile i (pool_acquire ops profile i true s)

    abbrev pub then_next : Action P (Unit {0}) → Bool → Action P (Unit {0})
    then_next next true s = next s
    then_next next false s = (ok tt, s)

    -- The loop over the known routers.
    unfoldable pub ask_routers : ℕ → List ℕ → Action P (Unit {0})
    unfolding add_pools released
    ask_routers g [] s = (err service_unavailable, s)
    ask_routers g (profile ∷ profiles) s =
        ask_router (lookup profile s.entries) g profile s >>= then_next (ask_routers g profiles)

    abbrev pub refresh_in : Option Router → ℕ → Action P (Unit {0})
    refresh_in none g s = (err type_error, s)
    refresh_in (some r) g s =
        let (t, r1) = get_routing_table g r in
        unlocked t
          (ask_routers g (r1.routers ++ s.initial_routers) (record s { router = some (lock t r1) }))

    -- refresh_routing_table
    unfoldable pub refresh_routing_table : ℕ → Action P (Unit {0})
    unfolding ask_routers
    refresh_routing_table g s = refresh_in s.router g s
