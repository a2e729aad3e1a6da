-- ===== src/Client/Choosing/Locking.antt =====
-- The lock of a routing table during a refresh.
use py2neo.Prelude.{
  ℕ, ◌≡◌, refl, ◌∙◌, ap, Bool, true, false, if◌then◌else◌, List, [], ◌∷◌, ◌++◌, Option, none, some,
  ◌≢◌,
}
use py2neo.Client.Router.{Router, get_routing_table, update, lookup}
use py2neo.Client.Choosing.{
  Acquired, got, refused, full, raises, Pooling, Route, routes, route_fails, route_raises,
  Connector, Fault, runtime_error, raised, Result, ok, err, Action, ◌>>=◌, noticed, on_broken,
  put_pool, pool_acquire, prune, prune_pool, prune_all, unless,
}
use py2neo.Client.Choosing.Refreshing.{
  lock, unlock, with_router, unlocked, is_locked, add_pools, add_pool, open_pool, released, updated,
  answered, finish, ttl_of, ask_route, route_over, ask_router, then_next, ask_routers,
  refresh_routing_table,
}
use py2neo.Client.Choosing.Held.{
  Held, store_at-same, store_at-updating, get_routing_table-lookup, broken_for-Held,
}

abbrev pub fault_of : {A : Type 0} → Result A → Option Fault
fault_of (ok a) = none
fault_of (err e) = some e

module _ {P : Type 0} where
  noticed-Held :
      (t g profile : ℕ) (es : List Bool) (s : Connector P)
      → Held t g s.router
      → Held t g (noticed profile es s).router
  unfolding noticed
  noticed-Held t g profile [] s h = h
  noticed-Held t g profile (e ∷ es) s h =
      noticed-Held t g profile es (on_broken profile e s) (broken_for-Held t g profile s.router h)

  -- The lock stays held, and no RuntimeError is raised.
  abbrev Holds : {A : Type 0} → ℕ → ℕ → Result A × Connector P → Type 0
  Holds t g (r, s) = Held t g s.router × (fault_of r ≢ some runtime_error)

  bind-Holds :
      {A B : Type 0} (t g : ℕ) (c : Result A × Connector P) (f : A → Action P B)
      → Holds t g c
      → ((a : A) (s : Connector P) → Held t g s.router → Holds t g (f a s))
      → Holds t g (c >>= f)
  bind-Holds t g (ok a, s) f h k = k a s h.0
  bind-Holds t g (err e, s) f h k = h

  module _ (ops : Pooling P) (t g : ℕ) where
    unless-Holds : (b : Bool) (s : Connector P) → Held t g s.router → Holds t g (unless b s)
    unless-Holds true s h = (h, λ e. cc)
    unless-Holds false s h = (h, λ e. cc)

    prune-Holds :
        (profile : ℕ) (s : Connector P) → Held t g s.router → Holds t g (prune ops profile s)
    unfolding prune
    prune-Holds profile s h = go (lookup profile s.entries)
      where
        go : (o : Option ℕ) → Holds t g (prune_pool ops o profile s)
        go none = (h, λ e. cc)
        go (some i) =
            let (fails, es, p) = ops.prune (s.pools i) in
            bind-Holds t g _ _
              (unless-Holds fails _ (noticed-Held t g profile es (put_pool i p s) h))
              (λ a s k. (k, λ e. cc))

    prune_all-Holds :
        (profiles : List ℕ) (s : Connector P)
        → Held t g s.router
        → Holds t g (prune_all ops profiles s)
    unfolding prune_all
    prune_all-Holds [] s h = (h, λ e. cc)
    prune_all-Holds (profile ∷ profiles) s h =
        bind-Holds t g _ _ (prune-Holds profile s h) (λ a s k. prune_all-Holds profiles s k)

    add_pool-Holds :
        (o : Option ℕ) (profile : ℕ) (s : Connector P)
        → Held t g s.router
        → Holds t g (add_pool o profile s)
    add_pool-Holds (some i) profile s h = (h, λ e. cc)
    add_pool-Holds none profile s h = go s.openings
      where
        go : (os : List (Option P × List Bool)) → Holds t g (open_pool os profile s)
        go [] = (h, λ e. cc)
        go ((none, es) ∷ rest) =
            (noticed-Held t g profile es (record s { openings = rest }) h, λ e. cc)
        go ((some p, es) ∷ rest) =
            (noticed-Held t g profile es (record s { openings = rest }) h, λ e. cc)

    add_pools-Holds :
        (profiles : List ℕ) (s : Connector P) → Held t g s.router → Holds t g (add_pools profiles s)
    unfolding add_pools
    add_pools-Holds [] s h = (h, λ e. cc)
    add_pools-Holds (profile ∷ profiles) s h =
        bind-Holds t g _ _ (add_pool-Holds (lookup profile s.entries) profile s h)
          (λ a s k. add_pools-Holds profiles s k)

    updated-Held :
        (r : Option Router) (routers readers writers : List ℕ) (ttl : ℕ) (s : Connector P)
        → Held t g r
        → Held t g (updated r g routers readers writers ttl s).1.router
    unfolding update
    updated-Held none routers readers writers ttl s h = absurd h
    updated-Held (some r) routers readers writers ttl s h =
        rw h.0 (h.0, store_at-updating t t _ r.store refl ∙ h.1)

    tabled-Held :
        (r : Option Router) → Held t g r → Held t g (with_router r (λ r. (get_routing_table g r).1))
    unfolding get_routing_table
    tabled-Held none h = h
    tabled-Held (some r) h = rw h.0 h

    finish-Holds : (c : List ℕ × Connector P) → Held t g c.1.router → Holds t g (finish ops g c)
    finish-Holds (old, s) h =
        bind-Holds t g _ _ (prune_all-Holds old s h) (λ a u k. (tabled-Held u.router k, λ e. cc))

    answered-Holds :
        (profile : ℕ) (reply : Route) (s : Connector P)
        → Held t g s.router
        → Holds t g (answered ops g profile reply s)
    answered-Holds profile (routes routers readers writers ttl) s h =
        bind-Holds t g _ _ (add_pools-Holds routers s h) (λ a s k.
          bind-Holds t g _ _ (add_pools-Holds readers s k) (λ a s k.
            bind-Holds t g _ _ (add_pools-Holds writers s k) (λ a s k.
              finish-Holds (updated s.router g routers readers writers (ttl_of s.refresh_ttl ttl) s)
                (updated-Held s.router routers readers writers (ttl_of s.refresh_ttl ttl) s k))))
    answered-Holds profile (route_fails es) s h = (noticed-Held t g profile es s h, λ e. cc)
    answered-Holds profile (route_raises es) s h = (noticed-Held t g profile es s h, λ e. cc)

    ask_route-Holds :
        (replies : List Route) (profile : ℕ) (s : Connector P)
        → Held t g s.router
        → Holds t g (ask_route ops replies g profile s)
    ask_route-Holds [] profile s h = (h, λ e. cc)
    ask_route-Holds (reply ∷ rest) profile s h =
        answered-Holds profile reply (record s { replies = rest }) h

    released-Holds :
        {A : Type 0} (profile i cx : ℕ) (c : Result A × Connector P)
        → Holds t g c
        → Holds t g (released ops profile i cx c)
    unfolding released
    released-Holds profile i cx (r, s) h =
        let (fails, es, p) = ops.release cx (s.pools i) in
        (noticed-Held t g profile es (put_pool i p s) h.0, quiet fails)
      where
        quiet : (b : Bool) → fault_of (if b then err raised else r) ≢ some runtime_error
        quiet true = λ e. cc
        quiet false = h.1

    route_over-Holds :
        (profile i : ℕ) (c : Acquired × Connector P)
        → Held t g c.1.router
        → Holds t g (route_over ops g profile i c)
    route_over-Holds profile i (got cx, s) h =
        released-Holds profile i cx (ask_route ops s.replies g profile s)
          (ask_route-Holds s.replies profile s h)
    route_over-Holds profile i (refused, s) h = (h, λ e. cc)
    route_over-Holds profile i (full, s) h = (h, λ e. cc)
    route_over-Holds profile i (raises, s) h = (h, λ e. cc)

    pool_acquire-Held :
        (profile i : ℕ) (b : Bool) (s : Connector P)
        → Held t g s.router
        → Held t g (pool_acquire ops profile i b s).1.router
    unfolding pool_acquire
    pool_acquire-Held profile i b s h =
        let (a, es, p) = ops.acquire b (s.pools i) in noticed-Held t g profile es (put_pool i p s) h

    ask_router-Holds :
        (o : Option ℕ) (profile : ℕ) (s : Connector P)
        → Held t g s.router
        → Holds t g (ask_router ops o g profile s)
    ask_router-Holds none profile s h = (h, λ e. cc)
    ask_router-Holds (some i) profile s h =
        route_over-Holds profile i (pool_acquire ops profile i true s)
          (pool_acquire-Held profile i true s h)

    then_next-Holds :
        (next : Action P (Unit {0})) (b : Bool) (s : Connector P)
        → ((u : Connector P) → Held t g u.router → Holds t g (next u))
        → Held t g s.router
        → Holds t g (then_next ops next b s)
    then_next-Holds next true s k h = k s h
    then_next-Holds next false s k h = (h, λ e. cc)

    ask_routers-Holds :
        (profiles : List ℕ) (s : Connector P)
        → Held t g s.router
        → Holds t g (ask_routers ops g profiles s)
    unfolding ask_routers
    ask_routers-Holds [] s h = (h, λ e. cc)
    ask_routers-Holds (profile ∷ profiles) s h =
        bind-Holds t g _ _ (ask_router-Holds (lookup profile s.entries) profile s h)
          (λ b u k. then_next-Holds (ask_routers ops g profiles) b u (ask_routers-Holds profiles) k)

    -- The end of a refresh that kept the lock.
    unlocked-free :
        {A : Type 0} (c : Result A × Connector P)
        → Holds t g c
        → (fault_of (unlocked t c).0 ≢ some runtime_error)
          × (is_locked t (unlocked t c).1.router ≡ false)
    unlocked-free (r, s) h = (go s.router h.0, free s.router)
      where
        go :
            (o : Option Router)
            → Held t g o
            → fault_of (if is_locked t o then r else err runtime_error) ≢ some runtime_error
        go none k = absurd k
        go (some q) k = rw k.1 h.1

        free : (o : Option Router) → is_locked t (with_router o (unlock t)) ≡ false
        free none = refl
        free (some q) = ap (λ x. x.updating) (store_at-same t _ q.store)

  -- In a connector with a router, where no other thread takes part, a refresh of a graph's table never raises
  -- RuntimeError over the table's lock, and however it ends, whatever pools, servers and connections do, the
  -- lock of that table is free afterwards.
  pub refresh_routing_table-unlocks :
      (ops : Pooling P) (g : ℕ) (r : Router) (s : Connector P)
      → s.router ≡ some r
      → (fault_of (refresh_routing_table ops g s).0 ≢ some runtime_error)
        × (is_locked (get_routing_table g r).0 (refresh_routing_table ops g s).1.router ≡ false)
  unfolding refresh_routing_table
  refresh_routing_table-unlocks ops g r s e =
      let (t, r1) = get_routing_table g r in
      let start = record s { router = some (lock t r1) } in
      rw e (
        unlocked-free ops t g (ask_routers ops g (r1.routers ++ s.initial_routers) start) (
          ask_routers-Holds ops t g (r1.routers ++ s.initial_routers) start
            (get_routing_table-lookup g r, ap (λ x. x.updating) (store_at-same t _ r1.store))))
