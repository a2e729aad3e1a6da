-- ===== src/Client/Router/Tables.antt =====
-- The router's dictionary: every graph has a table of its own.
use py2neo.Prelude.{
  ℕ, refl, ◌≡◌, ◌<◌, ◌+◌, List, [], ◌∷◌, ◌++◌, some, none, arith, ◌==◌, if◌then◌else◌, Option,
}
use py2neo.Client.Pool.{mem}
use py2neo.Client.Router.{
  update, Router, lookup, delete, set_broken, get_routing_table, set_updating, unlock_table,
  lock_table, invalidate_routing_table, update_table, table_or_new, new_table, set_not_updating,
  except,
}

-- A graph's table exists, and is no other graph's.
pub record IsWellFormed (ms : List (ℕ × ℕ)) (next : ℕ) : Type 0 where
  pub known : (g t : ℕ) → lookup g ms ≡ some t → t < next
  pub own : (g h t : ℕ) → lookup g ms ≡ some t → lookup h ms ≡ some t → g ≡ h

abbrev pub WellFormed : Router → Type 0
WellFormed r = IsWellFormed r.routing_tables r.next_table

pub lookup-append :
    (g k t : ℕ) (ms : List (ℕ × ℕ))
    → lookup k ms ≡ none
    → lookup g (ms ++ (k, t) ∷ []) ≡ (if k == g then some t else lookup g ms)
lookup-append g k t [] e = refl
lookup-append g k t ((j, u) ∷ ms) e = ground (arith, lookup-append g k t ms)

pub lookup-delete :
    (g k : ℕ) (ms : List (ℕ × ℕ)) → lookup g (delete k ms) ≡ (if k == g then none else lookup g ms)
lookup-delete g k [] = ground arith
lookup-delete g k ((j, u) ∷ ms) = ground (arith, lookup-delete g k ms)

append-IsWellFormed :
    (g next : ℕ) (ms : List (ℕ × ℕ))
    → lookup g ms ≡ none
    → IsWellFormed ms next
    → IsWellFormed (ms ++ (g, next) ∷ []) (next + 1)
append-IsWellFormed g next ms e v = record {
  known = λ k t h. ground (arith, lookup-append k g next ms e, v.known k t);
  own = λ k j t h i. ground (
    arith,
    lookup-append k g next ms e,
    lookup-append j g next ms e,
    v.known k t,
    v.known j t,
    v.own k j t,
  );
}

delete-IsWellFormed :
    (g next : ℕ) (ms : List (ℕ × ℕ)) → IsWellFormed ms next → IsWellFormed (delete g ms) next
delete-IsWellFormed g next ms v = record {
  known = λ k t h. ground (arith, lookup-delete k g ms, v.known k t);
  own = λ k j t h i. ground (arith, lookup-delete k g ms, lookup-delete j g ms, v.own k j t);
}

-- The calls that a connector makes of its router.
pub data RouterCall : Type 0 where
  gets invalidates updating not_updating : ℕ → RouterCall
  updates : ℕ → List ℕ → List ℕ → List ℕ → ℕ → RouterCall
  breaks : ℕ → RouterCall

-- The router after a call.
unfoldable pub step : RouterCall → Router → Router
step (gets g) r = (get_routing_table g r).1
step (invalidates g) r = invalidate_routing_table g r
step (updating g) r = set_updating g r
step (not_updating g) r = (set_not_updating g r).1
step (updates g routers ro_runners rw_runners ttl) r =
    (update g routers ro_runners rw_runners ttl r).1
step (breaks profile) r = set_broken profile r

get_routing_table-WellFormed :
    (g : ℕ) (r : Router) → WellFormed r → WellFormed (get_routing_table g r).1
unfolding get_routing_table
get_routing_table-WellFormed g r v = go (lookup g r.routing_tables) refl
  where
    go :
        (found : Option ℕ)
        → lookup g r.routing_tables ≡ found
        → WellFormed (table_or_new found g r).1
    go none e = append-IsWellFormed g r.next_table r.routing_tables e v
    go (some t) e = v

update-WellFormed :
    (g : ℕ) (routers ro_runners rw_runners : List ℕ) (ttl : ℕ) (r : Router)
    → WellFormed r
    → WellFormed (update g routers ro_runners rw_runners ttl r).1
unfolding update
update-WellFormed g routers ro_runners rw_runners ttl r v = go (lookup g r.routing_tables) refl
  where
    go :
        (found : Option ℕ)
        → lookup g r.routing_tables ≡ found
        → WellFormed
            (update_table found g
              (new_table ro_runners rw_runners (some (r.now + ttl)) r.now)
              (except (λ x. mem x routers) r.routers)
              (record r { routers = routers })).1
    go none e = append-IsWellFormed g r.next_table r.routing_tables e v
    go (some t) e = v

lock_table-WellFormed :
    (found : Option ℕ) (r : Router) → WellFormed r → WellFormed (lock_table found r)
lock_table-WellFormed none r v = v
lock_table-WellFormed (some t) r v = v

unlock_table-WellFormed :
    (found : Option ℕ) (r : Router) → WellFormed r → WellFormed (unlock_table found r).1
unlock_table-WellFormed none r v = v
unlock_table-WellFormed (some t) r v = v

-- Every call keeps the numbering of the tables in order.
pub step-WellFormed : (c : RouterCall) (r : Router) → WellFormed r → WellFormed (step c r)
unfolding step set_broken set_updating set_not_updating invalidate_routing_table
step-WellFormed (gets g) r v = get_routing_table-WellFormed g r v
step-WellFormed (invalidates g) r v = delete-IsWellFormed g r.next_table r.routing_tables v
step-WellFormed (updating g) r v = lock_table-WellFormed (lookup g r.routing_tables) r v
step-WellFormed (not_updating g) r v = unlock_table-WellFormed (lookup g r.routing_tables) r v
step-WellFormed (updates g routers ro_runners rw_runners ttl) r v =
    update-WellFormed g routers ro_runners rw_runners ttl r v
step-WellFormed (breaks profile) r v = v
