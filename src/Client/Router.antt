-- ===== src/Client/Router.antt =====
-- client/__init__.py: `Router` and `RoutingTable`. A routing table is a shared object, which a caller may
-- hold after the router has forgotten it: the router's dictionary gives its number, and `store` holds
-- the tables. Profiles and graph names are numbers, since they are only compared. A set is a list in which
-- a member may stand more than once.
pub mod Tables
pub mod Updating
pub mod Refining
pub mod Breaking
mod Tests
use py2neo.Prelude.{
  ℕ, zero, suc, ◌+◌, Bool, true, false, not, ◌&&◌, ◌||◌, ◌==◌, leb, if◌then◌else◌, List, [], ◌∷◌,
  ◌++◌, Option, none, some,
}
use py2neo.Client.Pool.{mem, remove}

-- `updating` is the state of the lock.
pub record RoutingTable : Type 0 where
  pub ro_runners : List ℕ
  pub rw_runners : List ℕ
  pub expiry_time : ℕ
  pub updating : Bool

pub record Router : Type 0 where
  pub routers : List ℕ
  pub routing_tables : List (ℕ × ℕ)
  pub store : ℕ → RoutingTable
  pub next_table : ℕ
  pub now : ℕ

-- `expiry_time or monotonic()`
abbrev pub or_now : Option ℕ → ℕ → ℕ
or_now none now = now
or_now (some zero) now = now
or_now (some (suc t)) now = suc t

-- RoutingTable.__init__
unfoldable pub new_table : List ℕ → List ℕ → Option ℕ → ℕ → RoutingTable
new_table ro rw expiry now = record {
  ro_runners = ro;
  rw_runners = rw;
  expiry_time = or_now expiry now;
  updating = false;
}

-- RoutingTable.runners; the flag says that the table has expired
unfoldable pub runners : ℕ → RoutingTable → List ℕ × List ℕ × Bool
runners now rt = (rt.ro_runners, rt.rw_runners, leb rt.expiry_time now)

-- RoutingTable.__contains__
abbrev pub in_table : ℕ → RoutingTable → Bool
in_table profile rt = mem profile rt.ro_runners || mem profile rt.rw_runners

-- RoutingTable.remove
unfoldable pub remove_runner : ℕ → RoutingTable → RoutingTable
remove_runner profile rt = record rt {
  ro_runners = remove profile rt.ro_runners;
  rw_runners = remove profile rt.rw_runners;
}

-- RoutingTable.replace, as it changes the table; the lock stays as it is
unfoldable pub replace : RoutingTable → RoutingTable → RoutingTable
replace new rt = record rt {
  ro_runners = new.ro_runners;
  rw_runners = new.rw_runners;
  expiry_time = new.expiry_time;
}

abbrev pub lookup : ℕ → List (ℕ × ℕ) → Option ℕ
lookup g [] = none
lookup g ((k, t) ∷ ms) = if k == g then some t else lookup g ms

-- The deletion of a key of a dictionary.
abbrev pub delete : ℕ → List (ℕ × ℕ) → List (ℕ × ℕ)
delete g [] = []
delete g ((k, t) ∷ ms) = if k == g then delete g ms else (k, t) ∷ delete g ms

abbrev pub store_at : ℕ → RoutingTable → (ℕ → RoutingTable) → ℕ → RoutingTable
store_at t rt tables u = if t == u then rt else tables u

-- The members of a list that do not pass a test.
abbrev pub except : (ℕ → Bool) → List ℕ → List ℕ
except test [] = []
except test (x ∷ xs) = if test x then except test xs else x ∷ except test xs

-- A new table, entered under a name.
abbrev pub add_table : ℕ → RoutingTable → Router → Router
add_table g rt r = record r {
  routing_tables = r.routing_tables ++ (g, r.next_table) ∷ [];
  store = store_at r.next_table rt r.store;
  next_table = r.next_table + 1;
}

abbrev pub table_or_new : Option ℕ → ℕ → Router → ℕ × Router
table_or_new (some t) g r = (t, r)
table_or_new none g r = (r.next_table, add_table g (new_table [] [] none r.now) r)

unfoldable pub get_routing_table : ℕ → Router → ℕ × Router
get_routing_table g r = table_or_new (lookup g r.routing_tables) g r

unfoldable pub invalidate_routing_table : ℕ → Router → Router
invalidate_routing_table g r = record r { routing_tables = delete g r.routing_tables }

-- The branches of `update`; the generator runs over the table after it was replaced.
abbrev pub update_table : Option ℕ → ℕ → RoutingTable → List ℕ → Router → List ℕ × Router
update_table (some t) g new old r =
    let rt = replace new (r.store t) in
    (
      old ++ except (λ x. in_table x new) (rt.ro_runners ++ rt.rw_runners),
      record r { store = store_at t rt r.store },
    )
update_table none g new old r = (old, add_table g new r)

unfoldable pub update : ℕ → List ℕ → List ℕ → List ℕ → ℕ → Router → List ℕ × Router
unfolding new_table replace
update g routers ro_runners rw_runners ttl r =
    let old = except (λ x. mem x routers) r.routers in
    update_table (lookup g r.routing_tables) g
      (new_table ro_runners rw_runners (some (r.now + ttl)) r.now) old
      (record r { routers = routers })

-- The loop of `set_broken` over the tables that the router knows.
unfoldable pub remove_from : ℕ → List (ℕ × ℕ) → (ℕ → RoutingTable) → ℕ → RoutingTable
unfolding remove_runner
remove_from profile [] tables = tables
remove_from profile ((g, t) ∷ ms) tables =
    remove_from profile ms (store_at t (remove_runner profile (tables t)) tables)

unfoldable pub set_broken : ℕ → Router → Router
unfolding remove_from
set_broken profile r = record r {
  routers = remove profile r.routers;
  store = remove_from profile r.routing_tables r.store;
}

-- acquire(False): the lock is held afterwards, whoever holds it.
abbrev pub lock_table : Option ℕ → Router → Router
lock_table none r = r
lock_table (some t) r = record r {
  store = store_at t (record (r.store t) { updating = true }) r.store;
}

unfoldable pub set_updating : ℕ → Router → Router
set_updating g r = lock_table (lookup g r.routing_tables) r

-- `release` of a lock that nobody holds raises `RuntimeError`; the flag says that it did.
abbrev pub unlock_table : Option ℕ → Router → Bool × Router
unlock_table none r = (false, r)
unlock_table (some t) r = (
  not (r.store t).updating,
  record r { store = store_at t (record (r.store t) { updating = false }) r.store },
)

unfoldable pub set_not_updating : ℕ → Router → Bool × Router
set_not_updating g r = unlock_table (lookup g r.routing_tables) r
