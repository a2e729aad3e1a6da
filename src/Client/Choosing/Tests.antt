-- ===== src/Client/Choosing/Tests.antt =====
-- A connector over pools that are numbers, and the theorems about it.
use py2neo.Prelude.{zero, suc, ℕ, ◌≡◌, refl, Bool, true, false, List, [], ◌∷◌, none, some, ◌≢◌}
use py2neo.Client.Router.{runners, new_table, set_broken, update, Router, get_routing_table}
use py2neo.Client.Choosing.{
  pool_acquire, prune_all, Acquired, got, refused, Pooling, routes, Connector, runtime_error,
  service_unavailable, ok, err,
}
use py2neo.Client.Choosing.Refreshing.{refresh_routing_table, is_locked}
use py2neo.Client.Choosing.Fresh.{Fresh, get_profiles-Fresh}
use py2neo.Client.Choosing.Acquiring.{get_profiles, acquire}
use py2neo.Client.Choosing.Locking.{fault_of, refresh_routing_table-unlocks}
use py2neo.Client.Choosing.Serving.{Served, acquire-serves}

-- A pool is the number of its connections, all in use. An empty pool cannot open one.
abbrev dial : ℕ → Acquired × List Bool × ℕ
dial zero = (refused, true ∷ [], 0)
dial (suc n) = (got (suc n), [], suc (suc n))

abbrev counting : Pooling ℕ
counting = record {
  acquire = λ b n. dial n;
  release = λ cx n. (false, [], n);
  prune = λ n. (false, [], n);
  size = λ n. n;
  in_use = λ n. n;
  age = λ n. 100;
}

abbrev no_tables : Router
no_tables = record {
  routers = 1 ∷ [];
  routing_tables = [];
  store = λ t. record { ro_runners = []; rw_runners = []; expiry_time = 0; updating = false };
  next_table = 0;
  now = 0;
}

-- A router that answers with itself, two readers, one of which cannot be reached, and a writer.
abbrev cluster : Connector ℕ
cluster = record {
  pools = λ i. 3;
  entries = (1, 0) ∷ [];
  next_pool = 1;
  router = some no_tables;
  initial_routers = [];
  refresh_ttl = none;
  openings = (some 0, []) ∷ (some 7, []) ∷ (some 5, []) ∷ [];
  replies = routes (1 ∷ []) (2 ∷ 4 ∷ []) (3 ∷ []) 10 ∷ [];
  draws = [];
  waits = [];
}

refresh_routing_table-unlocks_example :
    (fault_of (refresh_routing_table counting 0 cluster).0 ≢ some runtime_error)
    × (is_locked
          (get_routing_table 0 no_tables).0
          (refresh_routing_table counting 0 cluster).1.router
        ≡ false)
refresh_routing_table-unlocks_example =
    refresh_routing_table-unlocks counting 0 no_tables cluster refl

-- The least used reader cannot be reached, so that the other one serves.
reader_serves : (acquire counting 1 2 true 0 cluster).0 ≡ ok (4, 7)
unfolding acquire refresh_routing_table get_routing_table update runners new_table set_broken
    prune_all
reader_serves = refl

writer_serves : (acquire counting 1 2 false 0 cluster).0 ≡ ok (3, 5)
unfolding acquire refresh_routing_table get_routing_table update runners new_table set_broken
    prune_all
writer_serves = refl

-- With no router that answers, the service is unavailable.
unavailable :
    (acquire counting 1 2 false 0 (record cluster { entries = [] })).0 ≡ err service_unavailable
unfolding acquire refresh_routing_table get_routing_table runners new_table
unavailable = refl

acquire_reader :
    acquire counting 1 2 true 0 cluster ≡ (ok (4, 7), (acquire counting 1 2 true 0 cluster).1)
unfolding acquire refresh_routing_table get_routing_table update runners new_table set_broken
    prune_all
acquire_reader = refl

acquire-serves_example :
    Served counting 2 true 0 4 7 cluster (acquire counting 1 2 true 0 cluster).1
acquire-serves_example =
    acquire-serves counting 1 2 true 0 cluster (acquire counting 1 2 true 0 cluster).1 4 7
      acquire_reader

abbrev cluster_given : Connector ℕ
cluster_given = (get_profiles counting 2 0 true cluster).1

cluster_profiles : get_profiles counting 2 0 true cluster ≡ (ok (2 ∷ 4 ∷ [], 3 ∷ []), cluster_given)
unfolding get_profiles refresh_routing_table get_routing_table update runners new_table set_broken
    prune_all pool_acquire
cluster_profiles = refl

get_profiles-Fresh_example :
    Fresh (get_routing_table 0 no_tables).0 true (2 ∷ 4 ∷ []) (3 ∷ []) cluster_given
get_profiles-Fresh_example =
    get_profiles-Fresh counting 2 0 true no_tables cluster cluster_given (2 ∷ 4 ∷ []) (3 ∷ []) refl
      cluster_profiles
