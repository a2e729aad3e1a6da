-- ===== src/Client/Router/Tests.antt =====
-- A router of a small cluster, and the theorems about routers at it.
use py2neo.Prelude.{refl, ◌≡◌, [], ◌∷◌, some, arith, true, false, List}
use py2neo.Client.Pool.{mem}
use py2neo.Client.Router.{RoutingTable, Router, update, in_table, set_broken}
use py2neo.Client.Router.Tables.{
  WellFormed, RouterCall, gets, invalidates, updating, not_updating, updates,
}
use py2neo.Client.Router.Updating.{runners_of, update-runners_of, update-mem}
use py2neo.Client.Router.Breaking.{set_broken-lookup}
use py2neo.Client.Router.Refining.{run, new_router, run-runners_of}

abbrev table : RoutingTable
table = record { ro_runners = 1 ∷ 2 ∷ []; rw_runners = 3 ∷ []; expiry_time = 90; updating = false }

-- Graph 7 is the only one known, with two readers and a writer.
abbrev cluster : Router
cluster = record {
  routers = 1 ∷ 3 ∷ [];
  routing_tables = (7, 0) ∷ [];
  store = λ t. table;
  next_table = 1;
  now = 50;
}

cluster-WellFormed : WellFormed cluster
cluster-WellFormed = record { known = λ g t h. ground arith; own = λ g h t i j. ground arith }

-- Reader 2 is dropped, and is not given back.
reader_lost : (update 7 (1 ∷ 3 ∷ []) (1 ∷ []) (3 ∷ []) 300 cluster).0 ≡ []
unfolding update
reader_lost = refl

update-runners_of_example :
    ((update 7 (1 ∷ []) (1 ∷ []) (3 ∷ []) 300 cluster).1.routers ≡ 1 ∷ [])
    × (runners_of 7 (update 7 (1 ∷ []) (1 ∷ []) (3 ∷ []) 300 cluster).1
        ≡ some (1 ∷ [], 3 ∷ [], false))
update-runners_of_example =
    update-runners_of 7 7 (1 ∷ []) (1 ∷ []) (3 ∷ []) 300 cluster cluster-WellFormed

update-mem_example : mem 3 (update 7 (1 ∷ []) (1 ∷ []) (1 ∷ []) 300 cluster).0 ≡ true
update-mem_example = update-mem 7 3 (1 ∷ []) (1 ∷ []) (1 ∷ []) 300 cluster

set_broken-lookup_example :
    (in_table 1 ((set_broken 1 cluster).store 0) ≡ false)
    × (mem 1 (set_broken 1 cluster).routers ≡ false)
set_broken-lookup_example =
    set_broken-lookup 1 7 0 cluster refl (omega arith) (omega arith) (omega arith)

abbrev calls : List RouterCall
calls =
    gets 7
    ∷ updating 7
    ∷ updates 7 (1 ∷ []) (1 ∷ 2 ∷ []) (3 ∷ []) 300
    ∷ not_updating 7
    ∷ updates 8 (1 ∷ []) (4 ∷ []) (4 ∷ []) 0
    ∷ invalidates 8
    ∷ gets 7
    ∷ []

run-runners_of_example : runners_of 7 (run calls (new_router 50)) ≡ some (1 ∷ 2 ∷ [], 3 ∷ [], false)
run-runners_of_example = run-runners_of calls 7 50 (tt, (tt, (tt, (tt, (tt, (tt, (tt, tt)))))))
