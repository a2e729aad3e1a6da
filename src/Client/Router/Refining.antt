-- ===== src/Client/Router/Refining.antt =====
-- A router against what its callers see of it: the runners of each graph, and whether they have expired.
use py2neo.Prelude.{
  ℕ, ◌≡◌, refl, sym, ◌∙◌, ap, ◌==◌, ◌<◌, Bool, true, false, Bool-cases, inl, inr, if◌then◌else◌,
  leb, List, [], ◌∷◌, Option, none, some, All, arith,
}
use py2neo.Client.Router.{
  Router, RoutingTable, lookup, delete, store_at, runners, new_table, table_or_new,
  get_routing_table, invalidate_routing_table, lock_table, unlock_table, set_updating,
  set_not_updating,
}
use py2neo.Client.Router.Tables.{
  WellFormed, RouterCall, gets, invalidates, updating, not_updating, updates, breaks, step,
  step-WellFormed, lookup-append, lookup-delete,
}
use py2neo.Client.Router.Updating.{
  runners_at, runners_of, runners_other, store_same, update-runners_of,
}

-- Readers, writers, and whether they have expired; nothing where the graph is not known.
abbrev pub View : Type 0
View = Option (List ℕ × List ℕ × Bool)

abbrev pub known_or_empty : View → View
known_or_empty none = some ([], [], true)
known_or_empty (some v) = some v

-- What a call makes of the view of the graph `h`.
abbrev pub view_after : RouterCall → ℕ → View → View
view_after (gets g) h v = if g == h then known_or_empty v else v
view_after (invalidates g) h v = if g == h then none else v
view_after (updating g) h v = v
view_after (not_updating g) h v = v
view_after (updates g routers readers writers ttl) h v =
    if g == h then some (readers, writers, ttl == 0) else v
view_after (breaks profile) h v = v

-- Any call but `set_broken`.
abbrev pub IsTableCall : RouterCall → Type 0
IsTableCall (breaks profile) = ⊥
IsTableCall _ = Unit

-- Tables that say the same of the runners.
runners_like :
    (t now : ℕ) (rt : RoutingTable) (tables : ℕ → RoutingTable) (o : Option ℕ)
    → runners now rt ≡ runners now (tables t)
    → runners_at now (store_at t rt tables) o ≡ runners_at now tables o
runners_like t now rt tables none e = refl
runners_like t now rt tables (some u) e = elim (Bool-cases (t == u)) [
  | inl same ↦
      let f : t ≡ u = ground (arith, same) in
      rw same (ap some (e ∙ ap (λ x. runners now (tables x)) f))
  | inr other ↦ rw other refl
]

lock_table-runners :
    (h : ℕ) (o : Option ℕ) (r : Router) → runners_of h (lock_table o r) ≡ runners_of h r
unfolding runners
lock_table-runners h none r = refl
lock_table-runners h (some t) r =
    runners_like t r.now (record (r.store t) { updating = true }) r.store
      (lookup h r.routing_tables) refl

unlock_table-runners :
    (h : ℕ) (o : Option ℕ) (r : Router) → runners_of h (unlock_table o r).1 ≡ runners_of h r
unfolding runners
unlock_table-runners h none r = refl
unlock_table-runners h (some t) r =
    runners_like t r.now (record (r.store t) { updating = false }) r.store
      (lookup h r.routing_tables) refl

now_or_never : (now : ℕ) → leb now now ≡ true
now_or_never now = ground arith

table_or_new-runners :
    (g h : ℕ) (r : Router) (o : Option ℕ)
    → WellFormed r
    → lookup g r.routing_tables ≡ o
    → runners_of h (table_or_new o g r).1
      ≡ (if g == h then known_or_empty (runners_of h r) else runners_of h r)
unfolding runners new_table
table_or_new-runners g h r (some t) v e = elim (Bool-cases (g == h)) [
  | inl same ↦
      let f : g ≡ h = ground (arith, same) in
      let found : lookup h r.routing_tables ≡ some t =
        ap (λ x. lookup x r.routing_tables) (sym f) ∙ e in
      rw (same, found) refl
  | inr other ↦ rw other refl
]
table_or_new-runners g h r none v e = elim (Bool-cases (g == h)) [
  | inl same ↦
      let f : g ≡ h = ground (arith, same) in
      let missing : lookup h r.routing_tables ≡ none =
        ap (λ x. lookup x r.routing_tables) (sym f) ∙ e in
      rw (lookup-append h g r.next_table r.routing_tables e, same, missing)
        (ap (λ x. some (runners r.now x))
            (store_same r.next_table (new_table [] [] none r.now) r.store)
          ∙ ap (λ b. some ([], [], b)) (now_or_never r.now))
  | inr other ↦
      rw (lookup-append h g r.next_table r.routing_tables e, other)
        (runners_other r.next_table r.now (new_table [] [] none r.now) r.store
          (lookup h r.routing_tables)
          (λ u k. λ f. let l : u < r.next_table = v.known h u k in omega (arith, l, f)))
]

delete-runners :
    (g h : ℕ) (r : Router)
    → runners_at r.now r.store (lookup h (delete g r.routing_tables))
      ≡ (if g == h then none else runners_of h r)
delete-runners g h r =
    rw (lookup-delete h g r.routing_tables)
      (elim (Bool-cases (g == h)) [ inl same ↦ rw same refl | inr other ↦ rw other refl ])

step-view :
    (c : RouterCall) (h : ℕ) (r : Router)
    → IsTableCall c
    → WellFormed r
    → runners_of h (step c r) ≡ view_after c h (runners_of h r)
unfolding step get_routing_table invalidate_routing_table set_updating set_not_updating
step-view (gets g) h r a v = table_or_new-runners g h r (lookup g r.routing_tables) v refl
step-view (invalidates g) h r a v = delete-runners g h r
step-view (updating g) h r a v = lock_table-runners h (lookup g r.routing_tables) r
step-view (not_updating g) h r a v = unlock_table-runners h (lookup g r.routing_tables) r
step-view (updates g routers readers writers ttl) h r a v =
    (update-runners_of g h routers readers writers ttl r v).1
step-view (breaks profile) h r a v = absurd a

abbrev pub run : List RouterCall → Router → Router
run [] r = r
run (c ∷ cs) r = run cs (step c r)

abbrev pub view_after_all : List RouterCall → ℕ → View → View
view_after_all [] h v = v
view_after_all (c ∷ cs) h v = view_after_all cs h (view_after c h v)

-- Router.__init__, at a time.
abbrev pub new_router : ℕ → Router
new_router now = record {
  routers = [];
  routing_tables = [];
  store = λ t. new_table [] [] none now;
  next_table = 0;
  now = now;
}

run-view :
    (cs : List RouterCall) (h : ℕ) (r : Router)
    → All IsTableCall cs
    → WellFormed r
    → runners_of h (run cs r) ≡ view_after_all cs h (runners_of h r)
run-view [] h r a v = refl
run-view (c ∷ cs) h r a v =
    run-view cs h (step c r) a.1 (step-WellFormed c r v)
    ∙ ap (view_after_all cs h) (step-view c h r a.0 v)

-- After any calls of a new router of which none is `set_broken`, what it says of the runners of a graph is
-- told from the calls alone. They are, in order, the readers and the writers of the graph's last update,
-- which have expired exactly if its time to live was 0; after an invalidation, the graph is not known; and
-- where it is not known, asking for its table makes it known, with no runners and expired. Calls for
-- another graph, and calls that only take or give back the lock of a table, change nothing of it. The clock
-- stands still from the first call to the last.
pub run-runners_of :
    (cs : List RouterCall) (h now : ℕ)
    → All IsTableCall cs
    → runners_of h (run cs (new_router now)) ≡ view_after_all cs h none
run-runners_of cs h now a =
    run-view cs h (new_router now) a
      (record { known = λ g t e. absurd cc; own = λ g k t e f. absurd cc })
