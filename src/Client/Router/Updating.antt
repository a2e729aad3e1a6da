-- ===== src/Client/Router/Updating.antt =====
-- What an update of the routing information leaves, and which profiles it gives back as dropped.
use py2neo.Prelude.{
  ℕ, refl, zero, suc, ◌≡◌, ◌≢◌, ◌<◌, ◌+◌, List, [], ◌∷◌, ◌++◌, Option, some, none, arith, ◌==◌,
  false, ap, if◌then◌else◌, Bool, ◌&&◌, ◌||◌, not, leb, sym, ◌∙◌, Bool-cases, inl, inr, ◌≤◌,
}
use py2neo.Client.Pool.{mem}
use py2neo.Client.Router.{
  RoutingTable, Router, lookup, update, update_table, new_table, except, in_table, replace, runners,
  store_at, or_now,
}
use py2neo.Client.Router.Tables.{WellFormed, lookup-append}

mem-append : (x : ℕ) (xs ys : List ℕ) → mem x (xs ++ ys) ≡ (mem x xs || mem x ys)
mem-append x [] ys = refl
mem-append x (y ∷ xs) ys = ground (arith, mem-append x xs ys)

mem-except :
    (x : ℕ) (test : ℕ → Bool) (xs : List ℕ) → mem x (except test xs) ≡ (mem x xs && not (test x))
mem-except x test [] = refl
mem-except x test (y ∷ ys) = elim (Bool-cases (y == x)) [
  | inl same ↦
      let e : test y ≡ test x = ap test (ground (arith, same)) in
      ground (arith, mem-except x test ys, same, e)
  | inr other ↦ ground (arith, mem-except x test ys, other)
]

-- The runners of a graph, as the router's callers read them.
abbrev pub runners_at : ℕ → (ℕ → RoutingTable) → Option ℕ → Option (List ℕ × List ℕ × Bool)
runners_at now tables none = none
runners_at now tables (some t) = some (runners now (tables t))

abbrev pub runners_of : ℕ → Router → Option (List ℕ × List ℕ × Bool)
runners_of g r = runners_at r.now r.store (lookup g r.routing_tables)

or_now_later : (t now : ℕ) → now ≤ t → or_now (some t) now ≡ t
or_now_later zero now h = omega arith
or_now_later (suc t) now h = refl

-- A new table that lasts has not expired.
fresh : (now ttl : ℕ) → leb (or_now (some (now + ttl)) now) now ≡ (ttl == 0)
fresh now ttl = rw (or_now_later (now + ttl) now (omega arith)) (ground arith)

pub store_same :
    (t : ℕ) (rt : RoutingTable) (tables : ℕ → RoutingTable) → store_at t rt tables t ≡ rt
store_same t rt tables = ground arith

store_other :
    (t u : ℕ) (rt : RoutingTable) (tables : ℕ → RoutingTable)
    → t ≢ u
    → store_at t rt tables u ≡ tables u
store_other t u rt tables h = ground (arith, h)

pub runners_other :
    (t now : ℕ) (rt : RoutingTable) (tables : ℕ → RoutingTable) (other : Option ℕ)
    → ((u : ℕ) → other ≡ some u → t ≢ u)
    → runners_at now (store_at t rt tables) other ≡ runners_at now tables other
runners_other t now rt tables none h = refl
runners_other t now rt tables (some u) h =
    ap (λ x. some (runners now x)) (store_other t u rt tables (h u refl))

new_runners :
    (g h : ℕ) (new : RoutingTable) (r : Router) (other : Option ℕ)
    → WellFormed r
    → lookup h r.routing_tables ≡ other
    → runners_at r.now
        (store_at r.next_table new r.store)
        (if g == h then some r.next_table else other)
      ≡ (if g == h then some (runners r.now new) else runners_at r.now r.store other)
new_runners g h new r other v k = elim (Bool-cases (g == h)) [
  | inl same ↦ rw same (ap (λ x. some (runners r.now x)) (store_same r.next_table new r.store))
  | inr differs ↦ rw differs (
      runners_other r.next_table r.now new r.store other
        (λ u i d. let l : u < r.next_table = v.known h u (k ∙ i) in omega (arith, l, d)))
]

known_runners :
    (g h t : ℕ) (new : RoutingTable) (r : Router)
    → WellFormed r
    → lookup g r.routing_tables ≡ some t
    → runners_at r.now (store_at t (replace new (r.store t)) r.store) (lookup h r.routing_tables)
      ≡ (if g == h
          then some (runners r.now new)
          else runners_at r.now r.store (lookup h r.routing_tables))
known_runners g h t new r v e = elim (Bool-cases (g == h)) [
  | inl same ↦
      let i : g ≡ h = ground (arith, same) in
      let found : lookup h r.routing_tables ≡ some t =
        ap (λ x. lookup x r.routing_tables) (sym i) ∙ e in
      rw same (
        rw found (
          ap (λ x. some (runners r.now x)) (store_same t (replace new (r.store t)) r.store)
          ∙ (unfold replace runners in refl)))
  | inr differs ↦ rw differs (
      runners_other t r.now (replace new (r.store t)) r.store (lookup h r.routing_tables)
        λ u i d. let j : g ≡ h = v.own g h t e (i ∙ ap some (sym d)) in ground (arith, differs, j))
]

update_table-runners :
    (g h : ℕ) (new : RoutingTable) (old : List ℕ) (r : Router) (found : Option ℕ)
    → WellFormed r
    → lookup g r.routing_tables ≡ found
    → runners_of h (update_table found g new old r).1
      ≡ (if g == h then some (runners r.now new) else runners_of h r)
update_table-runners g h new old r none v e =
    rw (lookup-append h g r.next_table r.routing_tables e)
      (new_runners g h new r (lookup h r.routing_tables) v refl)
update_table-runners g h new old r (some t) v e = known_runners g h t new r v e

update_table-routers :
    (g : ℕ) (new : RoutingTable) (old : List ℕ) (r : Router) (found : Option ℕ)
    → (update_table found g new old r).1.routers ≡ r.routers
update_table-routers g new old r none = refl
update_table-routers g new old r (some t) = refl

-- The generator over the replaced table gives nothing: its runners are those of the new table.
except_own :
    (x : ℕ) (new rt : RoutingTable)
    → mem x
        (except (λ y. in_table y new) ((replace new rt).ro_runners ++ (replace new rt).rw_runners))
      ≡ false
unfolding replace
except_own x new rt = ground (
  arith,
  mem-except x (λ y. in_table y new) (new.ro_runners ++ new.rw_runners),
  mem-append x new.ro_runners new.rw_runners,
)

update_table-mem :
    (g x : ℕ) (new : RoutingTable) (old : List ℕ) (r : Router) (found : Option ℕ)
    → mem x (update_table found g new old r).0 ≡ mem x old
update_table-mem g x new old r none = refl
update_table-mem g x new old r (some t) =
    let rt = replace new (r.store t) in
    ground (
      arith,
      mem-append x old (except (λ y. in_table y new) (rt.ro_runners ++ rt.rw_runners)),
      except_own x new (r.store t),
    )

-- After an update the graph's runners are those of the message, in order, and expired at once only for a
-- time to live of 0; the routers are those of the message, and no other graph's runners have changed.
pub update-runners_of :
    (g h : ℕ) (routers ro_runners rw_runners : List ℕ) (ttl : ℕ) (r : Router)
    → WellFormed r
    → ((update g routers ro_runners rw_runners ttl r).1.routers ≡ routers)
      × (runners_of h (update g routers ro_runners rw_runners ttl r).1
          ≡ (if g == h then some (ro_runners, rw_runners, ttl == 0) else runners_of h r))
unfolding update new_table runners
update-runners_of g h routers ro_runners rw_runners ttl r v =
    let new = new_table ro_runners rw_runners (some (r.now + ttl)) r.now in
    let old = except (λ x. mem x routers) r.routers in
    let r' = record r { routers = routers } in
    (
      update_table-routers g new old r' (lookup g r.routing_tables),
      update_table-runners g h new old r' (lookup g r.routing_tables) v refl
          ∙ ap (λ e. if g == h then some (ro_runners, rw_runners, e) else runners_of h r)
              (fresh r.now ttl),
    )

-- The profiles that an update gives back are the routers that the message no longer names. A server that
-- was a runner and is one no more is not among them, unless it was a router.
pub update-mem :
    (g x : ℕ) (routers ro_runners rw_runners : List ℕ) (ttl : ℕ) (r : Router)
    → mem x (update g routers ro_runners rw_runners ttl r).0
      ≡ (mem x r.routers && not (mem x routers))
unfolding update
update-mem g x routers ro_runners rw_runners ttl r =
    update_table-mem g x (new_table ro_runners rw_runners (some (r.now + ttl)) r.now)
      (except (λ y. mem y routers) r.routers) (record r { routers = routers })
      (lookup g r.routing_tables)
    ∙ mem-except x (λ y. mem y routers) r.routers
