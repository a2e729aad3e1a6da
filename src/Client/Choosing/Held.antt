-- ===== src/Client/Choosing/Held.antt =====
-- The number and the lock of a graph's routing table.
use py2neo.Prelude.{
  ℕ, ◌==◌, ◌≡◌, refl, ◌∙◌, ap, true, Bool-cases, inl, inr, List, [], ◌∷◌, ◌++◌, Option, none, some,
  arith,
}
use py2neo.Client.Router.{
  Router, RoutingTable, table_or_new, get_routing_table, set_broken, remove_from, remove_runner,
  store_at, lookup,
}
use py2neo.Client.Choosing.{broken_for}

-- The table of the graph has this number, and its lock is held.
abbrev pub Held : ℕ → ℕ → Option Router → Type 0
Held t g none = ⊥
Held t g (some r) = (lookup g r.routing_tables ≡ some t) × ((r.store t).updating ≡ true)

pub store_at-updating :
    (t u : ℕ) (rt : RoutingTable) (tables : ℕ → RoutingTable)
    → rt.updating ≡ (tables u).updating
    → (store_at u rt tables t).updating ≡ (tables t).updating
store_at-updating t u rt tables e = elim (Bool-cases (u == t)) [
  | inl same_table ↦ rw (same_table, e) (ap (λ x. (tables x).updating) (ground (arith, same_table)))
  | inr other ↦ rw other refl
]

remove_from-updating :
    (profile t : ℕ) (ms : List (ℕ × ℕ)) (tables : ℕ → RoutingTable)
    → (remove_from profile ms tables t).updating ≡ (tables t).updating
unfolding remove_from
remove_from-updating profile t [] tables = refl
remove_from-updating profile t ((g, u) ∷ ms) tables =
    remove_from-updating profile t ms (store_at u (remove_runner profile (tables u)) tables)
    ∙ store_at-updating t u (remove_runner profile (tables u)) tables refl

pub broken_for-Held :
    (t g profile : ℕ) (r : Option Router) → Held t g r → Held t g (broken_for profile r)
unfolding set_broken
broken_for-Held t g profile none h = h
broken_for-Held t g profile (some r) h =
    (h.0, remove_from-updating profile t r.routing_tables r.store ∙ h.1)

same_table : (t : ℕ) → (t == t) ≡ true
same_table t = ground arith

pub store_at-same :
    (t : ℕ) (rt : RoutingTable) (tables : ℕ → RoutingTable) → store_at t rt tables t ≡ rt
store_at-same t rt tables = rw (same_table t) refl

lookup-snoc :
    (g t : ℕ) (ms : List (ℕ × ℕ)) → lookup g ms ≡ none → lookup g (ms ++ (g, t) ∷ []) ≡ some t
lookup-snoc g t [] e = rw (same_table g) refl
lookup-snoc g t ((k, u) ∷ ms) e = elim (Bool-cases (k == g)) [
  | inl h ↦ let no : some u ≡ none = rw h at e in absurd cc
  | inr h ↦ rw h (lookup-snoc g t ms (rw h at e))
]

pub get_routing_table-lookup :
    (g : ℕ) (r : Router)
    → lookup g (get_routing_table g r).1.routing_tables ≡ some (get_routing_table g r).0
unfolding get_routing_table
get_routing_table-lookup g r = go (lookup g r.routing_tables) refl
  where
    go :
        (o : Option ℕ)
        → lookup g r.routing_tables ≡ o
        → lookup g (table_or_new o g r).1.routing_tables ≡ some (table_or_new o g r).0
    go (some t) e = e
    go none e = lookup-snoc g r.next_table r.routing_tables e
