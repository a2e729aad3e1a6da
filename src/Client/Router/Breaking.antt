-- ===== src/Client/Router/Breaking.antt =====
-- What is left of a server that was found broken.
use py2neo.Prelude.{
  ℕ, refl, ◌≡◌, ◌≢◌, ◌≤◌, ◌-◌, ◌+◌, ◌∙◌, subst, inl, inr, Bool-cases, List, [], ◌∷◌, some, arith,
  ◌==◌, false,
}
use py2neo.Client.Pool.{mem, remove}
use py2neo.Client.Pool.Releasing.{not-mem-count}
use py2neo.Client.Pool.Ownership.{count, one}
use py2neo.Client.Router.{
  RoutingTable, Router, lookup, remove_from, remove_runner, set_broken, store_at, in_table,
}

count-remove_self : (x : ℕ) (xs : List ℕ) → count x (remove x xs) ≡ count x xs - 1
count-remove_self x [] = refl
count-remove_self x (y ∷ ys) = ground (arith, count-remove_self x ys)

count-remove_other : (x y : ℕ) (xs : List ℕ) → x ≢ y → count x (remove y xs) ≡ count x xs
count-remove_other x y [] h = refl
count-remove_other x y (z ∷ zs) h = ground (arith, count-remove_other x y zs h)

-- From a table to what is left of it: `profile` stands in it `n` times less, at least, the others as often.
record Drops (profile n : ℕ) (a b : RoutingTable) : Type 0 where
  ro : count profile b.ro_runners ≤ count profile a.ro_runners - n
  rw : count profile b.rw_runners ≤ count profile a.rw_runners - n
  ro_others : (x : ℕ) → x ≢ profile → count x b.ro_runners ≡ count x a.ro_runners
  rw_others : (x : ℕ) → x ≢ profile → count x b.rw_runners ≡ count x a.rw_runners

module _ (profile : ℕ) where
  remove_runner-Drops : (rt : RoutingTable) → Drops profile 1 rt (remove_runner profile rt)
  unfolding remove_runner
  remove_runner-Drops rt = record {
    ro = omega (arith, count-remove_self profile rt.ro_runners);
    rw = omega (arith, count-remove_self profile rt.rw_runners);
    ro_others = λ x h. count-remove_other x profile rt.ro_runners h;
    rw_others = λ x h. count-remove_other x profile rt.rw_runners h;
  }

  Drops-refl : (rt : RoutingTable) → Drops profile 0 rt rt
  Drops-refl rt = record {
    ro = omega arith;
    rw = omega arith;
    ro_others = λ x h. refl;
    rw_others = λ x h. refl;
  }

  Drops-trans :
      (n m : ℕ) (a b c : RoutingTable)
      → Drops profile n a b
      → Drops profile m b c
      → Drops profile (n + m) a c
  Drops-trans n m a b c p q = record {
    ro = omega (arith, p.ro, q.ro);
    rw = omega (arith, p.rw, q.rw);
    ro_others = λ x h. q.ro_others x h ∙ p.ro_others x h;
    rw_others = λ x h. q.rw_others x h ∙ p.rw_others x h;
  }

  -- One turn of the loop, over the table `u`.
  abbrev turn : ℕ → (ℕ → RoutingTable) → ℕ → RoutingTable
  turn u tables = store_at u (remove_runner profile (tables u)) tables

  turn-Drops :
      (u t : ℕ) (tables : ℕ → RoutingTable) → Drops profile (one u t) (tables t) (turn u tables t)
  turn-Drops u t tables = elim (Bool-cases (u == t)) [
    | inl same ↦ rw same (
        let e : u ≡ t = ground arith in
        subst (λ v. Drops profile 1 (tables v) (remove_runner profile (tables u))) e
          (remove_runner-Drops (tables u)))
    | inr other ↦ rw other (Drops-refl (tables t))
  ]

  remove_from-Drops :
      (ms : List (ℕ × ℕ)) (tables : ℕ → RoutingTable) (t : ℕ)
      → Drops profile 0 (tables t) (remove_from profile ms tables t)
  unfolding remove_from
  remove_from-Drops [] tables t = Drops-refl (tables t)
  remove_from-Drops ((g, u) ∷ ms) tables t =
      let d =
        Drops-trans (one u t) 0 (tables t) (turn u tables t)
          (remove_from profile ms (turn u tables) t) (turn-Drops u t tables)
          (remove_from-Drops ms (turn u tables) t) in
      record {
        ro = omega (arith, d.ro);
        rw = omega (arith, d.rw);
        ro_others = d.ro_others;
        rw_others = d.rw_others;
      }

  remove_from-lookup :
      (g : ℕ) (ms : List (ℕ × ℕ)) (tables : ℕ → RoutingTable) (t : ℕ)
      → lookup g ms ≡ some t
      → Drops profile 1 (tables t) (remove_from profile ms tables t)
  unfolding remove_from
  remove_from-lookup g [] tables t e = cc
  remove_from-lookup g ((k, u) ∷ ms) tables t e = elim (Bool-cases (k == g)) [
    | inl same ↦
        let d =
          Drops-trans (one u t) 0 (tables t) (turn u tables t)
            (remove_from profile ms (turn u tables) t) (turn-Drops u t tables)
            (remove_from-Drops ms (turn u tables) t) in
        record {
          ro = ground (arith, d.ro, same, e);
          rw = ground (arith, d.rw, same, e);
          ro_others = d.ro_others;
          rw_others = d.rw_others;
        }
    | inr other ↦
        let found : lookup g ms ≡ some t = ground (arith, other) in
        let d =
          Drops-trans (one u t) 1 (tables t) (turn u tables t)
            (remove_from profile ms (turn u tables) t) (turn-Drops u t tables)
            (remove_from-lookup g ms (turn u tables) t found) in
        record {
          ro = omega (arith, d.ro);
          rw = omega (arith, d.rw);
          ro_others = d.ro_others;
          rw_others = d.rw_others;
        }
  ]

-- After `set_broken` the profile stands neither among the routers nor in the table of any graph, as far as
-- it stood once at most in each list.
pub set_broken-lookup :
    (profile g t : ℕ) (r : Router)
    → lookup g r.routing_tables ≡ some t
    → count profile r.routers ≤ 1
    → count profile (r.store t).ro_runners ≤ 1
    → count profile (r.store t).rw_runners ≤ 1
    → (in_table profile ((set_broken profile r).store t) ≡ false)
      × (mem profile (set_broken profile r).routers ≡ false)
unfolding set_broken
set_broken-lookup profile g t r e a b c =
    let d = remove_from-lookup profile g r.routing_tables r.store t e in
    let left = remove_from profile r.routing_tables r.store t in
    let ro : mem profile left.ro_runners ≡ false =
      not-mem-count profile left.ro_runners (omega (arith, d.ro, b)) in
    let written : mem profile left.rw_runners ≡ false =
      not-mem-count profile left.rw_runners (omega (arith, d.rw, c)) in
    (
      ground (arith, ro, written),
      not-mem-count profile (remove profile r.routers)
          (omega (arith, count-remove_self profile r.routers, a)),
    )

-- `set_broken` takes no other profile off any list: each stands in the tables and among the routers as
-- often as before.
set_broken-others :
    (profile x t : ℕ) (r : Router)
    → x ≢ profile
    → (count x ((set_broken profile r).store t).ro_runners ≡ count x (r.store t).ro_runners)
      × (count x ((set_broken profile r).store t).rw_runners ≡ count x (r.store t).rw_runners)
      × (count x (set_broken profile r).routers ≡ count x r.routers)
unfolding set_broken
set_broken-others profile x t r h =
    let d = remove_from-Drops profile r.routing_tables r.store t in
    (d.ro_others x h, d.rw_others x h, count-remove_other x profile r.routers h)
