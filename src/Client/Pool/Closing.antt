-- ===== src/Client/Pool/Closing.antt =====
-- What `prune` and `close` leave, and the connections that a failed clean-up leaves in quarantine.
use py2neo.Prelude.{
  ℕ, refl, [], if_cases, ◌∙◌, if◌then◌else◌, ◌≡◌, List, Bool, some, ◌∷◌, length, arith, ◌≤◌, ap,
  All, subst, sym,
}
use py2neo.Client.Pool.{
  Pool, Result, ok, err, ◌>>=◌, Action, release, release_broken, close_each, prune, close, close_cx,
  connection_limit, acquire, acquire_loop, attempt,
}
use py2neo.Client.Pool.Shrinking.{
  IsShrinking, Shrinks, close_cx-Shrinks, Shrinks-refl, Shrinks-trans,
}
use py2neo.Client.Pool.Ownership.{count}
use py2neo.Client.Pool.Calls.{
  Call, acquires, releases, prunes, closes, resizes, passes, step, run, run_induction,
}
use py2neo.Client.Pool.Releasing.{release_unused, release-Returns}

length-zero {ℓ} : {A : Type ℓ} (xs : List A) → length xs ≤ 0 → xs ≡ []
length-zero [] h = refl
length-zero (x ∷ xs) h = absurd (omega arith)

bind-ok :
    {A B : Type 0} (r : Result A × Pool) (f : A → Action B) (b : B)
    → (r >>= f).0 ≡ ok b
    → (a : A) × (r.0 ≡ ok a) × ((r >>= f) ≡ f a r.1)
bind-ok (ok a, p) f b e = (a, refl, refl)
bind-ok (err x, p) f b e = cc

module _ (on_broken : Pool → Pool) (shrinking : IsShrinking on_broken) where
  close_each-Shrinks : (x : ℕ) (l : List ℕ) (p : Pool) → Shrinks x p (close_each on_broken l p).1
  unfolding close_each
  close_each-Shrinks x [] p = Shrinks-refl x p
  close_each-Shrinks x (cx ∷ rest) p =
      go (close_cx on_broken cx p) (close_cx-Shrinks on_broken shrinking x cx p)
        (close_each-Shrinks x rest)
    where
      go :
          (r : Result (Unit {0}) × Pool)
          → Shrinks x p r.1
          → ((q : Pool) → Shrinks x q (close_each on_broken rest q).1)
          → Shrinks x p (r >>= λ _. close_each on_broken rest).1
      go (ok a, q) s ih = Shrinks-trans x p q (close_each on_broken rest q).1 s (ih q)
      go (err e, q) s ih = s

  release_broken-limit :
      (l : List ℕ) (p : Pool) → (release_broken on_broken l p).1.max_size ≡ p.max_size
  unfolding release_broken
  release_broken-limit [] p = refl
  release_broken-limit (cx ∷ rest) p =
      go (if (p.cxs cx).broken then release on_broken cx p else (ok tt, p))
        (if_cases (λ (r : Result (Unit {0}) × Pool). r.1.max_size ≡ p.max_size) (p.cxs cx).broken
          (release on_broken cx p) (ok tt, p)
          (λ _. (release-Returns on_broken shrinking 0 cx p).limit) (λ _. refl))
        (release_broken-limit rest)
    where
      go :
          (r : Result (Unit {0}) × Pool)
          → r.1.max_size ≡ p.max_size
          → ((q : Pool) → (release_broken on_broken rest q).1.max_size ≡ q.max_size)
          → (r >>= λ _. release_broken on_broken rest).1.max_size ≡ p.max_size
      go (ok a, q) s ih = ih q ∙ s
      go (err e, q) s ih = s

  -- A prune that returns leaves no free connection.
  prune-ok :
      (p : Pool) (a : Unit {0})
      → (prune on_broken p).0 ≡ ok a
      → ((prune on_broken p).1.free_list ≡ []) × ((prune on_broken p).1.max_size ≡ p.max_size)
  unfolding prune
  prune-ok p a e =
      let r = release_broken on_broken p.in_use_list p in
      let q = record (r.1) { free_list = [] } in
      let (_, _, f) =
        bind-ok r (λ _ q. close_each on_broken q.free_list (record q { free_list = [] })) a e in
      let s = close_each-Shrinks 0 r.1.free_list q in
      rw f (length-zero _ s.frees, s.limit ∙ release_broken-limit p.in_use_list p)

  acquire_zero :
      (can_overfill : Bool) (p : Pool)
      → p.max_size ≡ some 0
      → acquire on_broken can_overfill p ≡ (err connection_limit, p)
  unfolding acquire acquire_loop attempt
  acquire_zero can_overfill p e = ground arith

  -- The last part of `close`, over what the prune left.
  closed_down :
      (r : Result (Unit {0}) × Pool)
      → ((a : Unit {0}) → r.0 ≡ ok a → (r.1.free_list ≡ []) × (r.1.max_size ≡ some 0))
      → (r >>= λ _ q. close_each on_broken q.in_use_list (record q { in_use_list = [] })).0 ≡ ok tt
      → ((r >>= λ _ q.
            close_each on_broken q.in_use_list (record q { in_use_list = [] })).1.in_use_list
          ≡ [])
        × ((r >>= λ _ q.
              close_each on_broken q.in_use_list (record q { in_use_list = [] })).1.free_list
            ≡ [])
        × ((r >>= λ _ q.
              close_each on_broken q.in_use_list (record q { in_use_list = [] })).1.max_size
            ≡ some 0)
  closed_down (ok a, q) pruned e =
      let (f, m) = pruned a refl in
      let s = close_each-Shrinks 0 q.in_use_list (record q { in_use_list = [] }) in
      (
        length-zero _ (omega (arith, s.sizes, s.frees, ap length f)),
        length-zero _ (omega (arith, s.frees, ap length f)),
        s.limit ∙ m,
      )
  closed_down (err x, q) pruned e = cc

  close_outcome :
      (p : Pool)
      → (close on_broken p).0 ≡ ok tt
      → ((close on_broken p).1.in_use_list ≡ [])
        × ((close on_broken p).1.free_list ≡ [])
        × ((close on_broken p).1.max_size ≡ some 0)
  unfolding close
  close_outcome p =
      closed_down (prune on_broken (record p { max_size = some 0 }))
        (prune-ok (record p { max_size = some 0 }))

-- Any call but one that sets the maximum size.
abbrev pub IsNoResize : Call → Type 0
IsNoResize (resizes value) = ⊥
IsNoResize _ = Unit

-- No connection is owned, and none may be.
abbrev Shut : Pool → Type 0
Shut p = (p.in_use_list ≡ []) × (p.free_list ≡ []) × (p.max_size ≡ some 0)

step-Shut :
    (on_broken : Pool → Pool)
    → IsShrinking on_broken
    → (c : Call) (p : Pool) → IsNoResize c
    → Shut p
    → Shut (step on_broken c p)
unfolding step prune close release_broken close_each
step-Shut on_broken shrinking (acquires o) p t (u, f, m) =
    subst (λ (r : Result ℕ × Pool). Shut r.1) (sym (acquire_zero on_broken shrinking o p m))
      (u, f, m)
step-Shut on_broken shrinking (releases cx) p t (u, f, m) =
    subst (λ (r : Result (Unit {0}) × Pool). Shut r.1)
      (sym (release_unused on_broken shrinking cx p (ap (count cx) u))) (u, f, m)
step-Shut on_broken shrinking prunes p t (u, f, m) = rw (u, f) (refl, refl, m)
step-Shut on_broken shrinking closes p t (u, f, m) = rw (u, f) (refl, refl, refl)
step-Shut on_broken shrinking (resizes value) p t s = absurd t
step-Shut on_broken shrinking (passes seconds) p t s = s

-- Once `close` has returned, and whatever calls follow of which none sets the maximum size, the pool holds no
-- connection, in use or free, and `acquire`, overfilling or not, is refused with `ConnectionLimit` and
-- changes nothing.
pub close-ok :
    (on_broken : Pool → Pool) (p : Pool) (cs : List Call) (can_overfill : Bool)
    → IsShrinking on_broken
    → All IsNoResize cs
    → (close on_broken p).0 ≡ ok tt
    → ((run on_broken cs (close on_broken p).1).in_use_list ≡ [])
      × ((run on_broken cs (close on_broken p).1).free_list ≡ [])
      × (acquire on_broken can_overfill (run on_broken cs (close on_broken p).1)
          ≡ (err connection_limit, run on_broken cs (close on_broken p).1))
close-ok on_broken p cs can_overfill shrinking allowed e =
    let q = run on_broken cs (close on_broken p).1 in
    let shut : Shut q =
      run_induction on_broken Shut IsNoResize (step-Shut on_broken shrinking) cs
        (close on_broken p).1 allowed (close_outcome on_broken shrinking p e) in
    (shut.0, shut.1, acquire_zero on_broken shrinking can_overfill q shut.2)
