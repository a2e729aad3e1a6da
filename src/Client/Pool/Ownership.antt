-- ===== src/Client/Pool/Ownership.antt =====
-- Who holds a connection: no connection is in two places of the pool, or twice in one.
use py2neo.Prelude.{
  ℕ, [], ◌≤◌, true, not, ◌==◌, ◌++◌, ◌≡◌, ◌+◌, ◌∷◌, arith, if◌then◌else◌, List, some, Option, refl,
  Bool, ap, zero, inl, ◌||◌, none, inr, suc, Bool-cases, ◌∙◌, length, false,
}
use py2neo.Client.Pool.{
  Pool, Outcome, Result, ok, mem, remove, suffer, close_cx, reset_cx, first_outcome, pop_outcome,
  sanitize, attempt, take_from, Dial, acquire_loop, Action, has_capacity, dial, ◌>>=◌, opens,
  settle, err, give_back, prune, keep, close_each, release, release_broken, close, dial_fails,
  set_tag, acquire,
}

abbrev pub one : ℕ → ℕ → ℕ
one y x = if y == x then 1 else 0

abbrev pub count : ℕ → List ℕ → ℕ
count x [] = 0
count x (y ∷ ys) = one y x + count x ys

pub count-append : (x : ℕ) (xs ys : List ℕ) → count x (xs ++ ys) ≡ count x xs + count x ys
count-append x [] ys = omega arith
count-append x (y ∷ xs) ys = omega (arith, count-append x xs ys)

pub count-remove :
    (x y : ℕ) (xs : List ℕ) → mem y xs ≡ true → count x (remove y xs) + one y x ≡ count x xs
count-remove x y [] h = cc
count-remove x y (z ∷ xs) h = ground (arith, count-remove x y xs)

pub count-remove_le : (x y : ℕ) (xs : List ℕ) → count x (remove y xs) ≤ count x xs
count-remove_le x y [] = omega arith
count-remove_le x y (z ∷ xs) = ground (arith, count-remove_le x y xs)

-- How often the pool holds the connection `x`.
abbrev pub held : Pool → ℕ → ℕ
held p x = count x p.in_use_list + count x p.quarantine + count x p.free_list

-- What the owner's callback may do to the pool: it opens no connection and takes none twice.
pub record IsTame (on_broken : Pool → Pool) : Type 0 where
  pub no_more : (p : Pool) (x : ℕ) → held (on_broken p) x ≤ held p x
  pub no_new : (p : Pool) → (on_broken p).next_cx ≡ p.next_cx

-- No connection is held twice, and none before it was opened.
abbrev pub OwnedOnce : Pool → Type 0
OwnedOnce p = (x : ℕ) → (held p x ≤ 1) × (p.next_cx ≤ x → held p x ≡ 0)

-- The connection that a step has taken out of the lists, and hands on.
abbrev owed : Result (Option ℕ) → ℕ → ℕ
owed (ok (some cx)) x = one cx x
owed _ x = 0

module _ (on_broken : Pool → Pool) (tame : IsTame on_broken) (x : ℕ) where
  -- From `p` and `given` in hand, a step to `q`.
  abbrev pub Keeps : Pool → ℕ → Pool → ℕ → Type 0
  Keeps p given q left = (held q x + left ≤ held p x + given) × (q.next_cx ≡ p.next_cx)

  suffer-Keeps : (cx : ℕ) (o : Outcome) (p : Pool) → Keeps p 0 (suffer on_broken cx o p) 0
  unfolding suffer
  suffer-Keeps cx o p = ground (arith, tame.no_more (pop_outcome p) x, tame.no_new (pop_outcome p))

  close_cx-Keeps : (cx : ℕ) (p : Pool) → Keeps p 0 (close_cx on_broken cx p).1 0
  unfolding close_cx
  close_cx-Keeps cx p = ground (
    arith,
    suffer-Keeps cx
        (record (first_outcome p.outcomes) { closes = not (first_outcome p.outcomes).breaks }) p,
  )

  reset_cx-Keeps :
      (cx : ℕ) (p : Pool)
      → Keeps p (one cx x) (reset_cx on_broken cx p).1 (owed (reset_cx on_broken cx p).0 x)
  unfolding reset_cx
  reset_cx-Keeps cx p =
      let o = first_outcome p.outcomes in
      let q = record p { quarantine = p.quarantine ++ cx ∷ [] } in
      ground (
        arith,
        suffer-Keeps cx o q,
        count-append x p.quarantine (cx ∷ []),
        count-remove x cx (suffer on_broken cx o q).quarantine,
      )

  sanitize-Keeps :
      (cx : ℕ) (p : Pool)
      → Keeps p (one cx x) (sanitize on_broken cx p).1 (owed (sanitize on_broken cx p).0 x)
  unfolding sanitize
  sanitize-Keeps cx p = ground (arith, close_cx-Keeps cx p, reset_cx-Keeps cx p)

  -- What is held and handed on is one connection at most, and none of the future.
  abbrev pub OnceWith : Pool → ℕ → Type 0
  OnceWith p left = (held p x + left ≤ 1) × (p.next_cx ≤ x → held p x + left ≡ 0)

  dial-OnceWith :
      (ds : List Dial) (p : Pool)
      → OnceWith p 0
      → OnceWith (dial on_broken ds p).1 (owed (dial on_broken ds p).0 x)
  dial-OnceWith [] p v = v
  dial-OnceWith (dial_fails ∷ ds) p v = v
  dial-OnceWith (opens multi ∷ ds) p v = ground (arith, v)

  take_from-OnceWith :
      (free : List ℕ) (can_overfill : Bool) (p : Pool)
      → p.free_list ≡ free
      → OnceWith p 0
      → OnceWith
          (take_from on_broken free can_overfill p).1
          (owed (take_from on_broken free can_overfill p).0 x)
  take_from-OnceWith (cx ∷ rest) can_overfill p e v =
      ground (arith, sanitize-Keeps cx (record p { free_list = rest }), ap (count x) e)
  take_from-OnceWith [] can_overfill p e v = elim (Bool-cases (has_capacity p || can_overfill)) [
    | inl room ↦ rw room (dial-OnceWith p.dials p v)
    | inr full ↦ rw full v
  ]

  attempt-OnceWith :
      (can_overfill : Bool) (p : Pool)
      → OnceWith p 0
      → OnceWith (attempt on_broken can_overfill p).1 (owed (attempt on_broken can_overfill p).0 x)
  unfolding attempt
  attempt-OnceWith can_overfill p v =
      ground (arith, take_from-OnceWith p.free_list can_overfill p refl v)

  settle-OnceWith :
      (again : Action ℕ) (r : Result (Option ℕ) × Pool)
      → ((q : Pool) → OnceWith q 0 → OnceWith (again q).1 0)
      → OnceWith r.1 (owed r.0 x)
      → OnceWith (r >>= settle on_broken again).1 0
  settle-OnceWith again (ok none, q) ih w = ih q w
  settle-OnceWith again (ok (some cx), q) ih w =
      ground (arith, ih q, count-append x q.in_use_list (cx ∷ []))
  settle-OnceWith again (err f, q) ih w = w

  acquire_loop-OnceWith :
      (fuel : ℕ) (can_overfill : Bool) (p : Pool)
      → OnceWith p 0
      → OnceWith (acquire_loop on_broken fuel can_overfill p).1 0
  unfolding acquire_loop
  acquire_loop-OnceWith zero can_overfill p v = v
  acquire_loop-OnceWith (suc fuel) can_overfill p v =
      settle-OnceWith (acquire_loop on_broken fuel can_overfill) (attempt on_broken can_overfill p)
        (acquire_loop-OnceWith fuel can_overfill) (attempt-OnceWith can_overfill p v)

  keep-Keeps : (kept : Option ℕ) (p : Pool) → Keeps p (owed (ok kept) x) (keep on_broken kept p).1 0
  keep-Keeps none p = (omega arith, refl)
  keep-Keeps (some cx) p = ground (arith, close_cx-Keeps cx p, count-append x p.free_list (cx ∷ []))

  sanitize_keep-Keeps :
      (r : Result (Option ℕ) × Pool) → Keeps r.1 (owed r.0 x) (r >>= keep on_broken).1 0
  sanitize_keep-Keeps (ok kept, p) = keep-Keeps kept p
  sanitize_keep-Keeps (err f, p) = (omega arith, refl)

  give_back-Keeps : (cx : ℕ) (p : Pool) → Keeps p (one cx x) (give_back on_broken cx p).1 0
  give_back-Keeps cx p = ground (
    arith,
    sanitize-Keeps cx p,
    sanitize_keep-Keeps (sanitize on_broken cx p),
    close_cx-Keeps cx p,
  )

  pub release-Keeps : (cx : ℕ) (p : Pool) → Keeps p 0 (release on_broken cx p).1 0
  unfolding release
  release-Keeps cx p = ground (
    arith,
    give_back-Keeps cx (set_tag cx none (record p { in_use_list = remove cx p.in_use_list })),
    count-remove x cx p.in_use_list,
  )

  bind-Keeps :
      {A B : Type 0} (p : Pool) (r : Result A × Pool) (f : A → Action B)
      → Keeps p 0 r.1 0
      → ((a : A) (q : Pool) → Keeps q 0 (f a q).1 0)
      → Keeps p 0 (r >>= f).1 0
  bind-Keeps p (ok a, q) f h k = let (l, n) = k a q in (omega (arith, h.0, l), n ∙ h.1)
  bind-Keeps p (err e, q) f h k = h

  if-Keeps :
      {A : Type 0} (p : Pool) (b : Bool) (r s : Result A × Pool)
      → Keeps p 0 r.1 0
      → Keeps p 0 s.1 0
      → Keeps p 0 (if b then r else s).1 0
  if-Keeps p true r s h k = h
  if-Keeps p false r s h k = k

  release_broken-Keeps : (l : List ℕ) (p : Pool) → Keeps p 0 (release_broken on_broken l p).1 0
  unfolding release_broken
  release_broken-Keeps [] p = (omega arith, refl)
  release_broken-Keeps (cx ∷ rest) p =
      bind-Keeps p (if (p.cxs cx).broken then release on_broken cx p else (ok tt, p))
        (λ _. release_broken on_broken rest)
        (if-Keeps p (p.cxs cx).broken (release on_broken cx p) (ok tt, p) (release-Keeps cx p)
          (omega arith, refl))
        (λ _. release_broken-Keeps rest)

  close_each-Keeps : (l : List ℕ) (p : Pool) → Keeps p 0 (close_each on_broken l p).1 0
  unfolding close_each
  close_each-Keeps [] p = (omega arith, refl)
  close_each-Keeps (cx ∷ rest) p =
      bind-Keeps p (close_cx on_broken cx p) (λ _. close_each on_broken rest) (close_cx-Keeps cx p)
        (λ _. close_each-Keeps rest)

  pub prune-Keeps : (p : Pool) → Keeps p 0 (prune on_broken p).1 0
  unfolding prune
  prune-Keeps p =
      bind-Keeps p (release_broken on_broken p.in_use_list p) _
        (release_broken-Keeps p.in_use_list p)
        λ _ q. ground (arith, close_each-Keeps q.free_list (record q { free_list = [] }))

  pub close-Keeps : (p : Pool) → Keeps p 0 (close on_broken p).1 0
  unfolding close
  close-Keeps p =
      bind-Keeps p (prune on_broken (record p { max_size = some 0 })) _
        (prune-Keeps (record p { max_size = some 0 }))
        λ _ q. ground (arith, close_each-Keeps q.in_use_list (record q { in_use_list = [] }))

  pub Keeps-OnceWith :
      (p q : Pool) → Keeps p 0 q 0 → OnceWith p 0 → (held q x ≤ 1) × (q.next_cx ≤ x → held q x ≡ 0)
  Keeps-OnceWith p q k v = ground (arith, v)

  pub acquire-once :
      (can_overfill : Bool) (p : Pool)
      → OnceWith p 0
      → OnceWith (acquire on_broken can_overfill p).1 0
  unfolding acquire
  acquire-once can_overfill p =
      acquire_loop-OnceWith (suc (length p.free_list + length p.dials)) can_overfill p
