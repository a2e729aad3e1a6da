-- ===== src/Client/Pool/Releasing.antt =====
-- What `release` leaves of a connection.
use py2neo.Client.Pool.{
  Pool, Result, ok, err, size, sanitize, has_capacity, ◌>>=◌, keep, give_back, release, close_cx,
  set_tag, mem, remove,
}
use py2neo.Prelude.{
  if_cases, ℕ, refl, [], true, false, Bool-cases, some, inr, List, ◌≤◌, none, inl, ◌∙◌, length,
  length-append, arith, ◌+◌, ◌≡◌, ◌∷◌, Option, sym, ◌||◌, if◌then◌else◌,
}
use py2neo.Client.Pool.Ownership.{count-remove_le, count, count-remove, OwnedOnce}
use mathlib.Core.Bool.{false≢true}
use py2neo.Client.Pool.Shrinking.{
  IsShrinking, Shrinks, sanitize-Shrinks, close_cx-Shrinks, Shrinks-refl,
}

pub mem-count : (x : ℕ) (xs : List ℕ) → mem x xs ≡ true → 1 ≤ count x xs
mem-count x [] h = cc
mem-count x (y ∷ ys) h = ground (arith, mem-count x ys)

pub not-mem-count : (x : ℕ) (xs : List ℕ) → count x xs ≡ 0 → mem x xs ≡ false
not-mem-count x [] h = refl
not-mem-count x (y ∷ ys) h = ground (arith, not-mem-count x ys)

mem-count0 : (x : ℕ) (xs : List ℕ) → mem x xs ≡ false → count x xs ≡ 0
mem-count0 x [] h = refl
mem-count0 x (y ∷ ys) h = ground (arith, mem-count0 x ys)

pub length-remove : (x : ℕ) (xs : List ℕ) → mem x xs ≡ true → length (remove x xs) + 1 ≡ length xs
length-remove x [] h = cc
length-remove x (y ∷ ys) h = ground (arith, length-remove x ys)

-- The pool without the connection in use, its tag taken off.
abbrev pub taken : ℕ → Pool → Pool
taken cx p = set_tag cx none (record p { in_use_list = remove cx p.in_use_list })

-- The branches of `release`.
release_cases {ℓ} :
    (on_broken : Pool → Pool) (Q : Result (Unit {0}) × Pool → Type ℓ) (cx : ℕ) (p : Pool)
    → ((mem cx p.free_list || mem cx p.quarantine) ≡ true → Q (ok tt, p))
    → (mem cx p.in_use_list ≡ true → Q (give_back on_broken cx (taken cx p)))
    → (mem cx p.in_use_list ≡ false → Q (ok tt, p))
    → Q (release on_broken cx p)
unfolding release
release_cases on_broken Q cx p elsewhere given unknown =
    if_cases Q (mem cx p.free_list || mem cx p.quarantine) (ok tt, p)
      (if mem cx p.in_use_list then give_back on_broken cx (taken cx p) else (ok tt, p)) elsewhere
      λ _.
        if_cases Q (mem cx p.in_use_list) (give_back on_broken cx (taken cx p)) (ok tt, p) given
          unknown

module _ (on_broken : Pool → Pool) (shrinking : IsShrinking on_broken) (x : ℕ) where
  -- What giving a connection back may do: `room` more are owned at most.
  pub record Returns (room : ℕ) (p q : Pool) : Type 0 where
    pub sizes : size q ≤ size p + room
    pub limit : q.max_size ≡ p.max_size
    pub users : count x q.in_use_list ≤ count x p.in_use_list

  Shrinks-Returns : (p q : Pool) → Shrinks x p q → Returns 1 p q
  Shrinks-Returns p q s = record {
    sizes = omega (arith, s.sizes);
    limit = s.limit;
    users = s.users;
  }

  Returns-trans : (p q r : Pool) → Shrinks x p q → Returns 1 q r → Returns 1 p r
  Returns-trans p q r s t = record {
    sizes = omega (arith, s.sizes, t.sizes);
    limit = t.limit ∙ s.limit;
    users = omega (arith, s.users, t.users);
  }

  keep-Returns : (kept : Option ℕ) (p : Pool) → Returns 1 p (keep on_broken kept p).1
  keep-Returns none p = Shrinks-Returns p p (Shrinks-refl x p)
  keep-Returns (some cx) p = elim (Bool-cases (has_capacity p)) [
    | inl room ↦ rw room (record {
      sizes = omega (arith, length-append p.free_list (cx ∷ []));
      limit = refl;
      users = omega arith;
    })
    | inr full ↦ rw full (
        Shrinks-Returns p (close_cx on_broken cx p).1 (close_cx-Shrinks on_broken shrinking x cx p))
  ]

  kept-Returns :
      (p : Pool) (r : Result (Option ℕ) × Pool)
      → Shrinks x p r.1
      → Returns 1 p (r >>= keep on_broken).1
  kept-Returns p (ok kept, q) s =
      Returns-trans p q (keep on_broken kept q).1 s (keep-Returns kept q)
  kept-Returns p (err e, q) s = Shrinks-Returns p q s

  give_back-Returns : (cx : ℕ) (p : Pool) → Returns 1 p (give_back on_broken cx p).1
  give_back-Returns cx p = elim (Bool-cases (has_capacity p)) [
    | inl room ↦
        rw room
          (kept-Returns p (sanitize on_broken cx p) (sanitize-Shrinks on_broken shrinking x cx p))
    | inr full ↦ rw full (
        Shrinks-Returns p (close_cx on_broken cx p).1 (close_cx-Shrinks on_broken shrinking x cx p))
  ]

  pub release-Returns : (cx : ℕ) (p : Pool) → Returns 0 p (release on_broken cx p).1
  release-Returns cx p =
      release_cases on_broken (λ r. Returns 0 p r.1) cx p (λ _. same) given (λ _. same)
    where
      same : Returns 0 p p
      same = record { sizes = omega arith; limit = refl; users = omega arith }

      given : mem cx p.in_use_list ≡ true → Returns 0 p (give_back on_broken cx (taken cx p)).1
      given h =
          let r = give_back-Returns cx (taken cx p) in
          record {
            sizes = omega (arith, r.sizes, length-remove cx p.in_use_list h);
            limit = r.limit;
            users = omega (arith, r.users, count-remove_le x cx p.in_use_list);
          }

module _ (on_broken : Pool → Pool) (shrinking : IsShrinking on_broken) (cx : ℕ) (p : Pool) where
  release-users : OwnedOnce p → count cx (release on_broken cx p).1.in_use_list ≡ 0
  release-users owned =
      release_cases on_broken (λ r. count cx r.1.in_use_list ≡ 0) cx p elsewhere given
        (mem-count0 cx p.in_use_list)
    where
      elsewhere : (mem cx p.free_list || mem cx p.quarantine) ≡ true → count cx p.in_use_list ≡ 0
      elsewhere h = ground (arith, owned cx, mem-count cx p.free_list, mem-count cx p.quarantine)

      given :
          mem cx p.in_use_list ≡ true
          → count cx (give_back on_broken cx (taken cx p)).1.in_use_list ≡ 0
      given h =
          let r = give_back-Returns on_broken shrinking cx cx (taken cx p) in
          ground (arith, r.users, owned cx, count-remove cx cx p.in_use_list h)

  -- A connection that no list names is left alone.
  pub release_unused : count cx p.in_use_list ≡ 0 → release on_broken cx p ≡ (ok tt, p)
  release_unused h =
      release_cases on_broken (λ r. r ≡ (ok tt, p)) cx p (λ _. refl)
        (λ k. absurd (false≢true (sym (not-mem-count cx p.in_use_list h) ∙ k))) (λ _. refl)

-- After a release the connection is no longer in use, and a second release, by whoever still holds it,
-- returns at once and changes nothing, whether the first one returned or raised. The owner's callback
-- puts no connection to use.
release_twice :
    (on_broken : Pool → Pool) (cx : ℕ) (p : Pool)
    → IsShrinking on_broken
    → OwnedOnce p
    → (count cx (release on_broken cx p).1.in_use_list ≡ 0)
      × (release on_broken cx (release on_broken cx p).1 ≡ (ok tt, (release on_broken cx p).1))
release_twice on_broken cx p shrinking owned =
    let e = release-users on_broken shrinking cx p owned in
    (e, release_unused on_broken shrinking cx (release on_broken cx p).1 e)
