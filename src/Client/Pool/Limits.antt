-- ===== src/Client/Pool/Limits.antt =====
-- How many connections a pool owns.
use py2neo.Client.Pool.Calls.{
  Call, acquires, releases, prunes, closes, resizes, passes, step, run, run_induction,
}
use py2neo.Client.Pool.Releasing.{release-Returns}
use py2neo.Prelude.{
  if_cases, All, true, false, ℕ, refl, zero, suc, [], arith, length-append, ◌≡◌, ◌∙◌, inl, ◌≤◌,
  Option, none, ap, Bool-cases, inr, some, ◌+◌, length, ◌∷◌, List, if◌then◌else◌,
}
use py2neo.Client.Pool.{
  Pool, Result, ok, err, size, sanitize, dial, opens, dial_fails, take_from, attempt, settle,
  acquire_loop, unusable, has_capacity, is_zero, ◌>>=◌, Action, Dial, prune, release_broken,
  close_each, release, close_cx, acquire,
}
use py2neo.Client.Pool.Shrinking.{IsShrinking, sanitize-Shrinks, close_cx-Shrinks}

some_of : Option ℕ → ℕ
some_of none = 0
some_of (some cx) = 1

in_hand : Result (Option ℕ) → ℕ
unfolding some_of
in_hand (ok r) = some_of r
in_hand (err e) = 0

-- The calls that are bound by the limit: `acquire` that may overfill is not, and `close` and the setter set
-- a new one.
abbrev pub IsBound : Call → Type 0
IsBound (acquires true) = ⊥
IsBound closes = ⊥
IsBound (resizes value) = ⊥
IsBound _ = Unit

module _ (on_broken : Pool → Pool) (shrinking : IsShrinking on_broken) (m : ℕ) where
  -- With a connection in hand or not, the pool is within its limit.
  abbrev Within : Pool → ℕ → Type 0
  Within p hand = (p.max_size ≡ some m) × (size p + hand ≤ m)

  dial-Within :
      (ds : List Dial) (p : Pool)
      → Within p 1
      → Within (dial on_broken ds p).1 (in_hand (dial on_broken ds p).0)
  unfolding in_hand
  dial-Within [] p v = (v.0, omega (arith, v.1))
  dial-Within (dial_fails ∷ ds) p v = (v.0, omega (arith, v.1))
  dial-Within (opens multi ∷ ds) p v = v

  hand_le : (r : Result (Option ℕ)) → in_hand r ≤ 1
  unfolding in_hand
  hand_le (ok none) = omega arith
  hand_le (ok (some cx)) = omega arith
  hand_le (err e) = omega arith

  take_from-Within :
      (free : List ℕ) (p : Pool)
      → p.free_list ≡ free
      → Within p 0
      → Within (take_from on_broken free false p).1 (in_hand (take_from on_broken free false p).0)
  take_from-Within (cx ∷ rest) p e v =
      let q = record p { free_list = rest } in
      let s = sanitize-Shrinks on_broken shrinking 0 cx q in
      (s.limit ∙ v.0, omega (arith, s.sizes, v.1, ap length e, hand_le (sanitize on_broken cx q).0))
  take_from-Within [] p e v = elim (Bool-cases (has_capacity p)) [
    | inl room ↦ rw room (dial-Within p.dials p (v.0, ground (arith, v.0, room)))
    | inr full ↦ rw full (unfold in_hand in v)
  ]

  attempt-Within :
      (p : Pool)
      → Within p 0
      → Within (attempt on_broken false p).1 (in_hand (attempt on_broken false p).0)
  unfolding attempt
  attempt-Within p v = elim (Bool-cases (is_zero p.max_size)) [
    | inl zero_size ↦ rw zero_size (unfold in_hand in v)
    | inr sized ↦ rw sized (take_from-Within p.free_list p refl v)
  ]

  settle-Within :
      (again : Action ℕ) (r : Result (Option ℕ) × Pool)
      → ((q : Pool) → Within q 0 → Within (again q).1 0)
      → Within r.1 (in_hand r.0)
      → Within (r >>= settle on_broken again).1 0
  unfolding in_hand
  settle-Within again (ok none, q) ih v = ih q v
  settle-Within again (ok (some cx), q) ih v = elim (Bool-cases (unusable cx q)) [
    | inl spoilt ↦ rw spoilt (ih q (v.0, omega (arith, v.1)))
    | inr sound ↦ rw sound (v.0, omega (arith, v.1, length-append q.in_use_list (cx ∷ [])))
  ]
  settle-Within again (err e, q) ih v = (v.0, omega (arith, v.1))

  acquire_loop-Within :
      (fuel : ℕ) (p : Pool) → Within p 0 → Within (acquire_loop on_broken fuel false p).1 0
  unfolding acquire_loop
  acquire_loop-Within zero p v = v
  acquire_loop-Within (suc fuel) p v =
      settle-Within (acquire_loop on_broken fuel false) (attempt on_broken false p)
        (acquire_loop-Within fuel) (attempt-Within p v)

  -- `P` at both ends of a chain of calls.
  bind-Within :
      {A : Type 0} (r : Result A × Pool) (f : A → Action (Unit {0}))
      → Within r.1 0
      → ((a : A) (q : Pool) → Within q 0 → Within (f a q).1 0)
      → Within (r >>= f).1 0
  bind-Within (ok a, q) f v k = k a q v
  bind-Within (err e, q) f v k = v

  release-Within : (cx : ℕ) (p : Pool) → Within p 0 → Within (release on_broken cx p).1 0
  release-Within cx p v =
      let r = release-Returns on_broken shrinking 0 cx p in
      (r.limit ∙ v.0, omega (arith, v.1, r.sizes))

  release_broken-Within :
      (l : List ℕ) (p : Pool) → Within p 0 → Within (release_broken on_broken l p).1 0
  unfolding release_broken
  release_broken-Within [] p v = v
  release_broken-Within (cx ∷ rest) p v =
      bind-Within (if (p.cxs cx).broken then release on_broken cx p else (ok tt, p))
        (λ _. release_broken on_broken rest)
        (if_cases (λ (r : Result (Unit {0}) × Pool). Within r.1 0) (p.cxs cx).broken
          (release on_broken cx p) (ok tt, p) (λ _. release-Within cx p v) (λ _. v))
        (λ _. release_broken-Within rest)

  close_each-Within : (l : List ℕ) (p : Pool) → Within p 0 → Within (close_each on_broken l p).1 0
  unfolding close_each
  close_each-Within [] p v = v
  close_each-Within (cx ∷ rest) p v =
      let s = close_cx-Shrinks on_broken shrinking 0 cx p in
      bind-Within (close_cx on_broken cx p) (λ _. close_each on_broken rest)
        (s.limit ∙ v.0, omega (arith, v.1, s.sizes)) (λ _. close_each-Within rest)

  prune-Within : (p : Pool) → Within p 0 → Within (prune on_broken p).1 0
  unfolding prune
  prune-Within p v =
      bind-Within (release_broken on_broken p.in_use_list p)
        (λ _ q. close_each on_broken q.free_list (record q { free_list = [] }))
        (release_broken-Within p.in_use_list p v)
        λ _ q w.
          close_each-Within q.free_list (record q { free_list = [] }) (w.0, omega (arith, w.1))

  step-Within : (c : Call) (p : Pool) → IsBound c → Within p 0 → Within (step on_broken c p) 0
  unfolding step acquire
  step-Within (acquires false) p b v =
      acquire_loop-Within (suc (length p.free_list + length p.dials)) p v
  step-Within (acquires true) p b v = absurd b
  step-Within (releases cx) p b v = release-Within cx p v
  step-Within prunes p b v = prune-Within p v
  step-Within closes p b v = absurd b
  step-Within (resizes value) p b v = absurd b
  step-Within (passes seconds) p b v = v

-- However its users interleave their calls of `acquire`, `release` and `prune`, and whichever of them
-- raise, a pool with a maximum size never owns more connections than that. No call of `acquire` asks to
-- overfill the pool, and the owner's callback enlarges no list of the pool.
pub size-run :
    (on_broken : Pool → Pool) (m : ℕ) (cs : List Call) (p : Pool)
    → IsShrinking on_broken
    → All IsBound cs
    → p.max_size ≡ some m
    → size p ≤ m
    → size (run on_broken cs p) ≤ m
size-run on_broken m cs p shrinking bound limit fits =
    let v =
      run_induction on_broken (λ q. Within on_broken shrinking m q 0) IsBound
        (step-Within on_broken shrinking m) cs p bound (limit, omega arith) in
    omega (arith, v.1)
