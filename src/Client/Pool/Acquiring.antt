-- ===== src/Client/Pool/Acquiring.antt =====
-- What `acquire` returns: it always ends, with a connection that can be used and is the caller's alone.
use py2neo.Prelude.{
  ℕ, refl, zero, suc, [], some, ap, Option, length, inr, Bool-cases, Bool, ◌+◌, inl, false, ◌<◌,
  none, ◌||◌, ◌≢◌, List, arith, ◌∷◌, ◌≤◌, ◌≡◌, ◌⊎◌,
}
use py2neo.Client.Pool.{
  Pool, Fault, out_of_fuel, Result, ok, err, sanitize, dial, opens, dial_fails, take_from, attempt,
  settle, acquire_loop, acquire, unusable, has_capacity, is_zero, ◌>>=◌, Action, Dial,
}
use py2neo.Client.Pool.Ownership.{count, IsTame, OwnedOnce, acquire-once, count-append}
use py2neo.Client.Pool.Shrinking.{work, IsShrinking, sanitize-Shrinks}

-- The connection that was got is in use and neither broken nor closed.
abbrev Got : Result ℕ × Pool → Type 0
Got (ok cx, p) = (unusable cx p ≡ false) × (1 ≤ count cx p.in_use_list)
Got (err e, p) = Unit

module _ (on_broken : Pool → Pool) where
  settle-Got :
      (again : Action ℕ) (r : Result (Option ℕ) × Pool)
      → ((q : Pool) → Got (again q))
      → Got (r >>= settle on_broken again)
  settle-Got again (ok none, q) ih = ih q
  settle-Got again (ok (some cx), q) ih = elim (Bool-cases (unusable cx q)) [
    | inl spoilt ↦ rw spoilt (ih q)
    | inr sound ↦ rw sound (sound, ground (arith, count-append cx q.in_use_list (cx ∷ [])))
  ]
  settle-Got again (err e, q) ih = tt

  acquire_loop-Got :
      (fuel : ℕ) (can_overfill : Bool) (p : Pool) → Got (acquire_loop on_broken fuel can_overfill p)
  unfolding acquire_loop
  acquire_loop-Got zero can_overfill p = tt
  acquire_loop-Got (suc fuel) can_overfill p =
      settle-Got (acquire_loop on_broken fuel can_overfill) (attempt on_broken can_overfill p)
        (acquire_loop-Got fuel can_overfill)

  sanitize-ends : (cx : ℕ) (p : Pool) → (sanitize on_broken cx p).0 ≢ err out_of_fuel
  unfolding sanitize
  sanitize-ends cx p = ground arith

  -- A round uses up a free connection or an attempt to connect, unless it ends the loop.
  abbrev Moves : Pool → Result (Option ℕ) × Pool → Type 0
  Moves p (ok r, q) = work q < work p
  Moves p (err e, q) = e ≢ out_of_fuel

  module _ (shrinking : IsShrinking on_broken) where
    after_sanitize :
        (n : ℕ) (p : Pool) (r : Result (Option ℕ) × Pool)
        → r.0 ≢ err out_of_fuel
        → work r.1 ≤ n
        → n < work p
        → Moves p r
    after_sanitize n p (ok r, q) h w l = omega arith
    after_sanitize n p (err e, q) h w l = λ x. h (ap err x)

    dial-Moves : (ds : List Dial) (p : Pool) → p.dials ≡ ds → Moves p (dial on_broken ds p)
    dial-Moves [] p e = λ x. cc
    dial-Moves (dial_fails ∷ ds) p e = λ x. cc
    dial-Moves (opens multi ∷ ds) p e = omega (arith, ap length e)

    take_from-Moves :
        (free : List ℕ) (can_overfill : Bool) (p : Pool)
        → p.free_list ≡ free
        → Moves p (take_from on_broken free can_overfill p)
    take_from-Moves (cx ∷ rest) can_overfill p e =
        after_sanitize (length rest + length p.dials) p
          (sanitize on_broken cx (record p { free_list = rest }))
          (sanitize-ends cx (record p { free_list = rest }))
          (let s = sanitize-Shrinks on_broken shrinking 0 cx (record p { free_list = rest }) in
            omega (arith, s.frees, s.attempts))
          (omega (arith, ap length e))
    take_from-Moves [] can_overfill p e = elim (Bool-cases (has_capacity p || can_overfill)) [
      | inl room ↦ rw room (dial-Moves p.dials p refl)
      | inr full ↦ rw full (λ x. cc)
    ]

    attempt-Moves : (can_overfill : Bool) (p : Pool) → Moves p (attempt on_broken can_overfill p)
    unfolding attempt
    attempt-Moves can_overfill p = elim (Bool-cases (is_zero p.max_size)) [
      | inl zero_size ↦ rw zero_size (λ x. cc)
      | inr sized ↦ rw sized (take_from-Moves p.free_list can_overfill p refl)
    ]

    settle-ends :
        (again : Action ℕ) (n : ℕ) (p : Pool) (r : Result (Option ℕ) × Pool)
        → ((q : Pool) → work q < n → (again q).0 ≢ err out_of_fuel)
        → Moves p r
        → work p ≤ n
        → (r >>= settle on_broken again).0 ≢ err out_of_fuel
    settle-ends again n p (ok none, q) ih m l = ih q (omega arith)
    settle-ends again n p (ok (some cx), q) ih m l = ground (arith, ih q)
    settle-ends again n p (err e, q) ih m l = λ x. m (cc)

    acquire_loop-ends :
        (fuel : ℕ) (can_overfill : Bool) (p : Pool)
        → work p < fuel
        → (acquire_loop on_broken fuel can_overfill p).0 ≢ err out_of_fuel
    unfolding acquire_loop
    acquire_loop-ends zero can_overfill p h = absurd (omega arith)
    acquire_loop-ends (suc fuel) can_overfill p h =
        settle-ends (acquire_loop on_broken fuel can_overfill) fuel p
          (attempt on_broken can_overfill p) (acquire_loop-ends fuel can_overfill)
          (attempt-Moves can_overfill p) (omega arith)

-- `acquire` ends: it returns a connection, or raises; each round of its loop uses up a free connection or
-- an attempt to connect. The owner's callback makes no list of the pool longer.
pub acquire-ends :
    (on_broken : Pool → Pool) (can_overfill : Bool) (p : Pool)
    → IsShrinking on_broken
    → ((cx : ℕ) × ((acquire on_broken can_overfill p).0 ≡ ok cx))
      ⊎ ((e : Fault) × ((acquire on_broken can_overfill p).0 ≡ err e) × (e ≢ out_of_fuel))
unfolding acquire
acquire-ends on_broken can_overfill p shrinking =
    outcome (acquire_loop on_broken (suc (work p)) can_overfill p).0
      (acquire_loop-ends on_broken shrinking (suc (work p)) can_overfill p (omega arith))
  where
    outcome :
        (r : Result ℕ)
        → r ≢ err out_of_fuel
        → ((cx : ℕ) × (r ≡ ok cx)) ⊎ ((e : Fault) × (r ≡ err e) × (e ≢ out_of_fuel))
    outcome (ok cx) h = inl (cx, refl)
    outcome (err e) h = inr (e, refl, λ x. h (ap err x))

Got-ok :
    (r : Result ℕ × Pool) (cx : ℕ)
    → r.0 ≡ ok cx
    → Got r
    → (unusable cx r.1 ≡ false) × (1 ≤ count cx r.1.in_use_list)
Got-ok (ok c, p) cx e g = let q : c ≡ cx = cc in rw (← q) g
Got-ok (err f, p) cx e g = cc

-- The connection that `acquire` returns is neither broken nor closed, and it is the caller's alone: it
-- stands once in the list of connections in use, and neither among the free ones nor in quarantine.
pub acquire-eq-ok :
    (on_broken : Pool → Pool) (can_overfill : Bool) (p : Pool) (cx : ℕ)
    → IsTame on_broken
    → OwnedOnce p
    → (acquire on_broken can_overfill p).0 ≡ ok cx
    → (unusable cx (acquire on_broken can_overfill p).1 ≡ false)
      × (count cx (acquire on_broken can_overfill p).1.in_use_list ≡ 1)
      × (count cx (acquire on_broken can_overfill p).1.free_list ≡ 0)
      × (count cx (acquire on_broken can_overfill p).1.quarantine ≡ 0)
acquire-eq-ok on_broken can_overfill p cx tame owned e =
    let r = acquire on_broken can_overfill p in
    let (sound, used) =
      Got-ok r cx e (unfold acquire in acquire_loop-Got on_broken (suc (work p)) can_overfill p) in
    let once = acquire-once on_broken tame cx can_overfill p (ground (arith, owned cx)) in
    (sound, omega (arith, used, once.0), omega (arith, used, once.0), omega (arith, used, once.0))
