-- ===== src/Client/Pool/Calls.antt =====
-- Whatever calls are made of a pool, each connection stays in one place.
use py2neo.Prelude.{Option, ◌+◌, All, [], ◌∷◌, List, ℕ, Bool, arith}
use py2neo.Client.Pool.{Pool, acquire, release, prune, close, set_max_size}
use py2neo.Client.Pool.Ownership.{
  IsTame, OwnedOnce, acquire-once, release-Keeps, prune-Keeps, close-Keeps, Keeps-OnceWith,
}

-- The calls that the pool's users make; between two calls time passes.
pub data Call : Type 0 where
  acquires : Bool → Call
  releases : ℕ → Call
  prunes closes : Call
  resizes : Option ℕ → Call
  passes : ℕ → Call

-- The pool after a call, whether it returned or raised.
unfoldable pub step : (Pool → Pool) → Call → Pool → Pool
unfolding acquire release prune close set_max_size
step on_broken (acquires can_overfill) p = (acquire on_broken can_overfill p).1
step on_broken (releases cx) p = (release on_broken cx p).1
step on_broken prunes p = (prune on_broken p).1
step on_broken closes p = (close on_broken p).1
step on_broken (resizes value) p = set_max_size value p
step on_broken (passes seconds) p = record p { now = p.now + seconds }

step-OwnedOnce :
    (on_broken : Pool → Pool) (c : Call) (p : Pool)
    → IsTame on_broken
    → OwnedOnce p
    → OwnedOnce (step on_broken c p)
unfolding step set_max_size
step-OwnedOnce on_broken (acquires o) p t v x = ground (arith, acquire-once on_broken t x o p, v x)
step-OwnedOnce on_broken (releases cx) p t v x =
    Keeps-OnceWith on_broken t x p (release on_broken cx p).1 (release-Keeps on_broken t x cx p)
      (ground (arith, v x))
step-OwnedOnce on_broken prunes p t v x =
    Keeps-OnceWith on_broken t x p (prune on_broken p).1 (prune-Keeps on_broken t x p)
      (ground (arith, v x))
step-OwnedOnce on_broken closes p t v x =
    Keeps-OnceWith on_broken t x p (close on_broken p).1 (close-Keeps on_broken t x p)
      (ground (arith, v x))
step-OwnedOnce on_broken (resizes value) p t v x = v x
step-OwnedOnce on_broken (passes seconds) p t v x = v x

-- Pruning, which is what a connector's callback does, is tame if the callback inside it is.
pub prune-IsTame :
    (on_broken : Pool → Pool) → IsTame on_broken → IsTame (λ p. (prune on_broken p).1)
prune-IsTame on_broken t = record {
  no_more = λ p x. omega (arith, (prune-Keeps on_broken t x p).0);
  no_new = λ p. (prune-Keeps on_broken t 0 p).1;
}

-- A sequence of calls, by any number of users.
pub run : (Pool → Pool) → List Call → Pool → Pool
run on_broken [] p = p
run on_broken (c ∷ cs) p = run on_broken cs (step on_broken c p)

pub run_induction {ℓ} :
    (on_broken : Pool → Pool) (P : Pool → Type ℓ) (Allowed : Call → Type 0)
    → ((c : Call) (p : Pool) → Allowed c → P p → P (step on_broken c p))
    → (cs : List Call) (p : Pool) → All Allowed cs
    → P p
    → P (run on_broken cs p)
unfolding run
run_induction on_broken P Allowed keep [] p a h = h
run_induction on_broken P Allowed keep (c ∷ cs) p a h =
    run_induction on_broken P Allowed keep cs (step on_broken c p) a.1 (keep c p a.0 h)

-- However the users of a pool interleave their calls, and whichever of these raise, no connection is ever
-- in two of the lists of the pool or twice in one, and none that is not yet opened is in any. The owner's
-- callback opens no connection and takes none a second time.
pub run-OwnedOnce :
    (on_broken : Pool → Pool) (cs : List Call) (p : Pool)
    → IsTame on_broken
    → OwnedOnce p
    → OwnedOnce (run on_broken cs p)
run-OwnedOnce on_broken cs p tame owned =
    run_induction on_broken OwnedOnce (λ _. Unit) (λ c q _ v. step-OwnedOnce on_broken c q tame v)
      cs p (all_allowed cs) owned
  where
    all_allowed : (l : List Call) → All (λ _. Unit {0}) l
    all_allowed [] = tt
    all_allowed (c ∷ l) = (tt, all_allowed l)
