-- ===== src/Client/Pool/Shrinking.antt =====
-- Cleaning a connection never makes a pool larger, and never puts a connection to use.
use py2neo.Prelude.{true, ℕ, refl, ◌≤◌, ◌+◌, ◌∷◌, ◌++◌, ◌∙◌, ◌≡◌, arith, length, not, []}
use py2neo.Client.Pool.{
  unusable, Pool, Outcome, size, suffer, close_cx, reset_cx, sanitize, pop_outcome, first_outcome,
  [],
}
use py2neo.Client.Pool.Ownership.{count}

-- The rounds that `acquire` may still make.
abbrev pub work : Pool → ℕ
work p = length p.free_list + length p.dials

-- From `p` to `q` no list that counts has grown; `x` is any connection.
pub record Shrinks (x : ℕ) (p q : Pool) : Type 0 where
  pub sizes : size q ≤ size p
  pub limit : q.max_size ≡ p.max_size
  pub users : count x q.in_use_list ≤ count x p.in_use_list
  pub frees : length q.free_list ≤ length p.free_list
  pub attempts : length q.dials ≤ length p.dials
  pub spoilt : unusable x p ≡ true → unusable x q ≡ true

-- What the owner's callback may do to the pool.
abbrev pub IsShrinking : (Pool → Pool) → Type 0
IsShrinking on_broken = (x : ℕ) (p : Pool) → Shrinks x p (on_broken p)

pub Shrinks-refl : (x : ℕ) (p : Pool) → Shrinks x p p
Shrinks-refl x p = record {
  sizes = omega arith;
  limit = refl;
  users = omega arith;
  frees = omega arith;
  attempts = omega arith;
  spoilt = λ s. s;
}

pub Shrinks-trans : (x : ℕ) (p q r : Pool) → Shrinks x p q → Shrinks x q r → Shrinks x p r
Shrinks-trans x p q r h k = record {
  sizes = omega (arith, h.sizes, k.sizes);
  limit = k.limit ∙ h.limit;
  users = omega (arith, h.users, k.users);
  frees = omega (arith, h.frees, k.frees);
  attempts = omega (arith, h.attempts, k.attempts);
  spoilt = λ s. k.spoilt (h.spoilt s);
}

module _ (on_broken : Pool → Pool) (shrinking : IsShrinking on_broken) (x : ℕ) where
  suffer-Shrinks : (cx : ℕ) (o : Outcome) (p : Pool) → Shrinks x p (suffer on_broken cx o p)
  unfolding suffer
  suffer-Shrinks cx o p = ground (arith, shrinking x (pop_outcome p))

  pub close_cx-Shrinks : (cx : ℕ) (p : Pool) → Shrinks x p (close_cx on_broken cx p).1
  unfolding close_cx
  close_cx-Shrinks cx p = ground (
    arith,
    suffer-Shrinks cx
        (record (first_outcome p.outcomes) { closes = not (first_outcome p.outcomes).breaks }) p,
  )

  reset_cx-Shrinks : (cx : ℕ) (p : Pool) → Shrinks x p (reset_cx on_broken cx p).1
  unfolding reset_cx
  reset_cx-Shrinks cx p = ground (
    arith,
    suffer-Shrinks cx (first_outcome p.outcomes)
        (record p { quarantine = p.quarantine ++ cx ∷ [] }),
  )

  pub sanitize-Shrinks : (cx : ℕ) (p : Pool) → Shrinks x p (sanitize on_broken cx p).1
  unfolding sanitize
  sanitize-Shrinks cx p = ground (arith, close_cx-Shrinks cx p, reset_cx-Shrinks cx p)
