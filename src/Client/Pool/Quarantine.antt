-- ===== src/Client/Pool/Quarantine.antt =====
-- The connections that a clean-up leaves in quarantine.
use py2neo.Client.Pool.{
  reset_cx, first_outcome, pop_outcome, raised, expired, Pool, Result, ok, err, sanitize,
  has_capacity, ◌>>=◌, keep, give_back, release, mem, unusable, size,
}
use py2neo.Prelude.{ℕ, [], true, false, List, ◌∙◌, arith, ◌≡◌, ◌∷◌, Option, ◌++◌, ap, sym, ◌<◌}
use py2neo.Client.Pool.Shrinking.{IsShrinking, sanitize-Shrinks}
use py2neo.Client.Pool.Releasing.{length-remove, taken}

mem-concat : (x : ℕ) (xs : List ℕ) → mem x (xs ++ x ∷ []) ≡ true
mem-concat x [] = ground arith
mem-concat x (y ∷ ys) = ground (arith, mem-concat x ys)

module _ (on_broken : Pool → Pool) (cx : ℕ) where
  reset_raises :
      (p : Pool)
      → ((q : Pool) → (on_broken q).quarantine ≡ q.quarantine)
      → (first_outcome p.outcomes).raises ≡ true
      → ((reset_cx on_broken cx p).0 ≡ err raised)
        × ((reset_cx on_broken cx p).1.quarantine ≡ p.quarantine ++ cx ∷ [])
  unfolding reset_cx
  reset_raises p keeps h =
      ground (arith, keeps (pop_outcome (record p { quarantine = p.quarantine ++ cx ∷ [] })))

  release_quarantined :
      (p : Pool) → mem cx p.quarantine ≡ true → release on_broken cx p ≡ (ok tt, p)
  unfolding release
  release_quarantined p h = ground arith

  sanitize-reset_cx :
      (p : Pool)
      → unusable cx p ≡ false
      → expired cx p ≡ false
      → sanitize on_broken cx p ≡ reset_cx on_broken cx p
  unfolding sanitize
  sanitize-reset_cx p sound young = ground arith

  keep_raised :
      (r : Result (Option ℕ) × Pool) → r.0 ≡ err raised → (r >>= keep on_broken) ≡ (err raised, r.1)
  keep_raised (ok kept, p) e = cc
  keep_raised (err f, p) e = cc

  given_raises :
      (p : Pool)
      → has_capacity p ≡ true
      → unusable cx p ≡ false
      → expired cx p ≡ false
      → (reset_cx on_broken cx p).0 ≡ err raised
      → give_back on_broken cx p ≡ (err raised, (reset_cx on_broken cx p).1)
  given_raises p room sound young e =
      rw room (rw (sanitize-reset_cx p sound young) (keep_raised (reset_cx on_broken cx p) e))

  release_given :
      (p : Pool)
      → mem cx p.free_list ≡ false
      → mem cx p.quarantine ≡ false
      → mem cx p.in_use_list ≡ true
      → release on_broken cx p ≡ give_back on_broken cx (taken cx p)
  unfolding release
  release_given p f q u = rw (f, q, u)

-- When a connection that could be kept is released and its `reset` raises, the exception leaves `release` with
-- the connection in quarantine, and the pool owns fewer connections than before. There it stays: a later
-- `release` returns at once without closing it, and changes nothing. The owner's callback leaves the
-- quarantine alone and enlarges no list of the pool.
pub release_raises :
    (on_broken : Pool → Pool) (cx : ℕ) (p : Pool)
    → ((q : Pool) → (on_broken q).quarantine ≡ q.quarantine)
    → IsShrinking on_broken
    → mem cx p.free_list ≡ false
    → mem cx p.quarantine ≡ false
    → mem cx p.in_use_list ≡ true
    → has_capacity (taken cx p) ≡ true
    → unusable cx p ≡ false
    → expired cx p ≡ false
    → (first_outcome p.outcomes).raises ≡ true
    → ((release on_broken cx p).0 ≡ err raised)
      × ((release on_broken cx p).1.quarantine ≡ p.quarantine ++ cx ∷ [])
      × (size (release on_broken cx p).1 < size p)
      × (release on_broken cx (release on_broken cx p).1 ≡ (ok tt, (release on_broken cx p).1))
release_raises on_broken cx p keeps shrinking f q u room sound young raising =
    let (e, kept) = reset_raises on_broken cx (taken cx p) keeps raising in
    let given =
      release_given on_broken cx p f q u
      ∙ given_raises on_broken cx (taken cx p) room (ground (arith, sound)) (ground (arith, young))
          e in
    let stays = ap (λ (r : Result (Unit {0}) × Pool). r.1.quarantine) given ∙ kept in
    let whole =
      sanitize-reset_cx on_broken cx (taken cx p) (ground (arith, sound)) (ground (arith, young)) in
    let left : (release on_broken cx p).1 ≡ (sanitize on_broken cx (taken cx p)).1 =
      ap (λ (r : Result (Unit {0}) × Pool). r.1) given
      ∙ ap (λ (r : Result (Option ℕ) × Pool). r.1) (sym whole) in
    let smaller = sanitize-Shrinks on_broken shrinking cx cx (taken cx p) in
    let shrunk : size (release on_broken cx p).1 < size p =
      omega (arith, ap size left, smaller.sizes, length-remove cx p.in_use_list u) in
    (
      ap (λ (r : Result (Unit {0}) × Pool). r.0) given,
      stays,
      shrunk,
      release_quarantined on_broken cx (release on_broken cx p).1
          (ap (mem cx) stays ∙ mem-concat cx p.quarantine),
    )
