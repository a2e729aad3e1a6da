-- ===== src/Client/Choosing/Finding.antt =====
-- What a round of `_acquire` finds, where all the pools that it looks at are good.
use py2neo.Prelude.{
  ℕ, ◌==◌, ◌||◌, ◌≡◌, sym, Bool, true, false, Bool-cases, inl, inr, leb, if◌then◌else◌, List, [],
  ◌∷◌, some, All,
}
use py2neo.Client.Choosing.{
  Acquired, got, refused, full, raises, Pooling, Connector, Fault, service_unavailable, Result, ok,
  err, Tried, found, again, Action, ◌>>=◌, filter, pool_acquire,
}
use py2neo.Client.Choosing.Acquiring.{
  pool_named, settled, introduced, insert, sort, read_from, try_readers, write_to, refuse_if,
  try_writers, is_old, any_old, first_draw, other_draws, read_round, write_round, load,
}

module _ {P : Type 0} (ops : Pooling P) (Good : ℕ → Type 0) where
  abbrev pub Fine : ℕ × ℕ → Type 0
  Fine (profile, i) = Good profile

  -- What is found is good.
  abbrev pub Finds : Result Tried × Connector P → Type 0
  Finds c = (profile cx : ℕ) (s : Connector P) → c ≡ (ok (found profile cx), s) → Good profile

  bind-Finds :
      {A : Type 0} (c : Result A × Connector P) (f : A → Action P Tried)
      → ((a : A) (s : Connector P) → Finds (f a s))
      → Finds (c >>= f)
  bind-Finds (ok a, s) f h = h a s
  bind-Finds (err e, s) f h = λ profile cx t eq. absurd cc

  found-Finds : (profile cx : ℕ) (s : Connector P) → Good profile → Finds (ok (found profile cx), s)
  found-Finds profile cx s h p c t e =
      let same_profile : profile ≡ p = cc in rw (sym same_profile) h

  again-Finds : (s : Connector P) → Finds (ok again, s)
  again-Finds s p cx t e = absurd cc

  pub err-Finds : (f : Fault) (s : Connector P) → Finds (err f, s)
  err-Finds f s p cx t e = absurd cc

  read_from-Finds :
      (profile i : ℕ) (next : Action P Tried) (c : Acquired × Connector P)
      → Good profile
      → ((s : Connector P) → Finds (next s))
      → Finds (read_from ops profile i next c)
  read_from-Finds profile i next (got cx, s) h k = found-Finds profile cx s h
  read_from-Finds profile i next (refused, s) h k = bind-Finds _ _ (λ a. k)
  read_from-Finds profile i next (full, s) h k = bind-Finds _ _ (λ a. k)
  read_from-Finds profile i next (raises, s) h k = λ p cx t eq. absurd cc

  try_readers-Finds :
      (es : List (ℕ × ℕ)) (s : Connector P) → All Fine es → Finds (try_readers ops es s)
  unfolding try_readers
  try_readers-Finds [] s h = λ p cx t eq. absurd cc
  try_readers-Finds ((profile, i) ∷ rest) s h =
      read_from-Finds profile i (try_readers ops rest) (pool_acquire ops profile i false s) h.0
        (λ u. try_readers-Finds rest u h.1)

  refuse_if-Finds : (b : Bool) (profile : ℕ) (s : Connector P) → Finds (refuse_if ops b profile s)
  refuse_if-Finds true profile s = bind-Finds _ _ (λ a u. err-Finds service_unavailable u)
  refuse_if-Finds false profile s = λ p cx t eq. absurd cc

  write_to-Finds :
      (profile i : ℕ) (c : Acquired × Connector P) → Good profile → Finds (write_to ops profile i c)
  write_to-Finds profile i (got cx, s) h = found-Finds profile cx s h
  write_to-Finds profile i (refused, s) h = bind-Finds _ _ (λ a u. again-Finds u)
  write_to-Finds profile i (full, s) h = refuse_if-Finds (ops.size (s.pools i) == 0) profile s
  write_to-Finds profile i (raises, s) h = λ p cx t eq. absurd cc

  try_writers-Finds :
      (es : List (ℕ × ℕ)) (s : Connector P) → All Fine es → Finds (try_writers ops es s)
  unfolding try_writers
  try_writers-Finds [] s h = λ p cx t eq. absurd cc
  try_writers-Finds ((profile, i) ∷ rest) s h =
      write_to-Finds profile i (pool_acquire ops profile i false s) h.0

  settled-All : (es : List (ℕ × ℕ)) (s : Connector P) → All Fine es → All Fine (settled ops es s).0
  settled-All [] s h = tt
  settled-All (e ∷ es) s h =
      let t = if is_old ops s e then s else record s { draws = other_draws s.draws } in
      kept (settled ops es t).0 (is_old ops s e || first_draw s.draws) (settled-All es t h.1)
    where
      kept : (fs : List (ℕ × ℕ)) (b : Bool) → All Fine fs → All Fine (if b then e ∷ fs else fs)
      kept fs true k = (h.0, k)
      kept fs false k = k

  introduced-All :
      (es : List (ℕ × ℕ)) (s : Connector P) → All Fine es → All Fine (introduced ops es s).0
  introduced-All es s h = elim (Bool-cases (any_old ops s es)) [
    | inl e ↦ rw e (settled-All es s h)
    | inr e ↦ rw e h
  ]

  insert-All :
      (s : Connector P) (e : ℕ × ℕ) (es : List (ℕ × ℕ))
      → Fine e
      → All Fine es
      → All Fine (insert ops s e es)
  insert-All s e [] h k = (h, tt)
  insert-All s e (f ∷ fs) h k = elim (Bool-cases (leb (load ops s e) (load ops s f))) [
    | inl b ↦ rw b (h, k)
    | inr b ↦ rw b (k.0, insert-All s e fs h k.1)
  ]

  sort-All : (s : Connector P) (es : List (ℕ × ℕ)) → All Fine es → All Fine (sort ops s es)
  sort-All s [] h = tt
  sort-All s (e ∷ es) h = insert-All s e (sort ops s es) h.0 (sort-All s es h.1)

  -- A round for reading, and one for writing.
  pub read_round-Finds :
      (profiles : List ℕ) (s : Connector P)
      → All Fine (filter (pool_named profiles) s.entries)
      → Finds (read_round ops (some profiles) s)
  read_round-Finds profiles s h =
      let es = filter (pool_named profiles) s.entries in
      let t = (introduced ops es s).1 in
      try_readers-Finds (sort ops t (introduced ops es s).0) t
        (sort-All t (introduced ops es s).0 (introduced-All es s h))

  pub write_round-Finds :
      (profiles : List ℕ) (s : Connector P)
      → All Fine (filter (pool_named profiles) s.entries)
      → Finds (write_round ops (some profiles) s)
  write_round-Finds profiles s h =
      let es = filter (pool_named profiles) s.entries in
      try_writers-Finds (sort ops s es) s (sort-All s es h)
