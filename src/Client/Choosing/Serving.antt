-- ===== src/Client/Choosing/Serving.antt =====
-- Which servers connections come from.
use py2neo.Prelude.{
  ℕ, zero, suc, ◌≡◌, refl, Bool, true, false, Bool-cases, inl, inr, List, [], ◌∷◌, some, arith, All,
  ◌⊎◌, ap, ◌∙◌,
}
use py2neo.Client.Pool.{mem}
use py2neo.Client.Choosing.{
  Pooling, Connector, service_unavailable, Result, ok, err, Tried, found, again, Action, ◌>>=◌,
  filter,
}
use py2neo.Client.Choosing.Acquiring.{
  keys, pool_named, get_profiles, read_round, write_round, chosen, round, unless_found, acquire,
}
use py2neo.Client.Choosing.Finding.{Finds, err-Finds, read_round-Finds, write_round-Finds}

-- Rounds of the loop that end without a connection.
pub data Rounds {P : Type 0} (step : Action P Tried) : Connector P → Connector P → Type 0 where
  here : (s : Connector P) → Rounds step s s
  later : (s t u : Connector P) → step s ≡ (ok again, t) → Rounds step t u → Rounds step s u

-- Reading goes to a reader, or without readers to a writer; writing goes to a writer.
abbrev pub MayServe : Bool → ℕ → List ℕ → List ℕ → Type 0
MayServe true profile readers writers =
    (mem profile readers ≡ true) ⊎ ((readers ≡ []) × (mem profile writers ≡ true))
MayServe false profile readers writers = mem profile writers ≡ true

-- The pools of some profiles that the connector knows.
abbrev Known : List ℕ → List ℕ → ℕ → Type 0
Known profiles known p = (mem p profiles ≡ true) × (mem p known ≡ true)

filter-Known :
    (profiles known : List ℕ) (es : List (ℕ × ℕ))
    → All (λ e. mem e.0 known ≡ true) es
    → All (λ e. Known profiles known e.0) (filter (pool_named profiles) es)
filter-Known profiles known [] h = tt
filter-Known profiles known ((p, i) ∷ es) h = elim (Bool-cases (mem p profiles)) [
  | inl b ↦ rw b ((b, h.0), filter-Known profiles known es h.1)
  | inr b ↦ rw b (filter-Known profiles known es h.1)
]

keys-known :
    (before : List ℕ) (es : List (ℕ × ℕ)) (known : List ℕ)
    → ((p : ℕ) → mem p (keys es) ≡ true → mem p known ≡ true)
    → All (λ e. mem e.0 known ≡ true) es
keys-known before [] known h = tt
keys-known before ((p, i) ∷ es) known h =
    (h p (ground arith), keys-known before es known (λ q e. h q (ground (arith, e))))

module _ {P : Type 0} (ops : Pooling P) where
  entries-Known :
      (profiles : List ℕ) (s : Connector P)
      → All (λ e. Known profiles (keys s.entries) e.0) (filter (pool_named profiles) s.entries)
  entries-Known profiles s =
      filter-Known profiles (keys s.entries) s.entries
        (keys-known [] s.entries (keys s.entries) (λ p e. e))

  Serves : Bool → Connector P → List ℕ → List ℕ → ℕ → Type 0
  Serves readonly s readers writers p =
      MayServe readonly p readers writers × (mem p (keys s.entries) ≡ true)

  Finds-map :
      (G H : ℕ → Type 0) (c : Result Tried × Connector P)
      → ((p : ℕ) → G p → H p)
      → Finds ops G c
      → Finds ops H c
  Finds-map G H c f h p cx t e = f p (h p cx t e)

  reads-Known :
      (profiles : List ℕ) (s : Connector P)
      → Finds ops (Known profiles (keys s.entries)) (read_round ops (some profiles) s)
  reads-Known profiles s =
      read_round-Finds ops (Known profiles (keys s.entries)) profiles s (entries-Known profiles s)

  writes-Known :
      (profiles : List ℕ) (s : Connector P)
      → Finds ops (Known profiles (keys s.entries)) (write_round ops (some profiles) s)
  writes-Known profiles s =
      write_round-Finds ops (Known profiles (keys s.entries)) profiles s (entries-Known profiles s)

  chosen-Serves :
      (readonly : Bool) (readers writers : List ℕ) (s : Connector P)
      → Finds ops (Serves readonly s readers writers) (chosen ops readonly (readers, writers) s)
  unfolding Serves
  chosen-Serves true [] [] s = err-Finds ops _ service_unavailable s
  chosen-Serves true [] (w ∷ ws) s =
      Finds-map _ _ _ (λ p h. (inr (refl, h.0), h.1)) (reads-Known (w ∷ ws) s)
  chosen-Serves true (r ∷ rs) ws s =
      Finds-map _ _ _ (λ p h. (inl h.0, h.1)) (reads-Known (r ∷ rs) s)
  chosen-Serves false [] [] s = err-Finds ops _ service_unavailable s
  chosen-Serves false (r ∷ rs) [] s = writes-Known [] s
  chosen-Serves false [] (w ∷ ws) s = writes-Known (w ∷ ws) s
  chosen-Serves false (r ∷ rs) (w ∷ ws) s = writes-Known (w ∷ ws) s

  bind-ok :
      {A B : Type 0} (c : Result A × Connector P) (f : A → Action P B) (b : B) (t : Connector P)
      → (c >>= f) ≡ (ok b, t)
      → (a : A) × (s : Connector P) × (c ≡ (ok a, s)) × (f a s ≡ (ok b, t))
  bind-ok (ok a, s) f b t e = (a, s, refl, e)
  bind-ok (err x, s) f b t e = absurd cc

  abbrev pub Served : ℕ → Bool → ℕ → ℕ → ℕ → Connector P → Connector P → Type 0
  Served fuel readonly g profile cx s s' =
      (s0 s1 : Connector P) × (readers writers : List ℕ) × Rounds (round ops fuel readonly g) s s0
      × (get_profiles ops fuel g readonly s0 ≡ (ok (readers, writers), s1))
      × (chosen ops readonly (readers, writers) s1 ≡ (ok (found profile cx), s'))
      × MayServe readonly profile readers writers
      × (mem profile (keys s1.entries) ≡ true)

  round-Served :
      (fuel : ℕ) (readonly : Bool) (g profile cx : ℕ) (s t : Connector P)
      → round ops fuel readonly g s ≡ (ok (found profile cx), t)
      → Served fuel readonly g profile cx s t
  unfolding round Serves
  round-Served fuel readonly g profile cx s t e =
      let ((readers, writers), s1, profiles, e') =
        bind-ok (get_profiles ops fuel g readonly s) (chosen ops readonly) (found profile cx) t e in
      let (serves, known) = chosen-Serves readonly readers writers s1 profile cx t e' in
      (s, s1, readers, writers, here s, profiles, e', serves, known)

  unless_found-Served :
      (fuel : ℕ) (readonly : Bool) (g : ℕ) (next : Action P (ℕ × ℕ)) (tried : Tried)
      (s t s' : Connector P) (profile cx : ℕ)
      → round ops fuel readonly g s ≡ (ok tried, t)
      → (next t ≡ (ok (profile, cx), s') → Served fuel readonly g profile cx t s')
      → unless_found ops next tried t ≡ (ok (profile, cx), s')
      → Served fuel readonly g profile cx s s'
  unless_found-Served fuel readonly g next (found p c) s t s' profile cx e ih f =
      let same_profile : p ≡ profile = cc in
      let same_cx : c ≡ cx = cc in
      let same_end : t ≡ s' = cc in
      round-Served fuel readonly g profile cx s s' (
        e
        ∙ ap (λ z. (ok (found z c), t)) same_profile
        ∙ ap (λ z. (ok (found profile z), t)) same_cx
        ∙ ap (λ z. (ok (found profile cx), z)) same_end)
  unless_found-Served fuel readonly g next again s t s' profile cx e ih f =
      let (s0, s1, readers, writers, more, profiles, finds, serves, known) = ih f in
      (s0, s1, readers, writers, later s t s0 e more, profiles, finds, serves, known)

  -- If `_acquire` gives a connection, then after rounds that found none comes a last round, in which `_get_profiles`
  -- gives readers and writers, the choice among the pools of these gives that server and that connection and
  -- leaves the connector as `_acquire` does, and they allow the server: a reader, or without readers a writer,
  -- for reading, a writer for writing. The connector has a pool for the server then. That holds whatever pools,
  -- servers and random numbers do.
  pub acquire-serves :
      (rounds fuel : ℕ) (readonly : Bool) (g : ℕ) (s s' : Connector P) (profile cx : ℕ)
      → acquire ops rounds fuel readonly g s ≡ (ok (profile, cx), s')
      → Served fuel readonly g profile cx s s'
  unfolding acquire
  acquire-serves zero fuel readonly g s s' profile cx e = absurd cc
  acquire-serves (suc rounds) fuel readonly g s s' profile cx e =
      let (tried, t, tries, e') = bind-ok (round ops fuel readonly g s) _ (profile, cx) s' e in
      unless_found-Served fuel readonly g (acquire ops rounds fuel readonly g) tried s t s' profile
        cx tries (acquire-serves rounds fuel readonly g t s' profile cx) e'
