-- ===== src/Client/Choosing/Fresh.antt =====
-- How old the profiles are that `_get_profiles` gives.
use py2neo.Prelude.{
  ℕ, zero, suc, ◌≡◌, refl, sym, ◌∙◌, ap, Bool, true, false, Bool-cases, inl, inr, if◌then◌else◌,
  List, Option, none, some, ◌⊎◌,
}
use py2neo.Client.Router.{Router, get_routing_table, runners}
use py2neo.Client.Choosing.{Pooling, Connector, Result, ok, err, Action, ◌>>=◌}
use py2neo.Client.Choosing.Refreshing.{refresh_routing_table}
use py2neo.Client.Choosing.Acquiring.{
  nonempty, look, wait_for, on_look, profiles_loop, get_profiles,
}

-- What the table says now: it has not expired, or its lock is held and the asked list is not empty.
abbrev pub Fresh : {P : Type 0} → ℕ → Bool → List ℕ → List ℕ → Connector P → Type 0
Fresh t readonly readers writers s =
    (r : Router) × (expired : Bool) × (s.router ≡ some r)
    × (runners r.now (r.store t) ≡ (readers, writers, expired))
    × ((expired ≡ false)
        ⊎ (((r.store t).updating ≡ true)
            × ((if readonly then nonempty readers else nonempty writers) ≡ true)))

look-some :
    (t : ℕ) (o : Option Router) (readers writers : List ℕ) (expired updating : Bool)
    → look t o ≡ ((readers, writers, expired), updating)
    → (expired ≡ false) ⊎ (updating ≡ true)
    → (r : Router) × (o ≡ some r)
      × (runners r.now (r.store t) ≡ (readers, writers, expired))
      × ((r.store t).updating ≡ updating)
look-some t none readers writers expired updating e h = absurd (elim h [
  | inl f ↦ let g : true ≡ expired = ap (λ x. x.0.2) e in let b : true ≡ false = g ∙ f in cc
  | inr f ↦ let g : false ≡ updating = ap (λ x. x.1) e in let b : false ≡ true = g ∙ f in cc
])
look-some t (some r) readers writers expired updating e h =
    (r, refl, ap (λ x. x.0) e, ap (λ x. x.1) e)

module _ {P : Type 0} (ops : Pooling P) (t g : ℕ) (readonly : Bool) where
  -- What gives fresh profiles.
  abbrev Gives : Result (List ℕ × List ℕ) × Connector P → Type 0
  Gives c =
      (readers writers : List ℕ) (s : Connector P)
      → c ≡ (ok (readers, writers), s)
      → Fresh t readonly readers writers s

  given :
      (readers writers : List ℕ) (s : Connector P)
      → Fresh t readonly readers writers s
      → Gives (ok (readers, writers), s)
  given readers writers s h readers' writers' s' e =
      let a : readers ≡ readers' = cc in
      let b : writers ≡ writers' = cc in let c : s ≡ s' = cc in rw (sym a, sym b, sym c) h

  bind-Gives :
      {A : Type 0} (c : Result A × Connector P) (f : A → Action P (List ℕ × List ℕ))
      → ((a : A) (s : Connector P) → Gives (f a s))
      → Gives (c >>= f)
  bind-Gives (ok a, s) f h = h a s
  bind-Gives (err x, s) f h = λ readers writers u e. absurd cc

  on_look-Gives :
      (next : Action P (List ℕ × List ℕ)) (l : (List ℕ × List ℕ × Bool) × Bool) (s : Connector P)
      → look t s.router ≡ l
      → ((u : Connector P) → Gives (next u))
      → Gives (on_look ops next g readonly l s)
  on_look-Gives next ((readers, writers, false), updating) s e h =
      let (r, there, is, locked) =
        look-some t s.router readers writers false updating e (inl refl) in
      given readers writers s (r, false, there, is, inl refl)
  on_look-Gives next ((readers, writers, true), false) s e h =
      bind-Gives (refresh_routing_table ops g s) _ (λ a. h)
  on_look-Gives next ((readers, writers, true), true) s e h =
      let (r, there, is, locked) = look-some t s.router readers writers true true e (inr refl) in
      elim (Bool-cases (if readonly then nonempty readers else nonempty writers)) [
        | inl b ↦ rw b (given readers writers s (r, true, there, is, inr (locked, b)))
        | inr b ↦ rw b (bind-Gives (wait_for s.waits s) _ (λ a. h))
      ]

  profiles_loop-Gives : (fuel : ℕ) (s : Connector P) → Gives (profiles_loop ops fuel t g readonly s)
  unfolding profiles_loop
  profiles_loop-Gives zero s = λ readers writers u e. absurd cc
  profiles_loop-Gives (suc fuel) s =
      on_look-Gives (profiles_loop ops fuel t g readonly) (look t s.router) s refl
        (profiles_loop-Gives fuel)

-- With a router, the profiles that `_get_profiles` gives are those which the graph's table, looked up at the
-- start, holds at the end: it has not expired then, or its lock is held and the list that was asked for,
-- readers for reading and writers for writing, is not empty.
pub get_profiles-Fresh :
    {P : Type 0} (ops : Pooling P) (fuel g : ℕ) (readonly : Bool) (r : Router) (s s' : Connector P)
    (readers writers : List ℕ)
    → s.router ≡ some r
    → get_profiles ops fuel g readonly s ≡ (ok (readers, writers), s')
    → Fresh (get_routing_table g r).0 readonly readers writers s'
unfolding get_profiles
get_profiles-Fresh ops fuel g readonly r s s' readers writers e f =
    let (t, r1) = get_routing_table g r in
    profiles_loop-Gives ops t g readonly fuel (record s { router = some r1 }) readers writers s'
      (rw e at f)
