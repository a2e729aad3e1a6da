-- ===== src/Client/Choosing/Acquiring.antt =====
-- client/__init__.py: `_get_profiles`, `_acquire_ro` and `_acquire_rw` of `Connector`. Their loops have no limit in
-- the source: they run on fuel, a round for each look at the table or at the pools. The sleeps are left out.
use py2neo.Prelude.{
  ℕ, zero, suc, Bool, true, false, ◌||◌, ◌==◌, leb, if◌then◌else◌, List, [], ◌∷◌, Option, none,
  some,
}
use py2neo.Client.Pool.{mem}
use py2neo.Client.Router.{Router, get_routing_table, runners}
use py2neo.Client.Choosing.{
  Acquired, got, refused, full, raises, Pooling, Connector, service_unavailable, raised, blocked,
  out_of_fuel, Result, ok, err, Tried, found, again, Action, ◌>>=◌, filter, pool_acquire, prune,
}
use py2neo.Client.Choosing.Refreshing.{refresh_routing_table}

abbrev pub keys : List (ℕ × ℕ) → List ℕ
keys [] = []
keys ((profile, i) ∷ rest) = profile ∷ keys rest

abbrev pub nonempty : List ℕ → Bool
nonempty [] = false
nonempty (x ∷ xs) = true

-- The pools that reading goes to: those of the readers, or without any of the writers.
abbrev pub reading : List ℕ → List ℕ → Option (List ℕ)
reading (x ∷ readers) writers = some (x ∷ readers)
reading [] (y ∷ writers) = some (y ∷ writers)
reading [] [] = none

-- Those that writing goes to: the writers, or none while there are readers.
abbrev pub writing : List ℕ → List ℕ → Option (List ℕ)
writing readers (y ∷ writers) = some (y ∷ writers)
writing (x ∷ readers) [] = some []
writing [] [] = none

-- The table as the router holds it now.
abbrev pub look : ℕ → Option Router → (List ℕ × List ℕ × Bool) × Bool
look t none = (([], [], true), false)
look t (some r) = (runners r.now (r.store t), (r.store t).updating)

abbrev pub pool_named : List ℕ → ℕ × ℕ → Bool
pool_named profiles (profile, i) = mem profile profiles

abbrev pub first_draw : List Bool → Bool
first_draw [] = false
first_draw (b ∷ bs) = b

abbrev pub other_draws : List Bool → List Bool
other_draws [] = []
other_draws (b ∷ bs) = bs

module _ {P : Type 0} where
  -- Another thread finishes its refresh.
  abbrev pub wait_for : List Router → Action P (Unit {0})
  wait_for [] s = (err blocked, s)
  wait_for (r ∷ rest) s = (ok tt, record s { router = some r; waits = rest })

  module _ (ops : Pooling P) where
    abbrev pub on_look :
        (again_later : Action P (List ℕ × List ℕ))
        → ℕ
        → Bool
        → (List ℕ × List ℕ × Bool) × Bool
        → Action P (List ℕ × List ℕ)
    on_look again_later g readonly ((readers, writers, false), updating) s =
        (ok (readers, writers), s)
    on_look again_later g readonly ((readers, writers, true), false) s =
        refresh_routing_table ops g s >>= λ _. again_later
    on_look again_later g readonly ((readers, writers, true), true) s =
        let waited = wait_for s.waits s >>= λ _. again_later in
        if (if readonly then nonempty readers else nonempty writers)
        then (ok (readers, writers), s)
        else waited

    -- The loop over the table number `t`.
    unfoldable pub profiles_loop : ℕ → ℕ → ℕ → Bool → Action P (List ℕ × List ℕ)
    profiles_loop zero t g readonly s = (err out_of_fuel, s)
    profiles_loop (suc fuel) t g readonly s =
        on_look (profiles_loop fuel t g readonly) g readonly (look t s.router) s

    abbrev pub profiles_in : Option Router → ℕ → ℕ → Bool → Action P (List ℕ × List ℕ)
    profiles_in none fuel g readonly s = (ok (keys s.entries, keys s.entries), s)
    profiles_in (some r) fuel g readonly s =
        let (t, r1) = get_routing_table g r in
        profiles_loop fuel t g readonly (record s { router = some r1 })

    unfoldable pub get_profiles : ℕ → ℕ → Bool → Action P (List ℕ × List ℕ)
    unfolding profiles_loop
    get_profiles fuel g readonly s = profiles_in s.router fuel g readonly s

    abbrev pub is_old : Connector P → ℕ × ℕ → Bool
    is_old s (profile, i) = leb 60 (ops.age (s.pools i))

    abbrev pub any_old : Connector P → List (ℕ × ℕ) → Bool
    any_old s [] = false
    any_old s (e ∷ es) = is_old s e || any_old s es

    -- A young pool is kept by a draw.
    abbrev pub settled : List (ℕ × ℕ) → Connector P → List (ℕ × ℕ) × Connector P
    settled [] s = ([], s)
    settled (e ∷ es) s =
        let old = is_old s e in
        let (kept, t) = settled es (if old then s else record s { draws = other_draws s.draws }) in
        (if old || first_draw s.draws then e ∷ kept else kept, t)

    abbrev pub introduced : List (ℕ × ℕ) → Connector P → List (ℕ × ℕ) × Connector P
    introduced es s = if any_old s es then settled es s else (es, s)

    -- sorted(pools, key=lambda p: p.in_use)
    abbrev pub load : Connector P → ℕ × ℕ → ℕ
    load s (profile, i) = ops.in_use (s.pools i)

    abbrev pub insert : Connector P → ℕ × ℕ → List (ℕ × ℕ) → List (ℕ × ℕ)
    insert s e [] = e ∷ []
    insert s e (f ∷ fs) =
        let rest = insert s e fs in if leb (load s e) (load s f) then e ∷ f ∷ fs else f ∷ rest

    abbrev pub sort : Connector P → List (ℕ × ℕ) → List (ℕ × ℕ)
    sort s [] = []
    sort s (e ∷ es) = insert s e (sort s es)

    abbrev pub prune_if : Bool → ℕ → Action P (Unit {0})
    prune_if empty profile s = if empty then prune ops profile s else (ok tt, s)

    -- What is done with the outcome of a pool for reading.
    abbrev pub read_from :
        ℕ → ℕ → Action P Tried → Acquired × Connector P → Result Tried × Connector P
    read_from profile i next (got cx, s) = (ok (found profile cx), s)
    read_from profile i next (refused, s) = prune ops profile s >>= λ _. next
    read_from profile i next (full, s) =
        prune_if (ops.size (s.pools i) == 0) profile s >>= λ _. next
    read_from profile i next (raises, s) = (err raised, s)

    unfoldable pub try_readers : List (ℕ × ℕ) → Action P Tried
    unfolding pool_acquire prune
    try_readers [] s = (ok again, s)
    try_readers ((profile, i) ∷ rest) s =
        read_from profile i (try_readers rest) (pool_acquire ops profile i false s)

    abbrev pub refuse_if : Bool → ℕ → Action P Tried
    refuse_if empty profile s =
        if empty
        then (prune ops profile s >>= λ _ t. (err service_unavailable, t))
        else (ok again, s)

    -- What is done with the outcome of the first pool for writing; no other is tried.
    abbrev pub write_to : ℕ → ℕ → Acquired × Connector P → Result Tried × Connector P
    write_to profile i (got cx, s) = (ok (found profile cx), s)
    write_to profile i (refused, s) = prune ops profile s >>= λ _ t. (ok again, t)
    write_to profile i (full, s) = refuse_if (ops.size (s.pools i) == 0) profile s
    write_to profile i (raises, s) = (err raised, s)

    unfoldable pub try_writers : List (ℕ × ℕ) → Action P Tried
    unfolding pool_acquire prune
    try_writers [] s = (ok again, s)
    try_writers ((profile, i) ∷ rest) s = write_to profile i (pool_acquire ops profile i false s)

    abbrev pub read_round : Option (List ℕ) → Action P Tried
    read_round none s = (err service_unavailable, s)
    read_round (some profiles) s =
        let (es, t) = introduced (filter (pool_named profiles) s.entries) s in
        try_readers (sort t es) t

    abbrev pub write_round : Option (List ℕ) → Action P Tried
    write_round none s = (err service_unavailable, s)
    write_round (some profiles) s = try_writers (sort s (filter (pool_named profiles) s.entries)) s

    abbrev pub chosen : Bool → List ℕ × List ℕ → Action P Tried
    chosen true (readers, writers) s = read_round (reading readers writers) s
    chosen false (readers, writers) s = write_round (writing readers writers) s

    -- One round of the loop of `_acquire_ro`, or of `_acquire_rw`.
    unfoldable pub round : ℕ → Bool → ℕ → Action P Tried
    unfolding get_profiles try_readers try_writers
    round fuel readonly g s = get_profiles fuel g readonly s >>= chosen readonly

    abbrev pub unless_found : Action P (ℕ × ℕ) → Tried → Action P (ℕ × ℕ)
    unless_found next (found profile cx) s = (ok (profile, cx), s)
    unless_found next again s = next s

    -- _acquire
    unfoldable pub acquire : ℕ → ℕ → Bool → ℕ → Action P (ℕ × ℕ)
    unfolding round
    acquire zero fuel readonly g s = (err out_of_fuel, s)
    acquire (suc rounds) fuel readonly g s =
        round fuel readonly g s >>= unless_found (acquire rounds fuel readonly g)
