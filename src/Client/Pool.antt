-- ===== src/Client/Pool.antt =====
-- client/__init__.py: `ConnectionPool`. Connections are shared objects: the lists of the pool hold
-- their numbers, and `cxs` is the heap in which their flags stand. What a server does is not under
-- the pool's control: the outcomes of the coming calls of `reset` and `close`, and of the attempts to
-- open a connection, are lists of the state. The callback `on_broken` belongs to the owner of the
-- pool, and is a parameter. Time stands still during a call.
pub mod Ownership
pub mod Calls
pub mod Shrinking
pub mod Limits
pub mod Releasing
pub mod Closing
pub mod Acquiring
pub mod Quarantine
mod Tests
use py2neo.Prelude.{
  ℕ, zero, suc, ◌||◌, not, List, [], if◌then◌else◌, ◌++◌, ◌-◌, ◌+◌, none, false, ltb, ◌==◌, ◌∷◌,
  Option, ◌&&◌, Bool, some, length, true,
}

-- The flags of a connection that the pool reads or writes.
pub record Cx : Type 0 where
  pub broken : Bool
  pub closed : Bool
  pub opened : ℕ
  pub tag : Option ℕ

-- What one call of `reset` or `close` does: whether it raises, breaks the wire, or closes it.
pub record Outcome : Type 0 where
  pub raises : Bool
  pub breaks : Bool
  pub closes : Bool

-- What an attempt to connect does.
pub data Dial : Type 0 where
  opens : Bool → Dial
  dial_fails : Dial

pub record Pool : Type 0 where
  pub max_size : Option ℕ
  pub max_age : Option ℕ
  pub in_use_list : List ℕ
  pub quarantine : List ℕ
  pub free_list : List ℕ
  pub supports_multi : Bool
  pub cxs : ℕ → Cx
  pub next_cx : ℕ
  pub now : ℕ
  pub outcomes : List Outcome
  pub dials : List Dial

-- `connection_limit` and `unavailable` are the pool's own; `raised` is what `reset` or `close` raised.
pub data Fault : Type 0 where
  connection_limit unavailable raised value_error out_of_fuel : Fault

pub data Result {ℓ} (A : Type ℓ) : Type ℓ where
  ok : A → Result A
  err : Fault → Result A

abbrev pub Action : Type 0 → Type 0
Action A = Pool → Result A × Pool

infixl 5 ◌>>=◌
abbrev pub ◌>>=◌ : {A B : Type 0} → Result A × Pool → (A → Action B) → Result B × Pool
(ok a, p) >>= f = f a p
(err e, p) >>= f = (err e, p)

abbrev pub mem : ℕ → List ℕ → Bool
mem x [] = false
mem x (y ∷ ys) = y == x || mem x ys

-- deque.remove, of the first entry
abbrev pub remove : ℕ → List ℕ → List ℕ
remove x [] = []
remove x (y ∷ ys) = if y == x then ys else y ∷ remove x ys

abbrev pub size : Pool → ℕ
size p = length p.in_use_list + length p.free_list

-- max_size is None or size < max_size
abbrev pub below : Option ℕ → ℕ → Bool
below none n = true
below (some m) n = ltb n m

abbrev pub has_capacity : Pool → Bool
has_capacity p = below p.max_size (size p)

-- The setter of `max_size`.
unfoldable pub set_max_size : Option ℕ → Pool → Pool
set_max_size value p = record p { max_size = value }

abbrev pub is_zero : Option ℕ → Bool
is_zero none = false
is_zero (some m) = m == 0

-- max_age is not None and age > max_age
abbrev pub older : Option ℕ → ℕ → Bool
older none age = false
older (some limit) age = ltb limit age

abbrev pub expired : ℕ → Pool → Bool
expired cx p = older p.max_age (p.now - (p.cxs cx).opened)

abbrev pub unusable : ℕ → Pool → Bool
unusable cx p = (p.cxs cx).broken || (p.cxs cx).closed

abbrev pub update : (ℕ → Cx) → ℕ → Cx → ℕ → Cx
update cxs x c y = if x == y then c else cxs y

-- The flags after an outcome; a flag is never taken back.
abbrev pub mark : ℕ → Outcome → Pool → Pool
mark cx o p =
    let c = p.cxs cx in
    record p {
      cxs =
          update p.cxs cx
            (record c { broken = c.broken || o.breaks; closed = c.closed || o.closes });
    }

abbrev pub set_tag : ℕ → Option ℕ → Pool → Pool
set_tag cx t p = record p { cxs = update p.cxs cx (record (p.cxs cx) { tag = t }) }

abbrev pub quiet : Outcome
quiet = record { raises = false; breaks = false; closes = false }

abbrev pub first_outcome : List Outcome → Outcome
first_outcome [] = quiet
first_outcome (o ∷ os) = o

abbrev pub other_outcomes : List Outcome → List Outcome
other_outcomes [] = []
other_outcomes (o ∷ os) = os

abbrev pub pop_outcome : Pool → Pool
pop_outcome p = record p { outcomes = other_outcomes p.outcomes }

module _ (on_broken : Pool → Pool) where
  -- The callback runs before the connection is flagged as broken.
  unfoldable pub suffer : ℕ → Outcome → Pool → Pool
  suffer cx o p = mark cx o (if o.breaks then on_broken (pop_outcome p) else pop_outcome p)

  -- cx.close(): nothing for a connection that is closed or broken; otherwise it ends up one of them.
  unfoldable pub close_cx : ℕ → Action (Unit {0})
  unfolding suffer
  close_cx cx p =
      let o = first_outcome p.outcomes in
      let p' = suffer cx (record o { closes = not o.breaks }) p in
      if unusable cx p then (ok tt, p) else (if o.breaks && o.raises then err raised else ok tt, p')

  -- cx.reset(force) between the two lines that hold the connection in quarantine. A connection whose
  -- `reset` raises stays there.
  unfoldable pub reset_cx : ℕ → Action (Option ℕ)
  unfolding suffer
  reset_cx cx p =
      let o = first_outcome p.outcomes in
      let p' = suffer cx o (record p { quarantine = p.quarantine ++ cx ∷ [] }) in
      if o.raises
      then (err raised, p')
      else if mem cx p'.quarantine
      then (ok (some cx), record p' { quarantine = remove cx p'.quarantine })
      else (err value_error, p')

  -- _sanitize
  unfoldable pub sanitize : ℕ → Action (Option ℕ)
  unfolding close_cx reset_cx
  sanitize cx p =
      if unusable cx p
      then (ok none, p)
      else if expired cx p
      then (close_cx cx p >>= λ _ q. (ok none, q))
      else reset_cx cx p

  -- _connect, with the note of multi-database support that `acquire` makes of it
  abbrev pub dial : List Dial → Action (Option ℕ)
  dial [] p = (err unavailable, p)
  dial (dial_fails ∷ ds) p = (err unavailable, record p { dials = ds })
  dial (opens multi ∷ ds) p = (
    ok (some p.next_cx),
    record p {
      dials = ds;
      next_cx = p.next_cx + 1;
      cxs =
          update p.cxs p.next_cx
            (record { broken = false; closed = false; opened = p.now; tag = none });
      supports_multi = p.supports_multi || multi;
    },
  )

  -- One round of the loop of `acquire`: a free connection, a new one, or a refusal.
  abbrev pub take_from : List ℕ → Bool → Action (Option ℕ)
  take_from (cx ∷ rest) can_overfill p = sanitize cx (record p { free_list = rest })
  take_from [] can_overfill p =
      if has_capacity p || can_overfill then dial p.dials p else (err connection_limit, p)

  unfoldable pub attempt : Bool → Action (Option ℕ)
  unfolding sanitize
  attempt can_overfill p =
      if is_zero p.max_size then (err connection_limit, p) else take_from p.free_list can_overfill p

  -- The test of the loop, and the entry in the list of connections in use.
  abbrev pub settle : Action ℕ → Option ℕ → Action ℕ
  settle again none p = again p
  settle again (some cx) p =
      let rest = again p in
      if unusable cx p then rest else (ok cx, record p { in_use_list = p.in_use_list ++ cx ∷ [] })

  unfoldable pub acquire_loop : ℕ → Bool → Action ℕ
  unfolding attempt
  acquire_loop zero can_overfill p = (err out_of_fuel, p)
  acquire_loop (suc fuel) can_overfill p =
      attempt can_overfill p >>= settle (λ q. acquire_loop fuel can_overfill q)

  -- A round that does not end the loop uses up a free connection or an attempt to connect.
  unfoldable pub acquire : Bool → Action ℕ
  unfolding acquire_loop
  acquire can_overfill p = acquire_loop (suc (length p.free_list + length p.dials)) can_overfill p

  -- The end of `release`: what `_sanitize` gave back is kept while there is room.
  abbrev pub keep : Option ℕ → Action (Unit {0})
  keep none p = (ok tt, p)
  keep (some cx) p =
      if has_capacity p
      then (ok tt, record p { free_list = p.free_list ++ cx ∷ [] })
      else close_cx cx p

  abbrev pub give_back : ℕ → Action (Unit {0})
  give_back cx p = if has_capacity p then (sanitize cx p >>= keep) else close_cx cx p

  unfoldable pub release : ℕ → Action (Unit {0})
  unfolding sanitize
  release cx p =
      if mem cx p.free_list || mem cx p.quarantine
      then (ok tt, p)
      else if mem cx p.in_use_list
      then give_back cx (set_tag cx none (record p { in_use_list = remove cx p.in_use_list }))
      else (ok tt, p)

  -- for cx in list(self._in_use_list): if cx.broken: cx.release()
  unfoldable pub release_broken : List ℕ → Action (Unit {0})
  unfolding release
  release_broken [] p = (ok tt, p)
  release_broken (cx ∷ rest) p =
      (if (p.cxs cx).broken then release cx p else (ok tt, p)) >>= λ _. release_broken rest

  -- The closers run after the list is emptied; one that raises ends the run.
  unfoldable pub close_each : List ℕ → Action (Unit {0})
  unfolding close_cx
  close_each [] p = (ok tt, p)
  close_each (cx ∷ rest) p = close_cx cx p >>= λ _. close_each rest

  unfoldable pub prune : Action (Unit {0})
  unfolding release_broken close_each
  prune p =
      release_broken p.in_use_list p >>= λ _ q. close_each q.free_list (record q { free_list = [] })

  unfoldable pub close : Action (Unit {0})
  unfolding prune
  close p = prune (record p { max_size = some 0 }) >>= λ _ q.
      close_each q.in_use_list (record q { in_use_list = [] })
