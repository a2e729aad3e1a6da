-- ===== src/Data/Walk/Linked.antt =====
-- A walk is one connected path.
use py2neo.Prelude.{
  ℕ, refl, ◌≡◌, ◌∙◌, sym, ◌+◌, ◌⊎◌, inl, inr, Bool, Bool-cases, true, ◌==◌, List, [], ◌∷◌, ◌++◌,
  length, length-append, arith, All,
}
use py2neo.Data.Walk.{
  Relationship, Steps, Walkable, last_node, end_node, turn, reversed, walk_on, walk,
}

-- The relationship joins the two nodes, in whichever direction.
abbrev pub Joins : Relationship → ℕ → ℕ → Type 0
Joins r a b = ((r.start_node ≡ a) × (r.end_node ≡ b)) ⊎ ((r.start_node ≡ b) × (r.end_node ≡ a))

-- Each step's relationship joins the node before it and the node behind it.
abbrev pub IsLinked : ℕ → Steps → Type 0
IsLinked n [] = Unit
IsLinked n ((r, m) ∷ rest) = Joins r n m × IsLinked m rest

abbrev pub IsPath : Walkable → Type 0
IsPath w = IsLinked w.start w.steps

Joins-sym : (r : Relationship) (a b : ℕ) → Joins r a b → Joins r b a
Joins-sym r a b (inl p) = inr p
Joins-sym r a b (inr p) = inl p

turn-IsPath :
    (n : ℕ) (steps behind : Steps)
    → IsLinked n steps
    → IsLinked n behind
    → IsPath (turn n steps behind)
turn-IsPath n [] behind p q = q
turn-IsPath n ((r, m) ∷ rest) behind p q =
    turn-IsPath m rest ((r, n) ∷ behind) p.1 (Joins-sym r n m p.0, q)

turn-start : (n : ℕ) (steps behind : Steps) → (turn n steps behind).start ≡ last_node n steps
turn-start n [] behind = refl
turn-start n ((r, m) ∷ rest) behind = turn-start m rest ((r, n) ∷ behind)

turn-end_node : (n : ℕ) (steps behind : Steps) → end_node (turn n steps behind) ≡ last_node n behind
turn-end_node n [] behind = refl
turn-end_node n ((r, m) ∷ rest) behind = turn-end_node m rest ((r, n) ∷ behind)

turn-length :
    (n : ℕ) (steps behind : Steps)
    → length (turn n steps behind).steps ≡ length steps + length behind
turn-length n [] behind = omega arith
turn-length n ((r, m) ∷ rest) behind = omega (arith, turn-length m rest ((r, n) ∷ behind))

append-IsLinked :
    (n : ℕ) (steps rest : Steps)
    → IsLinked n steps
    → IsLinked (last_node n steps) rest
    → IsLinked n (steps ++ rest)
append-IsLinked n [] rest p q = q
append-IsLinked n ((r, m) ∷ steps) rest p q = (p.0, append-IsLinked m steps rest p.1 q)

-- The number of steps of all walkables.
abbrev pub total : List Walkable → ℕ
total [] = 0
total (w ∷ ws) = length w.steps + total ws

-- The steps from `n` are linked, and all are there if the walk came to its end.
abbrev Follows : ℕ → ℕ → Steps × Bool → Type 0
Follows n size o = IsLinked n o.0 × (o.1 ≡ true → length o.0 ≡ size)

joined :
    (n size : ℕ) (w : Walkable) (rest : Steps × Bool)
    → n ≡ w.start
    → IsPath w
    → Follows (end_node w) size rest
    → Follows n (length w.steps + size) (w.steps ++ rest.0, rest.1)
joined n size w rest e p q = (
  rw e (append-IsLinked w.start w.steps rest.0 p q.0),
  λ h. omega (arith, q.1 h, length-append w.steps rest.0),
)

turned :
    (n size : ℕ) (w : Walkable) (rest : Steps × Bool)
    → n ≡ end_node w
    → IsPath w
    → Follows w.start size rest
    → Follows n (length w.steps + size) ((reversed w).steps ++ rest.0, rest.1)
unfolding reversed
turned n size w rest e p q =
    let f : Follows (end_node (turn w.start w.steps [])) size rest =
      rw (turn-end_node w.start w.steps []) q in
    let j =
      joined n size (turn w.start w.steps []) rest (e ∙ sym (turn-start w.start w.steps []))
        (turn-IsPath w.start w.steps [] p tt) f in
    (j.0, λ h. omega (arith, j.1 h, turn-length w.start w.steps []))

walk_on-Follows : (n : ℕ) (ws : List Walkable) → All IsPath ws → Follows n (total ws) (walk_on n ws)
unfolding walk_on
walk_on-Follows n [] a = (tt, λ h. refl)
walk_on-Follows n (w ∷ ws) a =
    let forward = walk_on-Follows (end_node w) ws a.1 in
    let backward = walk_on-Follows w.start ws a.1 in
    elim (Bool-cases (n == w.start)) [
      | inl same ↦
          rw same
            (joined n (total ws) w (walk_on (end_node w) ws) (ground (arith, same)) a.0 forward)
      | inr differs ↦ rw differs (elim (Bool-cases (n == end_node w)) [
        | inl last ↦
            rw last (turned n (total ws) w (walk_on w.start ws) (ground (arith, last)) a.0 backward)
        | inr neither ↦ rw neither (tt, λ h. cc)
      ])
    ]

walk-Follows :
    (w : Walkable) (ws : List Walkable)
    → All IsPath (w ∷ ws)
    → Follows w.start (total (w ∷ ws)) ((walk w ws).0.steps, (walk w ws).1)
unfolding walk
walk-Follows w ws a =
    joined w.start (total ws) w (walk_on (end_node w) ws) refl a.0
      (walk_on-Follows (end_node w) ws a.1)

-- A walk over paths is a path that starts where the first of them starts: each relationship joins the nodes
-- around it, also where a path was walked backwards and where the walk raised half-way.
pub walk-IsPath :
    (w : Walkable) (ws : List Walkable)
    → All IsPath (w ∷ ws)
    → IsPath (walk w ws).0 × ((walk w ws).0.start ≡ w.start)
unfolding walk
walk-IsPath w ws a = ((walk-Follows w ws a).0, refl)

-- A walk over paths that does not raise leaves no relationship out: it has as many steps as all the paths
-- together.
length-walk :
    (w : Walkable) (ws : List Walkable)
    → All IsPath (w ∷ ws)
    → (walk w ws).1 ≡ true
    → length (walk w ws).0.steps ≡ total (w ∷ ws)
length-walk w ws a done = (walk-Follows w ws a).1 done
