-- ===== src/Data/Walk.antt =====
-- data.py: `Path.walk`, by which paths are built from nodes, relationships and paths. A walkable's sequence
-- begins with a node and goes on with a relationship and a node by turns, so it is its first node and
-- a list of steps, each a relationship and the node behind it. Nodes are numbers, since the walk only
-- compares them.
pub mod Linked
mod Tests
use py2neo.Prelude.{ℕ, Bool, true, false, ◌==◌, if◌then◌else◌, List, [], ◌∷◌, ◌++◌}

pub record Relationship : Type 0 where
  pub identity : ℕ
  pub start_node : ℕ
  pub end_node : ℕ

abbrev pub Steps : Type 0
Steps = List (Relationship × ℕ)

pub record Walkable : Type 0 where
  pub start : ℕ
  pub steps : Steps

-- Node.__walk__, of a node alone
abbrev pub node : ℕ → Walkable
node n = record { start = n; steps = [] }

-- Relationship.__init__, with the start node, the relationship and the end node
abbrev pub relationship : Relationship → Walkable
relationship r = record { start = r.start_node; steps = (r, r.end_node) ∷ [] }

-- The last node, where `steps` lead from `n`.
abbrev pub last_node : ℕ → Steps → ℕ
last_node n [] = n
last_node n ((r, m) ∷ rest) = last_node m rest

abbrev pub end_node : Walkable → ℕ
end_node w = last_node w.start w.steps

-- The sequence backwards; `behind` holds the steps that lead back from `n`.
abbrev pub turn : ℕ → Steps → Steps → Walkable
turn n [] behind = record { start = n; steps = behind }
turn n ((r, m) ∷ rest) behind = turn m rest ((r, n) ∷ behind)

-- reversed(list(walkable.__walk__()))
unfoldable pub reversed : Walkable → Walkable
reversed w = turn w.start w.steps []

-- The loop over the walkables behind the first. The flag says that it ended; otherwise it raised
-- `ValueError`, after the steps that were yielded.
unfoldable pub walk_on : ℕ → List Walkable → Steps × Bool
unfolding reversed
walk_on end [] = ([], true)
walk_on end (w ∷ ws) =
    let forward = walk_on (end_node w) ws in
    let backward = walk_on w.start ws in
    if end == w.start
    then (w.steps ++ forward.0, forward.1)
    else if end == end_node w
    then ((reversed w).steps ++ backward.0, backward.1)
    else ([], false)

-- A walk over one walkable and those that follow.
unfoldable pub walk : Walkable → List Walkable → Walkable × Bool
unfolding walk_on
walk w ws =
    let (rest, done) = walk_on (end_node w) ws in
    (record { start = w.start; steps = w.steps ++ rest }, done)
