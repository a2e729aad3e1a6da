-- ===== src/Data/Walk/Tests.antt =====
-- Walks over the people of the source's documentation, and the theorem about walks there.
use py2neo.Prelude.{refl, ◌≡◌, [], ◌∷◌, true, false, inl, List}
use py2neo.Data.Walk.{Relationship, node, relationship, walk, Walkable}
use py2neo.Data.Walk.Linked.{IsPath, walk-IsPath}

-- Alice is 1, Bob 2 and Carol 3; Carol knows Bob.
abbrev alice_bob : Relationship
alice_bob = record { identity = 10; start_node = 1; end_node = 2 }

abbrev carol_bob : Relationship
carol_bob = record { identity = 11; start_node = 3; end_node = 2 }

-- The second relationship is walked backwards.
abc :
    walk (node 1) (relationship alice_bob ∷ relationship carol_bob ∷ node 3 ∷ [])
    ≡ (record { start = 1; steps = (alice_bob, 2) ∷ (carol_bob, 3) ∷ [] }, true)
unfolding walk
abc = refl

apart_raises : (walk (node 3) (relationship alice_bob ∷ [])).1 ≡ false
unfolding walk
apart_raises = refl

abbrev two : List Walkable
two = relationship alice_bob ∷ relationship carol_bob ∷ []

walk-IsPath_example : IsPath (walk (node 1) two).0 × ((walk (node 1) two).0.start ≡ 1)
walk-IsPath_example =
    walk-IsPath (node 1) two (tt, ((inl (refl, refl), tt), ((inl (refl, refl), tt), tt)))
