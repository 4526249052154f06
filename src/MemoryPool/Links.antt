-- ===== src/MemoryPool/Links.antt =====
-- The lists of chunks of a region of proxy/memorypool.cpp, by their members.
use proxy_for_distribution_s.Base.{
  ℕ, ◌≡◌, false, ◌||◌, List, [], ◌∷◌, ◌==◌, if◌then◌else◌, among, arith,
}
use proxy_for_distribution_s.MemoryPool.{dlinklist_del, move_node}

pub among-dlinklist_del :
    (x a : ℕ) (xs : List ℕ) → among x (dlinklist_del a xs) ≡ (if a == x then false else among x xs)
unfolding among dlinklist_del
among-dlinklist_del x a [] = ground arith
among-dlinklist_del x a (y ∷ xs) = ground (arith, among-dlinklist_del x a xs)

pub among-move_node :
    (x a to : ℕ) (xs : List ℕ)
    → among x (move_node a to xs)
      ≡ (if to == x then among a xs || among x xs else if a == x then false else among x xs)
unfolding among move_node
among-move_node x a to [] = ground arith
among-move_node x a to (y ∷ xs) = ground (arith, among-move_node x a to xs)
