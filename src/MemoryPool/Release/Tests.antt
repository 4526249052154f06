-- ===== src/MemoryPool/Release/Tests.antt =====
-- The memory pool of proxy/memorypool.cpp at small pools.
use proxy_for_distribution_s.Base.{
  ℕ, ◌+◌, ◌%◌, ◌<◌, ◌≤◌, ◌≡◌, ◌>>=◌, refl, true, false, Option, some, List, [], ◌∷◌, among, Returns,
  inr, arith,
}
use proxy_for_distribution_s.MemoryPool.{
  chunk_of, Memory, MemoryPool, Fresh, memory_at, init_memory_struct, new_memory, take_chunk,
  move_node, sub64, total_needed_size, memory_pool_alloc,
}
use proxy_for_distribution_s.MemoryPool.Blocks.{Blocks}
use proxy_for_distribution_s.MemoryPool.Layout.{IsRegion}
use proxy_for_distribution_s.MemoryPool.Give.{Taken, take_chunk-IsRegion, take_chunk-size}
use proxy_for_distribution_s.MemoryPool.Search.{total_needed_size_lem}
use proxy_for_distribution_s.MemoryPool.Search.Grow.{IsPool, init_memory_struct-IsRegion}
use proxy_for_distribution_s.MemoryPool.Release.{
  memory_pool_free, memory_pool_init, memory_pool_clear, get_used_memory, get_prog_memory,
  get_total_memory,
}
use proxy_for_distribution_s.MemoryPool.Release.Usage.{
  allocated, given, layouts, get_used_memory_bounds,
}
use proxy_for_distribution_s.MemoryPool.Release.Pool.{
  Freed, AllCleared, memory_pool_free_lem, memory_pool_init-IsPool, memory_pool_clear_lem,
}

abbrev fresh : ℕ → Fresh
fresh a = record { address = a; chunk = λ x. chunk_of 0 false; chunk_end = λ x. 0 }

-- `malloc` gives blocks far from one another.
abbrev malloc : ℕ → Option Fresh
malloc in_use = some (fresh (1000000 + in_use))

abbrev region : Memory
region = init_memory_struct (memory_at (fresh 1000000) 0 1000) 1000

abbrev pool : MemoryPool
pool = record {
  last_id = 1;
  auto_extend = true;
  mem_pool_size = 1000;
  total_mem_pool_size = 1000;
  max_mem_pool_size = 2000;
  mlist = region ∷ [];
}

region-IsRegion : IsRegion region (chunk_of 1000 true ∷ [])
region-IsRegion =
    init_memory_struct-IsRegion (memory_at (fresh 1000000) 0 1000) 1000 (omega arith) (omega arith)

region_listed : among 1000064 region.free_list ≡ true
unfolding init_memory_struct among
region_listed = refl

region_fits : 152 ≤ (region.chunk 1000064).alloc_mem
unfolding init_memory_struct
region_fits = omega arith

memory_pool_init-IsPool_example :
    Returns IsPool (memory_pool_init false true (some (fresh 1000000)) 2000 1000)
memory_pool_init-IsPool_example =
    memory_pool_init-IsPool false (fresh 1000000) 2000 1000 (omega arith) (inr (omega arith))
      (omega arith)

-- The region after the first request for 100 bytes.
abbrev taken : Memory
taken = take_chunk region 1000064 152

region_after :
    (cs : Blocks) × IsRegion (take_chunk region 1000064 152) cs
    × Taken (take_chunk region 1000064 152) 1000064 152
region_after =
    take_chunk-IsRegion region (chunk_of 1000 true ∷ []) 1000064 152 region-IsRegion region_listed
      region_fits (omega arith)

taken_size : taken.mem_pool_size ≡ 1000
unfolding init_memory_struct
taken_size = take_chunk-size region 1000064 152

abbrev pool_taken : MemoryPool
pool_taken = record pool { mlist = taken ∷ [] }

pool_taken-IsPool : IsPool pool_taken
pool_taken-IsPool = record {
  regions = (
    ((region_after.0, region_after.1), omega (arith, taken_size), omega (arith, taken_size)),
    tt,
  );
  big = omega arith;
  room = inr (omega arith);
  bound = omega arith;
  sum = omega (arith, taken_size);
  low = omega arith;
  limit = omega arith;
}

memory_pool_free_lem_example :
    Returns (Freed pool_taken [] taken [] 1000064) (memory_pool_free (some pool_taken) 1000096)
memory_pool_free_lem_example =
    memory_pool_free_lem pool_taken [] taken [] 1000064 pool_taken-IsPool refl taken_size
      region_after.2.1 (inr refl)

memory_pool_clear_lem_example :
    Returns
      (λ mp'. IsPool mp' × AllCleared (taken ∷ []) mp'.mlist)
      (memory_pool_clear (some pool_taken))
memory_pool_clear_lem_example = memory_pool_clear_lem pool_taken pool_taken-IsPool

total_needed_size_lem_example :
    (1040 < total_needed_size 1000)
    × (total_needed_size 1000 ≤ 1048)
    × (total_needed_size 1000 % 8 ≡ 0)
total_needed_size_lem_example = total_needed_size_lem 1000 (omega arith)

-- The first region has room for two of the three chunks, so that the pool grows for the third; then
-- the second chunk goes back.
three : Option (ℕ × List ℕ × ℕ)
unfolding memory_pool_alloc memory_pool_free memory_pool_init new_memory get_used_memory
three = do
  mp ← memory_pool_init false true (some (fresh 1000000)) 2000 1000
  (p, mp) ← memory_pool_alloc malloc mp 500
  (q, mp) ← memory_pool_alloc malloc mp 300
  (r, mp) ← memory_pool_alloc malloc mp 300
  (e, o) ← memory_pool_free (some mp) q
  mp ← o
  some (e, p ∷ q ∷ r ∷ [], get_used_memory mp)

three_addresses : three ≡ some (0, 1000096 ∷ 1000640 ∷ 1001096 ∷ [], 888)
unfolding three sub64 move_node
three_addresses = refl

get_used_memory_bounds_example :
    (get_used_memory pool_taken ≡ allocated (layouts 1000 (taken ∷ []) pool_taken-IsPool.regions))
    × (get_prog_memory pool_taken ≡ given (layouts 1000 (taken ∷ []) pool_taken-IsPool.regions))
    × (get_prog_memory pool_taken ≤ get_used_memory pool_taken)
    × (get_used_memory pool_taken ≤ get_total_memory pool_taken)
get_used_memory_bounds_example = get_used_memory_bounds pool_taken pool_taken-IsPool
