-- ===== src/MemoryPool/Release/Usage.antt =====
-- GetUsedMemory and GetProgMemory of proxy/memorypool.cpp.
use proxy_for_distribution_s.Base.{ℕ, ◌+◌, ◌≤◌, ◌<◌, ◌≡◌, ap, ◌∙◌, List, [], ◌∷◌, All, arith}
use proxy_for_distribution_s.MemoryPool.{u64_mod, add64, Memory, MemoryPool}
use proxy_for_distribution_s.MemoryPool.Blocks.{Blocks, used, prog, used-le-total, prog-le-used}
use proxy_for_distribution_s.MemoryPool.Search.{IsValid}
use proxy_for_distribution_s.MemoryPool.Search.Grow.{IsPool, sizes}
use proxy_for_distribution_s.MemoryPool.Release.{
  used_memory, prog_memory, get_used_memory, get_prog_memory, get_total_memory,
}

-- The chunks of each region, as they lie in it.
abbrev pub layouts : (size : ℕ) (ms : List Memory) → All (IsValid size) ms → List Blocks
layouts size [] h = []
layouts size (mm ∷ ms) h = h.0.0.0 ∷ layouts size ms h.1

-- The bytes of the chunks that are not free, and those of them that are the callers'.
abbrev pub allocated : List Blocks → ℕ
allocated [] = 0
allocated (cs ∷ css) = used cs + allocated css

abbrev pub given : List Blocks → ℕ
given [] = 0
given (cs ∷ css) = prog cs + given css

allocated-le-sizes :
    (size : ℕ) (ms : List Memory) (h : All (IsValid size) ms)
    → (allocated (layouts size ms h) ≤ sizes ms)
      × (given (layouts size ms h) ≤ allocated (layouts size ms h))
allocated-le-sizes size [] h = (omega arith, omega arith)
allocated-le-sizes size (mm ∷ ms) h =
    let cs = h.0.0.0 in
    let region = h.0.0.1 in
    let (rest, rest') = allocated-le-sizes size ms h.1 in
    (
      omega (arith, used-le-total cs, rest, region.tiled.size),
      omega (arith, prog-le-used cs, rest'),
    )

add_bound : (a b c : ℕ) → a + (b + c) < u64_mod → add64 a b + c < u64_mod
unfolding add64
add_bound a b c h = omega arith

add_same : (a b c : ℕ) → a + (b + c) < u64_mod → add64 a b + c ≡ a + (b + c)
unfolding add64
add_same a b c h = omega arith

used_memory-add :
    (size n : ℕ) (ms : List Memory) (h : All (IsValid size) ms)
    → n + allocated (layouts size ms h) < u64_mod
    → used_memory n ms ≡ n + allocated (layouts size ms h)
unfolding used_memory
used_memory-add size n [] h small = omega arith
used_memory-add size n (mm ∷ ms) h small =
    let counted = h.0.0.1.tiled.counted in
    let rest = allocated (layouts size ms h.1) in
    used_memory-add size (add64 n mm.alloc_mem) ms h.1
      (add_bound n mm.alloc_mem rest (omega (arith, counted, small)))
    ∙ add_same n mm.alloc_mem rest (omega (arith, counted, small))
    ∙ ap (λ k. n + (k + rest)) counted

prog_memory-add :
    (size n : ℕ) (ms : List Memory) (h : All (IsValid size) ms)
    → n + given (layouts size ms h) < u64_mod
    → prog_memory n ms ≡ n + given (layouts size ms h)
unfolding prog_memory
prog_memory-add size n [] h small = omega arith
prog_memory-add size n (mm ∷ ms) h small =
    let counted = h.0.0.1.tiled.counted_prog in
    let rest = given (layouts size ms h.1) in
    prog_memory-add size (add64 n mm.alloc_prog_mem) ms h.1
      (add_bound n mm.alloc_prog_mem rest (omega (arith, counted, small)))
    ∙ add_same n mm.alloc_prog_mem rest (omega (arith, counted, small))
    ∙ ap (λ k. n + (k + rest)) counted

-- In a valid pool the two sums do not wrap around: they are the bytes of the chunks that are not
-- free, added up over the layouts of all regions, and those of these bytes that are not a chunk's own
-- header or end. The second is not more than the first, and the first not more than the total.
pub get_used_memory_bounds :
    (mp : MemoryPool) (pool : IsPool mp)
    → (get_used_memory mp ≡ allocated (layouts mp.mem_pool_size mp.mlist pool.regions))
      × (get_prog_memory mp ≡ given (layouts mp.mem_pool_size mp.mlist pool.regions))
      × (get_prog_memory mp ≤ get_used_memory mp)
      × (get_used_memory mp ≤ get_total_memory mp)
unfolding get_used_memory get_prog_memory get_total_memory
get_used_memory_bounds mp pool =
    let size = mp.mem_pool_size in
    let (used_le, given_le) = allocated-le-sizes size mp.mlist pool.regions in
    let all : allocated (layouts size mp.mlist pool.regions) < u64_mod =
      omega (arith, used_le, pool.sum, pool.limit, pool.bound) in
    let used_all = used_memory-add size 0 mp.mlist pool.regions (omega (arith, all)) in
    let prog_all = prog_memory-add size 0 mp.mlist pool.regions (omega (arith, all, given_le)) in
    (
      omega (arith, used_all),
      omega (arith, prog_all),
      omega (arith, used_all, prog_all, given_le),
      omega (arith, used_all, used_le, pool.sum),
    )
