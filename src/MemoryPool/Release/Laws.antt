-- ===== src/MemoryPool/Release/Laws.antt =====
-- A chunk that is given back to its region by MemoryPoolFree of proxy/memorypool.cpp.
use proxy_for_distribution_s.Base.{
  ℕ, ◌+◌, ◌≡◌, refl, ap, sym, subst, Bool, true, false, ◌&&◌, [], ◌∷◌, ◌++◌, if◌then◌else◌, among,
  Returns, Returns-mono,
}
use proxy_for_distribution_s.MemoryPool.{Chunk, chunk_of, Memory, dlinklist_del}
use proxy_for_distribution_s.MemoryPool.Blocks.{
  Blocks, total, head_free, Apart, Apart-append, Apart-split,
}
use proxy_for_distribution_s.MemoryPool.Layout.{IsRegion}
use proxy_for_distribution_s.MemoryPool.Give.{on_alloc_list}
use proxy_for_distribution_s.MemoryPool.Release.{release_chunk, free_chunk}
use proxy_for_distribution_s.MemoryPool.Release.Forward.{free_prefix, drop_free}
use proxy_for_distribution_s.MemoryPool.Release.Merge.{Merged, free_chunk_lem}

choose :
    (b : Bool) (xs ys : Blocks)
    → Apart xs × (head_free xs ≡ false)
    → (b ≡ false → Apart ys × (head_free ys ≡ false))
    → Apart (if b then xs else ys) × (head_free (if b then xs else ys) ≡ false)
choose true xs ys hx hy = hx
choose false xs ys hx hy = hy refl

drop_free-Apart :
    (cs : Blocks) → Apart cs → Apart (drop_free cs) × (head_free (drop_free cs) ≡ false)
drop_free-Apart [] h = (tt, refl)
drop_free-Apart (c ∷ cs) h =
    choose c.is_free (drop_free cs) (c ∷ cs) (drop_free-Apart cs h.1) (λ e. (h, e))

Merged-Apart :
    (m : Memory) (pre : Blocks) (c : Chunk) (post : Blocks) (mm : Memory)
    → (g : Merged m pre c post mm) → Apart pre
    → Apart post
    → (cs : Blocks) × IsRegion mm cs
Merged-Apart m pre c post mm g before after =
    let k = total g.run.run + c.alloc_mem + total (free_prefix post) in
    let (back, edge) = drop_free-Apart post after in
    let (front, _, _) = Apart-split g.run.front g.run.run (subst Apart g.run.parts before) in
    (
      g.run.front ++ chunk_of k true ∷ drop_free post,
      record {
        tiled = g.tiled;
        apart =
            Apart-append g.run.front (chunk_of k true ∷ drop_free post) front (edge, back)
              (ap (λ b. b && true) g.run.blocked);
      },
    )

-- A region that got a chunk back.
abbrev pub Given : Memory → ℕ → Memory → Type 0
Given mm a mm' =
    ((cs : Blocks) × IsRegion mm' cs)
    × (mm'.alloc_list ≡ dlinklist_del a mm.alloc_list)
    × (mm'.start ≡ mm.start)
    × (mm'.mem_pool_size ≡ mm.mem_pool_size)

-- MemoryPoolFree in a valid region of the pool's size, of the chunk of an address that was
-- allocated: both loops of the merge end, the chunk leaves the allocated list, which is otherwise
-- as it was, and the region is valid: its chunks lie end to end, the free list has just the free
-- ones, no two of these are side by side, and the counts are right.
pub free_chunk-IsRegion :
    (mm : Memory) (cs : Blocks) (a : ℕ)
    → IsRegion mm cs
    → among a mm.alloc_list ≡ true
    → Returns (Given mm a) (free_chunk mm.mem_pool_size mm a)
unfolding release_chunk
free_chunk-IsRegion mm cs a region listed =
    let h = on_alloc_list mm cs a region.tiled listed in
    let (before, after, _) = Apart-split h.pre (h.c ∷ h.post) (subst Apart h.parts region.apart) in
    subst (λ t. Returns (Given mm t) (free_chunk mm.mem_pool_size mm t)) (sym h.place)
      (Returns-mono
        (Merged (release_chunk mm (mm.start + total h.pre)) h.pre (chunk_of h.c.alloc_mem true)
          h.post)
        (Given mm (mm.start + total h.pre))
        (free_chunk mm.mem_pool_size mm (mm.start + total h.pre))
        (λ mm' g. (
          Merged-Apart _ h.pre (chunk_of h.c.alloc_mem true) h.post mm' g before after.1,
          g.alloc_list,
          g.start,
          g.size,
        ))
        (free_chunk_lem mm h.pre h.c h.post h.valid h.is_free))
