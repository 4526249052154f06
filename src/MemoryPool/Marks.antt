-- ===== src/MemoryPool/Marks.antt =====
-- A chunk of a valid region that becomes free or is given away whole, as whole_chunk and
-- release_chunk do for proxy/memorypool.cpp.
use proxy_for_distribution_s.Base.{
  ℕ, ◌+◌, ◌≡◌, Bool, not, [], ◌∷◌, ◌++◌, ◌==◌, if◌then◌else◌, none, some, among, All, All-append,
  Option-cases, inl, inr, arith,
}
use proxy_for_distribution_s.MemoryPool.{Chunk, chunk_of, Memory, update}
use proxy_for_distribution_s.MemoryPool.Blocks.{
  Blocks, total, IsBig, block_at, Lay, Ends, total-append, All-split, block_at-append,
  block_at_bounds,
}
use proxy_for_distribution_s.MemoryPool.Layout.{
  Lay-split, Lay-append, Lay-frame, Ends-split, Ends-append, IsTiled,
}

-- `b` says whether the chunk is free from now on.
module _ (mm : Memory) (pre : Blocks) (c : Chunk) (post : Blocks)
    (valid : IsTiled mm (pre ++ c ∷ post)) where
  pub header : mm.chunk (mm.start + total pre) ≡ c
  header = (Lay-split mm.chunk mm.start pre (c ∷ post) valid.lay).1.0

  pub in_region : total pre + (c.alloc_mem + total post) ≡ mm.mem_pool_size
  in_region = omega (arith, valid.size, total-append pre (c ∷ post))

  pub bigs : All IsBig pre × All IsBig (c ∷ post)
  bigs = All-split IsBig pre (c ∷ post) valid.big

  pub nothing_before : block_at (mm.start + total pre) mm.start pre ≡ none
  nothing_before = elim (Option-cases (block_at (mm.start + total pre) mm.start pre)) [
    | inl e ↦ e
    | inr (d, e) ↦
        absurd (omega (arith, block_at_bounds (mm.start + total pre) mm.start pre d bigs.0 e))
  ]

  -- The chunk is on the free list where it is free, and on the other where it is not.
  pub listed_free : among (mm.start + total pre) mm.free_list ≡ c.is_free
  listed_free =
      let found = block_at-append (mm.start + total pre) mm.start pre (c ∷ post) in
      ground (arith, found, valid.free (mm.start + total pre), nothing_before)

  pub listed_taken : among (mm.start + total pre) mm.alloc_list ≡ not c.is_free
  listed_taken =
      let found = block_at-append (mm.start + total pre) mm.start pre (c ∷ post) in
      ground (arith, found, valid.taken (mm.start + total pre), nothing_before)

  module _ (b : Bool) where
    pub mark_large : All IsBig (pre ++ chunk_of c.alloc_mem b ∷ post)
    mark_large = All-append IsBig pre (chunk_of c.alloc_mem b ∷ post) bigs.0 (bigs.1.0, bigs.1.1)

    pub mark-Lay :
        Lay
          (update mm.chunk (mm.start + total pre) (chunk_of c.alloc_mem b))
          mm.start
          (pre ++ chunk_of c.alloc_mem b ∷ post)
    mark-Lay =
        let g = update mm.chunk (mm.start + total pre) (chunk_of c.alloc_mem b) in
        let (front, back) = Lay-split mm.chunk mm.start pre (c ∷ post) valid.lay in
        let big = bigs.1.0 in
        Lay-append g mm.start pre (chunk_of c.alloc_mem b ∷ post)
          (Lay-frame mm.chunk g mm.start pre bigs.0 (λ x lo hi. ground arith) front)
          (
            ground arith,
            Lay-frame mm.chunk g (mm.start + total pre + c.alloc_mem) post bigs.1.1
                (λ x lo hi. ground arith) back.1,
          )

    pub mark-Ends : Ends mm.chunk_end mm.start (pre ++ chunk_of c.alloc_mem b ∷ post)
    mark-Ends =
        let (front, back) = Ends-split mm.chunk_end mm.start pre c post valid.ends in
        Ends-append mm.chunk_end mm.start pre (chunk_of c.alloc_mem b ∷ post) front
          (same_size (mm.start + total pre) post back)
      where
        same_size :
            (s : ℕ) (cs : Blocks)
            → Ends mm.chunk_end s (c ∷ cs)
            → Ends mm.chunk_end s (chunk_of c.alloc_mem b ∷ cs)
        same_size s [] h = tt
        same_size s (d ∷ cs) h = h

    pub mark-block_at :
        (x : ℕ)
        → block_at x mm.start (pre ++ chunk_of c.alloc_mem b ∷ post) ≡ (
            if mm.start + total pre == x
            then some (chunk_of c.alloc_mem b)
            else block_at x mm.start (pre ++ c ∷ post))
    mark-block_at x =
        let now = block_at-append x mm.start pre (chunk_of c.alloc_mem b ∷ post) in
        let then_ = block_at-append x mm.start pre (c ∷ post) in
        elim (Option-cases (block_at x mm.start pre)) [
          | inl e ↦ ground (arith, now, then_, e)
          | inr (d, e) ↦
              let bounds = block_at_bounds x mm.start pre d bigs.0 e in
              ground (arith, now, then_, bounds, e)
        ]
