-- ===== src/MemoryPool/Release/Merge.antt =====
-- merge_free_chunk of proxy/memorypool.cpp as a whole, on a valid region.
use mathlib.Core.List.{append_assoc}
use proxy_for_distribution_s.Base.{
  ℕ, suc, ◌+◌, ◌≤◌, ◌≡◌, refl, ap, subst, ◌∙◌, true, false, [], ◌∷◌, ◌++◌, among, length, Returns,
  Returns-mono, Returns-some, All, arith,
}
use proxy_for_distribution_s.MemoryPool.{sub64, Chunk, chunk_of, Memory}
use proxy_for_distribution_s.MemoryPool.Blocks.{
  Blocks, total, IsBig, total-append, used-append, prog-append, used-le-total, prog-le-used,
}
use proxy_for_distribution_s.MemoryPool.Layout.{Lay-split, Ends-split, IsTiled}
use proxy_for_distribution_s.MemoryPool.Links.{among-dlinklist_del}
use proxy_for_distribution_s.MemoryPool.Marks.{
  header, in_region, bigs, mark_large, mark-Lay, mark-Ends, mark-block_at,
}
use proxy_for_distribution_s.MemoryPool.Release.{
  absorb_free, end_chunk, merge_free_chunk, release_chunk, free_chunk,
}
use proxy_for_distribution_s.MemoryPool.Release.Back.{IsFree, RunOf, Reads, first_free_lem}
use proxy_for_distribution_s.MemoryPool.Release.Forward.{
  free_prefix, drop_free, Absorbed, absorb_free_lem,
}
use proxy_for_distribution_s.MemoryPool.Release.Join.{
  drop_free-append, free_prefix-append, join-IsTiled,
}

-- The chunk is free again, and not yet part of its neighbours.
release_chunk-IsTiled :
    (mm : Memory) (pre : Blocks) (c : Chunk) (post : Blocks)
    → IsTiled mm (pre ++ c ∷ post)
    → c.is_free ≡ false
    → IsTiled (release_chunk mm (mm.start + total pre)) (pre ++ chunk_of c.alloc_mem true ∷ post)
unfolding release_chunk sub64 among
release_chunk-IsTiled mm pre c post valid taken =
    let a = mm.start + total pre in
    let head = header mm pre c post valid in
    let cs' : Blocks = chunk_of c.alloc_mem true ∷ post in
    let mark = λ (x : ℕ). mark-block_at mm pre c post valid true x in
    let fits = in_region mm pre c post valid in
    let old = used-append pre (c ∷ post) in
    let used_le = used-le-total (pre ++ c ∷ post) in
    let prog_le = prog-le-used (pre ++ c ∷ post) in
    record {
      size = omega (arith, fits, total-append pre cs');
      bound = valid.bound;
      big = mark_large mm pre c post valid true;
      lay = rw head (mark-Lay mm pre c post valid true);
      ends = mark-Ends mm pre c post valid true;
      free = λ x. ground (arith, mark x, valid.free x);
      taken = λ x. ground (arith, mark x, among-dlinklist_del x a mm.alloc_list, valid.taken x);
      counted = ground (
        arith,
        head,
        valid.size,
        valid.counted,
        valid.bound,
        old,
        used-append pre cs',
        used_le,
        taken,
      );
      counted_prog = ground (
        arith,
        head,
        valid.size,
        valid.counted_prog,
        valid.bound,
        prog-append pre (c ∷ post),
        prog-append pre cs',
        prog_le,
        used_le,
        taken,
        (bigs mm pre c post valid).1.0,
      );
    }

length-le-total : (cs : Blocks) → All IsBig cs → length cs ≤ total cs
length-le-total [] big = omega arith
length-le-total (c ∷ cs) big = omega (arith, length-le-total cs big.1)

-- The first chunk of a run that ends with `c`, and what is behind it.
record Headed (run : Blocks) (c : Chunk) (post : Blocks) : Type 0 where
  head : Chunk
  rest : Blocks
  parts : run ++ c ∷ post ≡ head ∷ rest
  is_free : head.is_free ≡ true
  behind : drop_free rest ≡ drop_free post
  sum :
      head.alloc_mem + total (free_prefix rest) ≡ total run + c.alloc_mem + total (free_prefix post)

headed :
    (run : Blocks) (c : Chunk) (post : Blocks)
    → All IsFree run
    → c.is_free ≡ true
    → Headed run c post
headed [] c post h e = record {
  head = c;
  rest = post;
  parts = refl;
  is_free = e;
  behind = refl;
  sum = omega arith;
}
headed (q ∷ qs) c post h e = record {
  head = q;
  rest = qs ++ c ∷ post;
  parts = refl;
  is_free = h.0;
  behind = ground (arith, drop_free-append qs (c ∷ post) h.1, e);
  sum = ground (arith, free_prefix-append qs (c ∷ post) h.1, e);
}

-- What the merge makes of the region around a free chunk `c`.
pub record Merged (m : Memory) (pre : Blocks) (c : Chunk) (post : Blocks) (mm : Memory)
    : Type 0 where
  pub run : RunOf pre
  pub tiled : IsTiled mm (
      run.front
      ++ chunk_of (total run.run + c.alloc_mem + total (free_prefix post)) true ∷ drop_free post)
  pub alloc_list : mm.alloc_list ≡ m.alloc_list
  pub start : mm.start ≡ m.start
  pub size : mm.mem_pool_size ≡ m.mem_pool_size

module _ (m : Memory) where
  abbrev Walked : Blocks → Chunk → Blocks → Memory → Type 0
  Walked front h rest mm' =
      IsTiled (end_chunk mm' (m.start + total front))
        (front ++ chunk_of (h.alloc_mem + total (free_prefix rest)) true ∷ drop_free rest)
      × (mm'.alloc_list ≡ m.alloc_list)
      × (mm'.start ≡ m.start)
      × (mm'.mem_pool_size ≡ m.mem_pool_size)

  -- From the first chunk of the run on.
  absorbed-Returns :
      (front : Blocks) (h : Chunk) (rest : Blocks)
      → IsTiled m (front ++ h ∷ rest)
      → h.is_free ≡ true
      → Returns (Walked front h rest) (
          absorb_free
            (suc m.mem_pool_size)
            m.mem_pool_size
            m
            (m.start + total front)
            (m.start + total front + (m.chunk (m.start + total front)).alloc_mem))
  absorbed-Returns front h rest valid is_free =
      let head = header m front h rest valid in
      let here : m.chunk (m.start + total front) ≡ chunk_of h.alloc_mem true =
        head ∙ ground (arith, is_free) in
      let fits = in_region m front h rest valid in
      let big = (bigs m front h rest valid).1 in
      let short = length-le-total rest big.1 in
      let deep =
        absorb_free_lem (suc m.mem_pool_size) m.mem_pool_size m (m.start + total front) h.alloc_mem
          rest (omega (arith, short, fits)) (omega arith) (omega (arith, fits)) valid.bound
          (omega (arith, big.0)) here (Lay-split m.chunk m.start front (h ∷ rest) valid.lay).1.1
          big.1 in
      rw (ap (λ (d : Chunk). d.alloc_mem) head) (
        Returns-mono (Absorbed m (m.start + total front) h.alloc_mem rest) (Walked front h rest)
          (absorb_free (suc m.mem_pool_size) m.mem_pool_size m (m.start + total front)
            (m.start + total front + h.alloc_mem))
          (λ mm' a. (
            join-IsTiled m front h rest mm' valid is_free a,
            ap (λ (k : Memory). k.alloc_list) a.same,
            ap (λ (k : Memory). k.start) a.same,
            ap (λ (k : Memory). k.mem_pool_size) a.same,
          ))
          deep)

  merge_free_chunk_lem :
      (pre : Blocks) (c : Chunk) (post : Blocks)
      → IsTiled m (pre ++ c ∷ post)
      → c.is_free ≡ true
      → Returns (Merged m pre c post) (merge_free_chunk m.mem_pool_size m (m.start + total pre))
  unfolding merge_free_chunk end_chunk
  merge_free_chunk_lem pre c post valid is_free =
      let head = header m pre c post valid in
      let fits = in_region m pre c post valid in
      let big = bigs m pre c post valid in
      let short = length-le-total pre big.0 in
      let reads : Reads m pre = record {
        lay = (Lay-split m.chunk m.start pre (c ∷ post) valid.lay).0;
        feet = (Ends-split m.chunk_end m.start pre c post valid.ends).0;
        big = big.0;
      } in
      let (run, found) =
        first_free_lem m (suc m.mem_pool_size) pre (m.start + total pre)
          (omega (arith, short, fits)) (ap (λ (d : Chunk). d.is_free) head ∙ is_free) reads in
      let h = headed run.run c post run.all_free is_free in
      let parts : pre ++ c ∷ post ≡ run.front ++ h.head ∷ h.rest =
        ap (λ ps. ps ++ c ∷ post) run.parts
        ∙ append_assoc run.front run.run (c ∷ post)
        ∙ ap (λ ps. run.front ++ ps) h.parts in
      let walked =
        absorbed-Returns run.front h.head h.rest (subst (λ cs. IsTiled m cs) parts valid)
          h.is_free in
      let (mm', e, facts) = Returns-some (Walked run.front h.head h.rest) _ walked in
      rw (found, merge_free_chunk)
        (rw (e, merge_free_chunk)
          (record {
            run = run;
            tiled =
                subst
                  (λ n.
                    IsTiled (end_chunk mm' (m.start + total run.front))
                      (run.front ++ chunk_of n true ∷ drop_free post))
                  h.sum
                  (subst
                    (λ cs. IsTiled (end_chunk mm' (m.start + total run.front)) (
                      run.front
                      ++ chunk_of (h.head.alloc_mem + total (free_prefix h.rest)) true ∷ cs))
                    h.behind facts.0);
            alloc_list = facts.1;
            start = facts.2;
            size = facts.3;
          }))

module _ (mm : Memory) (pre : Blocks) (c : Chunk) (post : Blocks)
    (valid : IsTiled mm (pre ++ c ∷ post)) (taken : c.is_free ≡ false) where
  pub free_chunk_lem :
      Returns
        (Merged (release_chunk mm (mm.start + total pre)) pre (chunk_of c.alloc_mem true) post)
        (free_chunk mm.mem_pool_size mm (mm.start + total pre))
  unfolding free_chunk release_chunk
  free_chunk_lem =
      merge_free_chunk_lem (release_chunk mm (mm.start + total pre)) pre (chunk_of c.alloc_mem true)
        post (release_chunk-IsTiled mm pre c post valid taken) refl
