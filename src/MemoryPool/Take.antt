-- ===== src/MemoryPool/Take.antt =====
-- A chunk that is taken from a valid region, by the loop of MemoryPoolAlloc in
-- proxy/memorypool.cpp.
use proxy_for_distribution_s.Base.{
  ℕ, ◌+◌, ◌-◌, ◌≤◌, ◌<◌, ◌≡◌, refl, ap, subst, ◌∙◌, true, false, List, [], ◌∷◌, ◌++◌, ltb,
  if◌then◌else◌, among, All-append, Option-cases, Bool-cases, ltb→lt, inl, inr, arith,
}
use proxy_for_distribution_s.MemoryPool.{
  mp_chunkheader, mp_chunkend, add64, sub64, Chunk, chunk_of, Memory, split_chunk, whole_chunk,
  count_chunk, take_chunk, move_node,
}
use proxy_for_distribution_s.MemoryPool.Blocks.{
  Blocks, total, IsBig, block_at, free_at, used_at, Lay, Ends, Apart, total-append, used-append,
  prog-append, used-le-total, prog-le-used, block_at-append, block_at_bounds, block_at_below,
  Apart-append, Apart-split,
}
use proxy_for_distribution_s.MemoryPool.Layout.{
  Lay-split, Lay-append, Lay-frame, Ends-tail, Ends-cons, Ends-split, Ends-append, Feet-frame,
  Ends-frame, IsTiled,
}
use proxy_for_distribution_s.MemoryPool.Marks.{
  header, in_region, bigs, listed_free, mark_large, mark-Lay, mark-Ends, mark-block_at,
}
use proxy_for_distribution_s.MemoryPool.Links.{among-dlinklist_del, among-move_node}

-- What becomes of the free chunk `c` when `n` bytes are asked for.
unfoldable pub pieces : Chunk → ℕ → Blocks
pieces c n =
    if ltb (mp_chunkheader + mp_chunkend) (c.alloc_mem - n)
    then chunk_of n false ∷ chunk_of (c.alloc_mem - n) true ∷ []
    else chunk_of c.alloc_mem false ∷ []

module _ (mm : Memory) (pre : Blocks) (c : Chunk) (post : Blocks)
    (valid : IsTiled mm (pre ++ c ∷ post)) (is_free : c.is_free ≡ true) where
  module _ (n : ℕ) (enough : n ≤ c.alloc_mem) (big : mp_chunkheader + mp_chunkend < n) where
    split-Lay :
        mp_chunkheader + mp_chunkend < c.alloc_mem - n
        → Lay
            (split_chunk mm (mm.start + total pre) n).chunk
            mm.start
            (pre ++ chunk_of n false ∷ chunk_of (c.alloc_mem - n) true ∷ post)
    unfolding split_chunk
    split-Lay room =
        let large_parts = bigs mm pre c post valid in
        let (front, back) = Lay-split mm.chunk mm.start pre (c ∷ post) valid.lay in
        Lay-append _ mm.start pre _
          (Lay-frame mm.chunk _ mm.start pre large_parts.0 (λ x lo hi. ground arith) front)
          (
            ground arith,
            (
              ground (arith, header mm pre c post valid),
              Lay-frame mm.chunk _ (mm.start + total pre + n + (c.alloc_mem - n)) post
                  large_parts.1.1 (λ x lo hi. ground arith)
                  (subst (λ t. Lay mm.chunk t post) (omega arith) back.1),
            ),
          )

    split-Ends :
        mp_chunkheader + mp_chunkend < c.alloc_mem - n
        → Ends
            (split_chunk mm (mm.start + total pre) n).chunk_end
            mm.start
            (pre ++ chunk_of n false ∷ chunk_of (c.alloc_mem - n) true ∷ post)
    unfolding split_chunk
    split-Ends room =
        let g = (split_chunk mm (mm.start + total pre) n).chunk_end in
        let large_parts = bigs mm pre c post valid in
        let (front, back) = Ends-split mm.chunk_end mm.start pre c post valid.ends in
        let size = ap (λ (d : Chunk). d.alloc_mem) (header mm pre c post valid) in
        let post_ends : Ends mm.chunk_end (mm.start + total pre + n + (c.alloc_mem - n)) post =
          subst (λ t. Ends mm.chunk_end t post) (omega arith)
            (Ends-tail mm.chunk_end (mm.start + total pre) c post back) in
        Ends-append g mm.start pre _
          (Feet-frame mm.chunk_end g mm.start pre large_parts.0 (λ x lo hi. ground (arith, size))
            front)
          (
            ground (arith, size),
            Ends-cons g (mm.start + total pre + n) (chunk_of (c.alloc_mem - n) true) post
                (ground (arith, size))
                (Ends-frame mm.chunk_end g (mm.start + total pre + n + (c.alloc_mem - n)) post
                  large_parts.1.1 (λ x lo hi. ground (arith, size)) post_ends),
          )

    -- Where the chunks of the region start, before and after.
    split-free :
        (x : ℕ) (free : List ℕ)
        → among x free ≡ free_at (block_at x mm.start (pre ++ c ∷ post))
        → among (mm.start + total pre) free ≡ true
        → among x (move_node (mm.start + total pre) (mm.start + total pre + n) free)
          ≡ free_at (
              block_at x mm.start
                (pre ++ chunk_of n false ∷ chunk_of (c.alloc_mem - n) true ∷ post))
    split-free x free old here =
        let behind : mm.start + total pre + n + (c.alloc_mem - n)
            ≡ mm.start + total pre + c.alloc_mem =
          omega arith in
        let large_parts = bigs mm pre c post valid in
        let now =
          block_at-append x mm.start pre
            (chunk_of n false ∷ chunk_of (c.alloc_mem - n) true ∷ post) in
        let then_ = block_at-append x mm.start pre (c ∷ post) in
        let same = ap (λ t. block_at x t post) behind in
        let below = block_at_below x (mm.start + total pre + c.alloc_mem) post in
        let moved = among-move_node x (mm.start + total pre) (mm.start + total pre + n) free in
        elim (Option-cases (block_at x mm.start pre)) [
          | inl e ↦ ground (arith, old, here, now, then_, same, below, moved, e)
          | inr (d, e) ↦
              let bounds = block_at_bounds x mm.start pre d large_parts.0 e in
              ground (arith, old, now, then_, moved, bounds, e)
        ]

    split-taken :
        mp_chunkheader + mp_chunkend < c.alloc_mem - n
        → (x : ℕ) (taken : List ℕ) → among x taken ≡ used_at (block_at x mm.start (pre ++ c ∷ post))
        → among x ((mm.start + total pre) ∷ taken)
          ≡ used_at (
              block_at x mm.start
                (pre ++ chunk_of n false ∷ chunk_of (c.alloc_mem - n) true ∷ post))
    unfolding among
    split-taken room x taken old =
        let behind : mm.start + total pre + n + (c.alloc_mem - n)
            ≡ mm.start + total pre + c.alloc_mem =
          omega arith in
        let large_parts = bigs mm pre c post valid in
        let now =
          block_at-append x mm.start pre
            (chunk_of n false ∷ chunk_of (c.alloc_mem - n) true ∷ post) in
        let then_ = block_at-append x mm.start pre (c ∷ post) in
        let same = ap (λ t. block_at x t post) behind in
        let below = block_at_below x (mm.start + total pre + c.alloc_mem) post in
        elim (Option-cases (block_at x mm.start pre)) [
          | inl e ↦ ground (arith, old, now, then_, same, below, e)
          | inr (d, e) ↦
              let bounds = block_at_bounds x mm.start pre d large_parts.0 e in
              ground (arith, old, now, then_, bounds, e)
        ]

    split-IsTiled :
        mp_chunkheader + mp_chunkend < c.alloc_mem - n
        → IsTiled
            (count_chunk (split_chunk mm (mm.start + total pre) n) (mm.start + total pre))
            (pre ++ chunk_of n false ∷ chunk_of (c.alloc_mem - n) true ∷ post)
    unfolding count_chunk split_chunk add64 sub64
    split-IsTiled room =
        let large_parts = bigs mm pre c post valid in
        let cs' : Blocks = chunk_of n false ∷ chunk_of (c.alloc_mem - n) true ∷ post in
        let old_used = used-append pre (c ∷ post) in
        let new_used = used-append pre cs' in
        let used_le = used-le-total (pre ++ cs') in
        let size : total (pre ++ cs') ≡ mm.mem_pool_size =
          omega (arith, in_region mm pre c post valid, total-append pre cs') in
        record {
          size = size;
          bound = valid.bound;
          big = All-append IsBig pre cs' large_parts.0 (big, (room, large_parts.1.1));
          lay = split-Lay room;
          ends = split-Ends room;
          free = λ x.
              split-free x mm.free_list (valid.free x) (listed_free mm pre c post valid ∙ is_free);
          taken = λ x. split-taken room x mm.alloc_list (valid.taken x);
          counted =
              ground
                (arith, size, valid.counted, valid.bound, old_used, new_used, used_le, is_free);
          counted_prog = ground (
            arith,
            size,
            valid.counted_prog,
            valid.bound,
            prog-append pre (c ∷ post),
            prog-append pre cs',
            prog-le-used (pre ++ cs'),
            used_le,
            is_free,
          );
        }

  whole-IsTiled :
      IsTiled
        (count_chunk (whole_chunk mm (mm.start + total pre)) (mm.start + total pre))
        (pre ++ chunk_of c.alloc_mem false ∷ post)
  unfolding count_chunk whole_chunk add64 sub64 among
  whole-IsTiled =
      let a = mm.start + total pre in
      let head = header mm pre c post valid in
      let cs' : Blocks = chunk_of c.alloc_mem false ∷ post in
      let mark = λ (x : ℕ). mark-block_at mm pre c post valid false x in
      let size : total (pre ++ cs') ≡ mm.mem_pool_size =
        omega (arith, in_region mm pre c post valid, total-append pre cs') in
      let used_le = used-le-total (pre ++ cs') in
      record {
        size = size;
        bound = valid.bound;
        big = mark_large mm pre c post valid false;
        lay = rw head (mark-Lay mm pre c post valid false);
        ends = mark-Ends mm pre c post valid false;
        free = λ x. ground (arith, mark x, among-dlinklist_del x a mm.free_list, valid.free x);
        taken = λ x. ground (arith, mark x, valid.taken x);
        counted = ground (
          arith,
          head,
          size,
          valid.counted,
          valid.bound,
          used-append pre (c ∷ post),
          used-append pre cs',
          used_le,
          is_free,
        );
        counted_prog = ground (
          arith,
          head,
          size,
          valid.counted_prog,
          valid.bound,
          prog-append pre (c ∷ post),
          prog-append pre cs',
          prog-le-used (pre ++ cs'),
          used_le,
          is_free,
          (bigs mm pre c post valid).1.0,
        );
      }

  pub take_chunk-IsTiled :
      (n : ℕ)
      → n ≤ c.alloc_mem
      → mp_chunkheader + mp_chunkend < n
      → IsTiled (take_chunk mm (mm.start + total pre) n) (pre ++ (pieces c n ++ post))
  unfolding take_chunk pieces
  take_chunk-IsTiled n enough big =
      let size : (mm.chunk (mm.start + total pre)).alloc_mem ≡ c.alloc_mem =
        ap (λ (d : Chunk). d.alloc_mem) (header mm pre c post valid) in
      let fits = λ (k : ℕ). ltb (mp_chunkheader + mp_chunkend) (k - n) in
      elim (Bool-cases (ltb (mp_chunkheader + mp_chunkend) (c.alloc_mem - n))) [
        | inl e ↦ rw (ap fits size ∙ e, e) (split-IsTiled n enough big (ltb→lt _ _ e))
        | inr e ↦ rw (ap fits size ∙ e, e) whole-IsTiled
      ]

  -- A chunk behind one that is given away has none free before it.
  pub pieces-Apart : (n : ℕ) → Apart (pre ++ c ∷ post) → Apart (pre ++ (pieces c n ++ post))
  unfolding pieces
  pieces-Apart n apart =
      let (front, back, between) = Apart-split pre (c ∷ post) apart in
      let (behind, rest) = back in
      elim (Bool-cases (ltb (mp_chunkheader + mp_chunkend) (c.alloc_mem - n))) [
        | inl e ↦ rw e (
            Apart-append pre (chunk_of n false ∷ chunk_of (c.alloc_mem - n) true ∷ post) front
              (refl, (ground (arith, behind, is_free), rest)) (ground arith))
        | inr e ↦
            rw e (
              Apart-append pre (chunk_of c.alloc_mem false ∷ post) front (refl, rest)
                (ground arith))
      ]
