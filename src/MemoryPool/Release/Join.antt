-- ===== src/MemoryPool/Release/Join.antt =====
-- A run of free chunks that merge_free_chunk of proxy/memorypool.cpp makes one.
use proxy_for_distribution_s.Base.{
  ℕ, ◌+◌, ◌-◌, ◌<◌, ◌≡◌, refl, ap, sym, subst, ◌∙◌, true, false, not, ◌&&◌, [], ◌∷◌, ◌++◌, among,
  All, All-append, Option-cases, Bool-cases, inl, inr, arith,
}
use proxy_for_distribution_s.MemoryPool.{
  mp_chunkheader, mp_chunkend, Chunk, chunk_of, Memory, update,
}
use proxy_for_distribution_s.MemoryPool.Blocks.{
  Blocks, total, used, prog, IsBig, block_at, free_at, used_at, Lay, Ends, total-append,
  used-append, prog-append, All-split, block_at-append, block_at_bounds, block_at_below,
}
use proxy_for_distribution_s.MemoryPool.Layout.{
  Lay-split, Lay-append, Lay-frame, Ends-tail, Ends-cons, Ends-split, Ends-append, Feet-frame,
  Ends-frame, IsTiled,
}
use proxy_for_distribution_s.MemoryPool.Marks.{in_region, bigs}
use proxy_for_distribution_s.MemoryPool.Release.{end_chunk}
use proxy_for_distribution_s.MemoryPool.Release.Back.{IsFree}
use proxy_for_distribution_s.MemoryPool.Release.Forward.{free_prefix, drop_free, starts, Absorbed}

pub free_prefix-drop_free : (cs : Blocks) → cs ≡ free_prefix cs ++ drop_free cs
free_prefix-drop_free [] = refl
free_prefix-drop_free (c ∷ cs) = elim (Bool-cases c.is_free) [
  | inl e ↦ ground (arith, free_prefix-drop_free cs, e)
  | inr e ↦ ground (arith, e)
]

pub free_prefix-IsFree : (cs : Blocks) → All IsFree (free_prefix cs)
free_prefix-IsFree [] = tt
free_prefix-IsFree (c ∷ cs) = ground (arith, free_prefix-IsFree cs)

pub drop_free-append : (xs ys : Blocks) → All IsFree xs → drop_free (xs ++ ys) ≡ drop_free ys
drop_free-append [] ys h = refl
drop_free-append (x ∷ xs) ys h = ground (arith, drop_free-append xs ys h.1)

pub free_prefix-append :
    (xs ys : Blocks)
    → All IsFree xs
    → total (free_prefix (xs ++ ys)) ≡ total xs + total (free_prefix ys)
free_prefix-append [] ys h = omega arith
free_prefix-append (x ∷ xs) ys h = ground (arith, free_prefix-append xs ys h.1)

-- Free chunks count nothing and are on one list.
used-free : (cs : Blocks) → All IsFree cs → (used cs ≡ 0) × (prog cs ≡ 0)
used-free [] h = (refl, refl)
used-free (c ∷ cs) h = ground (arith, used-free cs h.1)

flags-free :
    (x s : ℕ) (cs : Blocks)
    → All IsFree cs
    → (free_at (block_at x s cs) ≡ starts (block_at x s cs)) × (used_at (block_at x s cs) ≡ false)
flags-free x s [] h = (refl, refl)
flags-free x s (c ∷ cs) h = ground (arith, flags-free x (s + c.alloc_mem) cs h.1)

Ends-drop : (f : ℕ → ℕ) (s : ℕ) (xs ys : Blocks) → Ends f s (xs ++ ys) → Ends f (s + total xs) ys
Ends-drop f s [] ys h = subst (λ t. Ends f t ys) (omega arith) h
Ends-drop f s (x ∷ xs) ys h =
    subst (λ t. Ends f t ys) (omega arith)
      (Ends-drop f (s + x.alloc_mem) xs ys (Ends-tail f s x (xs ++ ys) h))

-- Where the chunks start once the run `h ∷ run` is one chunk.
module _ (x s : ℕ) (front : Blocks) (h : Chunk) (run rest : Blocks) (big_front : All IsBig front)
    (big_run : All IsBig (h ∷ run)) (is_free : All IsFree (h ∷ run)) where
  joined-free : free_at (block_at x s (front ++ chunk_of (h.alloc_mem + total run) true ∷ rest)) ≡ (
      free_at (block_at x s (front ++ h ∷ (run ++ rest)))
      && not (starts (block_at x (s + total front + h.alloc_mem) run)))
  joined-free =
      let place : s + total front + h.alloc_mem + total run
          ≡ s + total front + (h.alloc_mem + total run) =
        omega arith in
      let now = block_at-append x s front (chunk_of (h.alloc_mem + total run) true ∷ rest) in
      let then_ = block_at-append x s front (h ∷ (run ++ rest)) in
      let tail = block_at-append x (s + total front + h.alloc_mem) run rest in
      let same = ap (λ t. block_at x t rest) place in
      let below = block_at_below x (s + total front + h.alloc_mem + total run) rest in
      let flags = flags-free x (s + total front + h.alloc_mem) run is_free.1 in
      elim (Option-cases (block_at x s front)) [
        | inl e ↦ elim (Option-cases (block_at x (s + total front + h.alloc_mem) run)) [
          | inl e' ↦ ground (arith, now, then_, tail, same, is_free.0, e, e')
          | inr (d, e') ↦
              let inner = block_at_bounds x (s + total front + h.alloc_mem) run d big_run.1 e' in
              ground
                (arith, now, then_, tail, same, is_free.0, big_run.0, flags, below, inner, e, e')
        ]
        | inr (d, e) ↦
            let bounds = block_at_bounds x s front d big_front e in
            let outer = block_at_below x (s + total front + h.alloc_mem) run in
            ground (arith, now, then_, bounds, outer, e)
      ]

  joined-taken :
      used_at (block_at x s (front ++ chunk_of (h.alloc_mem + total run) true ∷ rest))
      ≡ used_at (block_at x s (front ++ h ∷ (run ++ rest)))
  joined-taken =
      let place : s + total front + h.alloc_mem + total run
          ≡ s + total front + (h.alloc_mem + total run) =
        omega arith in
      let now = block_at-append x s front (chunk_of (h.alloc_mem + total run) true ∷ rest) in
      let then_ = block_at-append x s front (h ∷ (run ++ rest)) in
      let tail = block_at-append x (s + total front + h.alloc_mem) run rest in
      let same = ap (λ t. block_at x t rest) place in
      let below = block_at_below x (s + total front + h.alloc_mem + total run) rest in
      let flags = flags-free x (s + total front + h.alloc_mem) run is_free.1 in
      elim (Option-cases (block_at x s front)) [
        | inl e ↦ elim (Option-cases (block_at x (s + total front + h.alloc_mem) run)) [
          | inl e' ↦ ground (arith, now, then_, tail, same, is_free.0, e, e')
          | inr (d, e') ↦
              let inner = block_at_bounds x (s + total front + h.alloc_mem) run d big_run.1 e' in
              ground
                (arith, now, then_, tail, same, is_free.0, big_run.0, flags, below, inner, e, e')
        ]
        | inr (d, e) ↦
            let bounds = block_at_bounds x s front d big_front e in
            ground (arith, now, then_, bounds, e)
      ]

-- The region once the chunks of `run` are part of the one before them.
module _ (mm : Memory) (front : Blocks) (h : Chunk) (rest : Blocks) (mm' : Memory)
    (valid : IsTiled mm (front ++ h ∷ rest)) (is_free : h.is_free ≡ true)
    (a : Absorbed mm (mm.start + total front) h.alloc_mem rest mm') where
  abbrev p1 : ℕ
  p1 = mm.start + total front

  abbrev size : ℕ
  size = h.alloc_mem + total (free_prefix rest)

  abbrev after : Blocks
  after = chunk_of size true ∷ drop_free rest

  whole : front ++ h ∷ rest ≡ front ++ h ∷ (free_prefix rest ++ drop_free rest)
  whole = ap (λ cs. front ++ h ∷ cs) (free_prefix-drop_free rest)

  split : IsTiled mm (front ++ h ∷ (free_prefix rest ++ drop_free rest))
  split = subst (λ cs. IsTiled mm cs) whole valid

  large_parts :
      All IsBig front × IsBig h × All IsBig (free_prefix rest) × All IsBig (drop_free rest)
  large_parts =
      let (big_front, (big, others)) = bigs mm front h rest valid in
      let (run, back) =
        All-split IsBig (free_prefix rest) (drop_free rest)
          (subst (λ cs. All IsBig cs) (free_prefix-drop_free rest) others) in
      (big_front, big, run, back)

  sizes : total rest ≡ total (free_prefix rest) + total (drop_free rest)
  sizes = ap total (free_prefix-drop_free rest) ∙ total-append (free_prefix rest) (drop_free rest)

  join-size : total (front ++ after) ≡ mm.mem_pool_size
  join-size = omega (arith, total-append front after, in_region mm front h rest valid, sizes)

  join-header : a.chunk p1 ≡ chunk_of size true
  join-header = ground (arith, a.headers p1)

  join-Lay : Lay a.chunk mm.start (front ++ after)
  join-Lay =
      let (lay_front, (_, lay_rest)) = Lay-split mm.chunk mm.start front (h ∷ rest) valid.lay in
      let cut =
        subst (λ cs. Lay mm.chunk (p1 + h.alloc_mem) cs) (free_prefix-drop_free rest) lay_rest in
      let (_, lay_back) =
        Lay-split mm.chunk (p1 + h.alloc_mem) (free_prefix rest) (drop_free rest) cut in
      let big = large_parts.1 in
      Lay-append a.chunk mm.start front after
        (Lay-frame mm.chunk a.chunk mm.start front large_parts.0
          (λ x lo hi. ground (arith, a.headers x)) lay_front)
        (
          join-header,
          Lay-frame mm.chunk a.chunk (p1 + size) (drop_free rest) large_parts.3
              (λ x lo hi. ground (arith, a.headers x, big))
              (subst (λ t. Lay mm.chunk t (drop_free rest)) (omega arith) lay_back),
        )

  join-Ends : Ends (update mm.chunk_end (p1 + size - mp_chunkend) p1) mm.start (front ++ after)
  join-Ends =
      let g = update mm.chunk_end (p1 + size - mp_chunkend) p1 in
      let (feet_front, ends_rest) = Ends-split mm.chunk_end mm.start front h rest valid.ends in
      let cut =
        subst (λ cs. Ends mm.chunk_end (p1 + h.alloc_mem) cs) (free_prefix-drop_free rest)
          (Ends-tail mm.chunk_end p1 h rest ends_rest) in
      let back =
        Ends-drop mm.chunk_end (p1 + h.alloc_mem) (free_prefix rest) (drop_free rest) cut in
      let big = large_parts.1 in
      Ends-append g mm.start front after
        (Feet-frame mm.chunk_end g mm.start front large_parts.0 (λ x lo hi. ground (arith, big))
          feet_front)
        (Ends-cons g p1 (chunk_of size true) (drop_free rest) (ground arith) (
          Ends-frame mm.chunk_end g (p1 + size) (drop_free rest) large_parts.3
            (λ x lo hi. ground (arith, big))
            (subst (λ t. Ends mm.chunk_end t (drop_free rest)) (omega arith) back)))

  join-IsBig : mp_chunkheader + mp_chunkend < size
  join-IsBig = let big = large_parts.1 in omega arith

  run-IsFree : All IsFree (h ∷ free_prefix rest)
  run-IsFree = (is_free, free_prefix-IsFree rest)

  join-free : (x : ℕ) → among x a.free_list ≡ free_at (block_at x mm.start (front ++ after))
  join-free x =
      let old = split.free x in
      let now =
        joined-free x mm.start front h (free_prefix rest) (drop_free rest) large_parts.0
          (large_parts.1, large_parts.2) run-IsFree in
      ground (arith, a.gone x, old, now)

  join-taken : (x : ℕ) → among x mm.alloc_list ≡ used_at (block_at x mm.start (front ++ after))
  join-taken x =
      split.taken x
      ∙ sym (
          joined-taken x mm.start front h (free_prefix rest) (drop_free rest) large_parts.0
            (large_parts.1, large_parts.2) run-IsFree)

  join-used :
      (used (front ++ h ∷ rest) ≡ used (front ++ after))
      × (prog (front ++ h ∷ rest) ≡ prog (front ++ after))
  join-used =
      let (no_used, no_prog) = used-free (free_prefix rest) run-IsFree.1 in
      let cut =
        ap used (free_prefix-drop_free rest) ∙ used-append (free_prefix rest) (drop_free rest) in
      let cut_prog =
        ap prog (free_prefix-drop_free rest) ∙ prog-append (free_prefix rest) (drop_free rest) in
      (
        ground
            (arith, cut, no_used, is_free, used-append front (h ∷ rest), used-append front after),
        ground (
          arith,
          cut_prog,
          no_prog,
          is_free,
          prog-append front (h ∷ rest),
          prog-append front after,
        ),
      )

  -- The region is valid again, with one chunk for the run.
  pub join-IsTiled : IsTiled (end_chunk mm' p1) (front ++ after)
  unfolding end_chunk
  join-IsTiled = subst (λ m. IsTiled (end_chunk m p1) (front ++ after)) (sym a.same) built
    where
      built :
          IsTiled
            (end_chunk (record mm { free_list = a.free_list; chunk = a.chunk }) p1)
            (front ++ after)
      built = record {
        size = join-size;
        bound = valid.bound;
        big = All-append IsBig front after large_parts.0 (join-IsBig, large_parts.3);
        lay = join-Lay;
        ends =
            subst
              (λ k. Ends (update mm.chunk_end (p1 + k - mp_chunkend) p1) mm.start (front ++ after))
              (sym (ap (λ (d : Chunk). d.alloc_mem) join-header)) join-Ends;
        free = join-free;
        taken = join-taken;
        counted = valid.counted ∙ join-used.0;
        counted_prog = valid.counted_prog ∙ join-used.1;
      }
