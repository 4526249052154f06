-- ===== src/MemoryPool/Give.antt =====
-- What a caller of MemoryPoolAlloc of proxy/memorypool.cpp has of the chunk that was taken.
use proxy_for_distribution_s.Base.{
  Option, none, some, ℕ, ◌+◌, ◌-◌, ◌≤◌, ◌<◌, ◌≡◌, refl, ap, sym, subst, ◌∙◌, Bool, true, false, not,
  [], ◌∷◌, ◌++◌, ltb, among, Bool-cases, inl, inr, arith,
}
use proxy_for_distribution_s.MemoryPool.{
  mp_chunkheader, mp_chunkend, Chunk, chunk_of, Memory, split_chunk, whole_chunk, count_chunk,
  take_chunk,
}
use proxy_for_distribution_s.MemoryPool.Blocks.{
  Blocks, total, block_at, free_at, used_at, Apart, block_at-Found,
}
use proxy_for_distribution_s.MemoryPool.Layout.{IsTiled, IsRegion}
use proxy_for_distribution_s.MemoryPool.Marks.{header, listed_free, listed_taken}
use proxy_for_distribution_s.MemoryPool.Take.{pieces, take_chunk-IsTiled, pieces-Apart}

used_at-some :
    (o : Option Chunk) → used_at o ≡ true → (c : Chunk) × (o ≡ some c) × (c.is_free ≡ false)
used_at-some none h = absurd (cc)
used_at-some (some c) h = (c, refl, ground (arith, h))

free_at-some :
    (o : Option Chunk) → free_at o ≡ true → (c : Chunk) × (o ≡ some c) × (c.is_free ≡ true)
free_at-some none h = absurd (cc)
free_at-some (some c) h = (c, refl, h)

-- A chunk on one of the lists, with the region around it.
pub record Here (mm : Memory) (cs : Blocks) (a : ℕ) (b : Bool) : Type 0 where
  pub pre : Blocks
  pub c : Chunk
  pub post : Blocks
  pub parts : cs ≡ pre ++ c ∷ post
  pub place : a ≡ mm.start + total pre
  pub is_free : c.is_free ≡ b
  pub valid : IsTiled mm (pre ++ c ∷ post)

here :
    (mm : Memory) (cs : Blocks) (a : ℕ) (b : Bool) (c : Chunk)
    → IsTiled mm cs
    → block_at a mm.start cs ≡ some c
    → c.is_free ≡ b
    → Here mm cs a b
here mm cs a b c valid e is_free =
    let found = block_at-Found a mm.start cs c e in
    record {
      pre = found.pre;
      c = c;
      post = found.post;
      parts = found.parts;
      place = found.place;
      is_free = is_free;
      valid = subst (λ ds. IsTiled mm ds) found.parts valid;
    }

pub on_free_list :
    (mm : Memory) (cs : Blocks) (a : ℕ)
    → IsTiled mm cs
    → among a mm.free_list ≡ true
    → Here mm cs a true
on_free_list mm cs a valid listed =
    let (c, e, is_free) = free_at-some (block_at a mm.start cs) (sym (valid.free a) ∙ listed) in
    here mm cs a true c valid e is_free

pub on_alloc_list :
    (mm : Memory) (cs : Blocks) (a : ℕ)
    → IsTiled mm cs
    → among a mm.alloc_list ≡ true
    → Here mm cs a false
on_alloc_list mm cs a valid listed =
    let (c, e, is_free) = used_at-some (block_at a mm.start cs) (sym (valid.taken a) ∙ listed) in
    here mm cs a false c valid e is_free

-- The bytes that the caller gets are those of the chunk, and there are enough of them.
pub pieces-head :
    (c : Chunk) (n : ℕ)
    → n ≤ c.alloc_mem
    → (u : Chunk) × (rest : Blocks) × (pieces c n ≡ u ∷ rest)
      × (u.is_free ≡ false)
      × (n ≤ u.alloc_mem)
      × (u.alloc_mem ≤ n + (mp_chunkheader + mp_chunkend))
unfolding pieces
pieces-head c n h = elim (Bool-cases (ltb (mp_chunkheader + mp_chunkend) (c.alloc_mem - n))) [
  | inl e ↦ (
    chunk_of n false,
    chunk_of (c.alloc_mem - n) true ∷ [],
    ground (arith, e),
    refl,
    omega arith,
    omega arith,
  )
  | inr e ↦ (chunk_of c.alloc_mem false, [], ground (arith, e), refl, h, ground (arith, e))
]

-- What the caller's chunk is in the region afterwards.
abbrev pub Taken : Memory → ℕ → ℕ → Type 0
Taken mm' a n =
    (among a mm'.free_list ≡ false)
    × (among a mm'.alloc_list ≡ true)
    × (n ≤ (mm'.chunk a).alloc_mem)
    × ((mm'.chunk a).alloc_mem ≤ n + (mp_chunkheader + mp_chunkend))

pub take_chunk-start : (mm : Memory) (a n : ℕ) → (take_chunk mm a n).start ≡ mm.start
unfolding take_chunk count_chunk split_chunk whole_chunk
take_chunk-start mm a n = ground arith

pub take_chunk-size : (mm : Memory) (a n : ℕ) → (take_chunk mm a n).mem_pool_size ≡ mm.mem_pool_size
unfolding take_chunk count_chunk split_chunk whole_chunk
take_chunk-size mm a n = ground arith

Taken-intro :
    (mm' : Memory) (pre : Blocks) (u : Chunk) (rest : Blocks) (a n : ℕ)
    → IsTiled mm' (pre ++ u ∷ rest)
    → mm'.start + total pre ≡ a
    → u.is_free ≡ false
    → n ≤ u.alloc_mem
    → u.alloc_mem ≤ n + (mp_chunkheader + mp_chunkend)
    → Taken mm' a n
Taken-intro mm' pre u rest a n valid place taken lo hi =
    subst (λ t. Taken mm' t n) place
      (let size = ap (λ (d : Chunk). d.alloc_mem) (header mm' pre u rest valid) in
        (
          listed_free mm' pre u rest valid ∙ taken,
          listed_taken mm' pre u rest valid ∙ ap not taken,
          omega (arith, size, lo),
          omega (arith, size, hi),
        ))

take_at :
    (mm : Memory) (pre : Blocks) (c : Chunk) (post : Blocks) (n : ℕ)
    → IsTiled mm (pre ++ c ∷ post)
    → c.is_free ≡ true
    → Apart (pre ++ c ∷ post)
    → n ≤ c.alloc_mem
    → mp_chunkheader + mp_chunkend < n
    → (cs' : Blocks) × IsRegion (take_chunk mm (mm.start + total pre) n) cs'
      × Taken (take_chunk mm (mm.start + total pre) n) (mm.start + total pre) n
take_at mm pre c post n valid is_free apart enough big =
    let mm' = take_chunk mm (mm.start + total pre) n in
    let tiled = take_chunk-IsTiled mm pre c post valid is_free n enough big in
    let (u, rest, parts, taken, lo, hi) = pieces-head c n enough in
    (
      pre ++ (pieces c n ++ post),
      record { tiled = tiled; apart = pieces-Apart mm pre c post valid is_free n apart },
      Taken-intro mm' pre u (rest ++ post) (mm.start + total pre) n
          (subst (λ ps. IsTiled mm' (pre ++ (ps ++ post))) parts tiled)
          (ap (λ t. t + total pre) (take_chunk-start mm (mm.start + total pre) n)) taken lo hi,
    )

-- A chunk that is taken from a valid region leaves it valid: its chunks lie end to end, no two free
-- ones side by side, and both lists and both counts are right. The chunk is on the
-- allocated list and not on the free one, and it has the bytes asked for and at most 40 more.
pub take_chunk-IsRegion :
    (mm : Memory) (cs : Blocks) (a n : ℕ)
    → IsRegion mm cs
    → among a mm.free_list ≡ true
    → n ≤ (mm.chunk a).alloc_mem
    → mp_chunkheader + mp_chunkend < n
    → (cs' : Blocks) × IsRegion (take_chunk mm a n) cs' × Taken (take_chunk mm a n) a n
take_chunk-IsRegion mm cs a n region listed enough big =
    let h = on_free_list mm cs a region.tiled listed in
    let fits = subst (λ t. n ≤ (mm.chunk t).alloc_mem) h.place enough in
    let size = ap (λ (d : Chunk). d.alloc_mem) (header mm h.pre h.c h.post h.valid) in
    subst (λ t. (cs' : Blocks) × IsRegion (take_chunk mm t n) cs' × Taken (take_chunk mm t n) t n)
      (sym h.place)
      (take_at mm h.pre h.c h.post n h.valid h.is_free (subst Apart h.parts region.apart)
        (omega (arith, size, fits)) big)
