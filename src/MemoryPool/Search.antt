-- ===== src/MemoryPool/Search.antt =====
-- The search of MemoryPoolAlloc in proxy/memorypool.cpp through the regions that it has.
pub mod Grow
use proxy_for_distribution_s.Base.{
  ℕ, zero, suc, ◌+◌, ◌-◌, ◌%◌, ◌≤◌, ◌<◌, ◌≡◌, refl, ap, sym, subst, ◌∙◌, Bool, true, false, Option,
  none, some, List, [], ◌∷◌, ◌++◌, ltb, leb, ◌==◌, if◌then◌else◌, among, All, Returns, Option-cases,
  Bool-cases, inl, inr, ltb→lt, arith,
}
use proxy_for_distribution_s.MemoryPool.{
  mp_chunkheader, mp_chunkend, u64_mod, sub64, add64, align_size, Chunk, Memory, find_free,
  take_chunk, behind, alloc_in, total_needed_size,
}
use proxy_for_distribution_s.MemoryPool.Blocks.{
  Blocks, total, used, total-append, used-append, used-le-total,
}
use proxy_for_distribution_s.MemoryPool.Layout.{IsTiled, IsRegion}
use proxy_for_distribution_s.MemoryPool.Marks.{header}
use proxy_for_distribution_s.MemoryPool.Give.{
  Taken, on_free_list, take_chunk-IsRegion, take_chunk-size,
}

-- A request that does not wrap around is rounded up to the next greater multiple of 8 of what it
-- needs with the header and the pointer at the end.
pub total_needed_size_lem :
    (w : ℕ)
    → w + 48 < u64_mod
    → (w + (mp_chunkheader + mp_chunkend) < total_needed_size w)
      × (total_needed_size w ≤ w + 48)
      × (total_needed_size w % 8 ≡ 0)
unfolding total_needed_size
total_needed_size_lem w h = (omega arith, omega arith, omega arith)

-- A request near the largest number wraps around: the chunk that is looked for is smaller than
-- one for a single byte.
total_needed_size_wraps :
    (w : ℕ) → u64_mod ≤ w + 40 → w < u64_mod → total_needed_size w < total_needed_size 1
unfolding total_needed_size
total_needed_size_wraps w h k = omega arith

-- A valid region, not larger than the pool's first one, with room for a chunk.
abbrev pub IsValid : ℕ → Memory → Type 0
IsValid size mm =
    ((cs : Blocks) × IsRegion mm cs)
    × (mm.mem_pool_size ≤ size)
    × (mp_chunkheader + mp_chunkend < mm.mem_pool_size)

-- No free chunk of the region has room.
abbrev pub IsFull : ℕ → Memory → Type 0
IsFull n mm = (x : ℕ) → among x mm.free_list ≡ true → (mm.chunk x).alloc_mem < n

find_free-some :
    (mm : Memory) (free : List ℕ) (n a : ℕ)
    → find_free mm free n ≡ some a
    → (among a free ≡ true) × (n ≤ (mm.chunk a).alloc_mem)
unfolding find_free among
find_free-some mm [] n a h = absurd (cc)
find_free-some mm (x ∷ free) n a h = ground (arith, find_free-some mm free n a)

find_free-none :
    (mm : Memory) (free : List ℕ) (n : ℕ)
    → find_free mm free n ≡ none
    → (x : ℕ) → among x free ≡ true
    → (mm.chunk x).alloc_mem < n
unfolding find_free among
find_free-none mm [] n h x listed = absurd (cc)
find_free-none mm (y ∷ free) n h x listed =
    let rest = λ (e : find_free mm free n ≡ none). find_free-none mm free n e x in
    ground (arith, rest)

-- A free chunk and the bytes in use fit into the region together.
free-le :
    (mm : Memory) (cs : Blocks) (a : ℕ)
    → IsTiled mm cs
    → among a mm.free_list ≡ true
    → (mm.chunk a).alloc_mem + mm.alloc_mem ≤ mm.mem_pool_size
free-le mm cs a valid listed =
    let h = on_free_list mm cs a valid listed in
    let head = header mm h.pre h.c h.post h.valid in
    let place = ap (λ t. (mm.chunk t).alloc_mem) h.place in
    let size = ap (λ (d : Chunk). d.alloc_mem) head in
    ground (
      arith,
      place,
      size,
      h.is_free,
      h.valid.counted,
      h.valid.size,
      used-append h.pre (h.c ∷ h.post),
      total-append h.pre (h.c ∷ h.post),
      used-le-total h.pre,
      used-le-total h.post,
    )

-- A region that the code passes over has no room.
passed-IsFull :
    (size n : ℕ) (mm : Memory)
    → size < u64_mod
    → IsValid size mm
    → ltb (sub64 size mm.alloc_mem) n ≡ true
    → IsFull n mm
unfolding sub64
passed-IsFull size n mm bound ((cs, region), le, _) e x listed =
    let fits = free-le mm cs x region.tiled listed in let lt = ltb→lt _ _ e in omega arith

-- Where a chunk was found: the regions are as before, but for one, in which a free chunk with room has
-- become the caller's. That region is valid with its new chunks, and the caller's chunk is on its
-- allocated list, not on its free one, and has the bytes asked for and at most 40 more.
pub record Found (n : ℕ) (ms : List Memory) (p : ℕ) (ms' : List Memory) : Type 0 where
  pub front : List Memory
  pub mm : Memory
  pub rest : List Memory
  pub a : ℕ
  pub parts : ms ≡ front ++ mm ∷ rest
  pub now : ms' ≡ front ++ take_chunk mm a n ∷ rest
  pub listed : among a mm.free_list ≡ true
  pub enough : n ≤ (mm.chunk a).alloc_mem
  pub address : p ≡ a + mp_chunkheader
  pub took : (cs : Blocks) × IsRegion (take_chunk mm a n) cs × Taken (take_chunk mm a n) a n

-- What the search says, whatever it finds.
abbrev pub Searched : ℕ → List Memory → Option (ℕ × List Memory) → Type 0
Searched n ms none = All (IsFull n) ms
Searched n ms (some (p, ms')) = Found n ms p ms'

behind-Searched :
    (n : ℕ) (mm : Memory) (ms : List Memory) (o : Option (ℕ × List Memory))
    → IsFull n mm
    → Searched n ms o
    → Searched n (mm ∷ ms) (behind mm o)
behind-Searched n mm ms none full h = (full, h)
behind-Searched n mm ms (some (p, ms')) full h = record {
  front = mm ∷ h.front;
  mm = h.mm;
  rest = h.rest;
  a = h.a;
  parts = ap (λ ks. mm ∷ ks) h.parts;
  now = ap (λ ks. mm ∷ ks) h.now;
  listed = h.listed;
  enough = h.enough;
  address = h.address;
  took = h.took;
}

-- The search through the regions takes the chunk from one of them, or none has room.
pub alloc_in-Searched :
    (size n : ℕ) (ms : List Memory)
    → size < u64_mod
    → mp_chunkheader + mp_chunkend < n
    → All (IsValid size) ms
    → Searched n ms (alloc_in size n ms)
unfolding alloc_in
alloc_in-Searched size n [] bound big h = tt
alloc_in-Searched size n (mm ∷ ms) bound big h =
    let rest = alloc_in-Searched size n ms bound big h.1 in
    elim (Bool-cases (ltb (sub64 size mm.alloc_mem) n)) [
      | inl e ↦
          rw e (
            behind-Searched n mm ms (alloc_in size n ms) (passed-IsFull size n mm bound h.0 e) rest)
      | inr e ↦ elim (Option-cases (find_free mm mm.free_list n)) [
        | inl none_free ↦
            rw (e, none_free)
              (behind-Searched n mm ms (alloc_in size n ms)
                (find_free-none mm mm.free_list n none_free) rest)
        | inr (a, found) ↦
            let (listed, enough) = find_free-some mm mm.free_list n a found in
            rw (e, found)
              (record {
                front = [];
                mm = mm;
                rest = ms;
                a = a;
                parts = refl;
                now = refl;
                listed = listed;
                enough = enough;
                address = refl;
                took = take_chunk-IsRegion mm h.0.0.0 a n h.0.0.1 listed enough big;
              })
      ]
    ]
