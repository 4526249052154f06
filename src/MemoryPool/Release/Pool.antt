-- ===== src/MemoryPool/Release/Pool.antt =====
-- MemoryPoolInit, MemoryPoolFree and MemoryPoolClear of proxy/memorypool.cpp on a whole pool.
use proxy_for_distribution_s.Base.{
  ℕ, ◌+◌, ◌-◌, ◌≤◌, ◌<◌, ◌≡◌, ◌⊎◌, refl, ap, sym, subst, ◌∙◌, Bool, true, false, ◌&&◌, Option, some,
  List, [], ◌∷◌, ◌++◌, map, ltb, leb, ◌==◌, if◌then◌else◌, among, All, All-append, Returns,
  Returns-some, Bool-cases, inl, inr, arith,
}
use proxy_for_distribution_s.MemoryPool.{
  mp_chunkheader, mp_chunkend, null, u64_mod, Memory, MemoryPool, Fresh, chunk_of,
  init_memory_struct, memory_at, new_memory,
}
use proxy_for_distribution_s.MemoryPool.Layout.{IsRegion}
use proxy_for_distribution_s.MemoryPool.Marks.{in_region, bigs}
use proxy_for_distribution_s.MemoryPool.Give.{on_alloc_list}
use proxy_for_distribution_s.MemoryPool.Search.{IsValid}
use proxy_for_distribution_s.MemoryPool.Search.Grow.{
  IsPool, sizes, sizes-append, All-part, init_memory_struct-IsRegion,
}
use proxy_for_distribution_s.MemoryPool.Release.{
  Place, find_memory_list, first_memory, free_chunk, memory_pool_free, memory_pool_init,
  memory_pool_clear,
}
use proxy_for_distribution_s.MemoryPool.Release.Laws.{Given, free_chunk-IsRegion}

-- An address is not in the bytes that the search takes for a region's.
abbrev pub IsElsewhere : ℕ → ℕ → Memory → Type 0
IsElsewhere size p mm = (p < mm.start) ⊎ (mm.start + size ≤ p)

abbrev place : List Memory → Memory → List Memory → Place
place front mm rest = record { before = front; mm = mm; after = rest }

find_memory_list_lem :
    (size p : ℕ) (front : List Memory) (mm : Memory) (rest : List Memory)
    → All (IsElsewhere size p) front
    → mm.start ≤ p
    → p < mm.start + size
    → find_memory_list size p (front ++ mm ∷ rest) ≡ some (place front mm rest)
unfolding find_memory_list
find_memory_list_lem size p [] mm rest h lo hi =
    let inside : (leb mm.start p && ltb p (mm.start + size)) ≡ true = ground arith in rw inside refl
find_memory_list_lem size p (k ∷ front) mm rest h lo hi =
    let outside : (leb k.start p && ltb p (k.start + size)) ≡ false = ground (arith, h.0) in
    rw (outside, find_memory_list_lem size p front mm rest h.1 lo hi) refl

-- The region that the pool finds for an address.
abbrev found_place : MemoryPool → ℕ → Option Place
found_place mp p =
    if mp.auto_extend then find_memory_list mp.mem_pool_size p mp.mlist else first_memory mp.mlist

found_place_lem :
    (mp : MemoryPool) (p : ℕ) (front : List Memory) (mm : Memory) (rest : List Memory)
    → mp.mlist ≡ front ++ mm ∷ rest
    → ((mp.auto_extend ≡ true) × All (IsElsewhere mp.mem_pool_size p) front) ⊎ (front ≡ [])
    → mm.start ≤ p
    → p < mm.start + mp.mem_pool_size
    → found_place mp p ≡ some (place front mm rest)
unfolding first_memory
found_place_lem mp p front mm rest parts (inl (extend, apart)) lo hi =
    rw (extend, parts) (find_memory_list_lem mp.mem_pool_size p front mm rest apart lo hi)
found_place_lem mp p front mm rest parts (inr first) lo hi =
    let ms : mp.mlist ≡ mm ∷ rest = parts ∙ ap (λ ks. ks ++ mm ∷ rest) first in
    let here = find_memory_list_lem mp.mem_pool_size p [] mm rest tt lo hi in
    let whole : some (place [] mm rest) ≡ some (place front mm rest) =
      ap (λ ks. some (place ks mm rest)) (sym first) in
    elim (Bool-cases mp.auto_extend) [
      | inl e ↦ rw (e, ms) (here ∙ whole)
      | inr e ↦ rw (e, ms) whole
    ]

-- The pool after a chunk went back to one of its regions.
abbrev pub with_region : MemoryPool → List Memory → Memory → List Memory → MemoryPool
with_region mp front mm rest = record mp { mlist = front ++ mm ∷ rest }

with_region-IsPool :
    (mp : MemoryPool) (front : List Memory) (mm : Memory) (rest : List Memory) (mm' : Memory)
    (a : ℕ)
    → IsPool mp
    → mp.mlist ≡ front ++ mm ∷ rest
    → Given mm a mm'
    → IsPool (with_region mp front mm' rest)
with_region-IsPool mp front mm rest mm' a pool parts (region, taken, start, size) =
    let valid = subst (All (IsValid mp.mem_pool_size)) parts pool.regions in
    let (before, (_, le, room), after) = All-part (IsValid mp.mem_pool_size) front mm rest valid in
    let now : IsValid mp.mem_pool_size mm' = (region, omega (arith, size), omega (arith, size)) in
    record {
      regions = All-append (IsValid mp.mem_pool_size) front (mm' ∷ rest) before (now, after);
      big = pool.big;
      room = pool.room;
      bound = pool.bound;
      sum = omega (
        arith,
        pool.sum,
        ap sizes parts,
        sizes-append front (mm ∷ rest),
        sizes-append front (mm' ∷ rest),
        size,
      );
      low = pool.low;
      limit = pool.limit;
    }

-- What MemoryPoolFree makes of a pool: 0, and only the region changes.
abbrev pub Freed :
    MemoryPool → List Memory → Memory → List Memory → ℕ → ℕ × Option MemoryPool → Type 0
Freed mp front mm rest a r =
    (mm' : Memory) × (r ≡ (0, some (with_region mp front mm' rest)))
    × Given mm a mm'
    × IsPool (with_region mp front mm' rest)

-- MemoryPoolFree of an address that a valid pool gave for a chunk of one of its regions. Where
-- that region has the size of the first, and no region before it in the list may be taken for it,
-- the call ends and returns 0: it gives the chunk back to that region, which is valid again, and
-- leaves the other regions as they were; and the pool is valid.
pub memory_pool_free_lem :
    (mp : MemoryPool) (front : List Memory) (mm : Memory) (rest : List Memory) (a : ℕ)
    → IsPool mp
    → mp.mlist ≡ front ++ mm ∷ rest
    → mm.mem_pool_size ≡ mp.mem_pool_size
    → among a mm.alloc_list ≡ true
    → ((mp.auto_extend ≡ true) × All (IsElsewhere mp.mem_pool_size (a + mp_chunkheader)) front)
      ⊎ (front ≡ [])
    → Returns (Freed mp front mm rest a) (memory_pool_free (some mp) (a + mp_chunkheader))
unfolding memory_pool_free
memory_pool_free_lem mp front mm rest a pool parts size listed where_ =
    let valid = subst (All (IsValid mp.mem_pool_size)) parts pool.regions in
    let (_, ((cs, region), _, _), _) = All-part (IsValid mp.mem_pool_size) front mm rest valid in
    let h = on_alloc_list mm cs a region.tiled listed in
    let big = (bigs mm h.pre h.c h.post h.valid).1.0 in
    let fits = in_region mm h.pre h.c h.post h.valid in
    let found =
      found_place_lem mp (a + mp_chunkheader) front mm rest parts where_ (omega (arith, h.place))
        (omega (arith, h.place, fits, big, size)) in
    let back : a + mp_chunkheader - mp_chunkheader ≡ a = omega arith in
    let not_null : (a + mp_chunkheader == null) ≡ false = ground arith in
    let freed =
      subst (λ n. Returns (Given mm a) (free_chunk n mm a)) size
        (free_chunk-IsRegion mm cs a region listed) in
    let (mm', e, given) = Returns-some (Given mm a) (free_chunk mp.mem_pool_size mm a) freed in
    let done = subst (λ t. free_chunk mp.mem_pool_size mm t ≡ some mm') (sym back) e in
    rw (not_null, memory_pool_free)
      (rw (found, memory_pool_free)
        (rw (done, memory_pool_free)
          (mm', refl, given, with_region-IsPool mp front mm rest mm' a pool parts given)))

-- MemoryPoolInit, where both blocks were allocated and the sizes are in range, gives a valid pool,
-- whatever was in auto_extend before.
pub memory_pool_init-IsPool :
    (garbage : Bool) (s : Fresh) (maxmempoolsize mempoolsize : ℕ)
    → mp_chunkheader + mp_chunkend < mempoolsize
    → (maxmempoolsize ≡ mempoolsize)
      ⊎ (mempoolsize + (mp_chunkheader + mp_chunkend) < maxmempoolsize)
    → maxmempoolsize + mempoolsize < u64_mod
    → Returns IsPool (memory_pool_init garbage true (some s) maxmempoolsize mempoolsize)
unfolding memory_pool_init new_memory init_memory_struct
memory_pool_init-IsPool garbage s maxmempoolsize mempoolsize big room bound =
    let fits : ltb maxmempoolsize mempoolsize ≡ false = ground (arith, room) in
    let region =
      init_memory_struct-IsRegion (memory_at s 0 mempoolsize) mempoolsize big (omega arith) in
    rw fits (record {
      regions = (((chunk_of mempoolsize true ∷ [], region), omega arith, omega arith), tt);
      big = big;
      room = room;
      bound = bound;
      sum = omega arith;
      low = omega arith;
      limit = omega arith;
    })

cleared : Memory → Memory
cleared mm = init_memory_struct mm mm.mem_pool_size

cleared-IsValid :
    (size : ℕ) (mm : Memory) → size < u64_mod → IsValid size mm → IsValid size (cleared mm)
unfolding cleared init_memory_struct
cleared-IsValid size mm bound (_, le, big) = (
  (
    chunk_of mm.mem_pool_size true ∷ [],
    init_memory_struct-IsRegion mm mm.mem_pool_size big (omega arith),
  ),
  le,
  big,
)

-- Every region is one free chunk, of the size and at the place that it had.
abbrev pub AllCleared : List Memory → List Memory → Type 0
AllCleared [] [] = Unit
AllCleared [] (k ∷ ks) = ⊥
AllCleared (mm ∷ ms) [] = ⊥
AllCleared (mm ∷ ms) (k ∷ ks) =
    IsRegion k (chunk_of mm.mem_pool_size true ∷ [])
    × (k.start ≡ mm.start)
    × (k.mem_pool_size ≡ mm.mem_pool_size)
    × AllCleared ms ks

cleared_regions :
    (size : ℕ) (ms : List Memory)
    → size < u64_mod
    → All (IsValid size) ms
    → AllCleared ms (map cleared ms)
      × All (IsValid size) (map cleared ms)
      × (sizes (map cleared ms) ≡ sizes ms)
unfolding cleared init_memory_struct
cleared_regions size [] bound h = (tt, tt, refl)
cleared_regions size (mm ∷ ms) bound h =
    let (all, valid, sum) = cleared_regions size ms bound h.1 in
    let (_, le, big) = h.0 in
    (
      (init_memory_struct-IsRegion mm mm.mem_pool_size big (omega arith), refl, refl, all),
      (cleared-IsValid size mm bound h.0, valid),
      omega (arith, sum),
    )

-- MemoryPoolClear keeps a pool valid, with the regions that it has grown by, and makes each of
-- them one free chunk.
pub memory_pool_clear_lem :
    (mp : MemoryPool)
    → IsPool mp
    → Returns (λ mp'. IsPool mp' × AllCleared mp.mlist mp'.mlist) (memory_pool_clear (some mp))
unfolding memory_pool_clear cleared
memory_pool_clear_lem mp pool =
    let (all, valid, sum) =
      cleared_regions mp.mem_pool_size mp.mlist (omega (arith, pool.bound)) pool.regions in
    (
      record {
        regions = valid;
        big = pool.big;
        room = pool.room;
        bound = pool.bound;
        sum = pool.sum ∙ sym sum;
        low = pool.low;
        limit = pool.limit;
      },
      all,
    )
