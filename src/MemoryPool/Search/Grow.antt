-- ===== src/MemoryPool/Search/Grow.antt =====
-- MemoryPoolAlloc of proxy/memorypool.cpp from FIND_FREE_CHUNK on: the search, and the pool that
-- grows by a region where the search finds nothing.
use mathlib.Core.List.{append_assoc}
use proxy_for_distribution_s.Base.{
  ℕ, zero, suc, ◌+◌, ◌-◌, ◌%◌, ◌≤◌, ◌<◌, ◌≡◌, ◌⊎◌, refl, ap, sym, subst, ◌∙◌, true, false, ◌&&◌,
  Option, none, List, [], ◌∷◌, ◌++◌, ltb, among, All, All-append, Returns, Returns-mono,
  Option-cases, Bool-cases, inl, inr, arith,
}
use proxy_for_distribution_s.MemoryPool.{
  mp_chunkheader, mp_chunkend, null, u32_mod, u64_mod, add64, sub64, chunk_of, Memory, MemoryPool,
  Fresh, init_memory_struct, memory_at, new_memory, extend_memory_list, add_mem_sz, alloc_in,
  take_chunk, find_free_chunk, total_needed_size,
}
use proxy_for_distribution_s.MemoryPool.Layout.{IsRegion}
use proxy_for_distribution_s.MemoryPool.Give.{take_chunk-IsRegion, take_chunk-size}
use proxy_for_distribution_s.MemoryPool.Search.{IsValid, IsFull, Found, Searched, alloc_in-Searched}

-- A region that was set up is one free chunk.
pub init_memory_struct-IsRegion :
    (mm : Memory) (size : ℕ)
    → mp_chunkheader + mp_chunkend < size
    → size < u64_mod
    → IsRegion (init_memory_struct mm size) (chunk_of size true ∷ [])
unfolding init_memory_struct among
init_memory_struct-IsRegion mm size big bound = record {
  tiled = record {
    size = omega arith;
    bound = bound;
    big = (big, tt);
    lay = (ground arith, tt);
    ends = tt;
    free = λ x. ground arith;
    taken = λ x. ground arith;
    counted = refl;
    counted_prog = refl;
  };
  apart = (refl, tt);
}

new_memory-IsRegion :
    (s : Fresh) (id size : ℕ)
    → mp_chunkheader + mp_chunkend < size
    → size < u64_mod
    → IsRegion (new_memory s id size) (chunk_of size true ∷ [])
unfolding new_memory
new_memory-IsRegion s id size big bound =
    init_memory_struct-IsRegion (memory_at s id size) size big bound

abbrev pub sizes : List Memory → ℕ
sizes [] = 0
sizes (mm ∷ ms) = mm.mem_pool_size + sizes ms

-- Every region is valid, and the bytes of all of them are counted; the pool has less than one
-- region more than it may have.
pub record IsPool (mp : MemoryPool) : Type 0 where
  pub regions : All (IsValid mp.mem_pool_size) mp.mlist
  pub big : mp_chunkheader + mp_chunkend < mp.mem_pool_size
  pub room :
      (mp.max_mem_pool_size ≡ mp.mem_pool_size)
      ⊎ (mp.mem_pool_size + (mp_chunkheader + mp_chunkend) < mp.max_mem_pool_size)
  pub bound : mp.max_mem_pool_size + mp.mem_pool_size < u64_mod
  pub sum : mp.total_mem_pool_size ≡ sizes mp.mlist
  pub low : mp.mem_pool_size ≤ mp.total_mem_pool_size
  pub limit : mp.total_mem_pool_size < mp.max_mem_pool_size + mp.mem_pool_size

pub sizes-append : (xs ys : List Memory) → sizes (xs ++ ys) ≡ sizes xs + sizes ys
sizes-append [] ys = omega arith
sizes-append (x ∷ xs) ys = omega (arith, sizes-append xs ys)

pub All-part {ℓ} :
    {A : Type ℓ} (P : A → Type 0) (xs : List A) (y : A) (ys : List A)
    → All P (xs ++ y ∷ ys)
    → All P xs × P y × All P ys
All-part P [] y ys h = (tt, h.0, h.1)
All-part P (x ∷ xs) y ys h = let (hx, hy, hys) = All-part P xs y ys h.1 in ((h.0, hx), hy, hys)

-- The region that a chunk is taken from stays valid, and the others are as they were.
Found-regions :
    (size n : ℕ) (ms : List Memory) (p : ℕ) (ms' : List Memory)
    → mp_chunkheader + mp_chunkend < n
    → All (IsValid size) ms
    → Found n ms p ms'
    → All (IsValid size) ms' × (sizes ms' ≡ sizes ms)
Found-regions size n ms p ms' big h f =
    let (front, ((cs, region), le, room), rest) =
      All-part (IsValid size) f.front f.mm f.rest (subst (All (IsValid size)) f.parts h) in
    let (cs', region', _) = take_chunk-IsRegion f.mm cs f.a n region f.listed f.enough big in
    let same = take_chunk-size f.mm f.a n in
    let taken : IsValid size (take_chunk f.mm f.a n) =
      ((cs', region'), omega (arith, same), omega (arith, same)) in
    (
      subst (All (IsValid size)) (sym f.now)
          (All-append (IsValid size) f.front _ front (taken, rest)),
      omega (
        arith,
        ap sizes f.now,
        ap sizes f.parts,
        sizes-append f.front (take_chunk f.mm f.a n ∷ f.rest),
        sizes-append f.front (f.mm ∷ f.rest),
        same,
      ),
    )

-- One more region has at least room for a chunk's own bytes, and is not larger than the first.
add_mem_sz_lem :
    (mp : MemoryPool)
    → IsPool mp
    → mp.total_mem_pool_size < mp.max_mem_pool_size
    → (mp_chunkheader + mp_chunkend < add_mem_sz mp) × (add_mem_sz mp ≤ mp.mem_pool_size)
unfolding add_mem_sz sub64
add_mem_sz_lem mp p h = ground (arith, p.room, p.low, p.big, p.bound)

-- The chunk was taken, or there is none and the pool could not grow.
abbrev Ended : (ℕ → Option Fresh) → ℕ → List Memory → ℕ → MemoryPool → Type 0
Ended malloc n ms p mp' =
    Found n ms p mp'.mlist
    ⊎ ((p ≡ null)
        × (mp'.mlist ≡ ms)
        × All (IsFull n) ms
        × (((mp'.auto_extend && ltb mp'.total_mem_pool_size mp'.max_mem_pool_size) ≡ false)
            ⊎ (malloc mp'.total_mem_pool_size ≡ none)))

-- What a search for `n` bytes makes of a pool: `new` are the regions that it grew by.
pub record Searching (malloc : ℕ → Option Fresh) (mp : MemoryPool) (n : ℕ) (r : ℕ × MemoryPool)
    : Type 0 where
  pub new : List Memory
  pub unused : All (λ mm. mm.alloc_list ≡ []) new
  pub ended : Ended malloc n (new ++ mp.mlist) r.0 r.1
  pub pool : IsPool r.1
  pub size : r.1.mem_pool_size ≡ mp.mem_pool_size
  pub max : r.1.max_mem_pool_size ≡ mp.max_mem_pool_size

module _ (malloc : ℕ → Option Fresh) (n : ℕ) (big : mp_chunkheader + mp_chunkend < n) where
  take_step :
      (mp : MemoryPool) (p : ℕ) (ms : List Memory)
      → IsPool mp
      → Found n mp.mlist p ms
      → Searching malloc mp n (p, record mp { mlist = ms })
  take_step mp p ms pool f =
      let (regions, same) = Found-regions mp.mem_pool_size n mp.mlist p ms big pool.regions f in
      record {
        new = [];
        unused = tt;
        ended = inl f;
        pool = record {
          regions = regions;
          big = pool.big;
          room = pool.room;
          bound = pool.bound;
          sum = pool.sum ∙ sym same;
          low = pool.low;
          limit = pool.limit;
        };
        size = refl;
        max = refl;
      }

  end_step :
      (mp : MemoryPool)
      → IsPool mp
      → All (IsFull n) mp.mlist
      → ((mp.auto_extend && ltb mp.total_mem_pool_size mp.max_mem_pool_size) ≡ false)
        ⊎ (malloc mp.total_mem_pool_size ≡ none)
      → Searching malloc mp n (null, mp)
  end_step mp pool full why = record {
    new = [];
    unused = tt;
    ended = inr (refl, refl, full, why);
    pool = pool;
    size = refl;
    max = refl;
  }

  abbrev grown : MemoryPool → Fresh → MemoryPool
  grown mp s = record mp {
    last_id = (mp.last_id + 1) % u32_mod;
    mlist = new_memory s mp.last_id (add_mem_sz mp) ∷ mp.mlist;
    total_mem_pool_size = add64 mp.total_mem_pool_size (add_mem_sz mp);
  }

  new_memory-size : (s : Fresh) (id size : ℕ) → (new_memory s id size).mem_pool_size ≡ size
  unfolding new_memory init_memory_struct
  new_memory-size s id size = refl

  new_memory-unused : (s : Fresh) (id size : ℕ) → (new_memory s id size).alloc_list ≡ []
  unfolding new_memory init_memory_struct
  new_memory-unused s id size = refl

  grown-IsPool :
      (mp : MemoryPool) (s : Fresh)
      → IsPool mp
      → mp.total_mem_pool_size < mp.max_mem_pool_size
      → IsPool (grown mp s) × (mp.total_mem_pool_size < (grown mp s).total_mem_pool_size)
  unfolding add64
  grown-IsPool mp s pool h =
      let (lo, hi) = add_mem_sz_lem mp pool h in
      let size = new_memory-size s mp.last_id (add_mem_sz mp) in
      let region =
        new_memory-IsRegion s mp.last_id (add_mem_sz mp) lo (omega (arith, pool.bound, hi)) in
      (
        record {
          regions = (
            ((chunk_of (add_mem_sz mp) true ∷ [], region), omega arith, omega arith),
            pool.regions,
          );
          big = pool.big;
          room = pool.room;
          bound = pool.bound;
          sum = omega (arith, pool.sum, size, pool.bound, pool.limit, pool.low);
          low = omega (arith, pool.bound, pool.limit, pool.low);
          limit = omega (arith, pool.bound, pool.limit, pool.low);
        },
        omega (arith, pool.bound, pool.limit, pool.low),
      )

  grow_step :
      (mp : MemoryPool) (s : Fresh) (r : ℕ × MemoryPool)
      → Searching malloc (grown mp s) n r
      → Searching malloc mp n r
  grow_step mp s r g =
      let mm = new_memory s mp.last_id (add_mem_sz mp) in
      let shift : g.new ++ mm ∷ mp.mlist ≡ (g.new ++ mm ∷ []) ++ mp.mlist =
        sym (append_assoc g.new (mm ∷ []) mp.mlist) in
      record {
        new = g.new ++ mm ∷ [];
        unused =
            All-append (λ k. k.alloc_list ≡ []) g.new (mm ∷ []) g.unused
              (new_memory-unused s mp.last_id (add_mem_sz mp), tt);
        ended = subst (λ ms. Ended malloc n ms r.0 r.1) shift g.ended;
        pool = g.pool;
        size = g.size;
        max = g.max;
      }

  grow_next :
      (fuel : ℕ) (mp : MemoryPool) (s : Fresh)
      → Returns (Searching malloc (grown mp s) n) (find_free_chunk fuel malloc (grown mp s) n)
      → Returns (Searching malloc mp n) (find_free_chunk fuel malloc (grown mp s) n)
  grow_next fuel mp s h =
      Returns-mono (Searching malloc (grown mp s) n) (Searching malloc mp n)
        (find_free_chunk fuel malloc (grown mp s) n) (grow_step mp s) h

  pub find_free_chunk_lem :
      (fuel : ℕ) (mp : MemoryPool)
      → IsPool mp
      → mp.max_mem_pool_size - mp.total_mem_pool_size < fuel
      → Returns (Searching malloc mp n) (find_free_chunk fuel malloc mp n)
  unfolding find_free_chunk extend_memory_list
  find_free_chunk_lem zero mp pool h = absurd (omega arith)
  find_free_chunk_lem (suc fuel) mp pool h =
      let searched =
        alloc_in-Searched mp.mem_pool_size n mp.mlist (omega (arith, pool.bound)) big
          pool.regions in
      elim (Option-cases (alloc_in mp.mem_pool_size n mp.mlist)) [
        | inl e ↦
            let full = subst (Searched n mp.mlist) e searched in
            elim (Bool-cases (mp.auto_extend && ltb mp.total_mem_pool_size mp.max_mem_pool_size)) [
              | inl t ↦ elim (Option-cases (malloc mp.total_mem_pool_size)) [
                | inl no_memory ↦
                    rw (e, find_free_chunk)
                      (rw (t, find_free_chunk)
                        (rw (no_memory, find_free_chunk, extend_memory_list)
                          (end_step mp pool full (inr no_memory))))
                | inr (s, got) ↦
                    let below : mp.total_mem_pool_size < mp.max_mem_pool_size = ground (arith, t) in
                    let (pool', more) = grown-IsPool mp s pool below in
                    rw (e, find_free_chunk)
                      (rw (t, find_free_chunk)
                        (rw (got, find_free_chunk, extend_memory_list)
                          (grow_next fuel mp s (
                            find_free_chunk_lem fuel (grown mp s) pool'
                              (omega (arith, more, below, h))))))
              ]
              | inr t ↦
                  rw (e, find_free_chunk) (rw (t, find_free_chunk) (end_step mp pool full (inl t)))
            ]
        | inr ((p, ms), e) ↦
            rw (e, find_free_chunk)
              (take_step mp p ms pool (subst (Searched n mp.mlist) e searched))
      ]

-- What MemoryPoolAlloc returns for `w` bytes: nothing where that is 0 or more than a region could
-- have, and else what the search finds.
abbrev pub Answered : (ℕ → Option Fresh) → MemoryPool → ℕ → ℕ × MemoryPool → Type 0
Answered malloc mp w r =
    ((r ≡ (null, mp)) × ((w ≡ 0) ⊎ (mp.mem_pool_size < total_needed_size w)))
    ⊎ Searching malloc mp (total_needed_size w) r
