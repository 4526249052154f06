-- ===== src/MemoryPool/Release.antt =====
-- Of proxy/memorypool.cpp: MemoryPoolInit, MemoryPoolFree, MemoryPoolClear, MemoryPoolDestroy and
-- the sums over the regions. The mutex makes each of them one step.
pub mod Back
pub mod Forward
pub mod Join
pub mod Laws
pub mod Merge
pub mod Pool
pub mod RoundTrip
pub mod Tests
pub mod Usage
use proxy_for_distribution_s.Base.{
  ℕ, zero, suc, ◌+◌, ◌-◌, ◌%◌, Bool, true, false, ◌&&◌, ◌||◌, Option, none, some, List, [], ◌∷◌,
  ◌++◌, map, ltb, leb, ◌==◌, if◌then◌else◌, length,
}
use proxy_for_distribution_s.MemoryPool.{
  mp_chunkheader, mp_chunkend, mp_memory, null, u32_mod, add64, sub64, Chunk, chunk_of, Memory,
  MemoryPool, update, dlinklist_del, init_memory_struct, Fresh, new_memory,
}

-- The walk back over free chunks, to the first one of a run; `p1` is the last one seen. On `none`
-- the fuel ran out.
pub first_free : ℕ → Memory → (p0 p1 : ℕ) → Option ℕ
first_free zero mm p0 p1 = none
first_free (suc fuel) mm p0 p1 =
    let back = first_free fuel mm (mm.chunk_end (p0 - mp_chunkend)) p0 in
    if (mm.chunk p0).is_free
    then (if leb p0 (mm.start + mp_chunkend + mp_chunkheader) then some p0 else back)
    else some p1

-- The chunk at `p0` becomes part of the one at `p1`.
pub absorb : Memory → (p1 p0 : ℕ) → Memory
absorb mm p1 p0 =
    let size = add64 (mm.chunk p1).alloc_mem (mm.chunk p0).alloc_mem in
    record mm {
      free_list = dlinklist_del p0 mm.free_list;
      chunk = update mm.chunk p1 (chunk_of size (mm.chunk p1).is_free);
    }

-- The walk forward over free chunks, in a region of `size` bytes.
pub absorb_free : ℕ → ℕ → Memory → (p1 p0 : ℕ) → Option Memory
unfolding absorb
absorb_free zero size mm p1 p0 = none
absorb_free (suc fuel) size mm p1 p0 =
    let mm' = absorb mm p1 p0 in
    let rest = absorb_free fuel size mm' p1 (p0 + (mm'.chunk p0).alloc_mem) in
    if ltb p0 (mm.start + size) && (mm.chunk p0).is_free then rest else some mm

pub end_chunk : Memory → ℕ → Memory
end_chunk mm p1 = record mm {
  chunk_end = update mm.chunk_end (p1 + (mm.chunk p1).alloc_mem - mp_chunkend) p1;
}

-- `size` is the pool's mem_pool_size.
pub merge_free_chunk : ℕ → Memory → ℕ → Option Memory
unfolding first_free absorb_free end_chunk
merge_free_chunk size mm c = elim (first_free (suc size) mm c c) [
  | none ↦ none
  | some p1 ↦ elim (absorb_free (suc size) size mm p1 (p1 + (mm.chunk p1).alloc_mem)) [
    | none ↦ none
    | some mm' ↦ some (end_chunk mm' p1)
  ]
]

-- The chunk at `ck` goes from the allocated list to the free one.
pub release_chunk : Memory → ℕ → Memory
release_chunk mm ck =
    let size = (mm.chunk ck).alloc_mem in
    record mm {
      alloc_list = dlinklist_del ck mm.alloc_list;
      free_list = ck ∷ mm.free_list;
      chunk = update mm.chunk ck (chunk_of size true);
      alloc_mem = sub64 mm.alloc_mem size;
      alloc_prog_mem = sub64 mm.alloc_prog_mem (sub64 size (mp_chunkheader + mp_chunkend));
    }

pub free_chunk : ℕ → Memory → ℕ → Option Memory
unfolding merge_free_chunk release_chunk
free_chunk size mm ck = merge_free_chunk size (release_chunk mm ck) ck

-- The region that is found and those around it.
pub record Place : Type 0 where
  pub before : List Memory
  pub mm : Memory
  pub after : List Memory

abbrev past : Memory → Option Place → Option Place
past mm none = none
past mm (some s) = some (record s { before = mm ∷ s.before })

pub find_memory_list : ℕ → ℕ → List Memory → Option Place
find_memory_list size p [] = none
find_memory_list size p (tmp ∷ ms) =
    if leb tmp.start p && ltb p (tmp.start + size)
    then some (record { before = []; mm = tmp; after = ms })
    else past tmp (find_memory_list size p ms)

-- `mp->mlist`, of which `none` is a null pointer.
pub first_memory : List Memory → Option Place
first_memory [] = none
first_memory (mm ∷ ms) = some (record { before = []; mm = mm; after = ms })

abbrev pub around : Place → Memory → List Memory
around s mm = s.before ++ mm ∷ s.after

-- The result and the pool then; `none` where a null pointer is used.
pub memory_pool_free : Option MemoryPool → ℕ → Option (ℕ × Option MemoryPool)
unfolding free_chunk find_memory_list first_memory
memory_pool_free none p = some (1, none)
memory_pool_free (some mp) p =
    let place =
      if mp.auto_extend
      then find_memory_list mp.mem_pool_size p mp.mlist
      else first_memory mp.mlist in
    if p == null then some (1, some mp) else elim place [
      | none ↦ none
      | some s ↦ elim (free_chunk mp.mem_pool_size s.mm (p - mp_chunkheader)) [
        | none ↦ none
        | some mm ↦ some (0, some (record mp { mlist = around s mm }))
      ]
    ]

-- `garbage` is what `malloc` left in auto_extend; `alloc` says whether the pool's own block is
-- there and `s` is the block of the first region.
pub memory_pool_init :
    (garbage : Bool) (alloc : Bool) (s : Option Fresh) (maxmempoolsize mempoolsize : ℕ)
    → Option MemoryPool
unfolding new_memory
memory_pool_init garbage false s maxmempoolsize mempoolsize = none
memory_pool_init garbage true none maxmempoolsize mempoolsize = none
memory_pool_init garbage true (some s) maxmempoolsize mempoolsize =
    if ltb maxmempoolsize mempoolsize
    then none
    else some (record {
      last_id = 1;
      auto_extend = ltb mempoolsize maxmempoolsize || garbage;
      mem_pool_size = mempoolsize;
      total_mem_pool_size = mempoolsize;
      max_mem_pool_size = maxmempoolsize;
      mlist = new_memory s 0 mempoolsize ∷ [];
    })

pub memory_pool_clear : Option MemoryPool → Option MemoryPool
unfolding init_memory_struct
memory_pool_clear none = none
memory_pool_clear (some mp) =
    some (record mp { mlist = map (λ mm. init_memory_struct mm mm.mem_pool_size) mp.mlist })

pub get_memory_list_count : MemoryPool → ℕ
get_memory_list_count mp = length mp.mlist

pub get_memory_info : Memory → ℕ × ℕ
get_memory_info mm = (length mm.free_list, length mm.alloc_list)

used_memory : ℕ → List Memory → ℕ
unfolding add64
used_memory total_alloc [] = total_alloc
used_memory total_alloc (mm ∷ ms) = used_memory (add64 total_alloc mm.alloc_mem) ms

pub get_used_memory : MemoryPool → ℕ
unfolding used_memory
get_used_memory mp = used_memory 0 mp.mlist

prog_memory : ℕ → List Memory → ℕ
unfolding add64
prog_memory total_alloc_prog [] = total_alloc_prog
prog_memory total_alloc_prog (mm ∷ ms) = prog_memory (add64 total_alloc_prog mm.alloc_prog_mem) ms

pub get_prog_memory : MemoryPool → ℕ
unfolding prog_memory
get_prog_memory mp = prog_memory 0 mp.mlist

pub get_total_memory : MemoryPool → ℕ
get_total_memory mp = mp.total_mem_pool_size

-- The result, and the addresses of the regions in the order in which they are freed.
pub memory_pool_destroy : Option MemoryPool → ℕ × List ℕ
memory_pool_destroy none = (1, [])
memory_pool_destroy (some mp) = (0, map (λ mm. mm.start - mp_memory) mp.mlist)
