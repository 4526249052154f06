-- ===== src/MemoryPool.antt =====
-- The memory pool of proxy/memorypool.cpp, with the types of memorypool.h. An address is a
-- number, and 0 is NULL. A region keeps its own bytes: the headers of its chunks and the pointers
-- at the end of each chunk, by their addresses. The links of a free list or an allocated list
-- are the list of the addresses of its chunks.
pub mod Blocks
pub mod Give
pub mod Layout
pub mod Links
pub mod Marks
pub mod Take
pub mod Release
pub mod Search
use proxy_for_distribution_s.Base.{
  ℕ, zero, suc, ◌+◌, ◌-◌, ◌%◌, Bool, true, false, ◌&&◌, Option, none, some, List, [], ◌∷◌, ltb, leb,
  ◌==◌, if◌then◌else◌,
}

-- The bytes of `struct _mp_chunk` and of a pointer to one.
abbrev pub mp_chunkheader : ℕ
mp_chunkheader = 32

abbrev pub mp_chunkend : ℕ
mp_chunkend = 8

-- The bytes of `_MP_Memory`, which stand before the region.
abbrev pub mp_memory : ℕ
mp_memory = 64

abbrev pub null : ℕ
null = 0

abbrev pub u64_mod : ℕ
u64_mod = 18446744073709551616

abbrev pub u32_mod : ℕ
u32_mod = 4294967296

-- The arithmetic of `unsigned long long`.
unfoldable pub add64 : ℕ → ℕ → ℕ
add64 a b = (a + b) % u64_mod

unfoldable pub sub64 : ℕ → ℕ → ℕ
sub64 a b = (a + u64_mod - b) % u64_mod

pub record Chunk : Type 0 where
  pub alloc_mem : ℕ
  pub is_free : Bool

abbrev pub chunk_of : ℕ → Bool → Chunk
chunk_of n b = record { alloc_mem = n; is_free = b }

-- `chunk` and `chunk_end` are what the bytes of the region hold at an address.
pub record Memory : Type 0 where
  pub start : ℕ
  pub id : ℕ
  pub mem_pool_size : ℕ
  pub alloc_mem : ℕ
  pub alloc_prog_mem : ℕ
  pub free_list : List ℕ
  pub alloc_list : List ℕ
  pub chunk : ℕ → Chunk
  pub chunk_end : ℕ → ℕ

pub record MemoryPool : Type 0 where
  pub last_id : ℕ
  pub auto_extend : Bool
  pub mem_pool_size : ℕ
  pub total_mem_pool_size : ℕ
  pub max_mem_pool_size : ℕ
  pub mlist : List Memory

abbrev pub update {ℓ} : {A : Type ℓ} → (ℕ → A) → ℕ → A → ℕ → A
update f a v x = if a == x then v else f x

-- A node leaves a list; `to` takes the place of a node.
unfoldable pub dlinklist_del : ℕ → List ℕ → List ℕ
dlinklist_del a [] = []
dlinklist_del a (x ∷ xs) = if x == a then dlinklist_del a xs else x ∷ dlinklist_del a xs

unfoldable pub move_node : ℕ → ℕ → List ℕ → List ℕ
move_node a to [] = []
move_node a to (x ∷ xs) = (if x == a then to else x) ∷ move_node a to xs

unfoldable pub align_size : ℕ → ℕ
unfolding add64
align_size n = add64 n 8 - n % 8

-- A region of `mem_sz` bytes at `s`, whose bytes were `chunk` and `chunk_end`.
pub init_memory_struct : Memory → ℕ → Memory
init_memory_struct mm mem_sz = record mm {
  mem_pool_size = mem_sz;
  alloc_mem = 0;
  alloc_prog_mem = 0;
  free_list = mm.start ∷ [];
  chunk = update mm.chunk mm.start (chunk_of mem_sz true);
  alloc_list = [];
}

-- The first chunk of a free list with room for `total` bytes.
pub find_free : Memory → List ℕ → ℕ → Option ℕ
find_free mm [] total = none
find_free mm (a ∷ free) total =
    if leb total (mm.chunk a).alloc_mem then some a else find_free mm free total

-- The front of the free chunk at `a` is split off for the caller; what is left stays free.
pub split_chunk : Memory → ℕ → ℕ → Memory
split_chunk mm a total =
    let rest = a + total in
    let left = (mm.chunk a).alloc_mem - total in
    record mm {
      chunk =
          update (update mm.chunk rest (chunk_of left (mm.chunk a).is_free)) a
            (chunk_of total false);
      chunk_end =
          update (update mm.chunk_end (rest + left - mp_chunkend) rest) (rest - mp_chunkend) a;
      free_list = move_node a rest mm.free_list;
    }

-- The whole chunk at `a` is for the caller.
pub whole_chunk : Memory → ℕ → Memory
whole_chunk mm a = record mm {
  free_list = dlinklist_del a mm.free_list;
  chunk = update mm.chunk a (chunk_of (mm.chunk a).alloc_mem false);
}

-- The chunk at `a` is put on the allocated list and counted.
pub count_chunk : Memory → ℕ → Memory
count_chunk mm a =
    let size = (mm.chunk a).alloc_mem in
    record mm {
      alloc_list = a ∷ mm.alloc_list;
      alloc_mem = add64 mm.alloc_mem size;
      alloc_prog_mem = add64 mm.alloc_prog_mem (sub64 size (mp_chunkheader + mp_chunkend));
    }

pub take_chunk : Memory → ℕ → ℕ → Memory
unfolding split_chunk whole_chunk count_chunk
take_chunk mm a total =
    if ltb (mp_chunkheader + mp_chunkend) ((mm.chunk a).alloc_mem - total)
    then count_chunk (split_chunk mm a total) a
    else count_chunk (whole_chunk mm a) a

abbrev behind : Memory → Option (ℕ × List Memory) → Option (ℕ × List Memory)
behind mm none = none
behind mm (some (p, ms)) = some (p, mm ∷ ms)

-- The search through the regions: the address for the caller, and the regions then.
pub alloc_in : ℕ → ℕ → List Memory → Option (ℕ × List Memory)
unfolding find_free take_chunk
alloc_in size total [] = none
alloc_in size total (mm ∷ ms) =
    let next = behind mm (alloc_in size total ms) in
    if ltb (sub64 size mm.alloc_mem) total then next else elim (find_free mm mm.free_list total) [
      | none ↦ next
      | some a ↦ some (a + mp_chunkheader, take_chunk mm a total ∷ ms)
    ]

-- `fresh` is what `malloc` returned: a block of bytes at an address, with what they hold.
pub record Fresh : Type 0 where
  pub address : ℕ
  pub chunk : ℕ → Chunk
  pub chunk_end : ℕ → ℕ

-- `_MP_Memory` in a new block, before it is set up.
abbrev pub memory_at : Fresh → ℕ → ℕ → Memory
memory_at s id mem_sz = record {
  start = s.address + mp_memory;
  id = id;
  mem_pool_size = mem_sz;
  alloc_mem = 0;
  alloc_prog_mem = 0;
  free_list = [];
  alloc_list = [];
  chunk = s.chunk;
  chunk_end = s.chunk_end;
}

pub new_memory : Fresh → ℕ → ℕ → Memory
unfolding init_memory_struct
new_memory s id mem_sz = init_memory_struct (memory_at s id mem_sz) mem_sz

pub extend_memory_list : Option Fresh → MemoryPool → ℕ → Option MemoryPool
unfolding new_memory
extend_memory_list none mp new_mem_sz = none
extend_memory_list (some s) mp new_mem_sz = some (record mp {
  last_id = (mp.last_id + 1) % u32_mod;
  mlist = new_memory s mp.last_id new_mem_sz ∷ mp.mlist;
})

-- The bytes of one more region.
pub add_mem_sz : MemoryPool → ℕ
add_mem_sz mp =
    let add = sub64 mp.max_mem_pool_size mp.mem_pool_size in
    if leb mp.mem_pool_size add then mp.mem_pool_size else add

-- From FIND_FREE_CHUNK on. `malloc` answers by the number of bytes in use before the call; on
-- `none` the fuel ran out.
pub find_free_chunk : ℕ → (malloc : ℕ → Option Fresh) → MemoryPool → ℕ → Option (ℕ × MemoryPool)
unfolding alloc_in extend_memory_list add_mem_sz
find_free_chunk zero malloc mp total = none
find_free_chunk (suc fuel) malloc mp total = elim (alloc_in mp.mem_pool_size total mp.mlist) [
  | some (p, ms) ↦ some (p, record mp { mlist = ms })
  | none ↦ elim (mp.auto_extend && ltb mp.total_mem_pool_size mp.max_mem_pool_size) [
    | false ↦ some (null, mp)
    | true ↦ elim (extend_memory_list (malloc mp.total_mem_pool_size) mp (add_mem_sz mp)) [
      | none ↦ some (null, mp)
      | some mp' ↦
          find_free_chunk fuel malloc
            (record mp' { total_mem_pool_size = add64 mp'.total_mem_pool_size (add_mem_sz mp) })
            total
    ]
  ]
]

pub total_needed_size : ℕ → ℕ
unfolding add64 align_size
total_needed_size wantsize = align_size (add64 wantsize (mp_chunkheader + mp_chunkend))

pub memory_pool_alloc : (malloc : ℕ → Option Fresh) → MemoryPool → ℕ → Option (ℕ × MemoryPool)
unfolding total_needed_size find_free_chunk
memory_pool_alloc malloc mp wantsize =
    if wantsize == 0
    then some (null, mp)
    else if ltb mp.mem_pool_size (total_needed_size wantsize)
    then some (null, mp)
    else find_free_chunk (mp.max_mem_pool_size + 2) malloc mp (total_needed_size wantsize)
