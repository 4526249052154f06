-- ===== src/MemoryPool/Release/Forward.antt =====
-- The walk forward of merge_free_chunk in proxy/memorypool.cpp.
use proxy_for_distribution_s.Base.{
  ℕ, zero, suc, ◌+◌, ◌≤◌, ◌<◌, ◌≡◌, refl, ap, sym, subst, ◌∙◌, Bool, true, false, not, ◌&&◌, Option,
  none, some, List, [], ◌∷◌, ltb, ◌==◌, if◌then◌else◌, among, length, Returns, Returns-mono, All,
  Bool-cases, inl, inr, arith,
}
use proxy_for_distribution_s.MemoryPool.{u64_mod, add64, Chunk, chunk_of, Memory}
use proxy_for_distribution_s.MemoryPool.Release.{absorb, absorb_free}
use proxy_for_distribution_s.MemoryPool.Blocks.{Blocks, total, IsBig, block_at, Lay}
use proxy_for_distribution_s.MemoryPool.Layout.{Lay-frame}
use proxy_for_distribution_s.MemoryPool.Links.{among-dlinklist_del}

-- The free chunks that the rest of a region begins with, and what comes behind them.
abbrev pub free_prefix : Blocks → Blocks
free_prefix [] = []
free_prefix (c ∷ cs) = if c.is_free then c ∷ free_prefix cs else []

abbrev pub drop_free : Blocks → Blocks
drop_free [] = []
drop_free (c ∷ cs) = if c.is_free then drop_free cs else c ∷ cs

abbrev pub starts : Option Chunk → Bool
starts none = false
starts (some c) = true

-- What the walk forward makes of a region where the chunk at `p1` has `n` bytes.
pub record Absorbed (mm : Memory) (p1 n : ℕ) (rest : Blocks) (mm' : Memory) : Type 0 where
  pub free_list : List ℕ
  pub chunk : ℕ → Chunk
  pub same : mm' ≡ record mm { free_list = free_list; chunk = chunk }
  pub headers :
      (x : ℕ)
      → chunk x ≡ (if p1 == x then chunk_of (n + total (free_prefix rest)) true else mm.chunk x)
  pub gone :
      (x : ℕ)
      → among x free_list
        ≡ (among x mm.free_list && not (starts (block_at x (p1 + n) (free_prefix rest))))

absorb_step :
    (mm : Memory) (p1 n : ℕ) (c : Chunk) (cs : Blocks) (mm' : Memory)
    → c.is_free ≡ true
    → mm.chunk p1 ≡ chunk_of n true
    → mm.chunk (p1 + n) ≡ c
    → n + c.alloc_mem < u64_mod
    → Absorbed (absorb mm p1 (p1 + n)) p1 (n + c.alloc_mem) cs mm'
    → Absorbed mm p1 n (c ∷ cs) mm'
unfolding absorb add64
absorb_step mm p1 n c cs mm' is_free here next bound a = record {
  free_list = a.free_list;
  chunk = a.chunk;
  same = a.same;
  headers = λ x. ground (arith, a.headers x, is_free);
  gone = λ x.
      let assoc : p1 + (n + c.alloc_mem) ≡ p1 + n + c.alloc_mem = omega arith in
      ground (
        arith,
        a.gone x,
        among-dlinklist_del x (p1 + n) mm.free_list,
        is_free,
        ap (λ t. block_at x t (free_prefix cs)) assoc,
      );
}

absorb_stop :
    (mm : Memory) (p1 n : ℕ) (rest : Blocks)
    → free_prefix rest ≡ []
    → mm.chunk p1 ≡ chunk_of n true
    → Absorbed mm p1 n rest mm
absorb_stop mm p1 n rest e here = record {
  free_list = mm.free_list;
  chunk = mm.chunk;
  same = refl;
  headers = λ x. rw e (ground (arith, here));
  gone = λ x. rw e (ground arith);
}

absorb_place : (mm : Memory) (p1 n : ℕ) → (absorb mm p1 (p1 + n)).start ≡ mm.start
unfolding absorb
absorb_place mm p1 n = refl

absorb_start : (mm : Memory) (p1 n : ℕ) → mm.start ≤ p1 → (absorb mm p1 (p1 + n)).start ≤ p1
unfolding absorb
absorb_start mm p1 n h = h

absorb_header :
    (mm : Memory) (p1 n : ℕ) (c : Chunk)
    → mm.chunk p1 ≡ chunk_of n true
    → mm.chunk (p1 + n) ≡ c
    → n + c.alloc_mem < u64_mod
    → (absorb mm p1 (p1 + n)).chunk p1 ≡ chunk_of (n + c.alloc_mem) true
unfolding absorb add64
absorb_header mm p1 n c here next bound = ground (arith, here, next)

absorb_other : (mm : Memory) (p1 n x : ℕ) → p1 < x → (absorb mm p1 (p1 + n)).chunk x ≡ mm.chunk x
unfolding absorb
absorb_other mm p1 n x h = ground arith

absorb_more :
    (fuel size : ℕ) (mm : Memory) (p1 n : ℕ) (c : Chunk) (cs : Blocks)
    → c.is_free ≡ true
    → 0 < n
    → mm.chunk p1 ≡ chunk_of n true
    → mm.chunk (p1 + n) ≡ c
    → n + c.alloc_mem < u64_mod
    → Returns
        (Absorbed (absorb mm p1 (p1 + n)) p1 (n + c.alloc_mem) cs)
        (absorb_free fuel size (absorb mm p1 (p1 + n)) p1 (p1 + (n + c.alloc_mem)))
    → Returns (Absorbed mm p1 n (c ∷ cs)) (
        absorb_free fuel size
          (absorb mm p1 (p1 + n))
          p1
          (p1 + n + ((absorb mm p1 (p1 + n)).chunk (p1 + n)).alloc_mem))
absorb_more fuel size mm p1 n c cs is_free pos here next bound rest =
    let now = absorb_other mm p1 n (p1 + n) (omega arith) ∙ next in
    let place : p1 + n + ((absorb mm p1 (p1 + n)).chunk (p1 + n)).alloc_mem
        ≡ p1 + (n + c.alloc_mem) =
      omega (arith, ap (λ (d : Chunk). d.alloc_mem) now) in
    subst
      (λ t.
        Returns (Absorbed mm p1 n (c ∷ cs)) (absorb_free fuel size (absorb mm p1 (p1 + n)) p1 t))
      (sym place)
      (Returns-mono (Absorbed (absorb mm p1 (p1 + n)) p1 (n + c.alloc_mem) cs)
        (Absorbed mm p1 n (c ∷ cs))
        (absorb_free fuel size (absorb mm p1 (p1 + n)) p1 (p1 + (n + c.alloc_mem)))
        (λ mm' a. absorb_step mm p1 n c cs mm' is_free here next bound a) rest)

-- The walk forward ends before the first chunk that is not free.
pub absorb_free_lem :
    (fuel size : ℕ) (mm : Memory) (p1 n : ℕ) (rest : Blocks)
    → length rest < fuel
    → mm.start ≤ p1
    → p1 + n + total rest ≡ mm.start + size
    → size < u64_mod
    → 0 < n
    → mm.chunk p1 ≡ chunk_of n true
    → Lay mm.chunk (p1 + n) rest
    → All IsBig rest
    → Returns (Absorbed mm p1 n rest) (absorb_free fuel size mm p1 (p1 + n))
unfolding absorb_free
absorb_free_lem zero size mm p1 n rest h lo fit bound pos here lay big = absurd (omega arith)
absorb_free_lem (suc fuel) size mm p1 n [] h lo fit bound pos here lay big =
    let out : ltb (p1 + n) (mm.start + size) ≡ false = ground arith in
    rw out (absorb_stop mm p1 n [] refl here)
absorb_free_lem (suc fuel) size mm p1 n (c ∷ cs) h lo fit bound pos here lay big =
    let inside : ltb (p1 + n) (mm.start + size) ≡ true = ground arith in
    let flag = ap (λ (d : Chunk). d.is_free) lay.0 in
    let test : (ltb (p1 + n) (mm.start + size) && (mm.chunk (p1 + n)).is_free) ≡ c.is_free =
      ground (arith, inside, flag) in
    let fits : n + c.alloc_mem < u64_mod = omega arith in
    let assoc : p1 + n + c.alloc_mem ≡ p1 + (n + c.alloc_mem) = omega arith in
    let rest_lay : Lay (absorb mm p1 (p1 + n)).chunk (p1 + (n + c.alloc_mem)) cs =
      Lay-frame mm.chunk (absorb mm p1 (p1 + n)).chunk (p1 + (n + c.alloc_mem)) cs big.1
        (λ x lo' hi. absorb_other mm p1 n x (omega arith))
        (subst (λ t. Lay mm.chunk t cs) assoc lay.1) in
    elim (Bool-cases c.is_free) [
      | inl e ↦
          let deep =
            absorb_free_lem fuel size (absorb mm p1 (p1 + n)) p1 (n + c.alloc_mem) cs (omega arith)
              (absorb_start mm p1 n lo) (omega (arith, absorb_place mm p1 n)) bound (omega arith)
              (absorb_header mm p1 n c here lay.0 fits) rest_lay big.1 in
          rw (test ∙ e) (absorb_more fuel size mm p1 n c cs e pos here lay.0 fits deep)
      | inr e ↦ rw (test ∙ e) (absorb_stop mm p1 n (c ∷ cs) (rw e refl) here)
    ]
