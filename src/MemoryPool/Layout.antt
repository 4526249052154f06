-- ===== src/MemoryPool/Layout.antt =====
-- The bytes of a region of proxy/memorypool.cpp, chunk by chunk, and what makes a region valid.
use proxy_for_distribution_s.Base.{
  ℕ, ◌+◌, ◌-◌, ◌≤◌, ◌<◌, ◌≡◌, subst, ◌∙◌, [], ◌∷◌, ◌++◌, among, All, arith,
}
use proxy_for_distribution_s.MemoryPool.{mp_chunkend, u64_mod, Chunk, Memory}
use proxy_for_distribution_s.MemoryPool.Blocks.{
  Blocks, total, used, prog, IsBig, block_at, free_at, used_at, Lay, Feet, Ends, Apart,
}

module _ (f : ℕ → Chunk) where
  pub Lay-split :
      (s : ℕ) (xs ys : Blocks) → Lay f s (xs ++ ys) → Lay f s xs × Lay f (s + total xs) ys
  Lay-split s [] ys h = (tt, subst (λ t. Lay f t ys) (omega arith) h)
  Lay-split s (c ∷ xs) ys h =
      let (hx, hy) = Lay-split (s + c.alloc_mem) xs ys h.1 in
      ((h.0, hx), subst (λ t. Lay f t ys) (omega arith) hy)

  pub Lay-append :
      (s : ℕ) (xs ys : Blocks) → Lay f s xs → Lay f (s + total xs) ys → Lay f s (xs ++ ys)
  Lay-append s [] ys hx hy = subst (λ t. Lay f t ys) (omega arith) hy
  Lay-append s (c ∷ xs) ys hx hy =
      (hx.0, Lay-append (s + c.alloc_mem) xs ys hx.1 (subst (λ t. Lay f t ys) (omega arith) hy))

  pub Lay-frame :
      (g : ℕ → Chunk) (s : ℕ) (cs : Blocks)
      → All IsBig cs
      → ((x : ℕ) → s ≤ x → x < s + total cs → g x ≡ f x)
      → Lay f s cs
      → Lay g s cs
  Lay-frame g s [] big same h = tt
  Lay-frame g s (c ∷ cs) big same h = (
    same s (omega arith) (omega arith) ∙ h.0,
    Lay-frame g (s + c.alloc_mem) cs big.1 (λ x lo hi. same x (omega arith) (omega arith)) h.1,
  )

module _ (f : ℕ → ℕ) where
  pub Ends-tail :
      (s : ℕ) (c : Chunk) (cs : Blocks) → Ends f s (c ∷ cs) → Ends f (s + c.alloc_mem) cs
  Ends-tail s c [] h = tt
  Ends-tail s c (d ∷ cs) h = h.1

  pub Ends-cons :
      (s : ℕ) (c : Chunk) (cs : Blocks)
      → f (s + c.alloc_mem - mp_chunkend) ≡ s
      → Ends f (s + c.alloc_mem) cs
      → Ends f s (c ∷ cs)
  Ends-cons s c [] e h = tt
  Ends-cons s c (d ∷ cs) e h = (e, h)

  pub Ends-split :
      (s : ℕ) (xs : Blocks) (c : Chunk) (ys : Blocks)
      → Ends f s (xs ++ c ∷ ys)
      → Feet f s xs × Ends f (s + total xs) (c ∷ ys)
  Ends-split s [] c ys h = (tt, subst (λ t. Ends f t (c ∷ ys)) (omega arith) h)
  Ends-split s (d ∷ []) c ys h = ((h.0, tt), subst (λ t. Ends f t (c ∷ ys)) (omega arith) h.1)
  Ends-split s (d ∷ e ∷ xs) c ys h =
      let (hx, hy) = Ends-split (s + d.alloc_mem) (e ∷ xs) c ys h.1 in
      ((h.0, hx), subst (λ t. Ends f t (c ∷ ys)) (omega arith) hy)

  pub Ends-append :
      (s : ℕ) (xs ys : Blocks) → Feet f s xs → Ends f (s + total xs) ys → Ends f s (xs ++ ys)
  Ends-append s [] ys hx hy = subst (λ t. Ends f t ys) (omega arith) hy
  Ends-append s (d ∷ xs) ys hx hy =
      Ends-cons s d (xs ++ ys) hx.0
        (Ends-append (s + d.alloc_mem) xs ys hx.1 (subst (λ t. Ends f t ys) (omega arith) hy))

  pub Feet-split :
      (s : ℕ) (xs ys : Blocks) → Feet f s (xs ++ ys) → Feet f s xs × Feet f (s + total xs) ys
  Feet-split s [] ys h = (tt, subst (λ t. Feet f t ys) (omega arith) h)
  Feet-split s (c ∷ xs) ys h =
      let (hx, hy) = Feet-split (s + c.alloc_mem) xs ys h.1 in
      ((h.0, hx), subst (λ t. Feet f t ys) (omega arith) hy)

  pub Feet-frame :
      (g : ℕ → ℕ) (s : ℕ) (cs : Blocks)
      → All IsBig cs
      → ((x : ℕ) → s ≤ x → x + mp_chunkend ≤ s + total cs → g x ≡ f x)
      → Feet f s cs
      → Feet g s cs
  Feet-frame g s [] big same h = tt
  Feet-frame g s (c ∷ cs) big same h = (
    same (s + c.alloc_mem - mp_chunkend) (omega arith) (omega arith) ∙ h.0,
    Feet-frame g (s + c.alloc_mem) cs big.1 (λ x lo hi. same x (omega arith) (omega arith)) h.1,
  )

  pub Ends-frame :
      (g : ℕ → ℕ) (s : ℕ) (cs : Blocks)
      → All IsBig cs
      → ((x : ℕ) → s ≤ x → x + mp_chunkend ≤ s + total cs → g x ≡ f x)
      → Ends f s cs
      → Ends g s cs
  Ends-frame g s [] big same h = tt
  Ends-frame g s (c ∷ []) big same h = tt
  Ends-frame g s (c ∷ d ∷ cs) big same h = (
    same (s + c.alloc_mem - mp_chunkend) (omega arith) (omega arith) ∙ h.0,
    Ends-frame g (s + c.alloc_mem) (d ∷ cs) big.1 (λ x lo hi. same x (omega arith) (omega arith))
        h.1,
  )

-- A region is its chunks, end to end; its lists and its counts are right.
pub record IsTiled (mm : Memory) (cs : Blocks) : Type 0 where
  pub size : total cs ≡ mm.mem_pool_size
  pub bound : mm.mem_pool_size < u64_mod
  pub big : All IsBig cs
  pub lay : Lay mm.chunk mm.start cs
  pub ends : Ends mm.chunk_end mm.start cs
  pub free : (x : ℕ) → among x mm.free_list ≡ free_at (block_at x mm.start cs)
  pub taken : (x : ℕ) → among x mm.alloc_list ≡ used_at (block_at x mm.start cs)
  pub counted : mm.alloc_mem ≡ used cs
  pub counted_prog : mm.alloc_prog_mem ≡ prog cs

-- And no two free chunks stand side by side.
pub record IsRegion (mm : Memory) (cs : Blocks) : Type 0 where
  pub tiled : IsTiled mm cs
  pub apart : Apart cs
