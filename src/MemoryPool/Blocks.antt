-- ===== src/MemoryPool/Blocks.antt =====
-- The chunks of a region of proxy/memorypool.cpp in the order of their addresses, apart from the
-- bytes that hold them.
use proxy_for_distribution_s.Base.{
  ℕ, ◌+◌, ◌-◌, ◌≤◌, ◌<◌, ◌≡◌, refl, ap, Bool, false, not, ◌&&◌, Option, none, some, List, [], ◌∷◌,
  ◌++◌, ◌==◌, if◌then◌else◌, Bool-cases, inl, inr, All, arith,
}
use proxy_for_distribution_s.MemoryPool.{mp_chunkheader, mp_chunkend, Chunk}

abbrev pub Blocks : Type 0
Blocks = List Chunk

abbrev pub total : Blocks → ℕ
total [] = 0
total (c ∷ cs) = c.alloc_mem + total cs

-- The bytes of the chunks that are not free, and those of them that are the callers'.
abbrev pub used : Blocks → ℕ
used [] = 0
used (c ∷ cs) = (if c.is_free then 0 else c.alloc_mem) + used cs

abbrev pub prog : Blocks → ℕ
prog [] = 0
prog (c ∷ cs) = (if c.is_free then 0 else c.alloc_mem - (mp_chunkheader + mp_chunkend)) + prog cs

abbrev pub IsBig : Chunk → Type 0
IsBig c = mp_chunkheader + mp_chunkend < c.alloc_mem

-- The chunk that starts at an address, where the first starts at `s`.
abbrev pub block_at : ℕ → ℕ → Blocks → Option Chunk
block_at x s [] = none
block_at x s (c ∷ cs) = if s == x then some c else block_at x (s + c.alloc_mem) cs

abbrev pub or_else : Option Chunk → Option Chunk → Option Chunk
or_else none o = o
or_else (some c) o = some c

abbrev pub free_at : Option Chunk → Bool
free_at none = false
free_at (some c) = c.is_free

abbrev pub used_at : Option Chunk → Bool
used_at none = false
used_at (some c) = not c.is_free

-- The bytes at `s` hold the headers of the chunks.
abbrev pub Lay : (ℕ → Chunk) → ℕ → Blocks → Type 0
Lay f s [] = Unit
Lay f s (c ∷ cs) = (f s ≡ c) × Lay f (s + c.alloc_mem) cs

-- Each chunk ends with its own address.
abbrev pub Feet : (ℕ → ℕ) → ℕ → Blocks → Type 0
Feet f s [] = Unit
Feet f s (c ∷ cs) = (f (s + c.alloc_mem - mp_chunkend) ≡ s) × Feet f (s + c.alloc_mem) cs

-- Each chunk but the last does.
abbrev pub Ends : (ℕ → ℕ) → ℕ → Blocks → Type 0
Ends f s [] = Unit
Ends f s (c ∷ []) = Unit
Ends f s (c ∷ d ∷ cs) = (f (s + c.alloc_mem - mp_chunkend) ≡ s) × Ends f (s + c.alloc_mem) (d ∷ cs)

abbrev pub head_free : Blocks → Bool
head_free [] = false
head_free (c ∷ cs) = c.is_free

abbrev pub last_free : Blocks → Bool
last_free [] = false
last_free (c ∷ []) = c.is_free
last_free (c ∷ d ∷ cs) = last_free (d ∷ cs)

-- No two chunks side by side are free.
abbrev pub Apart : Blocks → Type 0
Apart [] = Unit
Apart (c ∷ cs) = ((c.is_free && head_free cs) ≡ false) × Apart cs

pub total-append : (xs ys : Blocks) → total (xs ++ ys) ≡ total xs + total ys
total-append [] ys = omega arith
total-append (c ∷ xs) ys = omega (arith, total-append xs ys)

pub used-append : (xs ys : Blocks) → used (xs ++ ys) ≡ used xs + used ys
used-append [] ys = omega arith
used-append (c ∷ xs) ys = omega (arith, used-append xs ys)

pub prog-append : (xs ys : Blocks) → prog (xs ++ ys) ≡ prog xs + prog ys
prog-append [] ys = omega arith
prog-append (c ∷ xs) ys = omega (arith, prog-append xs ys)

pub used-le-total : (cs : Blocks) → used cs ≤ total cs
used-le-total [] = omega arith
used-le-total (c ∷ cs) = ground (arith, used-le-total cs)

pub prog-le-used : (cs : Blocks) → prog cs ≤ used cs
prog-le-used [] = omega arith
prog-le-used (c ∷ cs) = ground (arith, prog-le-used cs)

pub All-split {ℓ} :
    {A : Type ℓ} (P : A → Type 0) (xs ys : List A) → All P (xs ++ ys) → All P xs × All P ys
All-split P [] ys h = (tt, h)
All-split P (x ∷ xs) ys h = let (hx, hy) = All-split P xs ys h.1 in ((h.0, hx), hy)

pub block_at-append :
    (x s : ℕ) (xs ys : Blocks)
    → block_at x s (xs ++ ys) ≡ or_else (block_at x s xs) (block_at x (s + total xs) ys)
block_at-append x s [] ys = ap (λ t. block_at x t ys) (omega arith)
block_at-append x s (c ∷ xs) ys =
    let same : s + c.alloc_mem + total xs ≡ s + (c.alloc_mem + total xs) = omega arith in
    ground (arith, block_at-append x (s + c.alloc_mem) xs ys, ap (λ t. block_at x t ys) same)

pub block_at_bounds :
    (x s : ℕ) (cs : Blocks) (c : Chunk)
    → All IsBig cs
    → block_at x s cs ≡ some c
    → (s ≤ x) × (x + c.alloc_mem ≤ s + total cs) × (x < s + total cs)
block_at_bounds x s [] c big h = absurd (cc)
block_at_bounds x s (d ∷ cs) c big h =
    ground (arith, block_at_bounds x (s + d.alloc_mem) cs c big.1)

pub block_at_below : (x s : ℕ) (cs : Blocks) → x < s → block_at x s cs ≡ none
block_at_below x s [] h = refl
block_at_below x s (c ∷ cs) h = ground (arith, block_at_below x (s + c.alloc_mem) cs)

-- Where a chunk stands, the region is what is before it, the chunk, and what is behind it.
pub record Found (x s : ℕ) (cs : Blocks) (c : Chunk) : Type 0 where
  pub pre : Blocks
  pub post : Blocks
  pub parts : cs ≡ pre ++ c ∷ post
  pub place : x ≡ s + total pre

pub block_at-Found : (x s : ℕ) (cs : Blocks) (c : Chunk) → block_at x s cs ≡ some c → Found x s cs c
block_at-Found x s [] c h = absurd (cc)
block_at-Found x s (d ∷ cs) c h = elim (Bool-cases (s == x)) [
  | inl e ↦ record { pre = []; post = cs; parts = ground arith; place = ground arith }
  | inr e ↦
      let rest : Found x (s + d.alloc_mem) cs c =
        block_at-Found x (s + d.alloc_mem) cs c (ground arith) in
      record {
        pre = d ∷ rest.pre;
        post = rest.post;
        parts = ap (λ ds. d ∷ ds) rest.parts;
        place = omega (arith, rest.place);
      }
]

pub Apart-append :
    (xs ys : Blocks)
    → Apart xs
    → Apart ys
    → (last_free xs && head_free ys) ≡ false
    → Apart (xs ++ ys)
Apart-append [] ys hx hy h = hy
Apart-append (c ∷ []) ys hx hy h = (h, hy)
Apart-append (c ∷ d ∷ xs) ys hx hy h = (hx.0, Apart-append (d ∷ xs) ys hx.1 hy h)

pub Apart-split :
    (xs ys : Blocks)
    → Apart (xs ++ ys)
    → Apart xs × Apart ys × ((last_free xs && head_free ys) ≡ false)
Apart-split [] ys h = (tt, h, refl)
Apart-split (c ∷ []) ys h = ((ground arith, tt), h.1, h.0)
Apart-split (c ∷ d ∷ xs) ys h = let (hx, hy, e) = Apart-split (d ∷ xs) ys h.1 in ((h.0, hx), hy, e)
