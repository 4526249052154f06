-- ===== src/MemoryPool/Release/Back.antt =====
-- The walk back of merge_free_chunk in proxy/memorypool.cpp, and that it ends.
use mathlib.Core.List.{append_assoc, append-nil}
use proxy_for_distribution_s.Base.{
  ℕ, zero, suc, ◌+◌, ◌-◌, ◌<◌, ◌≡◌, refl, ap, sym, subst, ◌∙◌, true, false, some, [], ◌∷◌, ◌++◌,
  leb, length, length-append, All, All-append, Bool-cases, inl, inr, arith,
}
use proxy_for_distribution_s.MemoryPool.{mp_chunkheader, mp_chunkend, Chunk, Memory}
use proxy_for_distribution_s.MemoryPool.Release.{first_free}
use proxy_for_distribution_s.MemoryPool.Blocks.{
  Blocks, total, IsBig, Lay, Feet, last_free, total-append, All-split,
}
use proxy_for_distribution_s.MemoryPool.Layout.{Lay-split, Feet-split}

abbrev pub IsFree : Chunk → Type 0
IsFree c = c.is_free ≡ true

record Snoc (cs : Blocks) : Type 0 where
  init : Blocks
  final : Chunk
  parts : cs ≡ init ++ final ∷ []
  same : last_free cs ≡ final.is_free

snoc : (c : Chunk) (cs : Blocks) → Snoc (c ∷ cs)
snoc c [] = record { init = []; final = c; parts = refl; same = refl }
snoc c (d ∷ cs) =
    let rest = snoc d cs in
    record {
      init = c ∷ rest.init;
      final = rest.final;
      parts = ap (λ ds. c ∷ ds) rest.parts;
      same = rest.same;
    }

-- The free chunks at the end of `pre`, and what comes before them.
pub record RunOf (pre : Blocks) : Type 0 where
  pub front : Blocks
  pub run : Blocks
  pub parts : pre ≡ front ++ run
  pub all_free : All IsFree run
  pub blocked : last_free front ≡ false

module _ (mm : Memory) where
  -- The chunks of `pre` in the region, as the walk back finds them.
  pub record Reads (pre : Blocks) : Type 0 where
    pub lay : Lay mm.chunk mm.start pre
    pub feet : Feet mm.chunk_end mm.start pre
    pub big : All IsBig pre

  Reads-init : (init : Blocks) (d : Chunk) → Reads (init ++ d ∷ []) → Reads init
  Reads-init init d r = record {
    lay = (Lay-split mm.chunk mm.start init (d ∷ []) r.lay).0;
    feet = (Feet-split mm.chunk_end mm.start init (d ∷ []) r.feet).0;
    big = (All-split IsBig init (d ∷ []) r.big).0;
  }

  first_free_step :
      (fuel : ℕ) (init : Blocks) (d : Chunk) (p1 : ℕ)
      → (mm.chunk (mm.start + total (init ++ d ∷ []))).is_free ≡ true
      → Reads (init ++ d ∷ [])
      → first_free (suc fuel) mm (mm.start + total (init ++ d ∷ [])) p1
        ≡ first_free fuel mm (mm.start + total init) (mm.start + total (init ++ d ∷ []))
  unfolding first_free
  first_free_step fuel init d p1 is_free r =
      let (foot, _) = (Feet-split mm.chunk_end mm.start init (d ∷ []) r.feet).1 in
      let (big, _) = (All-split IsBig init (d ∷ []) r.big).1 in
      let size : total (init ++ d ∷ []) ≡ total init + d.alloc_mem =
        omega (arith, total-append init (d ∷ [])) in
      let place : mm.start + total init + d.alloc_mem ≡ mm.start + total (init ++ d ∷ []) =
        omega (arith, size) in
      let foot' = subst (λ t. mm.chunk_end (t - mp_chunkend) ≡ mm.start + total init) place foot in
      let far : leb (mm.start + total (init ++ d ∷ [])) (mm.start + mp_chunkend + mp_chunkheader)
          ≡ false =
        ground (arith, size, big) in
      rw (is_free, far, foot')

  first_free_first :
      (fuel p1 : ℕ)
      → (mm.chunk (mm.start + 0)).is_free ≡ true
      → first_free (suc fuel) mm (mm.start + 0) p1 ≡ some (mm.start + 0)
  unfolding first_free
  first_free_first fuel p1 is_free = ground (arith, is_free)

  first_free_stop :
      (fuel p0 p1 : ℕ)
      → 0 < fuel
      → (mm.chunk p0).is_free ≡ false
      → first_free fuel mm p0 p1 ≡ some p1
  unfolding first_free
  first_free_stop zero p0 p1 h e = absurd (omega arith)
  first_free_stop (suc fuel) p0 p1 h e = rw e

  -- The walk back ends at the start of the run of free chunks.
  pub first_free_lem :
      (fuel : ℕ) (pre : Blocks) (p1 : ℕ)
      → length pre < fuel
      → (mm.chunk (mm.start + total pre)).is_free ≡ true
      → Reads pre
      → (r : RunOf pre) × (first_free fuel mm (mm.start + total pre) p1
          ≡ some (mm.start + total r.front))
  first_free_lem zero pre p1 h is_free r = absurd (omega arith)
  first_free_lem (suc fuel) [] p1 h is_free r = (
    record { front = []; run = []; parts = refl; all_free = tt; blocked = refl },
    first_free_first fuel p1 is_free,
  )
  first_free_lem (suc fuel) (c ∷ cs) p1 h is_free r =
      let s = snoc c cs in
      let reads = subst Reads s.parts r in
      let now = subst (λ ds. (mm.chunk (mm.start + total ds)).is_free ≡ true) s.parts is_free in
      let step = first_free_step fuel s.init s.final p1 now reads in
      let shorter : length s.init < fuel =
        omega (arith, ap length s.parts, length-append s.init (s.final ∷ []), h) in
      let header = (Lay-split mm.chunk mm.start s.init (s.final ∷ []) reads.lay).1.0 in
      elim (Bool-cases s.final.is_free) [
        | inl e ↦
            let (deep, found) =
              first_free_lem fuel s.init (mm.start + total (s.init ++ s.final ∷ [])) shorter
                (ap (λ (d : Chunk). d.is_free) header ∙ e) (Reads-init s.init s.final reads) in
            (
              record {
                front = deep.front;
                run = deep.run ++ s.final ∷ [];
                parts =
                    s.parts
                    ∙ ap (λ ds. ds ++ s.final ∷ []) deep.parts
                    ∙ append_assoc deep.front deep.run (s.final ∷ []);
                all_free = All-append IsFree deep.run (s.final ∷ []) deep.all_free (e, tt);
                blocked = deep.blocked;
              },
              ap (λ ds. first_free (suc fuel) mm (mm.start + total ds) p1) s.parts ∙ step ∙ found,
            )
        | inr e ↦ (
          record {
            front = c ∷ cs;
            run = [];
            parts = sym (append-nil (c ∷ cs));
            all_free = tt;
            blocked = s.same ∙ e;
          },
          ap (λ ds. first_free (suc fuel) mm (mm.start + total ds) p1) s.parts
              ∙ step
              ∙ first_free_stop fuel (mm.start + total s.init) _ (omega (arith, shorter))
                  (ap (λ (d : Chunk). d.is_free) header ∙ e)
              ∙ ap (λ ds. some (mm.start + total ds)) (sym s.parts),
        )
      ]
