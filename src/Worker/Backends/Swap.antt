-- ===== src/Worker/Backends/Swap.antt =====
-- The last entry takes the place of the one that is removed: `swap` and `pop_back` in include/pool.h.
use mathlib.Core.List.{Perm}
use mathlib.Core.List.Perm
use proxy_for_distribution_s.Base.{
  ℕ, zero, suc, ◌-◌, ltb, true, List, [], ◌∷◌, some, length, get_elem?, get_elem?-lt, set, take,
  ◌≡◌, subst, arith, lt_of_get_elem?,
}
use proxy_for_distribution_s.Worker.Backends.{swap_out}

module _ {A : Type 0} where
  last_out :
      (y z : A) (r : List A)
      → get_elem? (y ∷ r) (length r) ≡ some z
      → Perm (y ∷ r) (z ∷ take (length r) (y ∷ r))
  last_out y z [] e = let same : y ≡ z = cc in Perm.cons' same (Perm.refl [])
  last_out y z (y' ∷ r) e =
      Perm.trans (Perm.cons y (last_out y' z r e)) (Perm.swap z y (take (length r) (y' ∷ r)))

  one_out :
      (y x z : A) (r : List A) (k : ℕ)
      → get_elem? (y ∷ r) k ≡ some x
      → get_elem? (y ∷ r) (length r) ≡ some z
      → Perm (y ∷ r) (x ∷ take (length r) (set (y ∷ r) k z))
  one_out y x z [] zero at e = let same : y ≡ x = cc in Perm.cons' same (Perm.refl [])
  one_out y x z [] (suc k) at e = absurd (cc)
  one_out y x z (y' ∷ r) zero at e = let same : y ≡ x = cc in Perm.cons' same (last_out y' z r e)
  one_out y x z (y' ∷ r) (suc k) at e =
      Perm.trans (Perm.cons y (one_out y' x z r k at e))
        (Perm.swap x y (take (length r) (set (y' ∷ r) k z)))

  -- The entry is gone, and the others are still there, in some order.
  pub swap_out-Perm :
      (k : ℕ) (xs xs' : List A) (x : A)
      → get_elem? xs k ≡ some x
      → swap_out k xs ≡ some xs'
      → Perm xs (x ∷ xs')
  unfolding swap_out
  swap_out-Perm k [] xs' x at e = absurd (cc)
  swap_out-Perm k (y ∷ r) xs' x at e =
      let (z, last) = get_elem?-lt (y ∷ r) (length r) (omega arith) in
      let n : suc (length r) - 1 ≡ length r = omega arith in
      let inside : ltb k (suc (length r)) ≡ true = ground (arith, lt_of_get_elem? (y ∷ r) k x at) in
      let same : take (length r) (set (y ∷ r) k z) ≡ xs' = ground (arith, last) in
      subst (λ ys. Perm (y ∷ r) (x ∷ ys)) same (one_out y x z r k at last)
