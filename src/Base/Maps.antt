-- ===== src/Base/Maps.antt =====
-- Dictionaries with numbers for keys, `std::map`, as association lists.
use Prim.Native.Nat.{ℕ}
use mathlib.Core.Path.{◌≡◌, refl}
use mathlib.Core.Bool.{Bool, false, ◌||◌}
use mathlib.Core.List.{List, [], ◌∷◌, ◌++◌}
use mathlib.Core.Option.{Option, none, some}
use native.Mathlib.Omega.{arith}
use proxy_for_distribution_s.Base.Tests.{◌==◌, if◌then◌else◌}

module _ {ℓ} {V : Type ℓ} where
  unfoldable pub find : ℕ → List (ℕ × V) → Option V
  find k [] = none
  find k ((i, v) ∷ m) = if i == k then some v else find k m

  -- `m[k] = v`
  unfoldable pub put : ℕ → V → List (ℕ × V) → List (ℕ × V)
  put k v [] = (k, v) ∷ []
  put k v ((i, u) ∷ m) = if i == k then (k, v) ∷ m else (i, u) ∷ put k v m

  -- `m.insert(make_pair(k, v))`, which keeps a value that is there.
  unfoldable pub insert : ℕ → V → List (ℕ × V) → List (ℕ × V)
  insert k v m = elim (find k m) [ none ↦ put k v m | some u ↦ m ]

  unfoldable pub erase : ℕ → List (ℕ × V) → List (ℕ × V)
  erase k [] = []
  erase k ((i, v) ∷ m) = if i == k then erase k m else (i, v) ∷ erase k m

  pub find-put :
      (j k : ℕ) (v : V) (m : List (ℕ × V))
      → find j (put k v m) ≡ (if k == j then some v else find j m)
  unfolding find put
  find-put j k v [] = refl
  find-put j k v ((i, u) ∷ m) = ground (arith, find-put j k v m)

  pub find-erase :
      (j k : ℕ) (m : List (ℕ × V)) → find j (erase k m) ≡ (if k == j then none else find j m)
  unfolding find erase
  find-erase j k [] = ground arith
  find-erase j k ((i, u) ∷ m) = ground (arith, find-erase j k m)

  pub find-insert :
      (j k : ℕ) (v : V) (m : List (ℕ × V))
      → find k m ≡ none
      → find j (insert k v m) ≡ (if k == j then some v else find j m)
  unfolding insert
  find-insert j k v m h = ground (arith, find-put j k v m)

-- Whether a number is in a list.
unfoldable pub among : ℕ → List ℕ → Bool
among a [] = false
among a (x ∷ xs) = x == a || among a xs

pub among-append : (a : ℕ) (xs ys : List ℕ) → among a (xs ++ ys) ≡ (among a xs || among a ys)
unfolding among
among-append a [] ys = refl
among-append a (x ∷ xs) ys = ground (arith, among-append a xs ys)

-- No number stands twice.
abbrev pub IsUnique : List ℕ → Type 0
IsUnique [] = Unit
IsUnique (x ∷ xs) = (among x xs ≡ false) × IsUnique xs
