-- ===== src/Base/Bytes.antt =====
-- Lists of bytes as memory that is written in place.
use Prim.Native.Nat.{ℕ, zero, suc, ◌+◌, ◌-◌, ◌≤◌}
use mathlib.Core.Path.{◌≡◌, refl, sym, ap, ◌∙◌}
use mathlib.Core.List.{List, [], ◌∷◌, ◌++◌}
use native.Mathlib.Omega.{arith}
use proxy_for_distribution_s.Base.Lists.{length, take, drop, length-append}

-- `std::copy` to the bytes from index `i` on, which are there.
abbrev pub copy : List ℕ → ℕ → List ℕ → List ℕ
copy bs i new = take i bs ++ new ++ drop (i + length new) bs

abbrev pub zero_byte : ℕ
zero_byte = 0

pub length-take : (n : ℕ) (xs : List ℕ) → n ≤ length xs → length (take n xs) ≡ n
length-take zero xs h = refl
length-take (suc n) [] h = absurd (omega arith)
length-take (suc n) (x ∷ xs) h = ap suc (length-take n xs (omega arith))

pub length-drop : (n : ℕ) (xs : List ℕ) → length (drop n xs) ≡ length xs - n
length-drop zero xs = omega arith
length-drop (suc n) [] = omega arith
length-drop (suc n) (x ∷ xs) = omega (arith, length-drop n xs)

pub take-append : (xs ys : List ℕ) → take (length xs) (xs ++ ys) ≡ xs
take-append [] ys = refl
take-append (x ∷ xs) ys = ap (λ zs. x ∷ zs) (take-append xs ys)

pub drop-append : (n : ℕ) (xs ys : List ℕ) → n ≤ length xs → drop n (xs ++ ys) ≡ drop n xs ++ ys
drop-append zero xs ys h = refl
drop-append (suc n) [] ys h = absurd (omega arith)
drop-append (suc n) (x ∷ xs) ys h = drop-append n xs ys (omega arith)

pub append_assoc : (xs ys zs : List ℕ) → xs ++ ys ++ zs ≡ xs ++ (ys ++ zs)
append_assoc [] ys zs = refl
append_assoc (x ∷ xs) ys zs = ap (λ ps. x ∷ ps) (append_assoc xs ys zs)

pub take_front : (n : ℕ) (xs ys : List ℕ) → n ≤ length xs → take n (xs ++ ys) ≡ take n xs
take_front zero xs ys h = refl
take_front (suc n) [] ys h = absurd (omega arith)
take_front (suc n) (x ∷ xs) ys h = ap (λ zs. x ∷ zs) (take_front n xs ys (omega arith))

pub drop_all : (n : ℕ) (xs : List ℕ) → n ≡ length xs → drop n xs ≡ []
drop_all zero [] h = refl
drop_all zero (x ∷ xs) h = absurd (omega arith)
drop_all (suc n) [] h = refl
drop_all (suc n) (x ∷ xs) h = drop_all n xs (omega arith)

pub length-copy :
    (bs : List ℕ) (i : ℕ) (new : List ℕ)
    → i + length new ≤ length bs
    → length (copy bs i new) ≡ length bs
length-copy bs i new h = omega (
  arith,
  length-append (take i bs ++ new) (drop (i + length new) bs),
  length-append (take i bs) new,
  length-take i bs (omega arith),
  length-drop (i + length new) bs,
)

pub take-copy :
    (bs : List ℕ) (i n : ℕ) (new : List ℕ)
    → i ≤ length bs
    → n ≡ i + length new
    → take n (copy bs i new) ≡ take i bs ++ new
take-copy bs i n new h e =
    let whole : n ≡ length (take i bs ++ new) =
      omega (arith, length-append (take i bs) new, length-take i bs h) in
    rw whole (take-append (take i bs ++ new) (drop (i + length new) bs))

pub take-drop : (k : ℕ) (xs : List ℕ) → xs ≡ take k xs ++ drop k xs
take-drop zero xs = refl
take-drop (suc k) [] = refl
take-drop (suc k) (x ∷ xs) = ap (λ ys. x ∷ ys) (take-drop k xs)

pub drop_nil : (n : ℕ) → drop {A = ℕ} n [] ≡ []
drop_nil zero = refl
drop_nil (suc n) = refl

pub drop_twice : (r k : ℕ) (xs : List ℕ) → drop k (drop r xs) ≡ drop (r + k) xs
drop_twice zero k xs = ap (λ n. drop n xs) (omega arith)
drop_twice (suc r) k [] = drop_nil k ∙ sym (drop_nil (suc r + k))
drop_twice (suc r) k (x ∷ xs) =
    let same : suc (r + k) ≡ suc r + k = omega arith in
    drop_twice r k xs ∙ ap (λ n. drop n (x ∷ xs)) same

pub take_all : (k : ℕ) (xs : List ℕ) → length xs ≤ k → take k xs ≡ xs
take_all zero [] h = refl
take_all (suc k) [] h = refl
take_all zero (x ∷ xs) h = absurd (omega arith)
take_all (suc k) (x ∷ xs) h = ap (λ ys. x ∷ ys) (take_all k xs (omega arith))

pub drop_past : (k : ℕ) (xs : List ℕ) → length xs ≤ k → drop k xs ≡ []
drop_past zero [] h = refl
drop_past zero (x ∷ xs) h = absurd (omega arith)
drop_past (suc k) [] h = refl
drop_past (suc k) (x ∷ xs) h = drop_past k xs (omega arith)
