-- ===== src/BlackList/Slots.antt =====
-- The slots of the black list, include/structure.h, and what a write to one leaves of the others.
use proxy_for_distribution_s.Base.{
  ℕ, ◌+◌, ◌*◌, ◌≤◌, ◌<◌, ◌==◌, Text, Bool, true, false, not, ◌&&◌, List, [], ◌∷◌, ◌++◌, drop, take,
  copy, length, ◌≡◌, refl, arith, ap, sym, ◌∙◌, subst, Bool-cases, inl, inr, length-take,
  length-drop, drop-append, take-drop, drop_all, append_assoc,
}
use proxy_for_distribution_s.BlackList.{BlackList, ip_size, buffer_size, c_string}

-- A text without a byte 0.
abbrev pub nonzero : Text → Bool
nonzero [] = true
nonzero (c ∷ cs) = not (c == 0) && nonzero cs

-- An address that fits a slot.
pub record IsIp (ip : Text) : Type 0 where
  pub fits : length ip < ip_size
  pub clean : nonzero ip ≡ true

pub record IsValid (l : BlackList) : Type 0 where
  pub size : length l.buffer ≡ buffer_size
  pub room : l.count ≤ 1000
  -- Every string ends in its slot.
  pub ended : (i : ℕ) → i < l.count → length (c_string (drop (i * 20) l.buffer)) < ip_size

-- A string that ends in front of what follows does not depend on it.
c_string_front :
    (xs ys zs : List ℕ)
    → length (c_string (xs ++ ys)) < length xs
    → c_string (xs ++ zs) ≡ c_string (xs ++ ys)
unfolding c_string
c_string_front [] ys zs h = absurd (omega arith)
c_string_front (x ∷ xs) ys zs h = elim (Bool-cases (x == 0)) [
  | inl ends ↦ rw ends refl
  | inr goes ↦ rw goes (ap (λ cs. x ∷ cs) (c_string_front xs ys zs (ground arith)))
]

pub c_string_written : (ip rest : Text) → nonzero ip ≡ true → c_string (ip ++ 0 ∷ rest) ≡ ip
unfolding c_string
c_string_written [] rest h = refl
c_string_written (c ∷ cs) rest h =
    let more = c_string_written cs rest (ground arith) in
    let goes : (c == 0) ≡ false = ground arith in rw goes (ap (λ ds. c ∷ ds) more)

module _ (bs : List ℕ) (c : ℕ) (new : List ℕ) (size : length bs ≡ buffer_size)
    (room : c < 1000) where
  -- Slots in front of the one that is written.
  pub slot_before :
      (i : ℕ)
      → i < c
      → length (c_string (drop (i * 20) bs)) < ip_size
      → c_string (drop (i * 20) (copy bs (20 * c) new)) ≡ c_string (drop (i * 20) bs)
  slot_before i low ends =
      let front = take (20 * c) bs in
      let xs = drop (i * 20) front in
      let len : length front ≡ 20 * c = length-take (20 * c) bs (omega arith) in
      let long : ip_size ≤ length xs = omega (arith, length-drop (i * 20) front) in
      let whole : drop (i * 20) bs ≡ xs ++ drop (20 * c) bs =
        ap (drop (i * 20)) (take-drop (20 * c) bs)
        ∙ drop-append (i * 20) front (drop (20 * c) bs) (omega arith) in
      let written : drop (i * 20) (copy bs (20 * c) new)
          ≡ xs ++ (new ++ drop (20 * c + length new) bs) =
        ap (drop (i * 20)) (append_assoc front new (drop (20 * c + length new) bs))
        ∙ drop-append (i * 20) front (new ++ drop (20 * c + length new) bs) (omega arith) in
      let short : length (c_string (xs ++ drop (20 * c) bs)) < length xs =
        subst (λ ys. length (c_string ys) < length xs) whole (omega arith) in
      ap c_string written
      ∙ c_string_front xs (drop (20 * c) bs) (new ++ drop (20 * c + length new) bs) short
      ∙ ap c_string (sym whole)

  pub slot_written : drop (c * 20) (copy bs (20 * c) new) ≡ new ++ drop (20 * c + length new) bs
  slot_written =
      let front = take (20 * c) bs in
      let len : length front ≡ 20 * c = length-take (20 * c) bs (omega arith) in
      ap (drop (c * 20)) (append_assoc front new (drop (20 * c + length new) bs))
      ∙ drop-append (c * 20) front (new ++ drop (20 * c + length new) bs) (omega arith)
      ∙ ap (λ ys. ys ++ (new ++ drop (20 * c + length new) bs))
          (drop_all (c * 20) front (omega arith))
