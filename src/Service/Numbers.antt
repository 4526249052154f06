-- ===== src/Service/Numbers.antt =====
-- The integers that src/server_service/view.cpp reads with `std::stoi` and prints with `%d`.
use proxy_for_distribution_s.Base.{
  ℕ, zero, suc, ◌+◌, ◌-◌, ◌*◌, ◌/◌, ◌%◌, ◌^◌, ◌≤◌, ◌<◌, ltb, leb, ◌==◌, Bool, true, false, ◌&&◌,
  ◌||◌, if◌then◌else◌, [], ◌∷◌, Option, none, some, Text, ◌≡◌, refl, arith, Bool-cases, inl, inr,
  ◌∙◌,
}

pub data ℤ : Type 0 where
  pos : ℕ → ℤ
  negsuc : ℕ → ℤ

-- The difference of two numbers.
abbrev pub diff : ℕ → ℕ → ℤ
diff a b = if leb b a then pos (a - b) else negsuc (b - a - 1)

infixl 6 ◌+ℤ◌
abbrev pub ◌+ℤ◌ : ℤ → ℤ → ℤ
pos a +ℤ pos b = pos (a + b)
pos a +ℤ negsuc b = diff a (b + 1)
negsuc a +ℤ pos b = diff b (a + 1)
negsuc a +ℤ negsuc b = negsuc (a + b + 1)

infixl 6 ◌-ℤ◌
abbrev pub ◌-ℤ◌ : ℤ → ℤ → ℤ
a -ℤ pos zero = a
a -ℤ pos (suc b) = a +ℤ negsuc b
a -ℤ negsuc b = a +ℤ pos (b + 1)

abbrev pub is_digit : ℕ → Bool
is_digit c = leb 48 c && leb c 57

abbrev pub is_space : ℕ → Bool
is_space c = c == 32 || (leb 9 c && leb c 13)

-- Digits up to the first byte that is none, after a number that was read so far.
unfoldable pub read_digits : ℕ → Text → ℕ
read_digits n [] = n
read_digits n (c ∷ cs) =
    let rest = read_digits (10 * n + (c - 48)) cs in if is_digit c then rest else n

-- The number without its sign; `none` where there is no digit.
unfoldable pub read_number : Text → Option ℕ
unfolding read_digits
read_number [] = none
read_number (c ∷ cs) = if is_digit c then some (read_digits 0 (c ∷ cs)) else none

unfoldable pub read_signed : Text → Option ℤ
unfolding read_number
read_signed [] = none
read_signed (c ∷ cs) =
    if c == 45
    then (elim (read_number cs) [
      | none ↦ none
      | some n ↦ if leb n (2 ^ 31) then some (diff 0 n) else none
    ])
    else (elim (read_number (if c == 43 then cs else c ∷ cs)) [
      | none ↦ none
      | some n ↦ if ltb n (2 ^ 31) then some (pos n) else none
    ])

-- `std::stoi`; `none` is an exception.
unfoldable pub stoi : Text → Option ℤ
unfolding read_signed
stoi [] = none
stoi (c ∷ cs) = let rest = stoi cs in if is_space c then rest else read_signed (c ∷ cs)

-- The digits of a number in front of a text; the number is smaller than the fuel, or 0.
unfoldable pub print_digits : ℕ → ℕ → Text → Text
print_digits zero n cs = cs
print_digits (suc fuel) n cs =
    let more = print_digits fuel (n / 10) ((48 + n % 10) ∷ cs) in
    if ltb n 10 then (48 + n) ∷ cs else more

-- `%d`
unfoldable pub print_int : ℤ → Text
unfolding print_digits
print_int (pos n) = print_digits (suc n) n []
print_int (negsuc n) = 45 ∷ print_digits (n + 2) (n + 1) []

read_digits_cons :
    (m n c : ℕ) (cs : Text)
    → is_digit c ≡ true
    → n ≡ 10 * m + (c - 48)
    → read_digits m (c ∷ cs) ≡ read_digits n cs
unfolding read_digits
read_digits_cons m n c cs h e = rw (h, e) refl

-- Reading back what was printed, digit by digit.
read-print_digits :
    (fuel n : ℕ) (cs : Text) → n < fuel → read_digits 0 (print_digits fuel n cs) ≡ read_digits n cs
unfolding print_digits
read-print_digits zero n cs h = absurd (omega arith)
read-print_digits (suc fuel) n cs h = elim (Bool-cases (ltb n 10)) [
  | inl small ↦ rw small (read_digits_cons 0 n (48 + n) cs (ground arith) (omega arith))
  | inr large ↦ rw large (
      read-print_digits fuel (n / 10) ((48 + n % 10) ∷ cs) (ground arith)
      ∙ read_digits_cons (n / 10) n (48 + n % 10) cs (ground arith) (ground arith))
]

-- What is printed begins with a digit.
abbrev starts_digit : Text → Bool
starts_digit [] = false
starts_digit (c ∷ cs) = is_digit c

starts-print_digits :
    (fuel n : ℕ) (cs : Text) → n < fuel → starts_digit (print_digits fuel n cs) ≡ true
unfolding print_digits
starts-print_digits zero n cs h = absurd (omega arith)
starts-print_digits (suc fuel) n cs h = elim (Bool-cases (ltb n 10)) [
  | inl small ↦ rw small (ground arith)
  | inr large ↦ rw large (starts-print_digits fuel (n / 10) ((48 + n % 10) ∷ cs) (ground arith))
]

-- A text of digits is read as its number.
stoi_digits :
    (t : Text) (n : ℕ)
    → starts_digit t ≡ true
    → read_digits 0 t ≡ n
    → n < 2 ^ 31
    → stoi t ≡ some (pos n)
unfolding stoi read_signed read_number
stoi_digits [] n h e low = absurd (ground arith)
stoi_digits (c ∷ cs) n h e low =
    let there : is_digit c ≡ true = h in
    let black : is_space c ≡ false = ground arith in
    let unsigned : (c == 45) ≡ false = ground arith in
    let unplussed : (c == 43) ≡ false = ground arith in ground arith

number_after_minus :
    (t : Text) (n : ℕ)
    → starts_digit t ≡ true
    → read_digits 0 t ≡ n
    → n ≤ 2 ^ 31
    → stoi (45 ∷ t) ≡ some (diff 0 n)
unfolding stoi read_signed read_number
number_after_minus [] n h e low = absurd (ground arith)
number_after_minus (c ∷ cs) n h e low = let there : is_digit c ≡ true = h in ground arith

-- The 32-bit integers.
abbrev pub Fits : ℤ → Type 0
Fits (pos n) = n < 2 ^ 31
Fits (negsuc n) = n < 2 ^ 31

-- `std::stoi` reads back each 32-bit integer that `%d` printed.
pub stoi-print_int : (z : ℤ) → Fits z → stoi (print_int z) ≡ some z
unfolding print_int read_digits
stoi-print_int (pos n) low =
    stoi_digits (print_digits (suc n) n []) n (starts-print_digits (suc n) n [] (omega arith))
      (read-print_digits (suc n) n [] (omega arith)) low
stoi-print_int (negsuc n) low =
    number_after_minus (print_digits (n + 2) (n + 1) []) (n + 1)
      (starts-print_digits (n + 2) (n + 1) [] (omega arith))
      (read-print_digits (n + 2) (n + 1) [] (omega arith)) (omega arith)
    ∙ ground arith
