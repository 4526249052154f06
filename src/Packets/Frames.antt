-- ===== src/Packets/Frames.antt =====
-- What the read callbacks of include/pool.h take for the packet at the front of their input.
use proxy_for_distribution_s.Base.{
  ℕ, ◌+◌, ◌-◌, ◌/◌, ◌%◌, ◌≤◌, ◌<◌, ◌≡◌, ◌⊎◌, refl, ap, ◌∙◌, ltb, leb, if◌then◌else◌, true, false,
  Text, [], ◌∷◌, ◌++◌, length, length-append, length-take, take, drop, take-append, take_all, inl,
  inr, arith,
}
use proxy_for_distribution_s.Packets.{
  head_size, packet_buffer, int_mod, size_mod, int_of, to_size, frame, string_of, has_nul, Front,
  waiting, packet, past_end, read_body, take_packet,
}

-- A text that fits into the buffer and is a C string.
pub record IsPlain (msg : Text) : Type 0 where
  pub short : length msg < packet_buffer
  pub no_nul : has_nul msg ≡ false

pub int_of-int_bytes :
    (n : ℕ)
    → n < int_mod
    → int_of (n % 256) (n / 256 % 256) (n / 65536 % 256) (n / 16777216 % 256) ≡ n
int_of-int_bytes n h = omega arith

string_of-no_nul : (bs : Text) → has_nul bs ≡ false → string_of bs ≡ bs
unfolding string_of has_nul
string_of-no_nul [] h = refl
string_of-no_nul (b ∷ bs) h = ground (arith, string_of-no_nul bs)

drop-length : (xs ys : Text) → drop (length xs) (xs ++ ys) ≡ ys
drop-length [] ys = refl
drop-length (x ∷ xs) ys = drop-length xs ys

-- The packet at the front of an input with a whole head, by the length that it says.
pub front : ℕ → Text → Front
unfolding to_size
front n rest =
    if ltb (head_size + length rest) ((head_size + to_size n) % size_mod)
    then waiting
    else read_body (to_size n) rest

pub take_packet-head :
    (b0 b1 b2 b3 : ℕ) (rest : Text)
    → take_packet (b0 ∷ b1 ∷ b2 ∷ b3 ∷ rest) ≡ front (int_of b0 b1 b2 b3) rest
unfolding take_packet front
take_packet-head b0 b1 b2 b3 rest = refl

pub front-waiting :
    (n : ℕ) (rest : Text) → length rest < n → n < packet_buffer → front n rest ≡ waiting
unfolding front
front-waiting n rest h k =
    let more : ltb (head_size + length rest) ((head_size + to_size n) % size_mod) ≡ true =
      ground arith in
    rw more refl

front-packet : (msg rest : Text) → IsPlain msg → front (length msg) (msg ++ rest) ≡ packet msg rest
unfolding front read_body
front-packet msg rest plain =
    let size : to_size (length msg) ≡ length msg = ground (arith, plain.short) in
    let enough : ltb (head_size + length (msg ++ rest)) ((head_size + length msg) % size_mod)
        ≡ false =
      ground (arith, plain.short, length-append msg rest) in
    let fits : leb (length msg) (packet_buffer - 1) ≡ true = ground (arith, plain.short) in
    rw (size, enough, take-append msg rest, fits, string_of-no_nul msg plain.no_nul)
      (ap (packet msg) (drop-length msg rest))

-- A packet that was written is read, whatever comes behind it.
pub take_packet-frame :
    (msg rest : Text) → IsPlain msg → take_packet (frame msg ++ rest) ≡ packet msg rest
unfolding frame
take_packet-frame msg rest plain =
    take_packet-head _ _ _ _ (msg ++ rest)
    ∙ ap (λ n. front n (msg ++ rest)) (int_of-int_bytes (length msg) (omega (arith, plain.short)))
    ∙ front-packet msg rest plain

read_body-past_end :
    (size : ℕ) (rest : Text)
    → packet_buffer < length (take size rest)
    → read_body size rest ≡ past_end
unfolding read_body
read_body-past_end size rest h = ground arith

front-over :
    (n : ℕ) (rest : Text)
    → packet_buffer < n
    → n ≤ length rest
    → n < 2147483648
    → front n rest ≡ past_end
unfolding front
front-over n rest over there positive =
    let size : to_size n ≡ n = ground arith in
    let enough : ltb (head_size + length rest) ((head_size + n) % size_mod) ≡ false =
      ground arith in
    rw (size, enough) (read_body-past_end n rest (omega (arith, length-take n rest there)))

front-negative :
    (n : ℕ) (rest : Text)
    → packet_buffer < length rest
    → int_mod - 4 ≤ n
    → n < int_mod
    → length rest < int_mod
    → front n rest ≡ past_end
unfolding front
front-negative n rest long lo hi small =
    let size : to_size n ≡ n + (size_mod - int_mod) = ground arith in
    let enough : ltb (head_size + length rest) ((head_size + (n + (size_mod - int_mod))) % size_mod)
        ≡ false =
      ground arith in
    let whole = take_all (n + (size_mod - int_mod)) rest (omega arith) in
    rw (size, enough)
      (read_body-past_end (n + (size_mod - int_mod)) rest (omega (arith, ap length whole, long)))

-- A head with a negative length of at least -4, or with one of more than the buffer has, and so many
-- bytes behind it, makes the callback write past its buffer.
pub take_packet-past_end :
    (b0 b1 b2 b3 : ℕ) (rest : Text)
    → packet_buffer < length rest
    → ((packet_buffer < int_of b0 b1 b2 b3)
        × (int_of b0 b1 b2 b3 ≤ length rest)
        × (int_of b0 b1 b2 b3 < 2147483648))
      ⊎ ((int_mod - 4 ≤ int_of b0 b1 b2 b3) × (int_of b0 b1 b2 b3 < int_mod))
    → length rest < int_mod
    → take_packet (b0 ∷ b1 ∷ b2 ∷ b3 ∷ rest) ≡ past_end
take_packet-past_end b0 b1 b2 b3 rest long (inl (over, there, positive)) small =
    take_packet-head b0 b1 b2 b3 rest ∙ front-over (int_of b0 b1 b2 b3) rest over there positive
take_packet-past_end b0 b1 b2 b3 rest long (inr (lo, hi)) small =
    take_packet-head b0 b1 b2 b3 rest ∙ front-negative (int_of b0 b1 b2 b3) rest long lo hi small
