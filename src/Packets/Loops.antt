-- ===== src/Packets/Loops.antt =====
-- The loop of a read callback, include/pool.h, ends and keeps what handling a packet keeps.
use proxy_for_distribution_s.Base.{
  if◌then◌else◌, ℕ, zero, suc, ◌+◌, ◌≤◌, ◌<◌, Bool, true, false, Text, [], ◌∷◌, length, length-drop,
  arith,
}
use proxy_for_distribution_s.Packets.{
  int_of, to_size, Front, waiting, packet, past_end, read_body, take_packet, Handled, next, return,
  ended, Read, waits, returned, died, overflows, out_of_fuel, read_packets, read_input,
}

-- What a packet leaves is shorter than the input, by its head at least.
abbrev Shorter : ℕ → Front → Type 0
Shorter n waiting = Unit
Shorter n (packet msg rest) = length rest < n
Shorter n past_end = Unit

read_body-Shorter : (size : ℕ) (rest : Text) → Shorter (length rest + 1) (read_body size rest)
unfolding read_body
read_body-Shorter size rest = ground (arith, length-drop size rest)

Shorter-mono : (m n : ℕ) (f : Front) → m ≤ n → Shorter m f → Shorter n f
Shorter-mono m n waiting h k = tt
Shorter-mono m n (packet msg rest) h k = omega arith
Shorter-mono m n past_end h k = tt

or_waiting : (b : Bool) (n : ℕ) (f : Front) → Shorter n f → Shorter n (if b then waiting else f)
or_waiting true n f h = tt
or_waiting false n f h = h

take_packet-Shorter : (input : Text) → Shorter (length input) (take_packet input)
unfolding take_packet
take_packet-Shorter [] = tt
take_packet-Shorter (b0 ∷ []) = tt
take_packet-Shorter (b0 ∷ b1 ∷ []) = tt
take_packet-Shorter (b0 ∷ b1 ∷ b2 ∷ []) = tt
take_packet-Shorter (b0 ∷ b1 ∷ b2 ∷ b3 ∷ rest) =
    or_waiting _ (length (b0 ∷ b1 ∷ b2 ∷ b3 ∷ rest)) _ (
      Shorter-mono (length rest + 1) (length (b0 ∷ b1 ∷ b2 ∷ b3 ∷ rest)) _ (omega arith)
        (read_body-Shorter (to_size (int_of b0 b1 b2 b3)) rest))

module _ {ℓ} {S E : Type ℓ} (handle : Text → S → Handled S E) (P : S → Type 0)
    (D : E → Type 0) where
  -- What handling a packet comes to, where the state was good.
  abbrev pub Good : Handled S E → Type 0
  Good (next s) = P s
  Good (return s) = P s
  Good (ended e) = D e

  -- The callback ends with a good state, or as handling a packet may end, or past its buffer.
  abbrev pub GoodRead : Read S E → Type 0
  GoodRead (waits s left) = P s
  GoodRead (returned s left) = P s
  GoodRead (died e) = D e
  GoodRead overflows = Unit
  GoodRead out_of_fuel = ⊥

  -- After a packet, where the turns that follow are good.
  handled-Good :
      (fuel : ℕ) (rest : Text)
      → ((s : S) → P s → GoodRead (read_packets handle fuel s rest))
      → (r : Handled S E) → Good r
      → GoodRead (elim r [
        | next s' ↦ read_packets handle fuel s' rest
        | return s' ↦ returned s' rest
        | ended e ↦ died e
      ])
  handled-Good fuel rest go (next s) g = go s g
  handled-Good fuel rest go (return s) g = g
  handled-Good fuel rest go (ended e) g = g

  front-Good :
      (fuel : ℕ) (s : S) (input : Text)
      → ((rest : Text) (s' : S)
          → length rest < fuel
          → P s'
          → GoodRead (read_packets handle fuel s' rest))
      → ((msg : Text) → Good (handle msg s))
      → P s
      → length input < suc fuel
      → (f : Front) → Shorter (length input) f
      → GoodRead (elim f [
        | waiting ↦ waits s input
        | past_end ↦ overflows
        | packet msg rest ↦ elim (handle msg s) [
          | next s' ↦ read_packets handle fuel s' rest
          | return s' ↦ returned s' rest
          | ended e ↦ died e
        ]
      ])
  front-Good fuel s input go keeps p h waiting k = p
  front-Good fuel s input go keeps p h past_end k = tt
  front-Good fuel s input go keeps p h (packet msg rest) k =
      handled-Good fuel rest (λ s' p'. go rest s' (omega arith) p') (handle msg s) (keeps msg)

  read_packets-Good :
      (fuel : ℕ) (s : S) (input : Text)
      → ((msg : Text) (s' : S) → P s' → Good (handle msg s'))
      → length input < fuel
      → P s
      → GoodRead (read_packets handle fuel s input)
  unfolding read_packets
  read_packets-Good zero s input keeps h p = absurd (omega arith)
  read_packets-Good (suc fuel) s input keeps h p =
      front-Good fuel s input (λ rest s' k p'. read_packets-Good fuel s' rest keeps k p')
        (λ msg. keeps msg s p) p h (take_packet input) (take_packet-Shorter input)

  -- The loop of a read callback ends, on any input, and a state that handling a packet keeps good is
  -- good at the end, unless the callback went past its buffer.
  pub read_input-Good :
      (s : S) (input : Text)
      → ((msg : Text) (s' : S) → P s' → Good (handle msg s'))
      → P s
      → GoodRead (read_input handle s input)
  unfolding read_input
  read_input-Good s input keeps p =
      read_packets-Good (length input + 1) s input keeps (omega arith) p
