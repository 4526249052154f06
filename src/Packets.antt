-- ===== src/Packets.antt =====
-- The packets of the gateway and the service: `struct Head` of include/structure.h and the text behind
-- it, as the read callbacks of include/pool.h and server_service/thread.cpp take them out of a
-- connection's input, and as they are written.
pub mod Frames
pub mod Loops
pub mod Streams
use proxy_for_distribution_s.Base.{
  ℕ, zero, suc, ◌+◌, ◌-◌, ◌*◌, ◌/◌, ◌%◌, ltb, leb, ◌==◌, if◌then◌else◌, Bool, true, false, Text,
  List, [], ◌∷◌, ◌++◌, length, take, drop,
}

-- The bytes of `struct Head`.
abbrev pub head_size : ℕ
head_size = 4

-- `char buffer[1024]`
abbrev pub packet_buffer : ℕ
packet_buffer = 1024

abbrev pub int_mod : ℕ
int_mod = 4294967296

abbrev pub size_mod : ℕ
size_mod = 18446744073709551616

-- An `int` in memory, low byte first, and the four bytes as a number without a sign.
abbrev pub int_bytes : ℕ → Text
int_bytes n = n % 256 ∷ n / 256 % 256 ∷ n / 65536 % 256 ∷ n / 16777216 % 256 ∷ []

abbrev pub int_of : (b0 b1 b2 b3 : ℕ) → ℕ
int_of b0 b1 b2 b3 = b0 + 256 * b1 + 65536 * b2 + 16777216 * b3

-- An `int` as a `size_t`: one from 2^31 on is negative, and becomes a number near 2^64.
unfoldable pub to_size : ℕ → ℕ
to_size n = if ltb n 2147483648 then n else n + (size_mod - int_mod)

-- What is written for a text: its length and its bytes.
pub frame : Text → Text
frame body = int_bytes (length body) ++ body

-- A C string: up to the first 0.
unfoldable pub string_of : Text → Text
string_of [] = []
string_of (b ∷ bs) = if b == 0 then [] else b ∷ string_of bs

-- Whether there is a 0.
unfoldable pub has_nul : Text → Bool
has_nul [] = false
has_nul (b ∷ bs) = if b == 0 then true else has_nul bs

-- What is at the front of an input: less than a packet, a packet and the rest, or one for which the
-- code writes or reads past its buffer.
pub data Front : Type 0 where
  waiting : Front
  packet : Text → Text → Front
  past_end : Front

-- `bufferevent_read(bev, buffer, head.length)`, which reads at most what is there, and then
-- `std::string msg(buffer)`.
pub read_body : ℕ → Text → Front
unfolding string_of has_nul
read_body size rest =
    let body = take size rest in
    if leb (length body) (packet_buffer - 1)
    then packet (string_of body) (drop size rest)
    else if length body == packet_buffer
    then (if has_nul body then packet (string_of body) (drop size rest) else past_end)
    else past_end

unfoldable pub take_packet : Text → Front
unfolding to_size read_body
take_packet [] = waiting
take_packet (b0 ∷ []) = waiting
take_packet (b0 ∷ b1 ∷ []) = waiting
take_packet (b0 ∷ b1 ∷ b2 ∷ []) = waiting
take_packet (b0 ∷ b1 ∷ b2 ∷ b3 ∷ rest) =
    let size = to_size (int_of b0 b1 b2 b3) in
    if ltb (head_size + length rest) ((head_size + size) % size_mod)
    then waiting
    else read_body size rest

-- What handling a packet comes to: the loop goes on, the callback returns, or the process ends.
pub data Handled {ℓ} (S E : Type ℓ) : Type ℓ where
  next : S → Handled S E
  return : S → Handled S E
  ended : E → Handled S E

-- How a read callback ends, with what is left of the input.
pub data Read {ℓ} (S E : Type ℓ) : Type ℓ where
  waits : S → Text → Read S E
  returned : S → Text → Read S E
  died : E → Read S E
  overflows : Read S E
  out_of_fuel : Read S E

-- The loop of a read callback: packets are taken from the input and handled.
module _ {ℓ} {S E : Type ℓ} (handle : Text → S → Handled S E) where
  unfoldable pub read_packets : ℕ → S → Text → Read S E
  read_packets zero s input = out_of_fuel
  read_packets (suc fuel) s input = elim (take_packet input) [
    | waiting ↦ waits s input
    | past_end ↦ overflows
    | packet msg rest ↦ elim (handle msg s) [
      | next s' ↦ read_packets fuel s' rest
      | return s' ↦ returned s' rest
      | ended e ↦ died e
    ]
  ]

  -- A packet has at least a head, so that this many turns are enough.
  unfoldable pub read_input : S → Text → Read S E
  read_input s input = read_packets (length input + 1) s input
