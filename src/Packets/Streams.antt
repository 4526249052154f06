-- ===== src/Packets/Streams.antt =====
-- Packets that arrive in pieces, as the read callbacks of include/pool.h see them.
pub mod Tests
use mathlib.Core.List.{append_assoc, append-nil}
use proxy_for_distribution_s.Base.{
  ℕ, zero, suc, ◌+◌, ◌-◌, ◌/◌, ◌%◌, ◌≤◌, ◌<◌, ◌≡◌, ◌⊎◌, refl, ap, ap₂, sym, subst, ◌∙◌, ltb, Bool,
  true, false, Text, List, [], ◌∷◌, ◌++◌, length, length-append, All, Bool-cases, inl, inr, arith,
}
use proxy_for_distribution_s.Packets.{
  packet_buffer, int_of, int_bytes, frame, Front, waiting, packet, past_end, take_packet, Handled,
  next, return, ended, Read, waits, returned, died, overflows, out_of_fuel, read_packets,
  read_input,
}
use proxy_for_distribution_s.Packets.Frames.{
  IsPlain, take_packet-frame, take_packet-head, front, front-waiting, int_of-int_bytes,
}

-- What is written for one text after the other.
abbrev pub frames : List Text → Text
frames [] = []
frames (m ∷ ms) = frame m ++ frames ms

abbrev pub join : List Text → Text
join [] = []
join (p ∷ ps) = p ++ join ps

append-cases :
    (xs ys ms rest : Text)
    → xs ++ ys ≡ ms ++ rest
    → (length xs < length ms) ⊎ ((xs' : Text) × (xs ≡ ms ++ xs') × (xs' ++ ys ≡ rest))
append-cases xs ys [] rest e = inr (xs, refl, e)
append-cases [] ys (m ∷ ms) rest e = inl (omega arith)
append-cases (x ∷ xs) ys (m ∷ ms) rest e = elim (append-cases xs ys ms rest (cc)) [
  | inl h ↦ inl (omega arith)
  | inr (xs', parts, back) ↦ inr (xs', cc, back)
]

-- An input that some packets begin with is less than the first of them, or it is that packet and
-- what the others begin with.
abbrev Prefix : Text → Text → Text → Text → Type 0
Prefix xs ys m rest =
    (take_packet xs ≡ waiting) ⊎ ((xs' : Text) × (xs ≡ frame m ++ xs') × (xs' ++ ys ≡ rest))

head_length :
    (b0 b1 b2 b3 n : ℕ)
    → n < 4294967296
    → b0 ≡ n % 256
    → b1 ≡ n / 256 % 256
    → b2 ≡ n / 65536 % 256
    → b3 ≡ n / 16777216 % 256
    → int_of b0 b1 b2 b3 ≡ n
head_length b0 b1 b2 b3 n h e0 e1 e2 e3 = omega arith

prefix : (xs ys m rest : Text) → IsPlain m → xs ++ ys ≡ frame m ++ rest → Prefix xs ys m rest
unfolding take_packet frame
prefix [] ys m rest plain e = inl refl
prefix (b0 ∷ []) ys m rest plain e = inl refl
prefix (b0 ∷ b1 ∷ []) ys m rest plain e = inl refl
prefix (b0 ∷ b1 ∷ b2 ∷ []) ys m rest plain e = inl refl
prefix (b0 ∷ b1 ∷ b2 ∷ b3 ∷ xs) ys m rest plain e = elim (append-cases xs ys m rest (cc)) [
  | inl h ↦ inl (
      take_packet-head b0 b1 b2 b3 xs
      ∙ ap (λ n. front n xs)
          (head_length b0 b1 b2 b3 (length m) (omega (arith, plain.short)) (cc) (cc) (cc) (cc))
      ∙ front-waiting (length m) xs h plain.short)
  | inr (xs', parts, back) ↦ inr (xs', cc, back)
]

length-frame : (m : Text) → length (frame m) ≡ length m + 4
unfolding frame
length-frame m = omega arith

module _ {ℓ} {S E : Type ℓ} (handle : Text → S → Handled S E) where
  -- The callbacks handle the texts one after the other, and go on after each.
  abbrev pub Handles : List Text → S → S → Type ℓ
  Handles [] s s' = s ≡ s'
  Handles (m ∷ ms) s s' = (s1 : S) × (handle m s ≡ next s1) × Handles ms s1 s'

  -- Pieces arrive one after the other, and after each the callback reads what there is.
  pub deliver : S → Text → List Text → Read S E
  deliver s left [] = waits s left
  deliver s left (p ∷ ps) = elim (read_input handle s (left ++ p)) [
    | waits s' left' ↦ deliver s' left' ps
    | returned s' left' ↦ deliver s' left' ps
    | died e ↦ died e
    | overflows ↦ overflows
    | out_of_fuel ↦ out_of_fuel
  ]

  -- What a read leaves: the texts that it handled are gone from those to come.
  record Progress (s s' : S) (r : Read S E) (ys : Text) (ms : List Text) : Type ℓ where
    state : S
    left : Text
    rest : List Text
    plain : All IsPlain rest
    read : r ≡ waits state left
    short : take_packet left ≡ waiting
    to_come : left ++ ys ≡ frames rest
    handled : Handles rest state s'

  read_packets-Progress :
      (fuel : ℕ) (ms : List Text) (xs ys : Text) (s s' : S)
      → length xs < fuel
      → All IsPlain ms
      → xs ++ ys ≡ frames ms
      → Handles ms s s'
      → Progress s s' (read_packets handle fuel s xs) ys ms
  unfolding read_packets take_packet
  read_packets-Progress zero ms xs ys s s' h plain e hs = absurd (omega arith)
  read_packets-Progress (suc fuel) [] [] ys s s' h plain e hs = record {
    state = s;
    left = [];
    rest = [];
    plain = tt;
    read = refl;
    short = refl;
    to_come = e;
    handled = hs;
  }
  read_packets-Progress (suc fuel) [] (x ∷ xs) ys s s' h plain e hs = absurd (cc)
  read_packets-Progress (suc fuel) (m ∷ ms) xs ys s s' h plain e (s1, hm, hs) =
      elim (prefix xs ys m (frames ms) plain.0 e) [
        | inl short ↦ record {
          state = s;
          left = xs;
          rest = m ∷ ms;
          plain = plain;
          read = rw (short, read_packets) refl;
          short = short;
          to_come = e;
          handled = (s1, hm, hs);
        }
        | inr (xs', parts, back) ↦
            let taken : take_packet xs ≡ packet m xs' =
              ap take_packet parts ∙ take_packet-frame m xs' plain.0 in
            let smaller : length xs' < fuel =
              omega (arith, h, ap length parts, length-append (frame m) xs', length-frame m) in
            let deep = read_packets-Progress fuel ms xs' ys s1 s' smaller plain.1 back hs in
            record {
              state = deep.state;
              left = deep.left;
              rest = deep.rest;
              plain = deep.plain;
              read = rw (taken, read_packets) (rw (hm, read_packets) deep.read);
              short = deep.short;
              to_come = deep.to_come;
              handled = deep.handled;
            }
      ]

  deliver-Handles :
      (ps : List Text) (left : Text) (ms : List Text) (s s' : S)
      → All IsPlain ms
      → take_packet left ≡ waiting
      → left ++ join ps ≡ frames ms
      → Handles ms s s'
      → deliver s left ps ≡ waits s' []
  unfolding deliver read_input
  deliver-Handles [] left [] s s' plain short e hs = ap₂ waits hs (sym (append-nil left) ∙ e)
  deliver-Handles [] left (m ∷ ms) s s' plain short e hs = absurd (
      cc (
        short,
        ap take_packet (sym (append-nil left) ∙ e),
        take_packet-frame m (frames ms) plain.0,
      ))
  deliver-Handles (p ∷ ps) left ms s s' plain short e hs =
      let g =
        read_packets-Progress (length (left ++ p) + 1) ms (left ++ p) (join ps) s s' (omega arith)
          plain (append_assoc left p (join ps) ∙ e) hs in
      rw (g.read, deliver)
        (deliver-Handles ps g.left g.rest g.state s' g.plain g.short g.to_come g.handled)

  -- However the bytes of some packets are cut into pieces, and whenever these arrive, the read
  -- callback handles the packets in order and each once, and nothing of the input is left. The texts fit
  -- into the buffer, and the handler goes on after each.
  pub deliver-frames :
      (ps : List Text) (ms : List Text) (s s' : S)
      → All IsPlain ms
      → join ps ≡ frames ms
      → Handles ms s s'
      → deliver s [] ps ≡ waits s' []
  unfolding take_packet
  deliver-frames ps ms s s' plain e hs = deliver-Handles ps [] ms s s' plain refl e hs
