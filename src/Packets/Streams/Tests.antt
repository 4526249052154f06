-- ===== src/Packets/Streams/Tests.antt =====
-- Packets at small inputs.
use proxy_for_distribution_s.Base.{
  ℕ, ◌≡◌, refl, Text, List, [], ◌∷◌, ◌++◌, replicate, length-replicate, inr, arith,
}
use proxy_for_distribution_s.Packets.{frame, has_nul, past_end, take_packet, Handled, next, waits}
use proxy_for_distribution_s.Packets.Frames.{IsPlain, take_packet-past_end}
use proxy_for_distribution_s.Packets.Streams.{deliver, deliver-frames}

abbrev hi : Text
hi = 104 ∷ 105 ∷ []

abbrev yes_ : Text
yes_ = 121 ∷ []

hi-IsPlain : IsPlain hi
unfolding has_nul
hi-IsPlain = record { short = omega arith; no_nul = refl }

yes_-IsPlain : IsPlain yes_
unfolding has_nul
yes_-IsPlain = record { short = omega arith; no_nul = refl }

abbrev collect : Text → List Text → Handled (List Text) ℕ
collect msg seen = next (seen ++ msg ∷ [])

-- Two packets, the second cut in its head.
abbrev pieces : List Text
pieces = (2 ∷ 0 ∷ []) ∷ (0 ∷ 0 ∷ 104 ∷ 105 ∷ 1 ∷ []) ∷ (0 ∷ 0 ∷ 0 ∷ 121 ∷ []) ∷ []

deliver-frames_example : deliver collect [] [] pieces ≡ waits (hi ∷ yes_ ∷ []) []
unfolding frame
deliver-frames_example =
    deliver-frames collect pieces (hi ∷ yes_ ∷ []) [] (hi ∷ yes_ ∷ [])
      (hi-IsPlain, (yes_-IsPlain, tt)) refl (hi ∷ [], refl, (hi ∷ yes_ ∷ [], refl, refl))

frame_bytes : frame hi ≡ 2 ∷ 0 ∷ 0 ∷ 0 ∷ 104 ∷ 105 ∷ []
unfolding frame
frame_bytes = refl

abbrev seven : ℕ
seven = 7

-- A length of -1.
take_packet-past_end_example : take_packet (255 ∷ 255 ∷ 255 ∷ 255 ∷ replicate 1100 seven) ≡ past_end
take_packet-past_end_example =
    take_packet-past_end 255 255 255 255 (replicate 1100 seven)
      (omega (arith, length-replicate 1100 seven)) (inr (omega arith, omega arith))
      (omega (arith, length-replicate 1100 seven))
