-- ===== src/Worker/Reading/Tests.antt =====
-- The read callbacks of a worker, include/pool.h, at a small worker.
use proxy_for_distribution_s.Base.{ℕ, ◌+◌, ◌*◌, refl, [], ◌∷◌, Text, find, put, insert, arith}
use proxy_for_distribution_s.Packets.Loops.{GoodRead}
use proxy_for_distribution_s.Worker.Invariant.{Inv}
use proxy_for_distribution_s.Worker.Traces.Memory.{traces-Safe}
use proxy_for_distribution_s.Worker.Examples.{prefixing, start-Starts, arrived, came, client}
use proxy_for_distribution_s.Worker.Reading.{
  Offer, Answers, parsed, read_request, client_socket_read, read_answer, work_server_socket_read,
}
use proxy_for_distribution_s.Worker.Reading.Known.{IsKnown}
use proxy_for_distribution_s.Worker.Reading.Safe.{
  AreDistinct, AreClear, Ready, IsSafeEnd, IsThrown, IsNumbered, client_socket_read-GoodRead,
  work_server_socket_read-GoodRead,
}

abbrev offers : ℕ → Offer
offers i = record { block1 = 1000 + 2 * i; block2 = 1001 + 2 * i; clock = 8 }

offers-AreDistinct : AreDistinct offers
offers-AreDistinct = record {
  first = λ i j ne e. ne (omega (arith, e));
  second = λ i j ne e. ne (omega (arith, e));
  other = λ i j e. absurd (omega (arith, e));
}

came-Inv : Inv came
came-Inv = traces-Safe start-Starts arrived

came-AreClear : AreClear offers 0 came
unfolding came
came-AreClear i h = (ground arith, ground arith, ground arith, ground arith)

came-IsKnown : IsKnown 0 came
unfolding came find insert put
came-IsKnown = (client, refl)

-- Two packets of one byte, and the beginning of a third.
abbrev input : Text
input = 1 ∷ 0 ∷ 0 ∷ 0 ∷ 7 ∷ 1 ∷ 0 ∷ 0 ∷ 0 ∷ 9 ∷ 4 ∷ []

client_socket_read-GoodRead_example :
    GoodRead
      (read_request prefixing offers 0)
      (Ready prefixing offers 0 offers-AreDistinct)
      IsSafeEnd
      (client_socket_read prefixing offers 0 input came)
client_socket_read-GoodRead_example =
    client_socket_read-GoodRead prefixing offers 0 offers-AreDistinct input came came-Inv
      came-IsKnown came-AreClear

abbrev answers : Answers
answers msg = parsed 0 1 msg

answers-IsNumbered : IsNumbered answers
answers-IsNumbered msg c k reply e = ground arith

work_server_socket_read-GoodRead_example :
    GoodRead (read_answer answers) Inv IsThrown (work_server_socket_read answers input came)
work_server_socket_read-GoodRead_example =
    work_server_socket_read-GoodRead answers input came answers-IsNumbered came-Inv
