-- ===== src/Worker/Reading/Safe.antt =====
-- The read callbacks of a worker, include/pool.h, on whatever bytes arrive.
use proxy_for_distribution_s.Base.{
  ℕ, zero, suc, ◌+◌, ◌≤◌, true, false, Bool, some, Text, ◌≡◌, ◌≢◌, refl, arith, ◌⊎◌, Bool-cases,
  inl, inr, leb, ◌∙◌, sym, ap,
}
use proxy_for_distribution_s.Packets.Loops.{Good, GoodRead, read_input-Good}
use proxy_for_distribution_s.Worker.State.{
  Worker, Result, ok, died, Death, queue_full, no_server, overflow, stale_iterator, null_pointer,
  dangling, double_free, uncaught,
}
use proxy_for_distribution_s.Worker.Requests.{Codec, client_packet, server_packet}
use proxy_for_distribution_s.Worker.Invariant.{Inv, Safe, Kept}
use proxy_for_distribution_s.Worker.Safety.Turn.{client_packet-Safe}
use proxy_for_distribution_s.Worker.Safety.Reply.{server_packet-Kept}
use proxy_for_distribution_s.Worker.Reading.{
  Offer, Using, Answers, Answer, unparsed, thrown, parsed, turn, go_on, read_request,
  client_socket_read, read_answer, work_server_socket_read,
}
use proxy_for_distribution_s.Worker.Reading.Known.{Done, IsKnown, client_packet-IsKnown}
use proxy_for_distribution_s.Worker.Reading.Ends.{Steady, client_packet-Steady}
use proxy_for_distribution_s.Worker.Reading.Frame.{Idle, client_packet-Idle}

-- How a client's packet may end the process: a queue is full, there is no server, the packet is too long
-- to be kept, or jsoncpp throws.
abbrev pub IsSafeEnd : Death → Type 0
IsSafeEnd queue_full = Unit
IsSafeEnd no_server = Unit
IsSafeEnd overflow = Unit
IsSafeEnd uncaught = Unit
IsSafeEnd stale_iterator = ⊥
IsSafeEnd null_pointer = ⊥
IsSafeEnd dangling = ⊥
IsSafeEnd double_free = ⊥

-- No two offers share a block.
pub record AreDistinct (offers : ℕ → Offer) : Type 0 where
  pub first : (i j : ℕ) → i ≢ j → (offers i).block1 ≢ (offers j).block1
  pub second : (i j : ℕ) → i ≢ j → (offers i).block2 ≢ (offers j).block2
  pub other : (i j : ℕ) → (offers i).block1 ≢ (offers j).block2

-- An offer's blocks are not in use and the flags in them are clear.
abbrev pub IsClear : Offer → Worker → Type 0
IsClear o w =
    (w.live o.block1 ≡ false)
    × (w.live o.block2 ≡ false)
    × ((w.heap o.block1).msg_flag ≡ false)
    × ((w.heap o.block2).finish_flag ≡ false)

-- So it is with all offers from one on.
abbrev pub AreClear : (ℕ → Offer) → ℕ → Worker → Type 0
AreClear offers n w = (i : ℕ) → n ≤ i → IsClear (offers i) w

Done-all :
    (P : ℕ → Worker × Bool → Type 0) (r : Result (Worker × Bool))
    → ((i : ℕ) → Done (P i) r)
    → Done (λ a. (i : ℕ) → P i a) r
Done-all P (ok a) h = h
Done-all P (died e) h = tt

Done-any :
    (P : Worker × Bool → Type 0) (r : Result (Worker × Bool))
    → ((a : Worker × Bool) → P a)
    → Done P r
Done-any P (ok a) f = f a
Done-any P (died e) f = tt

Done-pair :
    (P Q : Worker × Bool → Type 0) (r : Result (Worker × Bool))
    → Done P r
    → Done Q r
    → Done (λ a. P a × Q a) r
Done-pair P Q (ok a) h k = (h, k)
Done-pair P Q (died e) h k = tt

Done-mono :
    (P Q : Worker × Bool → Type 0) (r : Result (Worker × Bool))
    → ((a : Worker × Bool) → P a → Q a)
    → Done P r
    → Done Q r
Done-mono P Q (ok a) f h = f a h
Done-mono P Q (died e) f h = tt

module _ (codec : Codec) (offers : ℕ → Offer) (c : ℕ) (distinct : AreDistinct offers) where
  -- The client is known, and the offers to come are clear.
  abbrev pub Ready : Using → Type 0
  Ready (w, n) = Inv w × IsKnown c w × AreClear offers n w

  -- A later offer is left alone.
  later-IsClear :
      (msg : Text) (w : Worker) (n i : ℕ)
      → AreClear offers n w
      → Done
          (λ r. n + 1 ≤ i → IsClear (offers i) r.0)
          (client_packet codec c msg
            (some (offers n).block1)
            (some (offers n).block2)
            (offers n).clock
            w)
  later-IsClear msg w n i clear =
      let o = offers n in
      let next_o = offers i in
      let r = client_packet codec c msg (some o.block1) (some o.block2) o.clock w in
      elim (Bool-cases (leb (n + 1) i)) [
        | inr low ↦ Done-any (λ a. n + 1 ≤ i → IsClear next_o a.0) r (λ a h. absurd (ground arith))
        | inl high ↦
            let apart : n ≢ i = ground arith in
            let (free1, free2, clean1, clean2) = clear i (ground arith) in
            Done-mono
              (λ a.
                Idle next_o.block1 (w.heap next_o.block1) a.0
                × Idle next_o.block2 (w.heap next_o.block2) a.0)
              (λ a. n + 1 ≤ i → IsClear next_o a.0) r
              (λ a (idle1, idle2) h. (
                idle1.0,
                idle2.0,
                ap (λ e. e.msg_flag) idle1.1 ∙ clean1,
                ap (λ e. e.finish_flag) idle2.1 ∙ clean2,
              ))
              (Done-pair _ _ r
                (client_packet-Idle next_o.block1 (w.heap next_o.block1) codec c msg o.block1
                  o.block2 o.clock w (distinct.first n i apart) (λ e. distinct.other i n (sym e))
                  (free1, refl))
                (client_packet-Idle next_o.block2 (w.heap next_o.block2) codec c msg o.block1
                  o.block2 o.clock w (distinct.other n i) (distinct.second n i apart)
                  (free2, refl)))
      ]

  turn-Good :
      (n : ℕ) (r : Result (Worker × Bool))
      → Safe (λ (w', more). Inv w') r
      → Steady r
      → Done (λ a. IsKnown c a.0) r
      → Done (λ a. AreClear offers (n + 1) a.0) r
      → Good (read_request codec offers c) Ready IsSafeEnd (turn (n + 1) r)
  turn-Good n (ok (w, true)) v steady known clear = (v, known, clear)
  turn-Good n (ok (w, false)) v steady known clear = (v, known, clear)
  turn-Good n (died queue_full) v steady known clear = tt
  turn-Good n (died no_server) v steady known clear = tt
  turn-Good n (died overflow) v steady known clear = tt
  turn-Good n (died uncaught) v steady known clear = tt
  turn-Good n (died stale_iterator) v steady known clear = absurd steady
  turn-Good n (died null_pointer) v steady known clear = absurd v
  turn-Good n (died dangling) v steady known clear = absurd v
  turn-Good n (died double_free) v steady known clear = absurd v

  read_request-Good :
      (msg : Text) (s : Using)
      → Ready s
      → Good (read_request codec offers c) Ready IsSafeEnd (read_request codec offers c msg s)
  unfolding read_request
  read_request-Good msg (w, n) (v, (cl, at), clear) =
      let (free1, free2, clean1, clean2) = clear n (omega arith) in
      let o = offers n in
      let r = client_packet codec c msg (some o.block1) (some o.block2) o.clock w in
      turn-Good n r
        (client_packet-Safe codec w c o.block1 o.block2 o.clock msg cl v at free1 free2
          (distinct.other n n) clean1 clean2)
        (client_packet-Steady codec c msg (some o.block1) (some o.block2) o.clock w)
        (client_packet-IsKnown codec c msg (some o.block1) (some o.block2) o.clock w (cl, at))
        (Done-all (λ i a. n + 1 ≤ i → IsClear (offers i) a.0) r
          (λ i. later-IsClear msg w n i clear))

  -- Whatever bytes a known client has sent, client_socket_read_cb ends: with the invariant on events
  -- kept, the client known and the offers of blocks that are left clear; or it ends the process, because
  -- a queue is full, there is no server, a packet is too long to be kept, or jsoncpp throws at a
  -- document that is no object; or it goes past the end of its buffer. The offers are of distinct
  -- blocks that are not in use, and whose msg_flag and finish_flag are clear, which MemoryPoolAlloc
  -- ensures only of memory that was not used before.
  pub client_socket_read-GoodRead :
      (input : Text) (w : Worker)
      → Inv w
      → IsKnown c w
      → AreClear offers 0 w
      → GoodRead
          (read_request codec offers c)
          Ready
          IsSafeEnd
          (client_socket_read codec offers c input w)
  unfolding client_socket_read
  client_socket_read-GoodRead input w v (cl, at) clear = elim (Bool-cases cl.close_flag) [
    | inl e ↦ rw (at, client_socket_read) (rw e (v, (cl, at), clear))
    | inr e ↦
        rw (at, client_socket_read)
          (rw e (
            read_input-Good (read_request codec offers c) Ready IsSafeEnd (w, 0) input
              read_request-Good (v, (cl, at), clear)))
  ]

-- A packet's number is not 0 in what a server sends.
abbrev pub IsNumbered : Answers → Type 0
IsNumbered answers = (msg : Text) (c k : ℕ) (reply : Text) → answers msg ≡ parsed c k reply → k ≢ 0

-- jsoncpp has thrown.
abbrev pub IsThrown : Death → Type 0
IsThrown e = e ≡ uncaught

go_on-Good :
    (answers : Answers) (r : Result Worker)
    → Kept Inv r
    → Good (read_answer answers) Inv IsThrown (go_on r)
go_on-Good answers (ok w) v = v
go_on-Good answers (died e) v = absurd v

numbered-Good :
    (answers : Answers) (w : Worker) (c k : ℕ) (reply : Text)
    → Inv w
    → k ≢ 0
    → Good (read_answer answers) Inv IsThrown (go_on (server_packet c k reply w))
numbered-Good answers w c zero reply v h = absurd (h refl)
numbered-Good answers w c (suc k) reply v h =
    go_on-Good answers (server_packet c (suc k) reply w) (server_packet-Kept w c k reply v)

Answer-cases :
    (a : Answer)
    → (a ≡ unparsed) ⊎ ((a ≡ thrown) ⊎ ((c k : ℕ) × (reply : Text) × (a ≡ parsed c k reply)))
Answer-cases unparsed = inl refl
Answer-cases thrown = inr (inl refl)
Answer-cases (parsed c k reply) = inr (inr (c, k, reply, refl))

read_answer-Good :
    (answers : Answers)
    → IsNumbered answers
    → (msg : Text) (w : Worker) → Inv w
    → Good (read_answer answers) Inv IsThrown (read_answer answers msg w)
unfolding read_answer
read_answer-Good answers numbered msg w v = elim (Answer-cases (answers msg)) [
  | inl e ↦ rw (e, read_answer) v
  | inr (inl e) ↦ rw (e, read_answer) refl
  | inr (inr (c, k, reply, e)) ↦
      rw (e, read_answer) (numbered-Good answers w c k reply v (numbered msg c k reply e))
]

-- Whatever bytes a server has sent, work_server_socket_read_cb ends with the invariant on events kept; or
-- it ends the process because jsoncpp throws; or it goes past the end of its buffer. In no other way does
-- it end the process. No packet of the server has the number 0.
pub work_server_socket_read-GoodRead :
    (answers : Answers) (input : Text) (w : Worker)
    → IsNumbered answers
    → Inv w
    → GoodRead (read_answer answers) Inv IsThrown (work_server_socket_read answers input w)
unfolding work_server_socket_read
work_server_socket_read-GoodRead answers input w numbered v =
    read_input-Good (read_answer answers) Inv IsThrown w input (read_answer-Good answers numbered) v
