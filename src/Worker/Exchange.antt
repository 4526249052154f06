-- ===== src/Worker/Exchange.antt =====
-- A request and its answer, include/pool.h: `client_socket_read_cb`, then `work_server_socket_read_cb`.
use proxy_for_distribution_s.Base.{
  ℕ, suc, ◌+◌, ◌<◌, ◌==◌, ◌%◌, true, false, [], ◌∷◌, ◌++◌, none, some, Text, length, get_elem?,
  find, put, insert, erase, find-put, find-insert, find-erase, ◌≡◌, refl, arith, subst, ◌∙◌,
  lt_of_get_elem?, inl, inr,
}
use proxy_for_distribution_s.EventQueue.Fifo.{contents, push_lem}
use proxy_for_distribution_s.Worker.State.{CliEvent, Client, Worker, write, ok, emit, store, claim}
use proxy_for_distribution_s.Worker.Clients.{with_client, current_limit}
use proxy_for_distribution_s.Worker.Requests.{
  Codec, renew_limit, keep_request, client_packet, server_packet, c_info_size,
}
use proxy_for_distribution_s.Worker.Invariant.{Inv, HeldIn}
use proxy_for_distribution_s.Worker.Safety.Packet.{
  after, after-Inv, after_client, after_rest, renew_limit_cases,
}
use proxy_for_distribution_s.Worker.Safety.Turn.{forward_count-Inv, unused_number}
use proxy_for_distribution_s.Worker.Safety.Limits.{with_client-Inv, emit-Inv, same_pointers}

-- Packet `k` of client `c` waits for its answer: it is kept at `p` with its text, and the
-- answer goes to connection `bev`.
pub record Waits (w : Worker) (c k p bev : ℕ) (body : Text) : Type 0 where
  pub client : Client
  pub client_at : find c w.client_map ≡ some client
  pub client_bev : client.bev ≡ bev
  pub packet_at : find k client.cli_event_map ≡ some p
  pub kept : w.live p ≡ true
  pub text : (w.heap p).c_info ≡ body
  pub size : (w.heap p).head ≡ length body

-- The answer to a packet that waits goes to the client that sent it, and a further answer to the same packet is
-- ignored.
pub answer_once :
    (w : Worker) (c k p bev : ℕ) (body reply : Text)
    → Waits w c k p bev body
    → (w' : Worker) × (server_packet c k reply w ≡ ok w')
      × (w'.effects ≡ w.effects ++ write bev (length reply) reply ∷ [])
      × ((w'.heap p).finish_flag ≡ true)
      × ((reply' : Text) → server_packet c k reply' w' ≡ ok w')
unfolding server_packet
answer_once w c k p bev body reply h =
    let cl = h.client in
    let left : Client = record cl { cli_event_map = erase k cl.cli_event_map } in
    let w1 = emit (write cl.bev (length reply) reply) w in
    let e : CliEvent = record (w.heap p) { finish_flag = true } in
    let there : find c (put c left w.client_map) ≡ some left =
      ground (arith, find-put c c left w.client_map) in
    let gone : find k (erase k cl.cli_event_map) ≡ none =
      ground (arith, find-erase k k cl.cli_event_map) in
    (
      with_client c left (store p e w1),
      ground (arith, h.client_at, h.packet_at, h.kept),
      ground (arith, h.client_bev),
      ground arith,
      λ reply'. ground arith,
    )

-- A packet that is short enough is kept, where the queue of requests has room.
keep-Waits :
    (w : Worker) (v : Inv w) (c k p now : ℕ) (body : Text) (cl : Client)
    → find c w.client_map ≡ some cl
    → find k cl.cli_event_map ≡ none
    → length body < c_info_size
    → length (contents w.fin_queue) + 1 < length w.fin_queue.slots
    → (w' : Worker) × (keep_request c k (length body) body (some p) now w ≡ ok w')
      × Waits w' c k p cl.bev body
      × (w'.effects ≡ w.effects)
unfolding keep_request
keep-Waits w v c k p now body cl at new short room = elim (push_lem w.fin_queue p v.fin_valid) [
  | inr (full, _) ↦ absurd (omega arith)
  | inl (q, _, e, d) ↦
      let asked : Client = record cl { cli_event_map = insert k p cl.cli_event_map } in
      let there : find c (put c asked w.client_map) ≡ some asked =
        ground (arith, find-put c c asked w.client_map) in
      let kept_at : find k (insert k p cl.cli_event_map) ≡ some p =
        ground (arith, find-insert k k p cl.cli_event_map new) in
      let event : CliEvent = record (w.heap p) {
        head = length body;
        usr_uuid = c;
        c_info = body;
        arr_time = now;
      } in
      (
        record (with_client c asked (store p event (claim p w))) { fin_queue = q },
        ground (arith, at),
        record {
          client = asked;
          client_at = there;
          client_bev = refl;
          packet_at = kept_at;
          kept = ground arith;
          text = ground arith;
          size = ground arith;
        },
        refl,
      )
]

-- A request after the limit and the write.
renew_keep-Waits :
    (w : Worker) (v : Inv w) (c k n p1 p2 now : ℕ) (body : Text) (cl : Client)
    → n ≡ suc k
    → find c w.client_map ≡ some cl
    → w.live p1 ≡ false
    → (w.heap p1).msg_flag ≡ false
    → find (suc k) cl.cli_event_map ≡ none
    → length body < c_info_size
    → length (contents w.msg_queue) + 1 < length w.msg_queue.slots
    → length (contents w.fin_queue) + 1 < length w.fin_queue.slots
    → (w4 w5 : Worker) × (renew_limit c (some p1) now w ≡ ok w4)
      × (keep_request c n (length body) body (some p2) now w4 ≡ ok w5)
      × Waits w5 c n p2 cl.bev body
      × (w5.effects ≡ w.effects)
renew_keep-Waits w v c k n p1 p2 now body cl is at free clean new short room1 room2 =
    elim (renew_limit_cases w v c p1 now cl at free clean) [
      | inl (full, _) ↦ absurd (omega arith)
      | inr (q, e, d) ↦
          let w4 = after w v c p1 now cl at free clean q in
          let v4 = after-Inv w v c p1 now cl at free clean q d in
          let (cl', at', bevs, packs, same) = after_client w v c p1 now cl at free clean q in
          let (fins, outs) = after_rest w v c p1 now cl at free clean q in
          let new' : find n cl'.cli_event_map ≡ none = rw is (ground (arith, same k)) in
          let (w5, e', waits, outs') =
            keep-Waits w4 v4 c n p2 now body cl' at' new' short (rw fins room2) in
          (w4, w5, e, e', subst (λ b. Waits w5 c n p2 b body) bevs waits, outs' ∙ outs)
    ]

-- In a worker that keeps the invariant, a request that parses and to which the gateway can add its members,
-- from a client that has sent fewer than 10 since the last reset, with a server, a fresh block with a
-- clear msg_flag for the new time limit, room in both queues and a packet short enough, is written to
-- the server whose turn it is, and then waits for its answer under the next number of its client.
pub request-Waits :
    (codec : Codec) (w : Worker) (v : Inv w) (c p1 p2 now server : ℕ) (msg body : Text)
    (cl : Client)
    → find c w.client_map ≡ some cl
    → w.live p1 ≡ false
    → (w.heap p1).msg_flag ≡ false
    → codec.parses msg ≡ true
    → codec.forward c (cl.pack_id + 1) msg ≡ some body
    → cl.count < 10
    → get_elem? w.servers (w.forward_count % length w.servers) ≡ some server
    → length body < c_info_size
    → length (contents w.msg_queue) + 1 < length w.msg_queue.slots
    → length (contents w.fin_queue) + 1 < length w.fin_queue.slots
    → (w' : Worker) × (client_packet codec c msg (some p1) (some p2) now w ≡ ok (w', true))
      × (w'.effects ≡ w.effects ++ write server (length body) body ∷ [])
      × Waits w' c (cl.pack_id + 1) p2 cl.bev body
unfolding client_packet current_limit
request-Waits codec w v c p1 p2 now server msg body cl at free clean good added few chosen short
      room1 room2 =
    let count = w.forward_count % length w.servers in
    let w0 : Worker = record w { forward_count = count } in
    let h = v.clients c cl at in
    let counted : Client = record cl { count = cl.count + 1 } in
    let w1 = with_client c counted w0 in
    let numbered : Client = record counted { pack_id = cl.pack_id + 1 } in
    let e = write server (length body) body in
    let w2 = with_client c numbered w1 in
    let w3 : Worker = record (emit e w2) { forward_count = count + 1 } in
    let v1 =
      with_client-Inv w0 c counted (forward_count-Inv w count v)
        (same_pointers w0 counted refl (omega arith) h) in
    let h1 : HeldIn w1 c counted = same_pointers w1 counted refl (omega arith) h in
    let v2 = with_client-Inv w1 c numbered v1 (same_pointers w1 numbered refl (omega arith) h1) in
    let v3 = forward_count-Inv (emit e w2) (count + 1) (emit-Inv w2 e v2) in
    let there1 : find c (put c counted w.client_map) ≡ some counted =
      ground (arith, find-put c c counted w.client_map) in
    let there : find c w2.client_map ≡ some numbered =
      ground (arith, find-put c c numbered w1.client_map) in
    let some_server : length w.servers == 0 ≡ false =
      ground (arith, lt_of_get_elem? w.servers count server chosen) in
    let (w4, w5, e4, e5, waits, outs) =
      renew_keep-Waits w3 v3 c cl.pack_id (cl.pack_id + 1) p1 p2 now body numbered (omega arith)
        there free clean (unused_number w c cl h) short room1 room2 in
    (w5, ground arith, outs, waits)
