-- ===== src/Worker/Safety/Reply.antt =====
-- An answer from a server, include/pool.h: `work_server_socket_read_cb` keeps the invariant.
use proxy_for_distribution_s.Base.{
  ℕ, suc, true, some, Text, length, find, erase, find-erase, ◌≡◌, ◌≢◌, arith, Option-cases, inl,
  inr,
}
use proxy_for_distribution_s.EventQueue.Fifo.{contents}
use proxy_for_distribution_s.Worker.State.{
  CliEvent, Client, Worker, Effect, write, set_at, store, emit,
}
use proxy_for_distribution_s.Worker.Clients.{with_client}
use proxy_for_distribution_s.Worker.Requests.{server_packet}
use proxy_for_distribution_s.Worker.Invariant.{
  Held, HeldIn, Inv, Kept, Kept-Safe, Safe, Held-frame, put_all,
}

module _ (w : Worker) (v : Inv w) (c k p : ℕ) (cl : Client) (at : find c w.client_map ≡ some cl)
    (asked : find (suc k) cl.cli_event_map ≡ some p) where
  done : CliEvent
  done = record (w.heap p) { finish_flag = true }

  rest : Client
  rest = record cl { cli_event_map = erase (suc k) cl.cli_event_map }

  held : HeldIn w c cl
  held = v.clients c cl at

  -- The pointers that the client has left lead to other events.
  rest-Held :
      Held (set_at w.heap p done) (contents w.msg_queue) (contents w.fin_queue) w.client_id c rest
  unfolding done rest
  rest-Held =
      let h = held in
      let (in_fins, _, _, _) = h.asked k p asked in
      record {
        known = h.known;
        slot = h.slot;
        slot_at = ground (arith, find-erase 0 (suc k) cl.cli_event_map, h.slot_at);
        slot_in = h.slot_in;
        slot_usr = ground (arith, h.slot_usr);
        slot_open = ground (arith, h.slot_open);
        asked = λ i q e.
            let e' : find (suc i) cl.cli_event_map ≡ some q =
              ground (arith, find-erase (suc i) (suc k) cl.cli_event_map) in
            let (there, usr, unanswered, low) = h.asked i q e' in
            let other : p ≢ q = λ same. ground (
              arith,
              h.apart k i q (ground arith) e',
              find-erase (suc i) (suc k) cl.cli_event_map,
            ) in
            (there, ground arith, ground arith, low);
        apart = λ i i' q e e'.
            h.apart i i' q (ground (arith, find-erase (suc i) (suc k) cl.cli_event_map))
              (ground (arith, find-erase (suc i') (suc k) cl.cli_event_map));
      }

  answered-Inv : (e : Effect) → Inv (with_client c rest (store p done (emit e w)))
  answered-Inv e =
      let (in_fins, mine, _, _) = held.asked k p asked in
      record {
        msg_valid = v.msg_valid;
        fin_valid = v.fin_valid;
        owned = v.owned;
        clients = put_all _ c rest w.client_map rest-Held (λ b cl' other there.
            Held-frame {heap = w.heap} {msgs = contents w.msg_queue} {fins = contents w.fin_queue} _
              _ _ _ (omega arith) (λ q in_msgs usr _. (in_msgs, ground arith))
              (λ q in_fins' usr _. (in_fins', ground arith)) (v.clients b cl' there));
      }

-- An answer to a packet does not end the process and keeps the invariant, whether or not its client and the
-- packet are known. The number 0 is not that of a packet.
pub server_packet-Kept :
    (w : Worker) (c k : ℕ) (reply : Text) → Inv w → Kept Inv (server_packet c (suc k) reply w)
unfolding server_packet done rest
server_packet-Kept w c k reply v = elim (Option-cases (find c w.client_map)) [
  | inl e ↦ rw (e, server_packet) v
  | inr (cl, at) ↦ elim (Option-cases (find (suc k) cl.cli_event_map)) [
    | inl e ↦ rw (at, e, server_packet) v
    | inr (p, asked) ↦
        let (in_fins, _, _, _) = (v.clients c cl at).asked k p asked in
        let used : w.live p ≡ true = ground (arith, v.owned.exact p) in
        rw (at, asked, used, server_packet)
          (answered-Inv w v c k p cl at asked (write cl.bev (length reply) reply))
  ]
]

pub server_packet-Safe :
    (w : Worker) (c k : ℕ) (reply : Text) → Inv w → Safe Inv (server_packet c (suc k) reply w)
server_packet-Safe w c k reply v =
    Kept-Safe Inv (server_packet c (suc k) reply w) (server_packet-Kept w c k reply v)
