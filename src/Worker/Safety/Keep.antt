-- ===== src/Worker/Safety/Keep.antt =====
-- Keeping a request until it is answered, include/pool.h, keeps the invariant on events.
use proxy_for_distribution_s.Base.{
  ℕ, suc, ◌≤◌, ◌==◌, leb, false, [], ◌∷◌, none, some, Text, length, find, insert, find-insert,
  among, among-append, ◌≡◌, arith, Bool-cases, inl, inr,
}
use proxy_for_distribution_s.EventQueue.{Ring}
use proxy_for_distribution_s.EventQueue.Fifo.{contents, push_lem, Pushed}
use proxy_for_distribution_s.Worker.State.{CliEvent, Client, Worker, set_at}
use proxy_for_distribution_s.Worker.Requests.{keep_request, c_info_size}
use proxy_for_distribution_s.Worker.Invariant.{
  Held, Inv, Safe, Held-frame, put_all, free_lem, claim_fin,
}

module _ (w : Worker) (v : Inv w) (c k p now head : ℕ) (body : Text) (cl : Client)
    (at : find c w.client_map ≡ some cl) (free : w.live p ≡ false)
    (clean : (w.heap p).finish_flag ≡ false) (new : find (suc k) cl.cli_event_map ≡ none)
    (counted : suc k ≤ cl.pack_id) where
  request : CliEvent
  request = record (w.heap p) { head = head; usr_uuid = c; c_info = body; arr_time = now }

  asked : Client
  asked = record cl { cli_event_map = insert (suc k) p cl.cli_event_map }

  asked-Held :
      (q : Ring)
      → Pushed w.fin_queue p q
      → Held (set_at w.heap p request) (contents w.msg_queue) (contents q) w.client_id c asked
  unfolding request asked among
  asked-Held q d =
      let h = v.clients c cl at in
      let (no_msg, no_fin) = free_lem v.owned p free in
      record {
        known = h.known;
        slot = h.slot;
        slot_at = ground (arith, find-insert 0 (suc k) p cl.cli_event_map new, h.slot_at);
        slot_in = h.slot_in;
        slot_usr = ground (arith, h.slot_usr, h.slot_in);
        slot_open = ground (arith, h.slot_open, h.slot_in);
        asked = λ i r e.
            let at_i = find-insert (suc i) (suc k) p cl.cli_event_map new in
            elim (Bool-cases (k == i)) [
              | inl own ↦
                  let its : p ≡ r = ground arith in
                  (
                    rw d.held (ground (arith, among-append r (contents w.fin_queue) (p ∷ []))),
                    ground arith,
                    ground arith,
                    ground arith,
                  )
              | inr other ↦
                  let (there, usr, unanswered, low) = h.asked i r (ground arith) in
                  (
                    rw d.held (ground (arith, among-append r (contents w.fin_queue) (p ∷ []))),
                    ground arith,
                    ground arith,
                    low,
                  )
            ];
        apart = λ i j r e e'.
            let at_i = find-insert (suc i) (suc k) p cl.cli_event_map new in
            let at_j = find-insert (suc j) (suc k) p cl.cli_event_map new in
            elim (Bool-cases (k == i)) [
              | inl own ↦ elim (Bool-cases (k == j)) [
                | inl own' ↦ ground arith
                | inr other' ↦
                    let (there, _, _, _) = h.asked j r (ground arith) in absurd (ground arith)
              ]
              | inr other ↦ elim (Bool-cases (k == j)) [
                | inl own' ↦
                    let (there, _, _, _) = h.asked i r (ground arith) in absurd (ground arith)
                | inr other' ↦ h.apart i j r (ground arith) (ground arith)
              ]
            ];
      }

  -- A packet kept in a fresh block with its `finish_flag` cleared, under a number the client has
  -- not used, keeps the invariant, unless the queue is full or the packet is too long.
  pub keep_request-Safe : Safe Inv (keep_request c (suc k) head body (some p) now w)
  unfolding keep_request request asked
  keep_request-Safe = elim (Bool-cases (leb c_info_size (length body))) [
    | inl long ↦ rw (at, long, Safe) tt
    | inr fits ↦
        rw (at, fits, Safe)
          (elim (push_lem w.fin_queue p v.fin_valid) [
            | inl (q, _, e, d) ↦
                rw (e, Safe)
                  (record {
                    msg_valid = v.msg_valid;
                    fin_valid = d.valid;
                    owned = rw d.held (claim_fin v.owned p free);
                    clients = put_all _ c asked w.client_map (asked-Held q d) (λ b cl' other there.
                        Held-frame {heap = w.heap} {msgs = contents w.msg_queue}
                          {fins = contents w.fin_queue} _ _ _ _ (omega arith)
                          (λ r in_msgs _ _. (in_msgs, ground (arith, free_lem v.owned p free)))
                          (λ r in_fins _ _. (
                            rw d.held
                                (ground (arith, among-append r (contents w.fin_queue) (p ∷ []))),
                            ground (arith, free_lem v.owned p free),
                          ))
                          (v.clients b cl' there));
                  })
            | inr (_, e) ↦ rw (e, Safe) tt
          ])
  ]
