-- ===== src/Worker/Safety/Packet.antt =====
-- A packet from a client, include/pool.h: `client_socket_read_cb` keeps the invariant on events.
use proxy_for_distribution_s.Base.{
  ℕ, suc, ◌+◌, true, false, [], ◌∷◌, some, length, find, put, find-put, among, among-append, ◌≡◌,
  ◌≢◌, refl, arith, inl, inr, ◌⊎◌,
}
use proxy_for_distribution_s.EventQueue.{Ring}
use proxy_for_distribution_s.EventQueue.Fifo.{contents, push_lem, Pushed}
use proxy_for_distribution_s.Worker.State.{CliEvent, Client, Worker, set_at, ok, died, queue_full}
use proxy_for_distribution_s.Worker.Requests.{renew_limit}
use proxy_for_distribution_s.Worker.Invariant.{
  Held, HeldIn, Inv, Held-frame, put_all, free_lem, claim_msg,
}

module _ (w : Worker) (v : Inv w) (c p now : ℕ) (cl : Client) (at : find c w.client_map ≡ some cl)
    (free : w.live p ≡ false) (clean : (w.heap p).msg_flag ≡ false) where
  held : HeldIn w c cl
  held = v.clients c cl at

  -- The event that the new one replaces.
  old : ℕ
  unfolding held
  old = held.slot

  used : CliEvent
  unfolding old
  used = record (w.heap old) { msg_flag = true }

  marked : ℕ → CliEvent
  unfolding used
  marked = set_at w.heap old used

  fresh : CliEvent
  unfolding marked
  fresh = record (marked p) { arr_time = now; usr_uuid = c; bev = (w.heap old).bev }

  renewed : Client
  renewed = record cl { cli_event_map = put 0 p cl.cli_event_map }

  pub after : Ring → Worker
  unfolding fresh renewed marked
  after q = record w {
    heap = set_at marked p fresh;
    live = set_at w.live p true;
    msg_queue = q;
    client_map = put c renewed w.client_map;
  }

  old_lem : (old ≢ p) × (w.live old ≡ true) × (among old (contents w.fin_queue) ≡ false)
  unfolding old held
  old_lem = let h = held in ground (arith, v.owned.exact h.slot, v.owned.disjoint h.slot, h.slot_in)

  renewed-Held :
      (q : Ring)
      → Pushed w.msg_queue p q
      → Held (set_at marked p fresh) (contents q) (contents w.fin_queue) w.client_id c renewed
  unfolding marked fresh used renewed among
  renewed-Held q d =
      let h = held in
      let (no_msg, no_fin) = free_lem v.owned p free in
      let (other, _, no_req) = old_lem in
      record {
        known = h.known;
        slot = p;
        slot_at = ground (arith, find-put 0 0 p cl.cli_event_map);
        slot_in = rw d.held (ground (arith, among-append p (contents w.msg_queue) (p ∷ [])));
        slot_usr = ground arith;
        slot_open = ground arith;
        asked = λ i r e.
            let (there, usr, unanswered, low) =
              h.asked i r (ground (arith, find-put (suc i) 0 p cl.cli_event_map)) in
            let apart : p ≢ r = ground arith in
            let apart' : old ≢ r = ground arith in (there, ground arith, ground arith, low);
        apart = λ i k r e e'.
            h.apart i k r (ground (arith, find-put (suc i) 0 p cl.cli_event_map))
              (ground (arith, find-put (suc k) 0 p cl.cli_event_map));
      }

  pub after-Inv : (q : Ring) → Pushed w.msg_queue p q → Inv (after q)
  unfolding after marked fresh used old held renewed among
  after-Inv q d =
      let (no_msg, no_fin) = free_lem v.owned p free in
      let (other, _, no_req) = old_lem in
      let h = held in
      record {
        msg_valid = d.valid;
        fin_valid = v.fin_valid;
        owned = rw d.held (claim_msg v.owned p free);
        clients = put_all _ c renewed w.client_map (renewed-Held q d) (λ b cl' apart there.
            Held-frame {heap = w.heap} {msgs = contents w.msg_queue} {fins = contents w.fin_queue} _
              _ _ _ (omega arith)
              (λ r in_msgs usr _. (
                rw d.held (ground (arith, among-append r (contents w.msg_queue) (p ∷ []))),
                ground (arith, h.slot_usr),
              ))
              (λ r in_fins usr _. (in_fins, ground arith)) (v.clients b cl' there));
      }

  -- The old event is marked, and the new one is queued in its place, or the queue is full.
  pub renew_limit_cases :
      ((length (contents w.msg_queue) + 1 ≡ length w.msg_queue.slots)
        × (renew_limit c (some p) now w ≡ died queue_full))
      ⊎ ((q : Ring) × (renew_limit c (some p) now w ≡ ok (after q)) × Pushed w.msg_queue p q)
  unfolding renew_limit after marked fresh used old held renewed
  renew_limit_cases =
      let h = held in
      let (_, taken, _) = old_lem in
      elim (push_lem w.msg_queue p v.msg_valid) [
        | inl (q, _, e, d) ↦ inr (q, rw (at, h.slot_at, taken, e) refl, d)
        | inr (full, e) ↦ inl (full, rw (at, h.slot_at, taken, e) refl)
      ]

  -- Another block that was free stays as it was.
  pub after_free :
      (q : Ring) (r : ℕ)
      → w.live r ≡ false
      → p ≢ r
      → ((after q).live r ≡ false) × ((after q).heap r ≡ w.heap r)
  unfolding after marked fresh
  after_free q r unused other = let (_, taken, _) = old_lem in ground arith

  -- The client still has its packets.
  pub after_client :
      (q : Ring)
      → (cl' : Client) × (find c (after q).client_map ≡ some cl')
        × (cl'.bev ≡ cl.bev)
        × (cl'.pack_id ≡ cl.pack_id)
        × ((k : ℕ) → find (suc k) cl'.cli_event_map ≡ find (suc k) cl.cli_event_map)
  unfolding after renewed
  after_client q = (
    renewed,
    ground (arith, find-put c c renewed w.client_map),
    refl,
    refl,
    λ k. ground (arith, find-put (suc k) 0 p cl.cli_event_map),
  )

  -- What the new event leaves alone.
  pub after_rest :
      (q : Ring) → ((after q).fin_queue ≡ w.fin_queue) × ((after q).effects ≡ w.effects)
  unfolding after
  after_rest q = (refl, refl)
