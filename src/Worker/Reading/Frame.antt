-- ===== src/Worker/Reading/Frame.antt =====
-- What a client's packet leaves alone in memory, include/pool.h: a block that is neither in use nor
-- one of the two that it gets.
use proxy_for_distribution_s.Base.{
  ℕ, ◌==◌, leb, ltb, true, false, not, Bool, some, Text, length, get_elem?, find, put, insert, ◌≡◌,
  ◌≢◌, refl, arith, Option-cases, Bool-cases, inl, inr,
}
use proxy_for_distribution_s.EventQueue.{push}
use proxy_for_distribution_s.Worker.State.{
  CliEvent, Worker, died, null_pointer, overflow, or_die, deref, store, claim,
}
use proxy_for_distribution_s.Worker.Clients.{with_client, push_msg, current_limit}
use proxy_for_distribution_s.Worker.Requests.{
  Codec, c_info_size, push_fin, renew_limit, keep_request, client_packet,
}
use proxy_for_distribution_s.Worker.Reading.Known.{Done, >>=-Done, after-Done, if-Done}

-- The block `q` is not in use, and holds what `e` says.
abbrev pub Idle : ℕ → CliEvent → Worker → Type 0
Idle q e w = (w.live q ≡ false) × (w.heap q ≡ e)

module _ (q : ℕ) (e : CliEvent) where
  current_limit-Idle :
      (c : ℕ) (w : Worker) → Idle q e w → Done (λ r. Idle q e r.0) (current_limit c w)
  unfolding current_limit
  current_limit-Idle c w idle =
      after-Done (λ (r : Worker × Bool). Idle q e r.0) (or_die (find c w.client_map) null_pointer) _
        λ cl. if-Done (λ (r : Worker × Bool). Idle q e r.0) (ltb cl.count 10) _ _ idle idle

  push_fin-Idle : (p : ℕ) (w : Worker) → Idle q e w → Done (Idle q e) (push_fin p w)
  push_fin-Idle p w idle = elim (Option-cases (push w.fin_queue p)) [
    | inl h ↦ rw h tt
    | inr (ring, h) ↦ rw h idle
  ]

  push_msg-Idle : (p : ℕ) (w : Worker) → Idle q e w → Done (Idle q e) (push_msg p w)
  push_msg-Idle p w idle = elim (Option-cases (push w.msg_queue p)) [
    | inl h ↦ rw h tt
    | inr (ring, h) ↦ rw h idle
  ]

  -- A block that another gets.
  claimed-Idle :
      (p : ℕ) (event : CliEvent) (w : Worker)
      → p ≢ q
      → Idle q e w
      → Idle q e (store p event (claim p w))
  claimed-Idle p event w apart idle = (ground (arith, idle), ground (arith, idle))

  -- A write to a block in use.
  stored-Idle :
      (p : ℕ) (event : CliEvent) (w : Worker)
      → w.live p ≡ true
      → Idle q e w
      → Idle q e (store p event w)
  stored-Idle p event w used idle =
      let apart : p ≢ q = ground (arith, idle) in (idle.0, ground (arith, idle))

  deref-Done : (p : ℕ) (w : Worker) → Done (λ event. w.live p ≡ true) (deref w p)
  deref-Done p w = elim (Bool-cases (w.live p)) [ inl h ↦ rw h refl | inr h ↦ rw h tt ]

  keep_request-Idle :
      (c k head : ℕ) (body : Text) (p now : ℕ) (w : Worker)
      → p ≢ q
      → Idle q e w
      → Done (Idle q e) (keep_request c k head body (some p) now w)
  unfolding keep_request
  keep_request-Idle c k head body p now w apart idle =
      after-Done (Idle q e) (or_die (find c w.client_map) null_pointer) _ λ cl.
        let event = record (w.heap p) {
          head = head;
          usr_uuid = c;
          c_info = body;
          arr_time = now;
        } in
        let asked = record cl { cli_event_map = insert k p cl.cli_event_map } in
        let w' = with_client c asked (store p event (claim p w)) in
        if-Done (Idle q e) (leb c_info_size (length body)) (died overflow) (push_fin p w') tt
          (push_fin-Idle p w' (claimed-Idle p event w apart idle))

  renew_limit-Idle :
      (c p now : ℕ) (w : Worker)
      → p ≢ q
      → Idle q e w
      → Done (Idle q e) (renew_limit c (some p) now w)
  unfolding renew_limit
  renew_limit-Idle c p now w apart idle =
      after-Done (Idle q e) (or_die (find c w.client_map) null_pointer) _ λ cl.
        after-Done (Idle q e) (or_die (find 0 cl.cli_event_map) null_pointer) _ λ p0.
          >>=-Done (λ event. w.live p0 ≡ true) (Idle q e) (deref w p0) _ (deref-Done p0 w)
            λ old used.
              let w1 = store p0 (record old { msg_flag = true }) w in
              let idle1 = stored-Idle p0 (record old { msg_flag = true }) w used idle in
              let event = record (w1.heap p) { arr_time = now; usr_uuid = c; bev = old.bev } in
              let renewed = record cl { cli_event_map = put 0 p cl.cli_event_map } in
              push_msg-Idle p (with_client c renewed (store p event (claim p w1)))
                (claimed-Idle p event w1 apart idle1)

  -- A packet leaves such a block alone.
  pub client_packet-Idle :
      (codec : Codec) (c : ℕ) (msg : Text) (p1 p2 now : ℕ) (w : Worker)
      → p1 ≢ q
      → p2 ≢ q
      → Idle q e w
      → Done (λ r. Idle q e r.0) (client_packet codec c msg (some p1) (some p2) now w)
  unfolding client_packet
  client_packet-Idle codec c msg p1 p2 now w apart1 apart2 idle =
      let P = λ (r : Worker × Bool). Idle q e r.0 in
      if-Done P (not (codec.parses msg)) _ _ idle (
        if-Done P (length w.servers == 0) _ _ tt (
          >>=-Done P P (current_limit c _) _ (current_limit-Idle c _ idle) (λ (w1, allowed) idle1.
            if-Done P (not allowed) _ _ idle1 (
              after-Done P (or_die (find c w1.client_map) null_pointer) _ λ cl.
                after-Done P (or_die (codec.forward c _ msg) _) _ λ body.
                  after-Done P (or_die (get_elem? w1.servers _) _) _ λ server.
                    >>=-Done (Idle q e) P (renew_limit c (some p1) now _) _
                      (renew_limit-Idle c p1 now _ apart1 idle1)
                      (λ w4 idle4.
                        >>=-Done (Idle q e) P (keep_request c _ _ _ (some p2) now w4) _
                          (keep_request-Idle c _ _ _ p2 now w4 apart2 idle4)
                          (λ w5 idle5. idle5))))))
