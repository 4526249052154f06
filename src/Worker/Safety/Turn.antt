-- ===== src/Worker/Safety/Turn.antt =====
-- One turn of the loop of `client_socket_read_cb`, include/pool.h, keeps the invariant on events.
use proxy_for_distribution_s.Base.{
  ℕ, suc, ◌+◌, ◌≤◌, ◌==◌, ◌%◌, true, false, none, some, Text, length, get_elem?, find, put,
  find-put, ◌≡◌, ◌≢◌, refl, arith, Bool-cases, Option-cases, inl, inr,
}
use proxy_for_distribution_s.Worker.State.{
  Client, Worker, Effect, Result, ok, died, queue_full, no_server, overflow, stale_iterator,
  uncaught, null_pointer, dangling, double_free, emit, ◌>>=◌,
}
use proxy_for_distribution_s.Worker.Clients.{with_client}
use proxy_for_distribution_s.Worker.Requests.{Codec, renew_limit, keep_request, client_packet}
use proxy_for_distribution_s.Worker.Invariant.{HeldIn, Inv, Safe}
use proxy_for_distribution_s.Worker.Safety.Limits.{
  with_client-Inv, emit-Inv, current_limit_cases, current_limit-Inv, same_pointers,
}
use proxy_for_distribution_s.Worker.Safety.Packet.{
  after-Inv, renew_limit_cases, after_free, after_client,
}
use proxy_for_distribution_s.Worker.Safety.Keep.{keep_request-Safe}

-- The counter of the servers is not part of the invariant.
pub forward_count-Inv : (w : Worker) (n : ℕ) → Inv w → Inv (record w { forward_count = n })
forward_count-Inv w n v = record {
  msg_valid = v.msg_valid;
  fin_valid = v.fin_valid;
  owned = v.owned;
  clients = v.clients;
}

-- The safety of what comes first goes on through the chain.
pub >>=-Safe :
    {A B : Type 0} (P : A → Type 0) (Q : B → Type 0) (r : Result A) (f : A → Result B)
    → Safe P r
    → ((a : A) → P a → Safe Q (f a))
    → Safe Q (r >>= f)
>>=-Safe P Q (ok a) f s h = h a s
>>=-Safe P Q (died queue_full) f s h = tt
>>=-Safe P Q (died no_server) f s h = tt
>>=-Safe P Q (died overflow) f s h = tt
>>=-Safe P Q (died stale_iterator) f s h = tt
>>=-Safe P Q (died uncaught) f s h = tt
>>=-Safe P Q (died null_pointer) f s h = s
>>=-Safe P Q (died dangling) f s h = s
>>=-Safe P Q (died double_free) f s h = s

-- A turn after the limit: the new event of the time limit, then the request.
renew_keep-Safe :
    (w : Worker) (c k n p1 p2 now head : ℕ) (body : Text) (cl : Client)
    → n ≡ suc k
    → Inv w
    → find c w.client_map ≡ some cl
    → w.live p1 ≡ false
    → w.live p2 ≡ false
    → p1 ≢ p2
    → (w.heap p1).msg_flag ≡ false
    → (w.heap p2).finish_flag ≡ false
    → find (suc k) cl.cli_event_map ≡ none
    → suc k ≤ cl.pack_id
    → Safe
        (λ (w', more). Inv w')
        (do
          w4 ← renew_limit c (some p1) now w
          w5 ← keep_request c n head body (some p2) now w4
          ok (w5, true))
renew_keep-Safe w c k n p1 p2 now head body cl is v at free1 free2 apart clean1 clean2 new low =
    elim (renew_limit_cases w v c p1 now cl at free1 clean1) [
      | inl (_, full) ↦ rw (full, Safe) tt
      | inr (q, e, d) ↦
          let v' = after-Inv w v c p1 now cl at free1 clean1 q d in
          let (cl', at', _, packs, same) = after_client w v c p1 now cl at free1 clean1 q in
          let (free', kept) = after_free w v c p1 now cl at free1 clean1 q p2 free2 apart in
          rw (e, is)
            (>>=-Safe Inv (λ (w', more). Inv w') _ _
              (keep_request-Safe _ v' c k p2 now head body cl' at' free' (rw kept clean2)
                (ground (arith, same k)) (omega arith))
              (λ w5 v5. v5))
    ]

-- The number after a client's last packet is not in its map.
pub unused_number :
    (w : Worker) (c : ℕ) (cl : Client)
    → HeldIn w c cl
    → find (suc cl.pack_id) cl.cli_event_map ≡ none
unused_number w c cl h = elim (Option-cases (find (suc cl.pack_id) cl.cli_event_map)) [
  | inl e ↦ e
  | inr (p, e) ↦ let (_, _, _, low) = h.asked cl.pack_id p e in absurd (omega arith)
]

-- A turn after the limit, with the write to the server.
forward-Safe :
    (w : Worker) (c p1 p2 now count : ℕ) (e : Effect) (body : Text) (cl : Client)
    → Inv w
    → find c w.client_map ≡ some cl
    → w.live p1 ≡ false
    → w.live p2 ≡ false
    → p1 ≢ p2
    → (w.heap p1).msg_flag ≡ false
    → (w.heap p2).finish_flag ≡ false
    → Safe
        (λ (w', more). Inv w')
        (do
          let numbered = record cl { pack_id = cl.pack_id + 1 }
          let w3 = record (emit e (with_client c numbered w)) { forward_count = count }
          w4 ← renew_limit c (some p1) now w3
          w5 ← keep_request c (cl.pack_id + 1) (length body) body (some p2) now w4
          ok (w5, true))
forward-Safe w c p1 p2 now count e body cl v at free1 free2 apart clean1 clean2 =
    let numbered : Client = record cl { pack_id = cl.pack_id + 1 } in
    let h = v.clients c cl at in
    let v2 = with_client-Inv w c numbered v (same_pointers w numbered refl (omega arith) h) in
    let w2 = with_client c numbered w in
    renew_keep-Safe (record (emit e w2) { forward_count = count }) c cl.pack_id (cl.pack_id + 1) p1
      p2 now (length body) body numbered (omega arith)
      (forward_count-Inv (emit e w2) count (emit-Inv w2 e v2))
      (ground (arith, find-put c c numbered w.client_map)) free1 free2 apart clean1 clean2
      (unused_number w c cl h) (omega arith)

-- A request from a client that the worker knows, with two fresh blocks in which the flags are
-- cleared and servers to forward to, keeps the invariant, or ends the process because a queue is full or the
-- packet is too long.
pub client_packet-Safe :
    (codec : Codec) (w : Worker) (c p1 p2 now : ℕ) (msg : Text) (cl : Client)
    → Inv w
    → find c w.client_map ≡ some cl
    → w.live p1 ≡ false
    → w.live p2 ≡ false
    → p1 ≢ p2
    → (w.heap p1).msg_flag ≡ false
    → (w.heap p2).finish_flag ≡ false
    → Safe (λ (w', more). Inv w') (client_packet codec c msg (some p1) (some p2) now w)
unfolding client_packet
client_packet-Safe codec w c p1 p2 now msg cl v at free1 free2 apart clean1 clean2 =
    elim (Bool-cases (codec.parses msg)) [
      | inr bad ↦ rw (bad, Safe) v
      | inl good ↦ elim (Bool-cases (length w.servers == 0)) [
        | inl alone ↦ rw (good, alone, Safe) tt
        | inr some_server ↦
            let count = w.forward_count % length w.servers in
            let w0 : Worker = record w { forward_count = count } in
            let v0 = forward_count-Inv w count v in
            let (cl', w1, passed, e, same, packs, how) = current_limit_cases w0 c cl at in
            elim (Bool-cases passed) [
              | inr refused ↦
                  rw (good, some_server, e, refused, Safe)
                    (current_limit-Inv w0 w1 c cl cl' v0 at same packs
                      (elim how [ inl now ↦ inl now | inr (_, now) ↦ inr now ]))
              | inl through ↦ elim how [
                | inr (shut, _) ↦ absurd (ground arith)
                | inl now1 ↦
                    let counted : w1 ≡ with_client c cl' w0 = now1 in
                    let w1' : Worker = with_client c cl' w0 in
                    let there : find c (put c cl' w.client_map) ≡ some cl' =
                      ground (arith, find-put c c cl' w.client_map) in
                    elim (Option-cases (codec.forward c (cl'.pack_id + 1) msg)) [
                      | inl thrown ↦
                          rw (good, some_server, e, through, counted, there, thrown, Safe) tt
                      | inr (body, added) ↦ elim (Option-cases (get_elem? w.servers count)) [
                        | inl none_there ↦
                            rw
                              (
                                good, some_server, e, through, counted, there, added, none_there,
                                Safe,
                              )
                              tt
                        | inr (server, chosen) ↦
                            rw (good, some_server, e, through, counted, there, added, chosen)
                              (forward-Safe w1' c p1 p2 now (count + 1) _ _ cl'
                                (current_limit-Inv w0 w1' c cl cl' v0 at same packs (inl refl))
                                there free1 free2 apart clean1 clean2)
                      ]
                    ]
              ]
            ]
      ]
    ]
