-- ===== src/Worker/Safety/Accept.antt =====
-- New clients and clients that leave, include/pool.h, keep the invariant on events.
use proxy_for_distribution_s.Base.{
  ℕ, ◌+◌, ◌<◌, ◌==◌, ◌%◌, ◌^◌, Bool, true, false, List, [], ◌∷◌, none, some, Text, find, insert,
  find-insert, among, among-append, ◌≡◌, refl, arith, subst, Bool-cases, Option-cases, inl, inr,
}
use proxy_for_distribution_s.EventQueue.{Ring}
use proxy_for_distribution_s.EventQueue.Fifo.{contents, push_lem, Pushed}
use proxy_for_distribution_s.Worker.State.{
  CliEvent, Client, Worker, set_at, store, claim, emit, accept_done, close_socket,
}
use proxy_for_distribution_s.Worker.Clients.{accept_client, new_client}
use proxy_for_distribution_s.Worker.Safety.Limits.{emit-Inv}
use proxy_for_distribution_s.Worker.Invariant.{Held, Inv, Safe, Held-frame, free_lem, claim_msg}

new_client-Held :
    (heap : ℕ → CliEvent) (msgs fins : List ℕ) (next c bev : ℕ) (ip : Text) (p : ℕ)
    → c < next
    → among p msgs ≡ true
    → (heap p).usr_uuid ≡ c
    → (heap p).msg_flag ≡ false
    → Held heap msgs fins next c (new_client bev ip p)
unfolding find
new_client-Held heap msgs fins next c bev ip p low here usr open' = record {
  known = low;
  slot = p;
  slot_at = refl;
  slot_in = here;
  slot_usr = usr;
  slot_open = open';
  asked = λ k q e. ground arith;
  apart = λ i k q e e'. ground arith;
}

module _ (w : Worker) (p bev now : ℕ) (ip : Text) (v : Inv w) where
  accepted_event : CliEvent
  accepted_event = record (w.heap p) { arr_time = now; bev = bev; usr_uuid = w.client_id }

  accepted : Ring → Worker
  unfolding accepted_event
  accepted q = record (store p accepted_event (claim p w)) {
    msg_queue = q;
    client_map = insert w.client_id (new_client bev ip p) w.client_map;
    client_id = (w.client_id + 1) % 2 ^ 32;
  }

  unknown : find w.client_id w.client_map ≡ none
  unknown = elim (Option-cases (find w.client_id w.client_map)) [
    | inl e ↦ e
    | inr (cl, e) ↦ absurd (omega (arith, (v.clients w.client_id cl e).known))
  ]

  accepted-Held :
      (q : Ring) (c : ℕ) (cl : Client)
      → Pushed w.msg_queue p q
      → w.live p ≡ false
      → (w.heap p).msg_flag ≡ false
      → w.client_id + 1 < 2 ^ 32
      → find c (insert w.client_id (new_client bev ip p) w.client_map) ≡ some cl
      → Held
          (set_at w.heap p accepted_event)
          (contents q)
          (contents w.fin_queue)
          ((w.client_id + 1) % 2 ^ 32)
          c
          cl
  unfolding accepted_event among
  accepted-Held q c cl d free clean small e =
      let (no_msg, no_fin) = free_lem v.owned p free in
      let here = find-insert c w.client_id (new_client bev ip p) w.client_map unknown in
      elim (Bool-cases (w.client_id == c)) [
        | inl own ↦
            let its : new_client bev ip p ≡ cl = ground arith in
            subst (Held _ _ _ _ c) its (
              new_client-Held _ _ _ _ c bev ip p (ground arith)
                (rw d.held (ground (arith, among-append p (contents w.msg_queue) (p ∷ []))))
                (ground arith) (ground arith))
        | inr other ↦
            Held-frame {heap = w.heap} {msgs = contents w.msg_queue} {fins = contents w.fin_queue} _
              _ _ _ (omega arith)
              (λ r in_msgs _ _. (
                rw d.held (ground (arith, among-append r (contents w.msg_queue) (p ∷ []))),
                ground arith,
              ))
              (λ r in_fins _ _. (in_fins, ground arith)) (v.clients c cl (ground arith))
      ]

  accepted-Inv :
      (q : Ring)
      → Pushed w.msg_queue p q
      → w.live p ≡ false
      → (w.heap p).msg_flag ≡ false
      → w.client_id + 1 < 2 ^ 32
      → Inv (accepted q)
  unfolding accepted
  accepted-Inv q d free clean small = record {
    msg_valid = d.valid;
    fin_valid = v.fin_valid;
    owned = rw d.held (claim_msg v.owned p free);
    clients = λ c cl e. accepted-Held q c cl d free clean small e;
  }

-- A new client whose event lies in a fresh block with its `msg_flag` cleared keeps the invariant,
-- or the process exits because the queue is full.
pub accept_client-Safe :
    (w : Worker) (p bev now : ℕ) (ip : Text)
    → Inv w
    → (is_accepted banned : Bool) → w.live p ≡ false
    → (w.heap p).msg_flag ≡ false
    → w.client_id + 1 < 2 ^ 32
    → Safe Inv (accept_client is_accepted banned (some p) bev ip now w)
unfolding accept_client accepted accepted_event
accept_client-Safe w p bev now ip v false banned free clean small = emit-Inv w accept_done v
accept_client-Safe w p bev now ip v true true free clean small =
    let w0 = emit accept_done w in emit-Inv w0 (close_socket bev) (emit-Inv w accept_done v)
accept_client-Safe w p bev now ip v true false free clean small =
    let w0 = emit accept_done w in
    elim (push_lem w.msg_queue p v.msg_valid) [
      | inl (q, _, e, d) ↦
          rw (e, Safe)
            (accepted-Inv w0 p bev now ip (emit-Inv w accept_done v) q d free clean small)
      | inr (_, e) ↦ rw (e, Safe) tt
    ]
