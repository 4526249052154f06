-- ===== src/Worker/Safety/Resend.antt =====
-- The turns of the second loop of `check_time_out_cb`, include/pool.h, keep the invariant on events.
use proxy_for_distribution_s.Base.{
  ℕ, true, false, List, [], ◌∷◌, ◌++◌, some, find, among, among-append, ◌≡◌, ◌≢◌, refl, arith,
  subst, ◌∙◌,
}
use proxy_for_distribution_s.EventQueue.{Ring, advance}
use proxy_for_distribution_s.EventQueue.Fifo.{IsValid, contents}
use proxy_for_distribution_s.Worker.State.{CliEvent, Client, Worker, Effect, set_at}
use proxy_for_distribution_s.Worker.Invariant.{Held, Owned, Inv, Held-frame, free_fin, requeue_fin}

-- The worker once the event at the front of the requests was freed.
unfoldable pub answered : Worker → ℕ → Worker
answered w p = record w { live = set_at w.live p false; fin_queue = advance w.fin_queue }

-- The front of the requests can be freed, if its client is no longer in the map or it was answered.
pub answered-Inv :
    (w : Worker) (p : ℕ)
    → Inv w
    → contents w.fin_queue ≡ p ∷ contents (advance w.fin_queue)
    → IsValid (advance w.fin_queue)
    → ((c : ℕ) (cl : Client)
        → find c w.client_map ≡ some cl
        → ((w.heap p).usr_uuid ≡ c)
        → (w.heap p).finish_flag ≡ true)
    → Inv (answered w p)
unfolding answered among
answered-Inv w p v front valid others = record {
  msg_valid = v.msg_valid;
  fin_valid = valid;
  owned = free_fin p (subst (Owned w.live (contents w.msg_queue)) front v.owned);
  clients = λ c cl at.
      Held-frame {heap = w.heap} {msgs = contents w.msg_queue} {fins = contents w.fin_queue} _ _ _ _
        (omega arith) (λ q in_msgs _ _. (in_msgs, refl))
        (λ q in_fins usr unanswered.
          let split : among q (p ∷ contents (advance w.fin_queue)) ≡ true =
            subst (λ ps. among q ps ≡ true) front in_fins in
          let apart : q ≢ p = λ same. ground (arith, others c cl at) in (ground arith, refl))
        (v.clients c cl at);
}

-- A client keeps its pointers where owners and flags stay as they were and no request leaves.
Held-resent :
    {heap : ℕ → CliEvent} {msgs fins : List ℕ} {next c : ℕ} {cl : Client} (heap' : ℕ → CliEvent)
    (fins' : List ℕ)
    → ((q : ℕ)
        → ((heap' q).usr_uuid ≡ (heap q).usr_uuid)
          × ((heap' q).msg_flag ≡ (heap q).msg_flag)
          × ((heap' q).finish_flag ≡ (heap q).finish_flag))
    → ((q : ℕ) → among q fins ≡ true → among q fins' ≡ true)
    → Held heap msgs fins next c cl
    → Held heap' msgs fins' next c cl
Held-resent heap' fins' same stays h =
    let (usr, msg, _) = same h.slot in
    record {
      known = h.known;
      slot = h.slot;
      slot_at = h.slot_at;
      slot_in = h.slot_in;
      slot_usr = usr ∙ h.slot_usr;
      slot_open = msg ∙ h.slot_open;
      asked = λ k p e.
          let (there, own, unanswered, low) = h.asked k p e in
          let (usr', _, fin) = same p in (stays p there, usr' ∙ own, fin ∙ unanswered, low);
      apart = h.apart;
    }

-- The worker once the request at the front was sent again, with `q` as its new queue.
unfoldable pub sent_again : Worker → ℕ → ℕ → ℕ → List Effect → Ring → Worker
sent_again w now p n es q = record w {
  heap = set_at w.heap p (record (w.heap p) { arr_time = now });
  resend_count = n;
  effects = es;
  fin_queue = q;
}

pub sent_again-Inv :
    (w : Worker) (now p n : ℕ) (es : List Effect) (rest : List ℕ) (q : Ring)
    → Inv w
    → contents w.fin_queue ≡ p ∷ rest
    → contents q ≡ rest ++ p ∷ []
    → IsValid q
    → Inv (sent_again w now p n es q)
unfolding sent_again among
sent_again-Inv w now p n es rest q v front turned valid =
    let owned' = subst (Owned w.live (contents w.msg_queue)) front v.owned in
    record {
      msg_valid = v.msg_valid;
      fin_valid = valid;
      owned = rw turned (requeue_fin p owned');
      clients = λ c cl at.
          Held-resent {heap = w.heap} {msgs = contents w.msg_queue} {fins = contents w.fin_queue} _
            _ (λ r. ground arith)
            (λ r in_fins.
              let split : among r (p ∷ rest) ≡ true =
                subst (λ ps. among r ps ≡ true) front in_fins in
              rw turned (ground (arith, among-append r rest (p ∷ []))))
            (v.clients c cl at);
    }
