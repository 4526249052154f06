-- ===== src/Worker/Safety/Retry.antt =====
-- The second loop of `check_time_out_cb`, include/pool.h, and the whole callback.
use proxy_for_distribution_s.Base.{
  ℕ, ◌+◌, ◌-◌, ◌%◌, ◌≤◌, ◌==◌, ltb, Bool, true, false, List, [], ◌∷◌, ◌++◌, some, length, get_elem?,
  find, among, ◌≡◌, refl, arith, subst, sym, ap, ◌∙◌, Bool-cases, Option-cases, inl, inr, ◌⊎◌,
}
use proxy_for_distribution_s.EventQueue.{advance}
use proxy_for_distribution_s.EventQueue.Fifo.{IsValid, contents, advance_lem, push_lem}
use proxy_for_distribution_s.Worker.State.{
  Client, Worker, write, ok, died, no_server, queue_full, Death,
}
use proxy_for_distribution_s.Worker.Timeouts.{resend, retry_front, fin_timeout}
use proxy_for_distribution_s.Worker.Invariant.{Inv}
use proxy_for_distribution_s.Worker.Safety.Resend.{
  answered, answered-Inv, sent_again, sent_again-Inv,
}

-- Why a turn stops the loop: the request at the front belongs to a client and was sent recently.
pub record Recent (now : ℕ) (w : Worker) (p : ℕ) : Type 0 where
  pub owner : Client
  pub owned_by : find (w.heap p).usr_uuid w.client_map ≡ some owner
  pub in_time : now - (w.heap p).arr_time ≤ fin_timeout

-- What a turn that goes on leaves: the front is gone, or was sent again and stands at the back.
pub record Turned (now : ℕ) (w : Worker) (p : ℕ) (rest : List ℕ) (w' : Worker) : Type 0 where
  pub inv : Inv w'
  pub recent : (q : ℕ) → Recent now w q → Recent now w' q
  pub queue :
      (contents w'.fin_queue ≡ rest) ⊎ ((contents w'.fin_queue ≡ rest ++ p ∷ []) × Recent now w' p)

-- The two ways in which a process with servers or a full queue ends by itself.
abbrev pub exits : Death → Bool
exits queue_full = true
exits no_server = true
exits _ = false

resend_turn :
    (now : ℕ) (w : Worker) (p : ℕ) (rest : List ℕ) (cl : Client)
    → Inv w
    → contents w.fin_queue ≡ p ∷ rest
    → find (w.heap p).usr_uuid w.client_map ≡ some cl
    → ((w' : Worker) × (resend now p (w.heap p) w ≡ ok w') × Turned now w p rest w')
      ⊎ ((e : Death) × (resend now p (w.heap p) w ≡ died e) × (exits e ≡ true))
unfolding resend sent_again
resend_turn now w p rest cl v front at = elim (Bool-cases (length w.servers == 0)) [
  | inl alone ↦ inr (no_server, ground arith, refl)
  | inr some_server ↦
      let count = w.resend_count % length w.servers in
      elim (Option-cases (get_elem? w.servers count)) [
        | inl absent ↦ inr (no_server, ground arith, refl)
        | inr (server, chosen) ↦ elim (push_lem w.fin_queue p v.fin_valid) [
          | inr (_, full) ↦ inr (queue_full, ground arith, refl)
          | inl (q, _, room, d) ↦
              let turned : contents q ≡ p ∷ rest ++ p ∷ [] =
                d.held ∙ ap (λ ps. ps ++ p ∷ []) front in
              let (p', _, next, valid, _) = advance_lem q d.valid (λ e. ground arith) in
              let left : contents (advance q) ≡ rest ++ p ∷ [] = ground arith in
              let es = w.effects ++ write server (w.heap p).head (w.heap p).c_info ∷ [] in
              inl (
                sent_again w now p (count + 1) es (advance q),
                ground arith,
                record {
                  inv = sent_again-Inv w now p (count + 1) es rest (advance q) v front left valid;
                  recent = λ r h. record {
                    owner = h.owner;
                    owned_by = ground (arith, h.owned_by);
                    in_time = ground (arith, h.in_time);
                  };
                  queue = inr (
                    left,
                    record { owner = cl; owned_by = ground arith; in_time = ground arith },
                  );
                },
              )
        ]
      ]
]

pub front_live :
    (w : Worker) (p : ℕ) (ps : List ℕ) → Inv w → contents w.fin_queue ≡ p ∷ ps → w.live p ≡ true
unfolding among
front_live w p ps v front =
    let there : among p (contents w.fin_queue) ≡ true =
      subst (λ qs. among p qs ≡ true) (sym front) (ground arith) in
    ground (arith, v.owned.exact p)

-- A turn goes on, or stops at a recent request, or ends the process.
pub retry_turn :
    (now : ℕ) (w : Worker) (p : ℕ) (rest : List ℕ)
    → Inv w
    → contents w.fin_queue ≡ p ∷ rest
    → rest ≡ contents (advance w.fin_queue)
    → IsValid (advance w.fin_queue)
    → ((w' : Worker) × (retry_front now p w ≡ ok (w', true)) × Turned now w p rest w')
      ⊎ ((retry_front now p w ≡ ok (w, false)) × Recent now w p)
      ⊎ ((e : Death) × (retry_front now p w ≡ died e) × (exits e ≡ true))
unfolding retry_front answered
retry_turn now w p rest v front next valid =
    let e = w.heap p in
    let used = front_live w p rest v front in
    let front' = front ∙ ap (λ ps. p ∷ ps) next in
    elim (Option-cases (find e.usr_uuid w.client_map)) [
      | inl gone ↦ inl (
        answered w p,
        ground arith,
        record {
          inv = answered-Inv w p v front' valid (λ c cl at own. absurd (ground arith));
          recent = λ r h. record { owner = h.owner; owned_by = h.owned_by; in_time = h.in_time };
          queue = inl (sym next);
        },
      )
      | inr (cl, at) ↦ elim (Bool-cases (ltb fin_timeout (now - e.arr_time))) [
        | inr young ↦
            inr (inl (ground arith, record { owner = cl; owned_by = at; in_time = ground arith }))
        | inl late ↦ elim (Bool-cases e.finish_flag) [
          | inl done ↦ inl (
            answered w p,
            ground arith,
            record {
              inv = answered-Inv w p v front' valid (λ c cl at own. done);
              recent =
                  λ r h. record { owner = h.owner; owned_by = h.owned_by; in_time = h.in_time };
              queue = inl (sym next);
            },
          )
          | inr open' ↦ elim (resend_turn now w p rest cl v front at) [
            | inl (w', went, t) ↦ inl (w', ground arith, t)
            | inr (died_of, went, how) ↦ inr (inr (died_of, ground arith, how))
          ]
        ]
      ]
    ]
